-- ===== src/Kernel/State.antt =====
-- kernel.c and task/tss.h: the state of all parts, and what the start is given.
use nuts_os.Base.{ℕ, Bool, List}
use nuts_os.Terminal.{Terminal}
use nuts_os.Gdt.{GdtRaw}
use nuts_os.File.{FileOps}
use nuts_os.Disk.Search.{Disk}
use nuts_os.Idt.{Gates, IdtrDesc, Handlers}
use nuts_os.Paging.{PagingChunk}
use nuts_os.Task.{InterruptFrame}
use nuts_os.Isr80h.{Isr80hCommands}
use nuts_os.Process.{Kernel}

pub record Tss : Type 0 where
  pub link : ℕ
  pub esp0 : ℕ
  pub ss0 : ℕ
  pub esp1 : ℕ
  pub ss1 : ℕ
  pub esp2 : ℕ
  pub ss2 : ℕ
  pub cr3 : ℕ
  pub eip : ℕ
  pub eflags : ℕ
  pub eax : ℕ
  pub ecx : ℕ
  pub edx : ℕ
  pub ebx : ℕ
  pub esp : ℕ
  pub ebp : ℕ
  pub esi : ℕ
  pub edi : ℕ
  pub es : ℕ
  pub cs : ℕ
  pub ss : ℕ
  pub ds : ℕ
  pub fs : ℕ
  pub gs : ℕ
  pub ldtr : ℕ
  pub iopb : ℕ

-- What the memset leaves.
abbrev pub zero_tss : Tss
zero_tss = record {
  link = 0;
  esp0 = 0;
  ss0 = 0;
  esp1 = 0;
  ss1 = 0;
  esp2 = 0;
  ss2 = 0;
  cr3 = 0;
  eip = 0;
  eflags = 0;
  eax = 0;
  ecx = 0;
  edx = 0;
  ebx = 0;
  esp = 0;
  ebp = 0;
  esi = 0;
  edi = 0;
  es = 0;
  cs = 0;
  ss = 0;
  ds = 0;
  fs = 0;
  gs = 0;
  ldtr = 0;
  iopb = 0;
}

-- What the assembly and the linker give: the handlers and the addresses of the segment, the
-- interrupt table, the FAT16 file system, the first program's name, the mode that it is opened
-- with and a local structure; and the operations of the files.
pub record Image : Type 0 where
  pub handlers : Handlers
  pub tss_address : ℕ
  pub idt_address : ℕ
  pub fat16_fs : ℕ
  pub first_program : ℕ
  pub mode_str : ℕ
  pub stat : ℕ
  pub ops : FileOps

-- The processor's registers among them: its page directory, and whether it is used.
pub record Machine : Type 0 where
  pub terminal : Terminal
  pub gdt_raw : List GdtRaw
  pub kernel : Kernel
  pub disk : Disk
  pub idt : Gates
  pub idtr : IdtrDesc
  pub tss : Tss
  pub kernel_chunk : PagingChunk
  pub directory : ℕ
  pub paging : Bool
  pub commands : Isr80hCommands InterruptFrame (Kernel × Terminal)
