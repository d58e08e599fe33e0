-- ===== src/Kernel/Syscall/Tests.antt =====
-- The theorems on the print command at a process that prints a text of its program.
use nuts_os.Base.{
  ℕ, ◌+◌, ◌-◌, ◌*◌, ◌/◌, ◌%◌, ◌^◌, ◌<◌, ◌≤◌, ◌≡◌, ◌&&◌, ltb, leb, if◌then◌else◌, ◌==◌, some, arith,
  refl, bit_or, ap, ◌∙◌, inl,
}
use nuts_os.Base.Int.{pos}
use nuts_os.Memory.{literal}
use nuts_os.Terminal.{Terminal}
use nuts_os.Terminal.Messages.{codes, written}
use nuts_os.File.{null_descriptor}
use nuts_os.Task.{InterruptFrame, zero_registers}
use nuts_os.Task.State.{frame_of}
use nuts_os.Isr80h.{Isr80hCommands}
use nuts_os.Isr80h.Commands.{isr80h_register_commands_lem}
use nuts_os.Idt.Syscall.{isr80h_handler}
use nuts_os.Paging.{Words, entry_get_pointer}
use nuts_os.Paging.Table.{table_of, entry_for}
use nuts_os.Paging.Tests.{pointer_lem}
use nuts_os.Process.{Kernel, Process}
use nuts_os.Process.Pages.{IsLoaded, space}
use nuts_os.Process.Space.{space-translate}
use nuts_os.Kernel.{kernel_ops}
use nuts_os.Kernel.Syscall.{
  kernel_tasks, IsRegistered, IsPlaced, argument, entered, print_program, print_refused,
}

-- A program of 5000 bytes, behind the heap's first pages.
abbrev process : Process
process = record {
  id = 0;
  task = 0x4000;
  ptr = 0x01002000;
  ptr_virt = 0x400000;
  stack = 0x01004000;
  stack_virt = 0x3FB000;
  stack_size = 16384;
  size = 5000;
}

process-IsLoaded : IsLoaded process
process-IsLoaded = record {
  at = refl;
  stack_at = refl;
  stack_pages = refl;
  aligned = omega arith;
  stack_aligned = omega arith;
  fits = omega arith;
  fits_virt = omega arith;
  stack_fits = omega arith;
}

-- The directory at 0x1000, its tables from 1 MiB on, and `word` on top of the stack.
abbrev words : ℕ → Words
words word a =
    if leb 0x1000 a && ltb a 0x2000
    then (256 + (a - 0x1000) / 4) * 2 ^ 12
    else if leb 0x100000 a && ltb a 0x500000
    then space process ((a - 0x100000) / 4 * 2 ^ 12) (bit_or ((a - 0x100000) / 4 * 2 ^ 12) 0b101)
    else if a == 0x01007FF0
    then word
    else 0

table_lem : (word i : ℕ) → i < 1024 → table_of (words word) 0x1000 i ≡ (256 + i) * 2 ^ 12
table_lem word i small =
    let entry : words word (0x1000 + 4 * i) ≡ (256 + i) * 2 ^ 12 = ground arith in
    ap entry_get_pointer entry ∙ pointer_lem (256 + i) (omega arith)

in_tables :
    (word page : ℕ)
    → page < 2 ^ 20
    → words word (0x100000 + 4 * page)
      ≡ space process (page * 2 ^ 12) (bit_or (page * 2 ^ 12) 0b101)
in_tables word page small =
    let index : (0x100000 + 4 * page - 0x100000) / 4 ≡ page = omega arith in
    rw (tables word (0x100000 + 4 * page) (omega arith) (omega arith), index) refl
  where
    tables :
        (word a : ℕ)
        → 0x100000 ≤ a
        → a < 0x500000
        → words word a
          ≡ space process ((a - 0x100000) / 4 * 2 ^ 12) (bit_or ((a - 0x100000) / 4 * 2 ^ 12) 0b101)
    tables word a low high = ground arith

same_page :
    (v : ℕ)
    → space process (v / 2 ^ 12 * 2 ^ 12) (bit_or (v / 2 ^ 12 * 2 ^ 12) 0b101)
      ≡ space process v (bit_or (v / 2 ^ 12 * 2 ^ 12) 0b101)
same_page v = let page : v / 2 ^ 12 * 2 ^ 12 / 2 ^ 12 ≡ v / 2 ^ 12 = omega arith in rw page refl

words-entry :
    (word v : ℕ)
    → v < 2 ^ 32
    → entry_for (words word) 0x1000 v ≡ space process v (bit_or (v / 2 ^ 12 * 2 ^ 12) 0b101)
words-entry word v small =
    let page : ℕ = v / 2 ^ 12 in
    let at : (256 + v / 2 ^ 22) * 2 ^ 12 + 4 * (page % 1024) ≡ 0x100000 + 4 * page = omega arith in
    ap (λ t. words word (t + 4 * (page % 1024))) (table_lem word (v / 2 ^ 22) (omega arith))
    ∙ ap (words word) at
    ∙ in_tables word page (omega arith)
    ∙ same_page v

-- The process runs, and "hello" stands 16 bytes into its program.
abbrev kernel : ℕ → Kernel
kernel word = record {
  files = record {
    filesystems = λ _. 0;
    file_descriptors = λ _. 0;
    descriptor_at = λ _. null_descriptor;
    store = record {
      heap = record { table = record { entries = λ i. i; total = 0 }; saddr = 0 };
      memory = λ a. if leb 0x01002010 a then literal (codes "hello") (a - 0x01002010) else 1;
    };
    errno = 0;
  };
  words = words word;
  tasks = record {
    task_at = λ _. record {
      page_directory = record {
        addr = 0;
        directory_entry = 0x1000;
        dir_count = 1024;
        entries_count = 1024;
      };
      registers = zero_registers;
      process = 0x5000;
      next = 0;
      prev = 0;
    };
    current_task = 0x4000;
    task_tail = 0x4000;
    task_head = 0x4000;
  };
  processes = λ _. 0;
  process_at = λ _. process;
}

kernel-IsPlaced : (word : ℕ) → IsPlaced (kernel word)
kernel-IsPlaced word v small =
    space-translate process (words word) 0x1000 v process-IsLoaded small (words-entry word v small)

abbrev frame : InterruptFrame
frame = frame_of 0 (record zero_registers { esp = 0x3FEFF0 })

abbrev screen : Terminal
screen = record { video_mem = λ _. 0; terminal_row = 2; terminal_col = 0 }

abbrev commands : Isr80hCommands InterruptFrame (Kernel × Terminal)
commands = (isr80h_register_commands_lem kernel_ops).0

commands-IsRegistered : IsRegistered commands
commands-IsRegistered = (isr80h_register_commands_lem kernel_ops).2

print_program_example :
    isr80h_handler kernel_tasks commands (pos 1) frame (kernel 0x400010, screen)
    ≡ some ((entered frame (kernel 0x400010), written (codes "hello") screen), 0)
print_program_example =
    print_program commands frame (kernel 0x400010) screen (codes "hello") 16 commands-IsRegistered
      (omega arith) process-IsLoaded (kernel-IsPlaced 0x400010) refl refl (λ j h. ground arith)
      (omega arith)

-- The task's own stack holds an address of the kernel.
print_refused_example :
    isr80h_handler kernel_tasks commands (pos 1) frame (kernel 0x100000, screen)
    ≡ some ((entered frame (kernel 0x100000), screen), 2 ^ 32 - 1)
print_refused_example =
    let at : argument frame (kernel 0x100000) ≡ 0x100000 =
      ap (words 0x100000) (kernel-IsPlaced 0x100000 0x3FEFF0 (omega arith)) in
    print_refused commands frame (kernel 0x100000) screen commands-IsRegistered (omega arith)
      process-IsLoaded (inl (omega (arith, at))) (inl (omega (arith, at)))
