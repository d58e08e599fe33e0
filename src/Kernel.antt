-- ===== src/Kernel.antt =====
-- kernel.c with task/tss.h: the start of the kernel, over the state of all its parts. `none` is a
-- part that does not come back: its panic, or a null pointer that it follows.
pub mod State
pub mod Phases
pub mod Boot
pub mod First
pub mod Syscall
mod Tests
pub use nuts_os.Kernel.State.{Tss, zero_tss, Image, Machine}
use Prim.Native.String.{String}
use nuts_os.Base.{
  ℕ, ◌+◌, ◌*◌, ◌^◌, Bool, true, Option, none, some, List, ◌∷◌, if◌then◌else◌, bit_or, ◌==◌,
}
use nuts_os.Terminal.{Terminal, initialize, print}
use nuts_os.Terminal.Messages.{codes, print_text}
use nuts_os.Gdt.{GdtRaw, gdt, get_raw_gdt_struct}
use nuts_os.Heap.Kernel.{kheap_init}
use nuts_os.Heap.Store.{Store}
use nuts_os.Fat.{is_err}
use nuts_os.File.{FileOps, Files, fs_init}
use nuts_os.Disk.Search.{Disk, disk_search_and_init}
use nuts_os.Idt.{Gates, IdtrDesc, Handlers, idt_init}
use nuts_os.Paging.{
  PagingChunk, chunk_new, chunk_get_directory, paging_switch, is_writeable, is_present,
  access_from_all, total_dir_entries, total_entries_per_table,
}
use nuts_os.Task.{InterruptFrame, Registers, Tasks, task_run_as_task0, task_current_get_stack_item}
use nuts_os.Idt.Syscall.{item_or_zero}
use nuts_os.Paging.Translate.{translate}
use nuts_os.Isr80h.{Isr80hCommands, PrintOps, isr80h_register_commands}
use nuts_os.Isr80h.Commands.{no_commands}
use nuts_os.Process.{Kernel, process_load, task_current_validate_pointer}

infixl 5 ◌>>=◌
abbrev pub ◌>>=◌ : {A B : Type 0} → Option A → (A → Option B) → Option B
none >>= f = none
some a >>= f = f a

unfoldable pub kprint : List ℕ → Terminal → Option Terminal
kprint msg t = do t' ← print_text (codes "[K] ") t; print_text msg t'

-- The screen that the kernel stops with.
unfoldable pub panic : List ℕ → Terminal → Option Terminal
panic msg t = do t' ← print_text (codes "PANIC!!") t; print_text msg t'

unfoldable pub log : String → Machine → Option Machine
log msg m = do t ← kprint (codes msg) m.terminal; some (record m { terminal = t })

-- A part of the start between its two messages.
unfoldable pub phase : String → (Machine → Option Machine) → Machine → Option Machine
phase title act m = do m₁ ← log title m; m₂ ← act m₁; log " done\n" m₂

unfoldable pub setup_gdt : Image → Machine → Option Machine
setup_gdt image m = do
  raws ← get_raw_gdt_struct (gdt image.tss_address)
  some (record m { gdt_raw = raws })

abbrev pub heap_table_address : ℕ
heap_table_address = 0x00007E00

abbrev pub with_files : Files → Machine → Machine
with_files files m = record m { kernel = record (m.kernel) { files = files } }

unfoldable pub setup_heap : Machine → Option Machine
setup_heap m =
    let store = m.kernel.files.store in
    let bytes : ℕ → ℕ = λ i. store.memory (heap_table_address + i) in
    let heap = (kheap_init store.heap bytes).0 in
    some (with_files (record (m.kernel.files) { store = record store { heap = heap } }) m)

unfoldable pub setup_fs : Image → Machine → Option Machine
setup_fs image m = some (with_files (fs_init m.kernel.files image.fat16_fs) m)

unfoldable pub setup_disk : Image → Machine → Option Machine
setup_disk image m =
    let (disk, files) = disk_search_and_init image.ops.system_at m.kernel.files in
    some (record (with_files files m) { disk = disk })

unfoldable pub setup_idt : Image → Machine → Option Machine
setup_idt image m =
    let (gates, idtr) = idt_init image.handlers image.idt_address in
    some (record m { idt = gates; idtr = idtr })

abbrev pub kernel_data_offset : ℕ
kernel_data_offset = 2 * (2 * 4)

unfoldable pub setup_tss : Machine → Option Machine
setup_tss m =
    some (record m { tss = record zero_tss { ss0 = kernel_data_offset; esp0 = 0x00600000 } })

unfoldable pub setup_paging : Machine → Option Machine
setup_paging m =
    let store = m.kernel.files.store in
    let (chunk, heap, w) =
      chunk_new store.heap m.kernel.words total_dir_entries total_entries_per_table
        (bit_or (bit_or is_writeable is_present) access_from_all) in
    some (record m {
      kernel = record (m.kernel) {
        files = record (m.kernel.files) { store = record store { heap = heap } };
        words = w;
      };
      kernel_chunk = chunk;
      directory = paging_switch m.directory (chunk_get_directory chunk);
      paging = true;
    })

-- The directory of the running task, through which the processor reads what a task points to.
abbrev pub current_directory : Kernel → ℕ
current_directory k = (k.tasks.task_at k.tasks.current_task).page_directory.directory_entry

abbrev pub virtual : {A : Type 0} → Kernel → (ℕ → A) → ℕ → A
virtual k m v = m (translate k.words (current_directory k) v)

abbrev pub shown : Terminal → Option Terminal → Terminal
shown t none = t
shown t (some t') = t'

-- A string without an end leaves the screen as it is.
abbrev pub print_string : Kernel → ℕ → Terminal → Terminal
print_string k msg t = shown t (print (2 ^ 32) (virtual k k.files.store.memory) msg t)

-- What the print command calls, on the kernel and its screen.
abbrev pub kernel_ops : PrintOps (Kernel × Terminal)
kernel_ops = record {
  task_current_get_stack_item =
      λ s index. item_or_zero (task_current_get_stack_item (virtual s.0 s.0.words) index s.0.tasks);
  task_current_validate_pointer = λ s ptr. task_current_validate_pointer s.0 ptr;
  print = λ s msg. (s.0, print_string s.0 msg s.1);
}

unfoldable pub setup_commands : Machine → Option Machine
setup_commands m = do
  commands ← isr80h_register_commands kernel_ops m.commands
  some (record m { commands = commands })

-- kmain up to the first process.
unfoldable pub boot : Image → Machine → Option Machine
boot image m = do
  m₁ ← log "Terminal initialized.\n" (record m { terminal = initialize m.terminal.video_mem })
  m₂ ← phase "Setting up GDT..." (setup_gdt image) m₁
  m₃ ← phase "Initializing kernel heap..." setup_heap m₂
  m₄ ← phase "Initializing file systems..." (setup_fs image) m₃
  m₅ ← phase "Searching for disks..." (setup_disk image) m₄
  m₆ ← phase "Initializing interrupts..." (setup_idt image) m₅
  m₇ ← phase "Initializing TSS..." setup_tss m₆
  m₈ ← phase "Setting up paging..." setup_paging m₇
  phase "Registering system call interrupts..." setup_commands m₈

-- How kmain goes on: with the first process, or with a panic and its screen.
pub data Outcome : Type 0 where
  running : Registers → Machine → Outcome
  panicked : Machine → Outcome

unfoldable pub stop : List ℕ → Machine → Option Outcome
stop msg m = do t ← panic msg m.terminal; some (panicked (record m { terminal = t }))

-- The operations of the files with the disk that was found.
abbrev pub disk_ops : Image → Machine → FileOps
disk_ops image m = record (image.ops) { filesystem_of = λ _. m.disk.filesystem }

unfoldable pub run_first : ℕ × ℕ × Kernel → Machine → Option Outcome
run_first (res, process, k) m =
    if is_err res then stop (codes "Unable to load first task!") (record m { kernel = k }) else do
      (registers, tasks, directory) ←
          task_run_as_task0 (k.process_at process).task (k.tasks, m.directory)
      some (
          running registers
            (record m { kernel = record k { tasks = tasks }; directory = directory }))

unfoldable pub kmain : Image → Machine → Option Outcome
kmain image m = do
  m₁ ← boot image m
  m₂ ← log "Starting first process...\n\n" m₁
  loaded ←
      process_load (disk_ops image m₂) image.mode_str image.stat image.first_program 0 m₂.kernel
  run_first loaded m₂
