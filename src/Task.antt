-- ===== src/Task.antt =====
-- task/task.c and task/task.h, with the frame of idt/idt.h: the tasks, their registers and the
-- queue of them. Tasks are named by their addresses, 0 being the null pointer.
pub mod State
pub mod Queue
pub mod Start
mod Tests
use nuts_os.Base.{
  ℕ, zero, suc, ◌+◌, ◌-◌, ◌*◌, ◌%◌, ◌^◌, ◌==◌, not, if◌then◌else◌, update, Option, none, some, Bool,
  bit_or, ◌&&◌,
}
use nuts_os.Heap.{Heap}
use nuts_os.Heap.Kernel.{kfree}
use nuts_os.Paging.{
  Words, PagingChunk, kzalloc_words, chunk_new, chunk_free, paging_switch, is_present,
  access_from_all, total_dir_entries, total_entries_per_table,
}

pub record Registers : Type 0 where
  pub edi : ℕ
  pub esi : ℕ
  pub ebp : ℕ
  pub ebx : ℕ
  pub edx : ℕ
  pub ecx : ℕ
  pub eax : ℕ
  pub ip : ℕ
  pub cs : ℕ
  pub flags : ℕ
  pub esp : ℕ
  pub ss : ℕ

-- The state of the processor that an interrupt is given.
pub record InterruptFrame : Type 0 where
  pub edi : ℕ
  pub esi : ℕ
  pub ebp : ℕ
  pub reserved : ℕ
  pub ebx : ℕ
  pub edx : ℕ
  pub ecx : ℕ
  pub eax : ℕ
  pub ip : ℕ
  pub cs : ℕ
  pub flags : ℕ
  pub esp : ℕ
  pub ss : ℕ

pub record Task : Type 0 where
  pub page_directory : PagingChunk
  pub registers : Registers
  pub process : ℕ
  pub next : ℕ
  pub prev : ℕ

-- The globals of task.c with the tasks that stand at the addresses.
pub record Tasks : Type 0 where
  pub task_at : ℕ → Task
  pub current_task : ℕ
  pub task_tail : ℕ
  pub task_head : ℕ

abbrev pub set_next : ℕ → ℕ → Tasks → Tasks
set_next task next s = record s {
  task_at = update s.task_at task (record (s.task_at task) { next = next });
}

abbrev pub set_prev : ℕ → ℕ → Tasks → Tasks
set_prev task prev s = record s {
  task_at = update s.task_at task (record (s.task_at task) { prev = prev });
}

-- The part of task_new that puts an initialised task into the list.
unfoldable pub link_task : ℕ → Tasks → Tasks
link_task task s =
    if s.task_head == 0
    then record s { task_head = task; task_tail = task }
    else record (set_prev task s.task_tail (set_next s.task_tail task s)) { task_tail = task }

unfoldable pub task_get_next : Tasks → ℕ
task_get_next s =
    let next = (s.task_at s.current_task).next in if next == 0 then s.task_head else next

-- The links of the neighbours of a task that is not the first. That the next one is not null is
-- what task_list_remove sees to.
unfoldable pub unlink : ℕ → Tasks → Tasks
unlink task s =
    let prev = (s.task_at task).prev in
    if prev == 0
    then s
    else let s' = set_next prev (s.task_at task).next s in
      set_prev (s'.task_at task).next (s'.task_at task).prev s'

-- All that task_list_remove changes.
unfoldable pub removed : ℕ → Tasks → Tasks
removed task s =
    let s₁ = unlink task s in
    let s₂ =
      if task == s₁.task_head then record s₁ { task_head = (s₁.task_at task).next } else s₁ in
    let s₃ =
      if task == s₂.task_tail then record s₂ { task_tail = (s₂.task_at task).prev } else s₂ in
    if task == s₃.current_task then record s₃ { current_task = task_get_next s₃ } else s₃

-- A task behind another one with none behind itself: its link to the next is written through as it
-- stands, so through a null pointer, which is none.
unfoldable pub task_list_remove : ℕ → Tasks → Option Tasks
task_list_remove task s =
    if not ((s.task_at task).prev == 0) && ((s.task_at task).next == 0)
    then none
    else some (removed task s)

abbrev pub zero_registers : Registers
zero_registers = record {
  edi = 0;
  esi = 0;
  ebp = 0;
  ebx = 0;
  edx = 0;
  ecx = 0;
  eax = 0;
  ip = 0;
  cs = 0;
  flags = 0;
  esp = 0;
  ss = 0;
}

abbrev pub user_code_offset : ℕ
user_code_offset = 3 * (2 * 4)

abbrev pub user_data_offset : ℕ
user_data_offset = 4 * (2 * 4)

abbrev pub privilege_ring_3 : ℕ
privilege_ring_3 = 3

abbrev pub program_virtual_address : ℕ
program_virtual_address = 0x00400000

abbrev pub program_virtual_stack_address_start : ℕ
program_virtual_stack_address_start = 0x003FF000

-- The task that task_init makes for a process and a new set of page tables. The source never
-- comes to its error, since paging_chunk_new writes to what it allocates before it returns it.
unfoldable pub task_init : ℕ → PagingChunk → Task
task_init process page_directory = record {
  page_directory = page_directory;
  registers = record zero_registers {
    ip = program_virtual_address;
    ss = bit_or user_data_offset privilege_ring_3;
    cs = bit_or user_code_offset privilege_ring_3;
    esp = program_virtual_stack_address_start;
  };
  process = process;
  next = 0;
  prev = 0;
}

-- The directory that the processor is given comes with the state.
unfoldable pub task_switch : ℕ → Tasks × ℕ → Tasks × ℕ
task_switch task (s, current_directory) = (
  record s { current_task = task },
  paging_switch current_directory (s.task_at task).page_directory.directory_entry,
)

-- none is the panic; the registers are those that the processor continues with.
unfoldable pub task_run_as_task0 : ℕ → Tasks × ℕ → Option (Registers × Tasks × ℕ)
task_run_as_task0 task (s, current_directory) =
    if not (task == s.task_head)
    then none
    else let (s', directory) = task_switch task (s, current_directory) in
      some ((s'.task_at task).registers, s', directory)

unfoldable pub task_save_state : ℕ → InterruptFrame → Tasks → Tasks
task_save_state task frame s = record s {
  task_at = update s.task_at task (record (s.task_at task) {
    registers = record {
      edi = frame.edi;
      esi = frame.esi;
      ebp = frame.ebp;
      ebx = frame.ebx;
      edx = frame.edx;
      ecx = frame.ecx;
      eax = frame.eax;
      ip = frame.ip;
      cs = frame.cs;
      flags = frame.flags;
      esp = frame.esp;
      ss = frame.ss;
    };
  });
}

unfoldable pub task_current_save_state : InterruptFrame → Tasks → Option Tasks
task_current_save_state frame s =
    if s.current_task == 0 then none else some (task_save_state s.current_task frame s)

unfoldable pub task_current_get_stack_item : Words → ℕ → Tasks → Option ℕ
task_current_get_stack_item w index s =
    if s.current_task == 0
    then none
    else some (w (((s.task_at s.current_task).registers.esp + 4 * index) % 2 ^ 32))

abbrev pub task_size : ℕ
task_size = 64

-- A null task, which task_free reads on the way out, is none.
unfoldable pub task_new : ℕ → Heap → Words → Tasks → Option (ℕ × Heap × Words × Tasks)
task_new process heap w s =
    let (task, heap₁, w₁) = kzalloc_words heap w task_size in
    let (page_directory, heap₂, w₂) =
      chunk_new heap₁ w₁ total_dir_entries total_entries_per_table
        (bit_or is_present access_from_all) in
    let made = record s { task_at = update s.task_at task (task_init process page_directory) } in
    if task == 0 then none else some (task, heap₂, w₂, link_task task made)

unfoldable pub task_free : ℕ → Heap → Words → Tasks → Option (Heap × Tasks)
task_free task heap w s = elim (chunk_free heap w (s.task_at task).page_directory) [
  | none ↦ none
  | some heap₁ ↦ elim (task_list_remove task s) [
    | none ↦ none
    | some s' ↦ elim (kfree heap₁ task) [ none ↦ none | some heap₂ ↦ some (heap₂, s') ]
  ]
]
