-- ===== src/Task/Start.antt =====
-- task_new: the task that it makes, with its address space.
use nuts_os.Base.{
  ℕ, ◌+◌, ◌*◌, ◌/◌, ◌%◌, ◌^◌, ◌<◌, ◌≤◌, ◌≡◌, ◌≢◌, true, arith, bit_or, ap, sym, ◌∙◌, some, update,
}
use mathlib.Core.Path.{subst}
use nuts_os.Heap.{Heap}
use nuts_os.Heap.Store.{Store, IsUsable, free_blocks, is_safe, zalloc}
use nuts_os.Heap.Store.Taking.{zalloc-Fresh}
use nuts_os.Paging.{Words, PagingChunk, kzalloc_words, chunk_new}
use nuts_os.Paging.Fill.{kzalloc_words-zalloc}
use nuts_os.Paging.Identity.{chunk_new-Identity}
use nuts_os.Paging.Table.{entry_for, IsDirectory}
use nuts_os.Task.{Tasks, Registers, zero_registers, task_init, task_new, link_task}

-- The registers of a task before it runs: at the program, in ring 3, with its stack empty.
abbrev pub first_registers : Registers
first_registers = record zero_registers { ip = 0x400000; cs = 0x1B; ss = 0x23; esp = 0x3FF000 }

-- What a new task is: in memory that was free, last in the list, in a directory of its own in which
-- every page is mapped to itself for the user to read; all that was in use is as it was.
pub record Started (st st' : Store) (process task : ℕ) (s' : Tasks) : Type 0 where
  pub usable : IsUsable st'.heap
  pub room : free_blocks st'.heap + 1027 ≡ free_blocks st.heap
  pub start : st'.heap.saddr ≡ st.heap.saddr
  pub nonnull : task ≢ 0
  pub last : s'.task_tail ≡ task
  pub owner : (s'.task_at task).process ≡ process
  pub registers : (s'.task_at task).registers ≡ first_registers
  pub kept_safe : (a : ℕ) → is_safe st.heap a ≡ true → is_safe st'.heap a ≡ true
  pub kept : (a : ℕ) → is_safe st.heap a ≡ true → st'.memory a ≡ st.memory a
  pub valid : IsDirectory st'.memory (s'.task_at task).page_directory.directory_entry
  pub entries :
      (v : ℕ)
      → v < 2 ^ 32
      → entry_for st'.memory (s'.task_at task).page_directory.directory_entry v
        ≡ bit_or (v / 2 ^ 12 * 2 ^ 12) 0b101

-- Linking a task into the list changes links only.
module _ (process task : ℕ) (chunk : PagingChunk) (s : Tasks) where
  abbrev linked : Tasks
  linked = link_task task (record s { task_at = update s.task_at task (task_init process chunk) })

  link_task-last : linked.task_tail ≡ task
  unfolding link_task
  link_task-last = ground arith

  link_task-chunk : (linked.task_at task).page_directory ≡ chunk
  unfolding link_task task_init
  link_task-chunk = ground arith

  link_task-process : (linked.task_at task).process ≡ process
  unfolding link_task task_init
  link_task-process = ground arith

  link_task-registers : (linked.task_at task).registers ≡ first_registers
  unfolding link_task task_init
  link_task-registers = ground arith

-- The parts of task_new.
task_new_parts :
    (process : ℕ) (heap : Heap) (w : Words) (s : Tasks) (task : ℕ) (chunk : PagingChunk)
    (st₁ st₂ : Store)
    → kzalloc_words heap w 64 ≡ (task, st₁.heap, st₁.memory)
    → chunk_new st₁.heap st₁.memory 1024 1024 5 ≡ (chunk, st₂.heap, st₂.memory)
    → task ≢ 0
    → task_new process heap w s ≡ some (task, st₂.heap, st₂.memory, linked process task chunk s)
unfolding task_new
task_new_parts process heap w s task chunk st₁ st₂ e₁ e₂ ne =
    rw (e₁, task_new) (rw e₂ (ground arith))

-- On a usable heap that starts on a page and has 1027 free blocks, task_new returns a task that is
-- started: not null, last in the list of tasks, with the registers of a program that begins in ring
-- 3, and with a directory of its own in which every page is mapped to itself, for the user to read
-- and not to write.
pub task_new-Started :
    (process : ℕ) (st : Store) (s : Tasks)
    → IsUsable st.heap
    → st.heap.saddr % 4096 ≡ 0
    → 1027 ≤ free_blocks st.heap
    → (task : ℕ) × (st' : Store) × (s' : Tasks) × (task_new process st.heap st.memory s
        ≡ some (task, st'.heap, st'.memory, s'))
      × Started st st' process task s'
task_new-Started process st s u whole room =
    let (task, st₁) = zalloc st 64 in
    let f = zalloc-Fresh st 64 u (omega arith) (omega arith) (omega arith) in
    let (chunk, st₂, e, m) =
      chunk_new-Identity st₁ 5 f.usable (omega (arith, f.start)) (omega (arith, f.room)) in
    let at = ap (λ (c : PagingChunk). c.directory_entry) (link_task-chunk process task chunk s) in
    (
      task,
      st₂,
      linked process task chunk s,
      task_new_parts process st.heap st.memory s task chunk st₁ st₂
          (kzalloc_words-zalloc st.heap st.memory 64) e f.nonnull,
      record {
        usable = m.usable;
        room = omega (arith, f.room, m.room);
        start = m.start ∙ f.start;
        nonnull = f.nonnull;
        last = link_task-last process task chunk s;
        owner = link_task-process process task chunk s;
        registers = link_task-registers process task chunk s;
        kept_safe = λ a safe. m.kept_safe a (f.kept_safe a safe);
        kept = λ a safe. m.kept a (f.kept_safe a safe) ∙ f.kept a safe;
        valid = subst (IsDirectory st₂.memory) (sym at) m.valid;
        entries = λ v h. ap (λ d. entry_for st₂.memory d v) at ∙ m.entries v h;
      },
    )
