-- ===== src/Process.antt =====
-- task/process.c and task/process.h: programs loaded from files, with their stack, task and pages.
-- Structures are kept by address. `none` is a panic, or a null pointer that the code reads through.
pub mod Pages
pub mod Space
pub mod Ends
pub mod Load
pub mod First
mod Tests
use nuts_os.Base.{
  ℕ, zero, suc, ◌+◌, ◌-◌, ◌*◌, ◌%◌, ◌^◌, ◌==◌, ◌&&◌, ◌||◌, not, if◌then◌else◌, ltb, leb, update,
  Bool, true, false, Option, none, some, Result, ok, err, bit_or, eio, einvarg, enomem, etaken,
}
use nuts_os.Base.Int.{ℤ, pos, negsuc}
use nuts_os.Memory.{Mem, memset}
use nuts_os.Text.{strncpy}
use nuts_os.Heap.Store.{Store, zalloc}
use nuts_os.Paging.{Words, map_to, align_address, is_present, is_writeable, access_from_all}
use nuts_os.Fat.{neg, is_err, le_32}
use nuts_os.File.{FileOps, Filesystem, Files, fopen, fstat, fread, fclose}
use nuts_os.Task.{
  Task, Tasks, task_new, task_free, program_virtual_address, program_virtual_stack_address_start,
}

abbrev pub max_processes : ℕ
max_processes = 1024

abbrev pub user_program_stack_size : ℕ
user_program_stack_size = 1024 * 16

abbrev pub program_virtual_stack_address_end : ℕ
program_virtual_stack_address_end = program_virtual_stack_address_start - user_program_stack_size

-- The name stands in memory, two bytes behind the structure's address; `allocations` has no use.
pub record Process : Type 0 where
  pub id : ℕ
  pub task : ℕ
  pub ptr : ℕ
  pub ptr_virt : ℕ
  pub stack : ℕ
  pub stack_virt : ℕ
  pub stack_size : ℕ
  pub size : ℕ

abbrev pub process_size : ℕ
process_size = 4384

-- The state that a process is loaded in: files with the heap and its memory, the words of page
-- tables, the tasks, and the table of processes with the structures at their addresses.
pub record Kernel : Type 0 where
  pub files : Files
  pub words : Words
  pub tasks : Tasks
  pub processes : ℕ → ℕ
  pub process_at : ℕ → Process

abbrev pub with_store : Kernel → Store → Kernel
with_store k store = record k { files = record (k.files) { store = store } }

abbrev pub empty_process : Process
empty_process = record {
  id = 0;
  task = 0;
  ptr = 0;
  ptr_virt = 0;
  stack = 0;
  stack_virt = 0;
  stack_size = 0;
  size = 0;
}

abbrev pub set_process : ℕ → Process → Kernel → Kernel
set_process p process k = record k { process_at = update k.process_at p process }

unfoldable pub process_init : ℕ → Kernel → Kernel
process_init p k =
    let store = k.files.store in
    set_process p empty_process
      (with_store k (record store { memory = memset p 0 process_size store.memory }))

-- The pointer, or the error code that stands in its place.
unfoldable pub process_get : ℤ → Kernel → ℕ
process_get (negsuc _) k = neg einvarg
process_get (pos process_id) k =
    if leb max_processes process_id then neg einvarg else k.processes process_id

-- The end of process_load_binary: the file is closed.
abbrev pub close_program : FileOps → ℕ → ℕ → Kernel → ℕ × Kernel
close_program ops index res k =
    (res, record k { files = (fclose ops.system_at k.files (pos index)).1 })

-- The program's bytes, once its size is known.
unfoldable pub read_program : FileOps → ℕ → ℕ → ℕ → Kernel → ℕ × Kernel
read_program ops index filesize process k =
    let (ptr, store) = zalloc k.files.store filesize in
    let k₁ = with_store k store in
    if ptr == 0
    then close_program ops index (neg enomem) k₁
    else let (read, files) = fread ops.system_at k₁.files ptr filesize 1 (pos index) in
      let k₂ = record k₁ { files = files } in
      if not (read == 1)
      then close_program ops index (neg eio) k₂
      else close_program ops index 0 (
          set_process process
            (record (k₂.process_at process) {
              ptr = ptr;
              size = filesize;
              ptr_virt = program_virtual_address;
            })
            k₂)

-- `mode_str` is the address of the literal "r", and `stat` that of the local structure.
unfoldable pub process_load_binary : FileOps → ℕ → ℕ → ℕ → ℕ → Kernel → Option (ℕ × Kernel)
unfolding read_program
process_load_binary ops mode_str stat filename process k =
    let (fd, files) = fopen ops k.files filename mode_str in
    let index = (files.descriptor_at fd).index in
    let (res, files') = fstat ops.system_at files (pos index) stat in
    let k' = record k { files = files' } in
    if fd == 0
    then none
    else if is_err res
    then some (close_program ops index res k')
    else some (read_program ops index (le_32 files'.store.memory (stat + 4)) process k')

unfoldable pub process_load_data : FileOps → ℕ → ℕ → ℕ → ℕ → Kernel → Option (ℕ × Kernel)
process_load_data = process_load_binary

abbrev pub page_flags : ℕ
page_flags = bit_or (bit_or is_present access_from_all) is_writeable

-- The directory of a process' task.
abbrev pub directory_of : Process → Tasks → ℕ
directory_of process tasks = (tasks.task_at process.task).page_directory.directory_entry

unfoldable pub process_map_binary : Process → Tasks → Words → Result (Unit {0}) × Words
process_map_binary process tasks w =
    map_to w (directory_of process tasks) program_virtual_address process.ptr
      (align_address ((process.ptr + process.size) % 2 ^ 32)) page_flags

-- The stack, once the program is mapped.
abbrev pub map_stack : Process → Tasks → Words → Result (Unit {0}) × Words
map_stack process tasks w =
    map_to w (directory_of process tasks) program_virtual_stack_address_end process.stack
      (align_address ((process.stack + user_program_stack_size) % 2 ^ 32)) page_flags

unfoldable pub then_stack : Process → Tasks → Result (Unit {0}) × Words → Result (Unit {0}) × Words
then_stack process tasks (err e, w) = (err e, w)
then_stack process tasks (ok _, w) = map_stack process tasks w

unfoldable pub process_map_memory : Process → Tasks → Words → Result (Unit {0}) × Words
unfolding process_map_binary then_stack
process_map_memory process tasks w = then_stack process tasks (process_map_binary process tasks w)

-- The end of process_load_for_slot after process_map_memory: the result, `*out` and the state.
unfoldable pub finish_load :
    ℕ → ℕ → ℕ → Result (Unit {0}) × Words → Kernel → Option (ℕ × ℕ × Kernel)
finish_load out slot p (ok _, w) k =
    some (0, p, record k { words = w; processes = update k.processes slot p })
finish_load out slot p (err e, w) k =
    let task = (k.process_at p).task in
    let store = k.files.store in
    if task == 0
    then some (neg e, out, record k { words = w })
    else elim (task_free task store.heap w k.tasks) [
      | none ↦ none
      | some (heap, tasks) ↦ some (
        neg e,
        out,
        record (with_store k (record store { heap = heap })) { words = w; tasks = tasks },
      )
    ]

-- The task and its pages, once the structure of the process is filled in.
unfoldable pub load_task : ℕ → ℕ → ℕ → Kernel → Option (ℕ × ℕ × Kernel)
unfolding finish_load
load_task out slot p k =
    let store = k.files.store in
    elim (task_new p store.heap k.words k.tasks) [
      | none ↦ none
      | some (task, heap, w, tasks) ↦
          let process = record (k.process_at p) { task = task } in
          let k₁ = with_store k (record store { heap = heap }) in
          let k₂ = set_process p process (record k₁ { words = w; tasks = tasks }) in
          finish_load out slot p (process_map_memory process tasks w) k₂
    ]

-- A process with its number and its stack.
abbrev pub with_stack : ℕ → ℕ → Process → Process
with_stack slot stack process = record process {
  stack = stack;
  stack_virt = program_virtual_stack_address_end;
  stack_size = user_program_stack_size;
  id = slot;
}

-- The state with the file's name copied.
abbrev pub with_name : ℕ → ℕ → Kernel → Kernel
with_name p filename k =
    let store = k.files.store in
    with_store k (record store { memory = (strncpy (p + 2) filename 256 store.memory).1 })

-- The stack, once the program is read.
unfoldable pub load_stack : ℕ → ℕ → ℕ → ℕ → Kernel → Option (ℕ × ℕ × Kernel)
unfolding load_task
load_stack filename out slot p k =
    let (stack, store) = zalloc k.files.store user_program_stack_size in
    let k₁ = with_store k store in
    if stack == 0
    then some (neg enomem, out, k₁)
    else load_task out slot p
        (set_process p (with_stack slot stack (k₁.process_at p)) (with_name p filename k₁))

-- What process_load_data comes to.
unfoldable pub load_rest : ℕ → ℕ → ℕ → ℕ → Option (ℕ × Kernel) → Option (ℕ × ℕ × Kernel)
unfolding load_stack
load_rest filename out slot p none = none
load_rest filename out slot p (some (res, k)) =
    if is_err res then some (res, out, k) else load_stack filename out slot p k

-- The result, what `*out` is afterwards, and the state.
unfoldable pub process_load_for_slot :
    FileOps → ℕ → ℕ → ℕ → ℕ → ℕ → Kernel → Option (ℕ × ℕ × Kernel)
unfolding load_rest
process_load_for_slot ops mode_str stat filename out slot k =
    let (p, store) = zalloc k.files.store process_size in
    let k₁ = with_store k store in
    if not (process_get (pos slot) k == 0)
    then some (neg etaken, out, k)
    else if p == 0
    then some (neg enomem, out, k₁)
    else load_rest filename out slot p
        (process_load_data ops mode_str stat filename p (process_init p k₁))

-- The first empty slot, with the slots that are left.
unfoldable pub empty_slot : (ℕ → ℕ) → ℕ → ℕ → Option ℕ
empty_slot table zero i = none
empty_slot table (suc left) i = elim (table i == 0) [
  | true ↦ some i
  | false ↦ empty_slot table left (i + 1)
]

unfoldable pub process_load : FileOps → ℕ → ℕ → ℕ → ℕ → Kernel → Option (ℕ × ℕ × Kernel)
unfolding empty_slot process_load_for_slot
process_load ops mode_str stat filename out k = elim (empty_slot k.processes max_processes 0) [
  | none ↦ some (neg enomem, out, k)
  | some slot ↦ process_load_for_slot ops mode_str stat filename out slot k
]

unfoldable pub process_validate_pointer : Process → ℕ → Bool
process_validate_pointer process ptr =
    (leb process.ptr_virt ptr && ltb ptr ((process.ptr_virt + process.size) % 2 ^ 32))
    || (leb process.stack_virt ptr && ltb ptr ((process.stack_virt + process.stack_size) % 2 ^ 32))

-- task_current_validate_pointer, for the task that runs.
unfoldable pub task_current_validate_pointer : Kernel → ℕ → Bool
task_current_validate_pointer k ptr =
    process_validate_pointer (k.process_at ((k.tasks.task_at k.tasks.current_task).process)) ptr
