-- ===== src/Process/Ends.antt =====
-- The ways that process_load_for_slot ends, once the program is read.
use nuts_os.Base.{
  ℕ, ◌≡◌, ◌⊎◌, ◌==◌, true, Option, none, some, Option-cases, Errno, eio, einvarg, enomem, ebadpath,
  einvalid, ereadonly, etaken, Result, ok, err, update, arith, refl, Bool-cases, inl, inr, ap,
}
use nuts_os.Heap.Store.{zalloc}
use nuts_os.Heap.{Heap}
use nuts_os.Paging.{Words}
use nuts_os.Fat.{neg, is_err}
use nuts_os.Task.{Tasks, task_new, task_free}
use nuts_os.Process.{
  Process, Kernel, with_store, with_stack, with_name, set_process, process_map_memory, finish_load,
  load_task, load_stack,
}

-- How a load ends: with an error, and the table and `*out` as they were, or with the process in
-- the slot, its number and its stack filled in, and no other slot changed. That it does not come
-- back needs a reason, `lost`.
abbrev pub Ends : Type 0 → (ℕ → ℕ) → ℕ → ℕ → Option (ℕ × ℕ × Kernel) → Type 0
Ends lost table out slot none = lost
Ends lost table out slot (some (res, out', k')) =
    ((is_err res ≡ true) × (out' ≡ out) × (k'.processes ≡ table))
    ⊎ ((res ≡ 0)
        × (k'.processes ≡ update table slot out')
        × ((k'.process_at out').id ≡ slot)
        × ((k'.process_at out').stack_virt ≡ 0x3FB000)
        × ((k'.process_at out').stack_size ≡ 16384))

pub error_word : (e : Errno) → is_err (neg e) ≡ true
error_word eio = refl
error_word einvarg = refl
error_word enomem = refl
error_word ebadpath = refl
error_word einvalid = refl
error_word ereadonly = refl
error_word etaken = refl

-- A process that is filled in but for its task.
abbrev pub Filled : Process → ℕ → Type 0
Filled p slot = (p.id ≡ slot) × (p.stack_virt ≡ 0x3FB000) × (p.stack_size ≡ 16384)

-- Why a task does not come back: task_new writes through a null pointer, or task_free of the task
-- that it made frees an address below the heap or removes the task as the last of several.
abbrev pub TaskLost : ℕ → Kernel → Type 0
TaskLost p k =
    (task_new p k.files.store.heap k.words k.tasks ≡ none)
    ⊎ ((task : ℕ) × (heap : Heap) × (w : Words) × (tasks : Tasks) × (w' : Words) × (task_new p
            k.files.store.heap k.words k.tasks
          ≡ some (task, heap, w, tasks))
        × (task_free task heap w' tasks ≡ none))

pub finish_load-Ends :
    (lost : Type 0) (table : ℕ → ℕ) (out slot p : ℕ) (r : Result (Unit {0}) × Words) (k : Kernel)
    → k.processes ≡ table
    → Filled (k.process_at p) slot
    → ((w : Words) → task_free (k.process_at p).task k.files.store.heap w k.tasks ≡ none → lost)
    → Ends lost table out slot (finish_load out slot p r k)
unfolding finish_load
finish_load-Ends lost table out slot p (ok _, w) k same filled why =
    inr (refl, ap (λ t. update t slot p) same, filled.0, filled.1, filled.2)
finish_load-Ends lost table out slot p (err e, w) k same filled why =
    elim (Bool-cases ((k.process_at p).task == 0)) [
      | inl no_task ↦ rw (no_task, finish_load) (inl (error_word e, refl, same))
      | inr some_task ↦
          elim (Option-cases (task_free (k.process_at p).task k.files.store.heap w k.tasks)) [
            | inl failed ↦ rw (some_task, failed, finish_load) (why w failed)
            | inr ((heap, tasks), freed) ↦
                rw (some_task, freed, finish_load) (inl (error_word e, refl, same))
          ]
    ]

pub stored_process :
    (f : ℕ → Process) (p slot : ℕ) (process : Process)
    → Filled process slot
    → Filled (update f p process p) slot
stored_process f p slot process filled = let e : (p == p) ≡ true = ground arith in rw e filled

-- The process that was stored is the one whose task is freed.
same_task :
    (f : ℕ → Process) (p : ℕ) (process : Process) (w : Words) (heap : Heap) (tasks : Tasks)
    → task_free (update f p process p).task heap w tasks ≡ none
    → task_free process.task heap w tasks ≡ none
same_task f p process w heap tasks lost = let e : (p == p) ≡ true = ground arith in rw e at lost

pub load_task-Ends :
    (lost : Type 0) (table : ℕ → ℕ) (out slot p : ℕ) (k : Kernel)
    → k.processes ≡ table
    → Filled (k.process_at p) slot
    → (TaskLost p k → lost)
    → Ends lost table out slot (load_task out slot p k)
unfolding load_task
load_task-Ends lost table out slot p k same filled why =
    elim (Option-cases (task_new p k.files.store.heap k.words k.tasks)) [
      | inl failed ↦ rw (failed, load_task) (why (inl failed))
      | inr ((task, heap, w, tasks), made) ↦
          let process = record (k.process_at p) { task = task } in
          let store = record (k.files.store) { heap = heap } in
          rw (made, load_task)
            (finish_load-Ends lost table out slot p (process_map_memory process tasks w)
              (set_process p process (record (with_store k store) { words = w; tasks = tasks }))
              same (stored_process k.process_at p slot process filled)
              (λ w' e. why (
                inr (
                  task,
                  heap,
                  w,
                  tasks,
                  w',
                  made,
                  same_task k.process_at p process w' heap tasks e,
                ))))
    ]

-- The state in which the task is made: the stack is allocated and the name copied.
abbrev pub staged : ℕ → ℕ → ℕ → Kernel → Kernel
staged filename slot p k =
    let (stack, store) = zalloc k.files.store 16384 in
    set_process p (with_stack slot stack (k.process_at p))
      (with_name p filename (with_store k store))

pub load_stack-Ends :
    (lost : Type 0) (table : ℕ → ℕ) (filename out slot p : ℕ) (k : Kernel)
    → k.processes ≡ table
    → (TaskLost p (staged filename slot p k) → lost)
    → Ends lost table out slot (load_stack filename out slot p k)
unfolding load_stack
load_stack-Ends lost table filename out slot p k same why =
    let (stack, store) = zalloc k.files.store 16384 in
    let process = with_stack slot stack (k.process_at p) in
    elim (Bool-cases (stack == 0)) [
      | inl failed ↦ rw (failed, load_stack) (inl (refl, refl, same))
      | inr made ↦
          rw (made, load_stack)
            (load_task-Ends lost table out slot p (staged filename slot p k) same
              (stored_process k.process_at p slot process (refl, refl, refl)) why)
    ]
