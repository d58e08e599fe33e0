-- ===== src/Process/First.antt =====
-- process_load where there are no tasks yet: the first task.
use nuts_os.Base.{
  ℕ, ◌≡◌, ◌≢◌, ◌⊎◌, ◌==◌, true, Option, none, some, Option-cases, Result, ok, err, arith, refl,
  Bool-cases, inl, inr, ap, ◌∙◌, update, sym,
}
use nuts_os.Base.Int.{pos}
use mathlib.Core.Path.{subst}
use nuts_os.Heap.{Heap}
use nuts_os.Heap.Store.{zalloc}
use nuts_os.Paging.{Words, kzalloc_words}
use nuts_os.Fat.{is_err}
use nuts_os.File.{FileOps}
use nuts_os.Task.{Tasks, task_new, task_free, link_task, task_init}
use nuts_os.Task.Start.{first_registers}
use nuts_os.Process.{
  Process, Kernel, with_store, with_stack, with_name, set_process, process_map_memory, finish_load,
  load_task, load_stack, load_rest, process_init, process_get, process_load_data,
  process_load_for_slot, empty_slot, process_load,
}
use nuts_os.Process.Ends.{error_word}
use nuts_os.Process.Load.{Keeps, process_load_data-Keeps}

-- A task that is the first of the list, with the registers of a program that begins.
pub record IsFirst (task : ℕ) (s : Tasks) : Type 0 where
  pub nonnull : task ≢ 0
  pub head : s.task_head ≡ task
  pub registers : (s.task_at task).registers ≡ first_registers

-- A load that ends with an error, or with a process whose task is the first.
abbrev pub Starts : Option (ℕ × ℕ × Kernel) → Type 0
Starts none = Unit {0}
Starts (some (res, out, k)) =
    (is_err res ≡ true) ⊎ ((res ≡ 0) × IsFirst (k.process_at out).task k.tasks)

task_new-IsFirst :
    (process : ℕ) (heap heap' : Heap) (w w' : Words) (s s' : Tasks) (task : ℕ)
    → s.task_head ≡ 0
    → task_new process heap w s ≡ some (task, heap', w', s')
    → IsFirst task s'
unfolding task_new link_task task_init
task_new-IsFirst process heap heap' w w' s s' task none_before e =
    elim (Bool-cases ((kzalloc_words heap w 64).0 == 0)) [
      | inl null ↦ absurd (ground arith)
      | inr made ↦ record { nonnull = ground arith; head = ground arith; registers = ground arith }
    ]

finish_load-Starts :
    (out slot p : ℕ) (r : Result (Unit {0}) × Words) (k : Kernel)
    → IsFirst (k.process_at p).task k.tasks
    → Starts (finish_load out slot p r k)
unfolding finish_load
finish_load-Starts out slot p (ok _, w) k first = inr (refl, first)
finish_load-Starts out slot p (err e, w) k first = elim (Bool-cases ((k.process_at p).task == 0)) [
  | inl no_task ↦ rw (no_task, finish_load) (inl (error_word e))
  | inr some_task ↦
      elim (Option-cases (task_free (k.process_at p).task k.files.store.heap w k.tasks)) [
        | inl failed ↦ rw (some_task, failed, finish_load) tt
        | inr ((heap, tasks), freed) ↦ rw (some_task, freed, finish_load) (inl (error_word e))
      ]
]

load_task-Starts :
    (out slot p : ℕ) (k : Kernel) → k.tasks.task_head ≡ 0 → Starts (load_task out slot p k)
unfolding load_task
load_task-Starts out slot p k none_before =
    elim (Option-cases (task_new p k.files.store.heap k.words k.tasks)) [
      | inl failed ↦ rw (failed, load_task) tt
      | inr ((task, heap, w, tasks), made) ↦
          let process : Process = record (k.process_at p) { task = task } in
          let store = record (k.files.store) { heap = heap } in
          let first =
            task_new-IsFirst p k.files.store.heap heap k.words w k.tasks tasks task none_before
              made in
          let here : update k.process_at p process p ≡ process = ground arith in
          rw (made, load_task)
            (finish_load-Starts out slot p (process_map_memory process tasks w)
              (set_process p process (record (with_store k store) { words = w; tasks = tasks }))
              (subst (λ (q : Process). IsFirst q.task tasks) (sym here) first))
    ]

load_stack-Starts :
    (filename out slot p : ℕ) (k : Kernel)
    → k.tasks.task_head ≡ 0
    → Starts (load_stack filename out slot p k)
unfolding load_stack
load_stack-Starts filename out slot p k none_before =
    let (stack, store) = zalloc k.files.store 16384 in
    let process = with_stack slot stack (k.process_at p) in
    elim (Bool-cases (stack == 0)) [
      | inl failed ↦ rw (failed, load_stack) (inl refl)
      | inr made ↦
          rw (made, load_stack)
            (load_task-Starts out slot p
              (set_process p process (with_name p filename (with_store k store))) none_before)
    ]

load_rest-Starts :
    (table : ℕ → ℕ) (tasks : Tasks) (filename out slot p : ℕ) (r : Option (ℕ × Kernel))
    → tasks.task_head ≡ 0
    → Keeps table tasks r
    → Starts (load_rest filename out slot p r)
unfolding load_rest
load_rest-Starts table tasks filename out slot p none none_before same = tt
load_rest-Starts table tasks filename out slot p (some (res, k)) none_before same =
    elim (Bool-cases (is_err res)) [
      | inl failed ↦ rw (failed, load_rest) (inl failed)
      | inr fine ↦
          rw (fine, load_rest)
            (load_stack-Starts filename out slot p k
              (ap (λ (s : Tasks). s.task_head) same.1 ∙ none_before))
    ]

process_load_for_slot-Starts :
    (ops : FileOps) (mode_str stat filename out slot : ℕ) (k : Kernel)
    → k.tasks.task_head ≡ 0
    → Starts (process_load_for_slot ops mode_str stat filename out slot k)
unfolding process_load_for_slot process_init
process_load_for_slot-Starts ops mode_str stat filename out slot k none_before =
    let (p, store) = zalloc k.files.store 4384 in
    let k₁ = process_init p (with_store k store) in
    elim (Bool-cases (process_get (pos slot) k == 0)) [
      | inr taken ↦ rw (taken, process_load_for_slot) (inl refl)
      | inl free ↦ elim (Bool-cases (p == 0)) [
        | inl failed ↦ rw (free, failed, process_load_for_slot) (inl refl)
        | inr made ↦
            rw (free, made, process_load_for_slot)
              (load_rest-Starts k.processes k.tasks filename out slot p
                (process_load_data ops mode_str stat filename p k₁) none_before
                (process_load_data-Keeps ops mode_str stat filename p k₁))
      ]
    ]

-- Where there are no tasks yet, process_load, whatever the file system does, ends with an error, or
-- with 0 and a process whose task is the first one, with the registers of a program that begins.
pub process_load-Starts :
    (ops : FileOps) (mode_str stat filename out : ℕ) (k : Kernel)
    → k.tasks.task_head ≡ 0
    → Starts (process_load ops mode_str stat filename out k)
unfolding process_load
process_load-Starts ops mode_str stat filename out k none_before =
    elim (Option-cases (empty_slot k.processes 1024 0)) [
      | inl full ↦ rw (full, process_load) (inl refl)
      | inr (slot, e) ↦
          rw (e, process_load)
            (process_load_for_slot-Starts ops mode_str stat filename out slot k none_before)
    ]
