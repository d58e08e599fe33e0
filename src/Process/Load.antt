-- ===== src/Process/Load.antt =====
-- process_load: the table of processes on every way through it.
use nuts_os.Base.{
  ℕ, ◌+◌, ◌≡◌, ◌≢◌, ◌⊎◌, ◌==◌, false, Option, none, some, arith, refl, Bool-cases, inl, inr,
}
use nuts_os.Base.Int.{pos}
use nuts_os.Heap.Store.{zalloc}
use nuts_os.Fat.{is_err, le_32}
use nuts_os.File.{FileOps, fopen, fstat, fread}
use nuts_os.Task.{Tasks}
use nuts_os.Process.{Kernel, with_store, process_load_data, process_load_binary, read_program}
use nuts_os.Process.Ends.{Ends, TaskLost, staged}

-- A step that leaves the table and the tasks as they were.
abbrev pub Keeps : (ℕ → ℕ) → Tasks → Option (ℕ × Kernel) → Type 0
Keeps table tasks none = Unit {0}
Keeps table tasks (some (res, k)) = (k.processes ≡ table) × (k.tasks ≡ tasks)

-- Why the load of a program into the structure `p` does not come back: fopen returned null, so that
-- a null pointer is read, or the program was read and the task does not come back.
abbrev pub Lost : FileOps → ℕ → ℕ → ℕ → ℕ → ℕ → Kernel → Type 0
Lost ops mode_str stat filename slot p k =
    ((fopen ops k.files filename mode_str).0 ≡ 0)
    ⊎ ((res : ℕ) × (k' : Kernel) × (process_load_data ops mode_str stat filename p k
          ≡ some (res, k'))
        × (is_err res ≡ false)
        × TaskLost p (staged filename slot p k'))

some_not_none : {r : ℕ × Kernel} → some r ≢ none
some_not_none e = cc

no_file :
    (ops : FileOps) (mode_str stat filename p : ℕ) (k : Kernel)
    → process_load_data ops mode_str stat filename p k ≡ none
    → (fopen ops k.files filename mode_str).0 ≡ 0
unfolding process_load_data process_load_binary
no_file ops mode_str stat filename p k lost =
    let (fd, files) = fopen ops k.files filename mode_str in
    let (res, files') = fstat ops.system_at files (pos (files.descriptor_at fd).index) stat in
    elim (Bool-cases (fd == 0)) [
      | inl null ↦ ground arith
      | inr found ↦ elim (Bool-cases (is_err res)) [
        | inl failed ↦ absurd (some_not_none (rw (found, failed) at lost))
        | inr fine ↦ absurd (some_not_none (rw (found, fine) at lost))
      ]
    ]

read_program-same :
    (ops : FileOps) (index filesize p : ℕ) (k : Kernel)
    → let k' = (read_program ops index filesize p k).1 in
      (k'.processes ≡ k.processes) × (k'.tasks ≡ k.tasks)
unfolding read_program
read_program-same ops index filesize p k =
    let (ptr, store) = zalloc k.files.store filesize in
    let (read, files) = fread ops.system_at (with_store k store).files ptr filesize 1 (pos index) in
    elim (Bool-cases (ptr == 0)) [
      | inl failed ↦ rw (failed, read_program) (refl, refl)
      | inr made ↦ elim (Bool-cases (read == 1)) [
        | inl all ↦ rw (made, all, read_program) (refl, refl)
        | inr some_missing ↦ rw (made, some_missing, read_program) (refl, refl)
      ]
    ]

pub process_load_data-Keeps :
    (ops : FileOps) (mode_str stat filename p : ℕ) (k : Kernel)
    → Keeps k.processes k.tasks (process_load_data ops mode_str stat filename p k)
unfolding process_load_data process_load_binary
process_load_data-Keeps ops mode_str stat filename p k =
    let (fd, files) = fopen ops k.files filename mode_str in
    let index = (files.descriptor_at fd).index in
    let (res, files') = fstat ops.system_at files (pos index) stat in
    elim (Bool-cases (fd == 0)) [
      | inl no_file ↦ rw (no_file, process_load_data, process_load_binary) tt
      | inr found ↦ elim (Bool-cases (is_err res)) [
        | inl failed ↦ rw (found, failed, process_load_data, process_load_binary) (refl, refl)
        | inr fine ↦
            rw (found, fine, process_load_data, process_load_binary)
              (read_program-same ops index (le_32 files'.store.memory (stat + 4)) p
                (record k { files = files' }))
      ]
    ]
