-- ===== src/File/Opening.antt =====
-- fopen: the ways that it ends.
use nuts_os.Base.{
  ℕ, ◌+◌, ◌≡◌, ◌⊎◌, ◌<◌, ◌==◌, ◌||◌, if◌then◌else◌, update, arith, refl, Bool-cases, Option-cases,
  inl, inr, true, some, none, Option, enomem,
}
use nuts_os.Disk.{disk_get}
use nuts_os.Fat.{neg}
use nuts_os.Heap.Store.{Store}
use nuts_os.File.{
  FileOps, FileMode, open_new, open_mode, open_on, open_path, fopen, file_mode_from_string,
  mode_read, mode_write, mode_append, mode_invalid, Files, FileDescriptor, free_slot, descriptor_in,
  file_descriptor_new, null_descriptor,
}
use nuts_os.File.Descriptors.{new_descriptor}
use nuts_os.File.Systems.{free_slot-some}

-- The descriptor of a file opened on the path that the parser found, with the index `k + 1`: its
-- private data is what the file system's open returned, also where that is an error code.
abbrev pub opened_descriptor : FileOps → Option (ℕ × ℕ) → FileMode → Store → ℕ → FileDescriptor
opened_descriptor ops none mode store k = null_descriptor
opened_descriptor ops (some (drive_no, first)) mode store k =
    let disk = disk_get drive_no in
    record {
      index = k + 1;
      filesystem = ops.filesystem_of disk;
      private = ((ops.system_at (ops.filesystem_of disk)).fs_open disk first mode store).0;
      mode = mode;
      disk = disk;
    }

-- What fopen leaves: a null result has changed no slot; else the errno is 0, and a slot that was
-- empty holds the result, the descriptor `new` of that slot.
abbrev pub Opened : Files → (ℕ → FileDescriptor) → ℕ × Files → Type 0
Opened s new (fdesc, s') =
    ((fdesc ≡ 0) × ((i : ℕ) → s'.file_descriptors i ≡ s.file_descriptors i))
    ⊎ ((k : ℕ) × (k < 1024)
        × (s.file_descriptors k ≡ 0)
        × (s'.errno ≡ 0)
        × (s'.descriptor_at fdesc ≡ new k)
        × ((i : ℕ) → s'.file_descriptors i ≡ (if i == k then fdesc else s.file_descriptors i)))

no_descriptor :
    (s : Files)
    → free_slot s.file_descriptors 1024 0 ≡ none
    → file_descriptor_new s ≡ (neg enomem, 0, s)
unfolding file_descriptor_new
no_descriptor s e = rw (e, file_descriptor_new) refl

filled :
    (f : ℕ → FileDescriptor) (desc k : ℕ) (mode : FileMode) (system handle disk : ℕ)
    → let g = update f desc (record null_descriptor { index = k + 1 }) in
      let new = record (g desc) {
        filesystem = system;
        private = handle;
        mode = mode;
        disk = disk;
      } in
      update g desc new desc
      ≡ record { index = k + 1; filesystem = system; private = handle; mode = mode; disk = disk }
filled f desc k mode system handle disk = let e : (desc == desc) ≡ true = ground arith in rw e refl

update_at : (table : ℕ → ℕ) (k v i : ℕ) → update table k v i ≡ (if i == k then v else table i)
update_at table k v i = ground arith

open_new-Opened :
    (ops : FileOps) (disk : ℕ) (mode : FileMode) (handle : ℕ) (store : Store) (s : Files)
    → Opened s
        (λ k. record {
          index = k + 1;
          filesystem = ops.filesystem_of disk;
          private = handle;
          mode = mode;
          disk = disk;
        })
        (open_new ops disk mode (handle, store) s)
unfolding open_new
open_new-Opened ops disk mode handle store s =
    elim (Option-cases (free_slot s.file_descriptors 1024 0)) [
      | inl e' ↦
          rw (no_descriptor (record s { store = store }) e', open_new) (inl (refl, λ i. refl))
      | inr (k, e') ↦
          let s' : Files = record s { store = store } in
          let (low, high, empty, used) = free_slot-some s.file_descriptors 1024 0 k e' in
          let desc = (descriptor_in s' k).0 in
          rw (new_descriptor s' k e', open_new)
            (inr (
              k,
              omega arith,
              empty,
              refl,
              filled s.descriptor_at desc k mode (ops.filesystem_of disk) handle disk,
              λ i. update_at s.file_descriptors k desc i,
            ))
    ]

-- Opening by the file system, in one of the three modes.
opened :
    (ops : FileOps) (disk first : ℕ) (s : Files) (mode : FileMode)
    → let (handle, store) =
        (ops.system_at (ops.filesystem_of disk)).fs_open disk first mode s.store in
      Opened s
        (λ k. record {
          index = k + 1;
          filesystem = ops.filesystem_of disk;
          private = handle;
          mode = mode;
          disk = disk;
        })
        (open_new ops disk mode (handle, store) s)
opened ops disk first s mode =
    let (handle, store) =
      (ops.system_at (ops.filesystem_of disk)).fs_open disk first mode s.store in
    open_new-Opened ops disk mode handle store s

open_mode-Opened :
    (ops : FileOps) (drive_no first : ℕ) (s : Files) (mode : FileMode)
    → Opened s
        (opened_descriptor ops (some (drive_no, first)) mode s.store)
        (open_mode ops (disk_get drive_no) first s mode)
unfolding open_mode
open_mode-Opened ops drive_no first s mode_invalid = inl (refl, λ i. refl)
open_mode-Opened ops drive_no first s mode_read = opened ops (disk_get drive_no) first s mode_read
open_mode-Opened ops drive_no first s mode_write = opened ops (disk_get drive_no) first s mode_write
open_mode-Opened ops drive_no first s mode_append =
    opened ops (disk_get drive_no) first s mode_append

open_on-Opened :
    (ops : FileOps) (drive_no first mode_str : ℕ) (s : Files)
    → Opened s
        (opened_descriptor ops
          (some (drive_no, first))
          (file_mode_from_string s.store.memory mode_str)
          s.store)
        (open_on ops (disk_get drive_no) first mode_str s)
unfolding open_on
open_on-Opened ops drive_no first mode_str s =
    elim (Bool-cases ((disk_get drive_no == 0) || (ops.filesystem_of (disk_get drive_no) == 0))) [
      | inl e ↦ rw (e, open_on) (inl (refl, λ i. refl))
      | inr e ↦
          rw (e, open_on)
            (open_mode-Opened ops drive_no first s (file_mode_from_string s.store.memory mode_str))
    ]

open_path-Opened :
    (ops : FileOps) (root_path : Option (ℕ × ℕ)) (mode_str : ℕ) (s : Files)
    → Opened s
        (opened_descriptor ops root_path (file_mode_from_string s.store.memory mode_str) s.store)
        (open_path ops root_path mode_str s)
unfolding open_path
open_path-Opened ops none mode_str s = inl (refl, λ i. refl)
open_path-Opened ops (some (drive_no, first)) mode_str s = elim (Bool-cases (first == 0)) [
  | inl e ↦ rw (e, open_path) (inl (refl, λ i. refl))
  | inr e ↦ rw (e, open_path) (open_on-Opened ops drive_no first mode_str s)
]

-- On every path through fopen, its errors included: either it returns null with the table of
-- descriptors as it was, or the errno is 0 and the result stands in a slot that was empty before,
-- as a descriptor with that slot's index, the mode of the string, the disk that the path names with
-- its file system, and as private data whatever that file system's open returned for the path, also
-- an error code; no other slot changes.
pub fopen-Opened :
    (ops : FileOps) (s : Files) (filename mode_str : ℕ)
    → let (root_path, store) = ops.parse filename s.store in
      Opened s
        (opened_descriptor ops root_path (file_mode_from_string store.memory mode_str) store)
        (fopen ops s filename mode_str)
unfolding fopen
fopen-Opened ops s filename mode_str =
    let (root_path, store) = ops.parse filename s.store in
    open_path-Opened ops root_path mode_str (record s { store = store })
