-- ===== src/File/Systems.antt =====
-- The table of file systems.
use nuts_os.Base.{
  ℕ, zero, suc, ◌+◌, ◌≡◌, ◌≢◌, ◌⊎◌, ◌<◌, ◌≤◌, ◌==◌, if◌then◌else◌, arith, refl, Bool-cases,
  Option-cases, inl, inr, none, some, enomem,
}
use nuts_os.Fat.{neg}
use nuts_os.Heap.Store.{Store}
use nuts_os.File.{
  Filesystem, Files, free_slot, fs_get_free_filesystem, fs_insert_filesystem, fs_resolve,
  resolve_loop, fs_init,
}

pub free_slot-some :
    (table : ℕ → ℕ) (left i k : ℕ)
    → free_slot table left i ≡ some k
    → (i ≤ k) × (k < i + left) × (table k ≡ 0) × ((j : ℕ) → i ≤ j → j < k → table j ≢ 0)
unfolding free_slot
free_slot-some table zero i k e = absurd (ground arith)
free_slot-some table (suc left) i k e = elim (Bool-cases (table i == 0)) [
  | inl z ↦
      let same : i ≡ k = ground arith in
      (omega arith, omega arith, ground arith, λ j h h'. absurd (omega arith))
  | inr nz ↦
      let later : free_slot table left (i + 1) ≡ some k = ground arith in
      let (low, high, empty, used) = free_slot-some table left (i + 1) k later in
      (omega arith, omega arith, empty, λ j h h'. ground (arith, used j))
]

pub free_slot-none :
    (table : ℕ → ℕ) (left i : ℕ)
    → free_slot table left i ≡ none
    → (j : ℕ) → i ≤ j
    → j < i + left
    → table j ≢ 0
unfolding free_slot
free_slot-none table zero i e j h h' = absurd (omega arith)
free_slot-none table (suc left) i e j h h' = elim (Bool-cases (table i == 0)) [
  | inl z ↦ absurd (ground arith)
  | inr nz ↦
      let later : free_slot table left (i + 1) ≡ none = ground arith in
      ground (arith, free_slot-none table left (i + 1) later j)
]

-- The first empty slot is found.
pub free_slot_at :
    (table : ℕ → ℕ) (left i k : ℕ)
    → i ≤ k
    → k < i + left
    → table k ≡ 0
    → ((j : ℕ) → i ≤ j → j < k → table j ≢ 0)
    → free_slot table left i ≡ some k
unfolding free_slot
free_slot_at table zero i k h h' e used = absurd (omega arith)
free_slot_at table (suc left) i k h h' e used = elim (Bool-cases (i == k)) [
  | inl here ↦ ground arith
  | inr later ↦ ground (
    arith,
    used i,
    free_slot_at table left (i + 1) k (ground arith) (omega arith) e
        (λ j g g'. used j (omega arith) g'),
  )
]

-- A file system is refused with -ENOMEM where all 16 slots are taken; else it takes the first empty
-- slot, and the others stay as they are.
pub fs_insert_filesystem_lem :
    (s : Files) (filesystem : ℕ)
    → (((i : ℕ) → i < 16 → s.filesystems i ≢ 0)
        × (fs_insert_filesystem s filesystem ≡ (neg enomem, s)))
      ⊎ ((k : ℕ) × (k < 16)
          × (s.filesystems k ≡ 0)
          × ((j : ℕ) → j < k → s.filesystems j ≢ 0)
          × ((fs_insert_filesystem s filesystem).0 ≡ 0)
          × ((i : ℕ)
              → (fs_insert_filesystem s filesystem).1.filesystems i
                ≡ (if i == k then filesystem else s.filesystems i)))
unfolding fs_insert_filesystem fs_get_free_filesystem
fs_insert_filesystem_lem s filesystem = elim (Option-cases (free_slot s.filesystems 16 0)) [
  | inl e ↦
      inl (λ i h. free_slot-none s.filesystems 16 0 e i (omega arith) (omega arith), ground arith)
  | inr (k, e) ↦
      let (low, high, empty, used) = free_slot-some s.filesystems 16 0 k e in
      inr (k, omega arith, empty, λ j h. used j (omega arith) h, ground arith, λ i. ground arith)
]

resolve_loop-empty :
    (system_at : ℕ → Filesystem) (disk left i : ℕ) (filesystems : ℕ → ℕ) (store : Store)
    → ((j : ℕ) → i ≤ j → j < i + left → filesystems j ≡ 0)
    → resolve_loop system_at disk left i filesystems store ≡ (0, store)
unfolding resolve_loop
resolve_loop-empty system_at disk zero i filesystems store empty = refl
resolve_loop-empty system_at disk (suc left) i filesystems store empty = ground (
  arith,
  empty i (omega arith) (omega arith),
  resolve_loop-empty system_at disk left (i + 1) filesystems store
      (λ j h h'. empty j (omega arith) (omega arith)),
)

-- The rounds of fs_resolve over a table that has one file system, in its first slot.
resolve_loop-single :
    (system_at : ℕ → Filesystem) (disk left fat16 : ℕ) (filesystems : ℕ → ℕ) (store : Store)
    → fat16 ≢ 0
    → filesystems 0 ≡ fat16
    → ((j : ℕ) → 1 ≤ j → filesystems j ≡ 0)
    → let (res, store') = (system_at fat16).resolve disk store in
      resolve_loop system_at disk (suc left) 0 filesystems store
      ≡ ((if res == 0 then fat16 else 0), store')
unfolding resolve_loop
resolve_loop-single system_at disk left fat16 filesystems store ne first rest = ground (
  arith,
  resolve_loop-empty system_at disk left 1 filesystems ((system_at fat16).resolve disk store).1
      (λ j h h'. rest j h),
)

fs_init-filesystems :
    (s : Files) (fat16 i : ℕ) → (fs_init s fat16).filesystems i ≡ (if i == 0 then fat16 else 0)
unfolding fs_init fs_insert_filesystem fs_get_free_filesystem free_slot
fs_init-filesystems s fat16 i = ground arith

fs_init-store : (s : Files) (fat16 : ℕ) → (fs_init s fat16).store ≡ s.store
unfolding fs_init fs_insert_filesystem fs_get_free_filesystem free_slot
fs_init-store s fat16 = refl

-- After fs_init, with a FAT16 file system that is not null, a disk is resolved to that file system
-- exactly if it accepts the disk, and else to null; what its resolve does to memory is kept either
-- way.
pub fs_init-fs_resolve :
    (system_at : ℕ → Filesystem) (s : Files) (fat16 disk : ℕ)
    → fat16 ≢ 0
    → let (res, store') = (system_at fat16).resolve disk s.store in
      ((fs_resolve system_at (fs_init s fat16) disk).0 ≡ (if res == 0 then fat16 else 0))
      × ((fs_resolve system_at (fs_init s fat16) disk).1.store ≡ store')
unfolding fs_resolve
fs_init-fs_resolve system_at s fat16 disk ne =
    let single =
      resolve_loop-single system_at disk 15 fat16 (fs_init s fat16).filesystems s.store ne
        (ground (arith, fs_init-filesystems s fat16 0))
        (λ j h. ground (arith, fs_init-filesystems s fat16 j)) in
    rw (fs_init-store s fat16, single) (refl, refl)
