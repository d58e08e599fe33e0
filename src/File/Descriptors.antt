-- ===== src/File/Descriptors.antt =====
-- The table of open files.
use nuts_os.Base.{
  ℕ, ◌+◌, ◌-◌, ◌≡◌, ◌≢◌, ◌⊎◌, ◌<◌, ◌==◌, ◌||◌, if◌then◌else◌, leb, update, arith, refl, Bool-cases,
  Option-cases, inl, inr, some, enomem, ap,
}
use nuts_os.Base.Int.{ℤ, pos, negsuc}
use nuts_os.Fat.{neg}
use nuts_os.Heap.Kernel.{kzalloc}
use nuts_os.File.{
  Files, Filesystem, FileDescriptor, free_slot, descriptor_in, file_descriptor_new,
  file_get_descriptor, null_descriptor, fclose,
}
use nuts_os.File.Systems.{free_slot-some, free_slot-none}

file_get_descriptor_at :
    (s : Files) (fd : ℕ)
    → fd + 1 < 1024
    → file_get_descriptor s (pos (fd + 1)) ≡ s.file_descriptors fd
unfolding file_get_descriptor
file_get_descriptor_at s fd h = ground arith

pub new_descriptor :
    (s : Files) (k : ℕ)
    → free_slot s.file_descriptors 1024 0 ≡ some k
    → file_descriptor_new s ≡ (0, (descriptor_in s k).0, (descriptor_in s k).1)
unfolding file_descriptor_new
new_descriptor s k e = rw (e, file_descriptor_new) refl

stands_after :
    (f : ℕ → FileDescriptor) (desc index : ℕ)
    → update f desc (record null_descriptor { index = index }) desc
      ≡ record null_descriptor { index = index }
stands_after f desc index = ground arith

found_after :
    (table : ℕ → ℕ) (desc k : ℕ)
    → k < 1024
    → (if (k + 1 == 0) || leb 1024 (k + 1) then 0 else update table k desc (k + 1 - 1))
      ≡ (if k + 1 == 1024 then 0 else desc)
found_after table desc k h = ground arith

others_after :
    (table : ℕ → ℕ) (desc k fd : ℕ)
    → fd ≢ k + 1
    → (if (fd == 0) || leb 1024 fd then 0 else update table k desc (fd - 1))
      ≡ (if (fd == 0) || leb 1024 fd then 0 else table (fd - 1))
others_after table desc k fd h = ground arith

-- Where all 1024 slots are taken a descriptor is refused with -ENOMEM and nothing changes. Else it
-- takes the first empty slot k, holds zeros but for its index k + 1, and file_get_descriptor finds
-- what kzalloc returned under k + 1, unless that is 1024; every other number finds what it did.
pub file_descriptor_new_lem :
    (s : Files)
    → (((i : ℕ) → i < 1024 → s.file_descriptors i ≢ 0)
        × (file_descriptor_new s ≡ (neg enomem, 0, s)))
      ⊎ ((k : ℕ) × (k < 1024)
          × (s.file_descriptors k ≡ 0)
          × ((j : ℕ) → j < k → s.file_descriptors j ≢ 0)
          × let (res, desc, s') = file_descriptor_new s in
            (res ≡ 0)
            × (desc ≡ (kzalloc s.store.heap s.store.memory 20).0)
            × (s'.descriptor_at desc ≡ record null_descriptor { index = k + 1 })
            × (file_get_descriptor s' (pos (k + 1)) ≡ (if k + 1 == 1024 then 0 else desc))
            × ((fd : ℕ)
                → fd ≢ k + 1
                → file_get_descriptor s' (pos fd) ≡ file_get_descriptor s (pos fd)))
unfolding file_get_descriptor file_descriptor_new
file_descriptor_new_lem s = elim (Option-cases (free_slot s.file_descriptors 1024 0)) [
  | inl e ↦ inl (
    λ i h. free_slot-none s.file_descriptors 1024 0 e i (omega arith) (omega arith),
    ground arith,
  )
  | inr (k, e) ↦
      let (low, high, empty, used) = free_slot-some s.file_descriptors 1024 0 k e in
      inr (
        k,
        omega arith,
        empty,
        λ j h. used j (omega arith) h,
        rw (new_descriptor s k e) (
          refl,
          refl,
          stands_after s.descriptor_at (descriptor_in s k).0 (k + 1),
          found_after s.file_descriptors (descriptor_in s k).0 k (omega arith),
          λ fd h. others_after s.file_descriptors (descriptor_in s k).0 k fd h,
        ),
      )
]

same_table :
    (s s' : Files) (fd : ℤ)
    → s'.file_descriptors ≡ s.file_descriptors
    → file_get_descriptor s' fd ≡ file_get_descriptor s fd
unfolding file_get_descriptor
same_table s s' (negsuc _) e = refl
same_table s s' (pos fd) e =
    ap (λ (t : ℕ → ℕ). if (fd == 0) || leb 1024 fd then 0 else t (fd - 1)) e

fclose-file_descriptors :
    (system_at : ℕ → Filesystem) (s : Files) (fd : ℤ)
    → (fclose system_at s fd).1.file_descriptors ≡ s.file_descriptors
unfolding fclose
fclose-file_descriptors system_at s fd = elim (Bool-cases (file_get_descriptor s fd == 0)) [
  | inl e ↦ rw (e, fclose) refl
  | inr e ↦ rw (e, fclose) refl
]

-- Closing a file leaves the table as it is, so its number still names the closed descriptor.
pub fclose-file_get_descriptor :
    (system_at : ℕ → Filesystem) (s : Files) (fd fd' : ℤ)
    → file_get_descriptor (fclose system_at s fd).1 fd' ≡ file_get_descriptor s fd'
fclose-file_get_descriptor system_at s fd fd' =
    same_table s (fclose system_at s fd).1 fd' (fclose-file_descriptors system_at s fd)
