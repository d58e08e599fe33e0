-- ===== src/Fat/Files/Opening.antt =====
-- fat16_open: a file of the root directory, found by its name.
use nuts_os.Base.{
  ℕ, suc, ◌≤◌, ◌≡◌, ◌≢◌, ◌==◌, false, List, Option, none, some, Option-cases, arith, refl, ap, ◌∙◌,
  inl, inr, eio,
}
use nuts_os.Heap.Store.{Store, IsUsable, free_blocks, Fresh-Extends, zalloc}
use nuts_os.Heap.Store.Taking.{zalloc-Fresh}
use nuts_os.Heap.{Heap}
use nuts_os.Heap.Kernel.{kfree}
use nuts_os.Disk.{Drive}
use nuts_os.Path.{PathPart}
use nuts_os.Path.Buffer.{IsText, IsText-Extends}
use nuts_os.File.{mode_read}
use nuts_os.Fat.{FatDirectoryItem, FatItem, file, FatDisk, neg, is_err, has_subdirectory}
use nuts_os.Fat.Items.{new_fat_item, copy_directory_item}
use nuts_os.Fat.Directory.{find_item_in_directory, get_directory_entry, entry_loop}
use nuts_os.Fat.Directory.Find.{first_named, made, find_item_in_directory_lem}
use nuts_os.Fat.Volume.Blocks.{Fresh-IsGiven, IsGiven-later, kfree-some}
use nuts_os.Fat.Files.{FatFilePtr, opened, refused, fat_open}
use nuts_os.Fat.Files.Position.{open_file}

-- An item that is no directory, on a usable heap with two free blocks.
pub new_fat_item-file :
    (fuel : ℕ) (drive : Drive) (disk : FatDisk) (item : FatDirectoryItem) (s : Store)
    → has_subdirectory item ≡ false
    → IsUsable s.heap
    → 2 ≤ free_blocks s.heap
    → (p : ℕ) × (c : ℕ) × (s' : Store) × (new_fat_item fuel drive disk item s
        ≡ some (some (file p c item), s'))
      × (c ≢ 0)
      × (s'.heap.saddr ≡ s.heap.saddr)
unfolding new_fat_item copy_directory_item
new_fat_item-file fuel drive disk item s plain u room =
    let f = zalloc-Fresh s 8 u (omega arith) (omega arith) (omega arith) in
    let s₁ = (zalloc s 8).1 in
    let f' = zalloc-Fresh s₁ 32 f.usable (omega arith) (omega arith) (omega (arith, f.room)) in
    let ne : ((zalloc s 8).0 == 0) ≡ false = ground (arith, f.nonnull) in
    (
      (zalloc s 8).0,
      (zalloc s₁ 32).0,
      (zalloc s₁ 32).1,
      rw (ne, plain, new_fat_item) refl,
      f'.nonnull,
      f'.start ∙ f.start,
    )

-- What opening comes to, for the item that the name finds.
abbrev pub Answer : (ℕ → FatDirectoryItem) → Option ℕ → Option (FatFilePtr × Store) → Type 0
Answer items none result = (s' : Store) × (result ≡ some (refused (neg eio), s'))
Answer items (some i) result =
    (a : ℕ) × (p : ℕ) × (c : ℕ) × (s' : Store) × (result
      ≡ some (opened (open_file a p c (items i) 0), s'))
    × (c ≢ 0)

module _ (fuel : ℕ) (drive : Drive) (disk : FatDisk) (part_at : ℕ → PathPart) (path : ℕ)
    (s : Store) where
  -- The state once the descriptor is allocated.
  abbrev pub with_descriptor : Store
  with_descriptor = (zalloc s 8).1

  entry_found :
      (item : FatItem) (s' : Store)
      → (part_at path).next ≡ 0
      → find_item_in_directory
          (suc fuel)
          drive
          disk
          disk.fs_private.root_directory
          (part_at path).part
          with_descriptor
        ≡ some (some item, s')
      → get_directory_entry (suc fuel) drive disk part_at path with_descriptor
        ≡ some (some item, s')
  unfolding get_directory_entry entry_loop
  entry_found item s' last e = rw (e, last, get_directory_entry, entry_loop) refl

  entry_missing :
      (s' : Store)
      → find_item_in_directory
          (suc fuel)
          drive
          disk
          disk.fs_private.root_directory
          (part_at path).part
          with_descriptor
        ≡ some (none, s')
      → get_directory_entry (suc fuel) drive disk part_at path with_descriptor ≡ some (none, s')
  unfolding get_directory_entry
  entry_missing s' e = rw (e, get_directory_entry) refl

  pub open_found :
      (item : FatItem) (s' : Store)
      → (zalloc s 8).0 ≢ 0
      → get_directory_entry (suc fuel) drive disk part_at path with_descriptor
        ≡ some (some item, s')
      → fat_open (suc fuel) drive disk part_at path mode_read s
        ≡ some (opened (record { addr = (zalloc s 8).0; item = item; pos = 0 }), s')
  unfolding fat_open
  open_found item s' ne e =
      let known : ((zalloc s 8).0 == 0) ≡ false = ground arith in rw (known, e, fat_open) refl

  pub open_missing :
      (s' : Store)
      → (zalloc s 8).0 ≢ 0
      → get_directory_entry (suc fuel) drive disk part_at path with_descriptor ≡ some (none, s')
      → (h : Heap) × (kfree s'.heap (zalloc s 8).0 ≡ some h)
      → (t : Store) × (fat_open (suc fuel) drive disk part_at path mode_read s
          ≡ some (refused (neg eio), t))
  unfolding fat_open
  open_missing s' ne e (h, freed) =
      let known : ((zalloc s 8).0 == 0) ≡ false = ground arith in
      (record s' { heap = h }, rw (known, e, freed, fat_open) refl)

-- fat16_open for reading, of a path of one part that stands in no free block, on a usable heap with
-- three free blocks, given a round of fuel, and a root directory whose total is no error, where the
-- first item that has the part as its name is a file, if there is one: opens that file at position
-- 0, and refuses with -EIO where no item has the name.
pub fat_open-Answer :
    (fuel : ℕ) (drive : Drive) (disk : FatDisk) (part_at : ℕ → PathPart) (path : ℕ) (s : Store)
    (cs : List ℕ)
    → IsUsable s.heap
    → 3 ≤ free_blocks s.heap
    → IsText s (part_at path).part cs
    → (part_at path).next ≡ 0
    → is_err disk.fs_private.root_directory.total ≡ false
    → ((i : ℕ)
        → first_named disk.fs_private.root_directory.item disk.fs_private.root_directory.total 0 cs
          ≡ some i
        → has_subdirectory (disk.fs_private.root_directory.item i) ≡ false)
    → Answer disk.fs_private.root_directory.item
        (first_named disk.fs_private.root_directory.item disk.fs_private.root_directory.total 0 cs)
        (fat_open (suc fuel) drive disk part_at path mode_read s)
fat_open-Answer fuel drive disk part_at path s cs u room text last fine plain =
    let root = disk.fs_private.root_directory in
    let f = zalloc-Fresh s 8 u (omega arith) (omega arith) (omega arith) in
    let s₁ = (zalloc s 8).1 in
    let text' =
      IsText-Extends s s₁ (part_at path).part cs (Fresh-Extends s s₁ (zalloc s 8).0 8 f) text in
    let find =
      find_item_in_directory_lem (suc fuel) drive disk root (part_at path).part s₁ cs text'.spells
        fine in
    elim (Option-cases (first_named root.item root.total 0 cs)) [
      | inl e ↦
          let given =
            IsGiven-later s.heap s₁.heap (zalloc s 8).0 (Fresh-IsGiven s s₁ (zalloc s 8).0 8 f)
              f.start in
          let (h, freed, _) = kfree-some s₁.heap (zalloc s 8).0 given in
          rw e (
            open_missing fuel drive disk part_at path s s₁ f.nonnull
              (entry_missing fuel drive disk part_at path s s₁
                (find ∙ ap (λ o. made (suc fuel) drive disk root.item o s₁) e))
              (h, freed))
      | inr (i, e) ↦
          let (p, c, s₂, new, ne, _) =
            new_fat_item-file (suc fuel) drive disk (root.item i) s₁ (plain i e) f.usable
              (omega (arith, f.room)) in
          rw e (
            (zalloc s 8).0,
            p,
            c,
            s₂,
            open_found fuel drive disk part_at path s (file p c (root.item i)) s₂ f.nonnull (
                entry_found fuel drive disk part_at path s (file p c (root.item i)) s₂ last
                  (find ∙ ap (λ o. made (suc fuel) drive disk root.item o s₁) e ∙ new)),
            ne,
          )
    ]
