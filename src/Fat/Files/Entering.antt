-- ===== src/Fat/Files/Entering.antt =====
-- The way of fat16_get_directory_entry through a directory that was loaded.
use nuts_os.Base.{ℕ, suc, ◌≡◌, ◌≢◌, ◌==◌, false, none, some, arith, refl, ◌∙◌}
use nuts_os.Heap.{Heap}
use nuts_os.Heap.Store.{Store}
use nuts_os.Disk.{Drive}
use nuts_os.Path.{PathPart}
use nuts_os.Fat.{FatDirectory, loaded, FatItem, directory, FatDisk}
use nuts_os.Fat.Items.{fat_item_free, free_content, free_directory}
use nuts_os.Fat.Directory.{find_item_in_directory, entry_loop, give_up}
use nuts_os.Fat.Volume.Blocks.{IsGiven, IsGiven-later, kfree-some}

-- The item of a loaded directory is freed, whatever was allocated since.
pub directory_freed :
    (p : ℕ) (d : FatDirectory) (s : Store)
    → IsGiven s.heap p
    → IsGiven s.heap d.addr
    → IsGiven s.heap d.items_addr
    → (h : Heap) × (fat_item_free (directory p (loaded d)) s ≡ some (record s { heap = h }))
      × (h.saddr ≡ s.heap.saddr)
unfolding fat_item_free free_content free_directory
directory_freed p d s given given_d given_items =
    let ne : (d.items_addr == 0) ≡ false = ground (arith, given_items.nonnull) in
    let (h₁, e₁, a₁) = kfree-some s.heap d.items_addr given_items in
    let (h₂, e₂, a₂) = kfree-some h₁ d.addr (IsGiven-later s.heap h₁ d.addr given_d a₁) in
    let (h₃, e₃, a₃) = kfree-some h₂ p (IsGiven-later s.heap h₂ p given (a₂ ∙ a₁)) in
    (h₃, rw (ne, e₁, e₂, e₃, fat_item_free, free_content, free_directory) refl, a₃ ∙ a₂ ∙ a₁)

module _ (fuel : ℕ) (drive : Drive) (disk : FatDisk) where
  -- The search in the directory that is loaded, and the end of the path behind it.
  module _ (part_at : ℕ → PathPart) (next p : ℕ) (d : FatDirectory) (s : Store) (more : next ≢ 0)
      (last : (part_at next).next ≡ 0) (given : IsGiven s.heap p) (given_d : IsGiven s.heap d.addr)
      (given_items : IsGiven s.heap d.items_addr) where
    pub entry_loop-missing :
        find_item_in_directory (suc (suc fuel)) drive disk d (part_at next).part s ≡ some (none, s)
        → (h : Heap) × (entry_loop
              (suc (suc fuel))
              (suc (suc fuel))
              drive
              disk
              part_at
              (directory p (loaded d))
              next
              s
            ≡ some (none, record s { heap = h }))
          × (h.saddr ≡ s.heap.saddr)
    unfolding entry_loop give_up
    entry_loop-missing e =
        let ne : (next == 0) ≡ false = ground (arith, more) in
        let (h, freed, at) = directory_freed p d s given given_d given_items in
        (h, rw (ne, e, freed, entry_loop, give_up) refl, at)

    pub entry_loop-found :
        (item : FatItem) (s' : Store)
        → find_item_in_directory (suc (suc fuel)) drive disk d (part_at next).part s
          ≡ some (some item, s')
        → s'.heap.saddr ≡ s.heap.saddr
        → (h : Heap) × (entry_loop
              (suc (suc fuel))
              (suc (suc fuel))
              drive
              disk
              part_at
              (directory p (loaded d))
              next
              s
            ≡ some (some item, record s' { heap = h }))
    unfolding entry_loop
    entry_loop-found item s' e start =
        let ne : (next == 0) ≡ false = ground (arith, more) in
        let (h, freed, _) =
          directory_freed p d s' (IsGiven-later s.heap s'.heap p given start)
            (IsGiven-later s.heap s'.heap d.addr given_d start)
            (IsGiven-later s.heap s'.heap d.items_addr given_items start) in
        (h, rw (ne, e, freed, last, entry_loop) refl)
