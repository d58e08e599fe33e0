-- ===== src/Fat/Items/Load.antt =====
-- fat16_load_fat_directory: a directory that ends inside its first cluster.
use nuts_os.Base.{
  ℕ, suc, ◌+◌, ◌-◌, ◌*◌, ◌%◌, ◌^◌, ◌<◌, ◌≤◌, ◌≡◌, ◌==◌, true, false, some, arith, refl, ap, sym,
  ◌∙◌, inl, inr,
}
use mathlib.Core.Path.{subst}
use nuts_os.Memory.{Mem}
use nuts_os.Heap.Store.{
  Store, IsUsable, free_blocks, Fresh, Fresh-apart, Fresh-Extends, Extends, Extends-trans, zalloc,
}
use nuts_os.Heap.Store.Taking.{zalloc-Fresh}
use nuts_os.Disk.{Drive}
use nuts_os.Disk.Sector.{Holds, IsBytes}
use nuts_os.Disk.Stream.{at_pos, Loaded}
use nuts_os.Fat.{FatDirectoryItem, FatDirectory, loaded, FatDisk, has_subdirectory, is_err}
use nuts_os.Fat.Clusters.{cluster_to_sector, read_internal}
use nuts_os.Fat.Clusters.Entries.{IsMounted, follow}
use nuts_os.Fat.Clusters.Rounds.{base, bpc, div_small}
use nuts_os.Fat.Clusters.Reads.{one_round}
use nuts_os.Fat.Items.{items_at, load_fat_directory, load_counted, load_items}
use nuts_os.Fat.Items.Count.{used, EndsAt, get_total_items_for_directory_lem}
use nuts_os.Fat.Volume.Blocks.{IsGiven, IsGiven-later, Fresh-IsGiven}

-- A directory in memory, with the used items of the image from `pos` on.
pub record Filled (image : ℕ → ℕ) (pos n : ℕ) (s s' : Store) (d : FatDirectory) : Type 0 where
  pub total : d.total ≡ n
  pub item : d.item ≡ items_at s'.memory d.items_addr
  pub bytes : (a : ℕ) → a < 32 * n → s'.memory (d.items_addr + a) ≡ image (pos + a)
  pub extends : Extends s s'
  pub room : free_blocks s'.heap + 2 ≡ free_blocks s.heap
  pub start : s'.heap.saddr ≡ s.heap.saddr
  pub given : IsGiven s'.heap d.addr
  pub given_items : IsGiven s'.heap d.items_addr

-- Reading into a new block touches nothing that was safe.
read-Extends :
    (s s' : Store) (p n : ℕ) (image : ℕ → ℕ) (pos : ℕ) (m : Mem)
    → Fresh s s' p n
    → n ≤ 4096
    → Loaded image pos p n s'.memory m
    → Extends s (record s' { memory = m })
read-Extends s s' p n image pos m f small l = record {
  usable = f.usable;
  kept_safe = f.kept_safe;
  kept = λ a safe. elim (Fresh-apart s s' p n a f safe) [
    | inl low ↦ ground (arith, l a, f.kept a safe)
    | inr high ↦ ground (arith, l a, f.kept a safe)
  ];
}

-- A directory at a cluster below 2 GiB, up to its first free item: its items' bytes and their
-- count, where the array takes at most a block.
pub record Fits (image : ℕ → ℕ) (disk : FatDisk) (c k : ℕ) : Type 0 where
  pub cluster : c < 2 ^ 16
  pub low : base disk c + bpc disk < 2 ^ 31
  pub ends : EndsAt image (base disk c) k
  pub items_low : base disk c + 32 * (k + 1) < 2 ^ 31
  pub some_used : 0 < used image (base disk c) k
  pub one_cluster : 32 * used image (base disk c) k ≤ bpc disk
  pub one_block : 32 * used image (base disk c) k ≤ 4096

zero_mod : (b : ℕ) → 0 < b → 0 % b ≡ 0
zero_mod b h = grind arith

module _ (drive : Drive) (image : ℕ → ℕ) (holds : Holds drive image) (bytes : IsBytes image)
    (disk : FatDisk) (mounted : IsMounted disk) (c k : ℕ) (fits : Fits image disk c k) where
  abbrev n : ℕ
  n = used image (base disk c) k

  -- The read of the array, all of it in the first cluster.
  read_array :
      (fuel p : ℕ) (m : Mem)
      → (m' : Mem) × (read_internal (suc fuel) drive disk c 0 (32 * n) p m ≡ some (0, m'))
        × Loaded image (base disk c) p (32 * n) m m'
  read_array fuel p m =
      let whole = zero_mod (bpc disk) mounted.cluster_bytes in
      let reach = ap (λ q. follow image disk q c) (div_small 0 (bpc disk) mounted.cluster_bytes) in
      let (m', e, l) =
        one_round drive image holds bytes disk mounted fuel c c 0 (32 * n) p m fits.cluster
          (omega arith) reach (omega (arith, fits.cluster)) fits.low
          (omega (arith, whole, fits.one_cluster)) in
      let at : base disk c + 0 % bpc disk ≡ base disk c = omega (arith, whole) in
      (m', e, subst (λ q. Loaded image q p (32 * n) m m') at l)

  sized :
      (fuel z p : ℕ) (m : Mem)
      → z ≡ 32 * n
      → (m' : Mem) × (read_internal (suc fuel) drive disk c 0 z p m ≡ some (0, m'))
        × Loaded image (base disk c) p z m m'
  sized fuel z p m e =
      subst
        (λ y.
          (m' : Mem) × (read_internal (suc fuel) drive disk c 0 y p m ≡ some (0, m'))
          × Loaded image (base disk c) p y m m')
        (sym e) (read_array fuel p m)

  load_items-Filled :
      (fuel addr : ℕ) (s₀ s : Store)
      → Fresh s₀ s addr 16
      → 1 ≤ free_blocks s.heap
      → (d : FatDirectory) × (s' : Store) × (load_items (suc fuel) drive disk c addr n s
          ≡ some (loaded d, s'))
        × Filled image (base disk c) n s₀ s' d
  unfolding load_items
  load_items-Filled fuel addr s₀ s g room =
      let size : n * 32 % 2 ^ 32 ≡ 32 * n = omega (arith, fits.one_block) in
      let z : ℕ = n * 32 % 2 ^ 32 in
      let small : z ≤ 4096 = omega (arith, size, fits.one_block) in
      let f = zalloc-Fresh s z g.usable (omega (arith, size, fits.some_used)) small room in
      let (p, s₁) = zalloc s z in
      let ne : (p == 0) ≡ false = ground (arith, f.nonnull) in
      let (m', e, l) = sized fuel z p s₁.memory size in
      (
        record {
          addr = addr;
          items_addr = p;
          item = items_at m' p;
          total = n;
          sector_pos = 0;
          ending_sector_pos = 0;
        },
        record s₁ { memory = m' },
        rw ne (rw e refl),
        record {
          total = refl;
          item = refl;
          bytes = λ a h. ground (arith, l (p + a), ap image (at p a), size);
          extends =
              Extends-trans s₀ s (record s₁ { memory = m' }) (Fresh-Extends s₀ s addr 16 g)
                (read-Extends s s₁ p z image (base disk c) m' f small l);
          room = omega (arith, f.room, g.room);
          start = f.start ∙ g.start;
          given =
              IsGiven-later s₀.heap s₁.heap addr (Fresh-IsGiven s₀ s addr 16 g) (f.start ∙ g.start);
          given_items = IsGiven-later s.heap s₁.heap p (Fresh-IsGiven s s₁ p z f) f.start;
        },
      )
    where
      at : (p a : ℕ) → base disk c + (p + a - p) ≡ base disk c + a
      at p a = omega arith

  -- On a mounted disk with an open directory stream, whose drive holds a byte image, and a usable
  -- heap with two free blocks: for an item that is a directory, whose items end inside its first
  -- cluster, which is below 2 GiB, and take at most a block of memory, with one in use at least,
  -- fat16_load_fat_directory, given more fuel than the directory has items up to its end, loads the
  -- array of its used items, and leaves all else that was in use as it was.
  pub load_fat_directory-Filled :
      (fuel q : ℕ) (item : FatDirectoryItem) (s : Store)
      → disk.fs_private.directory_stream ≡ some (at_pos q)
      → has_subdirectory item ≡ true
      → item.low_16_bits_first_cluster ≡ c
      → k ≤ fuel
      → IsUsable s.heap
      → 2 ≤ free_blocks s.heap
      → (d : FatDirectory) × (s' : Store) × (load_fat_directory (suc fuel) drive disk item s
          ≡ some (loaded d, s'))
        × Filled image (base disk c) n s s' d
  unfolding load_fat_directory load_counted
  load_fat_directory-Filled fuel q item s open_stream sub first enough u room =
      let g = zalloc-Fresh s 16 u (omega arith) (omega arith) (omega arith) in
      let (addr, s₁) = zalloc s 16 in
      let ne : (addr == 0) ≡ false = ground (arith, g.nonnull) in
      let count =
        get_total_items_for_directory_lem drive image holds bytes disk q (suc fuel)
          (cluster_to_sector disk.fs_private c) k open_stream fits.items_low fits.ends
          (omega arith) in
      let fine : is_err n ≡ false = ground (arith, fits.one_block) in
      let (d, s', e, filled) = load_items-Filled fuel addr s s₁ g (omega (arith, g.room)) in
      (d, s', rw sub (rw ne (rw first (rw count (rw fine e)))), filled)
