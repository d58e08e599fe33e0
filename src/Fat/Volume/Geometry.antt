-- ===== src/Fat/Volume/Geometry.antt =====
-- fat16_resolve on a drive that holds an image: the geometry of the volume and its root directory.
use nuts_os.Base.{
  eq→==, ℕ, ◌+◌, ◌-◌, ◌*◌, ◌/◌, ◌%◌, ◌^◌, ◌<◌, ◌≤◌, ◌≡◌, ◌==◌, true, false, some, if◌then◌else◌,
  arith, ap, sym, ◌∙◌, refl,
}
use nuts_os.Memory.{Mem}
use nuts_os.Heap.Store.{Store, IsUsable, free_blocks, zalloc}
use nuts_os.Heap.Store.Taking.{zalloc-Fresh}
use nuts_os.Disk
use nuts_os.Disk.{Drive, DiskStream, stream_new, disk_get}
use nuts_os.Disk.Sector.{Holds, IsBytes}
use nuts_os.Disk.Stream.{Loaded, at_pos, read-Loaded}
use nuts_os.Fat.{FatDisk, FatHeader, FatPrivate, FatDirectory, header_at, le_16}
use nuts_os.Fat.Clusters.Entries.{IsMounted}
use nuts_os.Fat.Items.{items_at, get_total_items_for_directory}
use nuts_os.Fat.Items.Count.{EndsAt, used, get_total_items_for_directory_lem}
use nuts_os.Fat.Volume.{
  root_dir_sector_pos, root_dir_size, total_root_sectors, read_root_items, get_root_directory,
  finish, with_geometry, resolve_header, sector_to_abs_address,
}
use nuts_os.Fat.Volume.Blocks.{Grown, Fresh-Grown, IsGiven, IsGiven-later, finish_ok}

-- The header at the start of the image.
abbrev pub boot_header : (ℕ → ℕ) → FatHeader
boot_header image = header_at image 0

module _ (image : ℕ → ℕ) (p : ℕ) (m m' : Mem) (l : Loaded image 0 p 62 m m') where
  header_byte : (k : ℕ) → k < 62 → m' (p + k) ≡ image k
  header_byte k small = ground (arith, l (p + k), ap image (behind k))
    where
      behind : (k : ℕ) → 0 + (p + k - p) ≡ k
      behind k = omega arith

  header_word : (k : ℕ) → k + 1 < 62 → le_16 m' (p + k) ≡ le_16 image k
  header_word k small =
      omega (arith, header_byte k (omega arith), header_byte (k + 1) small, ap m' (next k))
    where
      next : (k : ℕ) → p + k + 1 ≡ p + (k + 1)
      next k = omega arith

  pub header_read : header_at m' p ≡ boot_header image
  header_read = λ i. record {
    sectors_per_cluster = header_byte 13 (omega arith) i;
    reserved_sectors = header_word 14 (omega arith) i;
    fat_copies = header_byte 16 (omega arith) i;
    root_dir_entries = header_word 17 (omega arith) i;
    sectors_per_fat = header_word 22 (omega arith) i;
    signature = header_byte 38 (omega arith) i;
  }

-- The first sector of the root directory.
abbrev pub root_sector : FatHeader → ℕ
root_sector h = h.fat_copies * h.sectors_per_fat + h.reserved_sectors

-- The root directory as it was read.
abbrev pub root_read : FatDisk → FatDirectory → ℕ → ℕ → Mem → FatDirectory
root_read disk root total_items dir m = record root {
  items_addr = dir;
  item = items_at m dir;
  total = total_items;
  sector_pos = root_dir_sector_pos disk.fs_private;
  ending_sector_pos = root_dir_sector_pos disk.fs_private + total_root_sectors disk;
}

module _ (drive : Drive) (image : ℕ → ℕ) (holds : Holds drive image) (bytes : IsBytes image) where
  read_root_items-Loaded :
      (disk : FatDisk) (total_items : ℕ) (root : FatDirectory) (s : Store)
      → disk.fs_private.directory_stream ≡ some (at_pos 0)
      → IsUsable s.heap
      → 0 < free_blocks s.heap
      → 0 < root_dir_size disk.fs_private
      → root_dir_size disk.fs_private ≤ 4096
      → root_dir_sector_pos disk.fs_private * disk.sector_size + 4096 < 2 ^ 31
      → (dir : ℕ) × (s' : Store) × (read_root_items drive disk total_items root s
          ≡ some (0, root_read disk root total_items dir s'.memory, s'))
        × ((j : ℕ)
            → j < root_dir_size disk.fs_private
            → s'.memory (dir + j)
              ≡ image (root_dir_sector_pos disk.fs_private * disk.sector_size + j))
        × Grown s.heap s'.heap 1
  unfolding read_root_items sector_to_abs_address Disk.seek
  read_root_items-Loaded disk total_items root s open_stream u room positive small low =
      let size = root_dir_size disk.fs_private in
      let start = root_dir_sector_pos disk.fs_private * disk.sector_size in
      let f = zalloc-Fresh s size u positive small room in
      let dir = (zalloc s size).0 in
      let s' = (zalloc s size).1 in
      let ne : (dir == 0) ≡ false = ground (arith, f.nonnull) in
      let (m, e, l) = read-Loaded drive image holds bytes start dir size s'.memory (omega arith) in
      let at : start % 2 ^ 32 ≡ start = omega arith in
      (
        dir,
        record s' { memory = m },
        rw (ne, open_stream, at, e, read_root_items) refl,
        λ j h. ground (arith, l (dir + j), ap image (behind dir start j)),
        Fresh-Grown s s' dir size f,
      )
    where
      behind : (dir start j : ℕ) → start + (dir + j - dir) ≡ start + j
      behind dir start j = omega arith

-- An image of a volume: a FAT16 boot sector, and a root directory of at most 4096 bytes whose
-- `k`-th item is the first one that starts with a zero; both the directory and that item end below
-- 2 GiB.
pub record IsVolume (image : ℕ → ℕ) (k : ℕ) : Type 0 where
  pub signature : (boot_header image).signature ≡ 0x29
  pub clusters : 0 < (boot_header image).sectors_per_cluster
  pub root_some : 0 < (boot_header image).root_dir_entries
  pub root_small : (boot_header image).root_dir_entries * 32 ≤ 4096
  pub root_low : root_sector (boot_header image) * 512 + 4096 < 2 ^ 31
  pub ends : EndsAt image (root_sector (boot_header image) * 512) k
  pub items_low : root_sector (boot_header image) * 512 + 32 * (k + 1) < 2 ^ 31

-- The disk that a private structure makes.
abbrev pub disk_of : FatPrivate → FatDisk
disk_of private = record { sector_size = 512; fs_private = private }

-- What fat16_resolve leaves on a volume: the geometry that the boot sector gives, open streams, and
-- the root directory with its used items counted and its bytes in memory.
pub record Resolved (image : ℕ → ℕ) (k : ℕ) (private : FatPrivate) (m : Mem) : Type 0 where
  pub header : private.header ≡ boot_header image
  pub table : private.fat_table_address ≡ (boot_header image).reserved_sectors * 512
  pub cluster : private.bytes_per_cluster ≡ (boot_header image).sectors_per_cluster * 512
  pub mounted : IsMounted (disk_of private)
  pub total : private.root_directory.total ≡ used image (root_sector (boot_header image) * 512) k
  pub items : private.root_directory.item ≡ items_at m private.root_directory.items_addr
  pub content :
      (j : ℕ)
      → j < (boot_header image).root_dir_entries * 32
      → m (private.root_directory.items_addr + j)
        ≡ image (root_sector (boot_header image) * 512 + j)
  pub data_start :
      private.root_directory.ending_sector_pos
      ≡ root_sector (boot_header image) + ((boot_header image).root_dir_entries * 32 + 511) / 512

-- A boot sector with the signature, given what the calls for the root directory return.
header_fine :
    (fuel : ℕ) (drive : Drive) (p q total : ℕ) (private : FatPrivate) (root : FatDirectory)
    (s s₁ : Store)
    → (private.header.signature == 0x29) ≡ true
    → get_total_items_for_directory fuel drive
        (disk_of (with_geometry 512 private))
        (root_dir_sector_pos private)
      ≡ some total
    → read_root_items drive (disk_of (with_geometry 512 private)) total private.root_directory s
      ≡ some (0, root, s₁)
    → resolve_header fuel drive 512 p q private s
      ≡ finish 0 p q (record (with_geometry 512 private) { root_directory = root }) s₁
unfolding resolve_header get_root_directory
header_fine fuel drive p q total private root s s₁ signed counted e =
    rw (signed, counted, e, resolve_header, get_root_directory) refl

volume_word : (x : ℕ → ℕ) (k : ℕ) → IsBytes x → le_16 x k < 2 ^ 16
volume_word x k b = omega (arith, b k, b (k + 1))

module _ (drive : Drive) (image : ℕ → ℕ) (holds : Holds drive image) (bytes : IsBytes image)
    (k fuel : ℕ) (volume : IsVolume image k) (enough : k < fuel) where
  pub resolve_header-Resolved :
      (p q : ℕ) (private : FatPrivate) (s : Store)
      → private.cluster_read_stream ≡ some (at_pos 0)
      → private.fat_read_stream ≡ some (at_pos 0)
      → private.directory_stream ≡ some (at_pos 0)
      → IsUsable s.heap
      → 0 < free_blocks s.heap
      → IsGiven s.heap q
      → (private' : FatPrivate) × (s' : Store) × (resolve_header fuel drive 512 p q
            (record private { header = boot_header image })
            s
          ≡ some (0, some private', s'))
        × Resolved image k private' s'.memory
  resolve_header-Resolved p q private s open₁ open₂ open₃ u room given =
      let private₁ = with_geometry 512 (record private { header = boot_header image }) in
      let disk = disk_of private₁ in
      let start = root_sector (boot_header image) in
      let total = used image (start * 512) k in
      let counted =
        get_total_items_for_directory_lem drive image holds bytes disk 0 fuel start k open₃
          volume.items_low volume.ends enough in
      let (dir, s₁, e, content, grown) =
        read_root_items-Loaded drive image holds bytes disk total private₁.root_directory s open₃ u
          room (omega (arith, volume.root_some)) volume.root_small volume.root_low in
      let private' = record private₁ {
        root_directory = root_read disk private₁.root_directory total dir s₁.memory;
      } in
      let (s', done, same) =
        finish_ok p q private' s₁ (IsGiven-later s.heap s₁.heap q given grown.start) in
      let reserved = volume_word image 14 bytes in
      let table : private₁.fat_table_address ≡ (boot_header image).reserved_sectors * 512 =
        omega (arith, reserved) in
      (
        private',
        s',
        header_fine fuel drive p q total (record private { header = boot_header image })
              (root_read disk private₁.root_directory total dir s₁.memory) s s₁
              (eq→== (boot_header image).signature 0x29 volume.signature) counted e
            ∙ done,
        record {
          header = refl;
          table = table;
          cluster = refl;
          mounted = record {
            fat_stream = (0, open₂);
            cluster_stream = (0, open₁);
            table_low = omega (arith, reserved, table);
            cluster_bytes = omega (arith, volume.clusters);
          };
          total = refl;
          items = ap (λ m. items_at m dir) (sym same);
          content = λ j h. ap (λ (m : Mem). m (dir + j)) same ∙ content j h;
          data_start = rounded_up start ((boot_header image).root_dir_entries * 32);
        },
      )
    where
      rounded_up : (a n : ℕ) → a + (n / 512 + (if n % 512 == 0 then 0 else 1)) ≡ a + (n + 511) / 512
      rounded_up a n = ground arith
