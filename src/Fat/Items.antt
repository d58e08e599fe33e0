-- ===== src/Fat/Items.antt =====
-- fat16.c: the items of directories, counted and loaded from the disk. `none` is a lack of
-- fuel, or a pointer that the code follows and that is null or an error code.
pub mod Count
pub mod Load
use nuts_os.Base.{
  ℕ, zero, suc, ◌+◌, ◌-◌, ◌*◌, ◌%◌, ◌^◌, ◌==◌, Bool, true, false, not, Option, none, some,
  if◌then◌else◌, eio, einvarg, enomem, ok, err,
}
use nuts_os.Base.Int.{is_zero}
use nuts_os.Memory.{Mem, memcpy}
use nuts_os.Text.{istrncmp}
use nuts_os.Heap.{Heap}
use nuts_os.Heap.Kernel.{kfree}
use nuts_os.Heap.Store.{Store, zalloc}
use nuts_os.Disk
use nuts_os.Disk.{Drive, DiskStream}
use nuts_os.Path.{PathPart, max_path}
use nuts_os.Fat.{
  FatDirectoryItem, FatDirectory, FatDirectoryPtr, loaded, error_ptr, FatItem, directory, file,
  FatDisk, item_at, item_size, has_subdirectory, neg, is_err,
}
use nuts_os.Fat.Names.{get_full_filename}
use nuts_os.Fat.Clusters.{cluster_to_sector, read_internal}

abbrev pub unused_entry : ℕ
unused_entry = 0xE5

abbrev pub nomore_entry : ℕ
nomore_entry = 0

abbrev pub free_if : Heap → ℕ → Option Heap
free_if h p = if p == 0 then some h else kfree h p

-- Frees the array and the structure.
unfoldable pub free_directory : FatDirectory → Store → Option Store
free_directory d s = elim (free_if s.heap d.items_addr) [
  | none ↦ none
  | some h ↦ elim (kfree h d.addr) [ none ↦ none | some h' ↦ some (record s { heap = h' }) ]
]

-- What the item holds, before the item itself.
unfoldable pub free_content : FatItem → Store → Option Store
unfolding free_directory
free_content (directory _ (loaded d)) s = free_directory d s
free_content (directory _ (error_ptr _)) s = none
free_content (file _ p _) s = elim (kfree s.heap p) [
  | none ↦ none
  | some h ↦ some (record s { heap = h })
]

abbrev pub address : FatItem → ℕ
address (directory p _) = p
address (file p _ _) = p

unfoldable pub fat_item_free : FatItem → Store → Option Store
unfolding free_content
fat_item_free item s = elim (free_content item s) [
  | none ↦ none
  | some s' ↦ elim (kfree s'.heap (address item)) [
    | none ↦ none
    | some h ↦ some (record s' { heap = h })
  ]
]

-- The loop that counts, with the local structure at address 0 of a memory of its own.
unfoldable pub count_items : ℕ → Drive → DiskStream → ℕ → Mem → Option ℕ
count_items zero drive stream res m = none
count_items (suc fuel) drive stream res m = elim (Disk.read drive stream 0 item_size m) [
  | none ↦ none
  | some (r, stream', m') ↦ elim r [
    | err _ ↦ some (neg eio)
    | ok _ ↦ elim (m' 0 == unused_entry) [
      | true ↦ count_items fuel drive stream' res m'
      | false ↦ elim (m' 0 == nomore_entry) [
        | true ↦ some (res + 1 - 1)
        | false ↦ count_items fuel drive stream' (res + 1) m'
      ]
    ]
  ]
]

unfoldable pub get_total_items_for_directory : ℕ → Drive → FatDisk → ℕ → Option ℕ
unfolding count_items
get_total_items_for_directory fuel drive disk directory_start_sector =
    elim disk.fs_private.directory_stream [
      | none ↦ none
      | some stream ↦
          let pos = directory_start_sector * disk.sector_size % 2 ^ 32 in
          count_items fuel drive (Disk.seek stream pos) 0 (λ _. 0)
    ]

-- The items that stand in an array.
abbrev pub items_at : Mem → ℕ → ℕ → FatDirectoryItem
items_at m p i = item_at m (p + item_size * i)

-- The clean-up after an error.
unfoldable pub fail_load : FatDirectory → ℕ → Store → Option (FatDirectoryPtr × Store)
unfolding free_directory
fail_load d res s = elim (free_directory d s) [ none ↦ none | some s' ↦ some (error_ptr res, s') ]

-- The array of a directory whose items are counted.
unfoldable pub load_items :
    ℕ → Drive → FatDisk → ℕ → ℕ → ℕ → Store → Option (FatDirectoryPtr × Store)
unfolding fail_load
load_items fuel drive disk cluster addr total s =
    let directory_size = total * item_size % 2 ^ 32 in
    let (p, s') = zalloc s directory_size in
    let made : FatDirectory = record {
      addr = addr;
      items_addr = p;
      item = items_at s'.memory p;
      total = total;
      sector_pos = 0;
      ending_sector_pos = 0;
    } in
    if p == 0
    then fail_load made (neg enomem) s'
    else elim (read_internal fuel drive disk cluster 0 directory_size p s'.memory) [
      | none ↦ none
      | some (res, m) ↦
          let s'' = record s' { memory = m } in
          if is_err res
          then fail_load made res s''
          else some (loaded (record made { item = items_at m p }), s'')
    ]

-- What follows once the structure is allocated.
unfoldable pub load_counted :
    ℕ → Drive → FatDisk → ℕ → ℕ → Option ℕ → Store → Option (FatDirectoryPtr × Store)
unfolding load_items fail_load
load_counted fuel drive disk cluster addr none s = none
load_counted fuel drive disk cluster addr (some res) s =
    if is_err res
    then fail_load
        (record {
          addr = addr;
          items_addr = 0;
          item = items_at s.memory 0;
          total = 0;
          sector_pos = 0;
          ending_sector_pos = 0;
        })
        res s
    else load_items fuel drive disk cluster addr res s

unfoldable pub load_fat_directory :
    ℕ → Drive → FatDisk → FatDirectoryItem → Store → Option (FatDirectoryPtr × Store)
unfolding load_counted
load_fat_directory fuel drive disk item s =
    let cluster = item.low_16_bits_first_cluster in
    let (addr, s') = zalloc s 16 in
    let total =
      get_total_items_for_directory fuel drive disk (cluster_to_sector disk.fs_private cluster) in
    if not (has_subdirectory item)
    then some (error_ptr (neg einvarg), s)
    else if addr == 0
    then some (error_ptr (neg enomem), s')
    else load_counted fuel drive disk cluster addr total s'

-- The copy, made of a structure of 32 bytes; the record stands for its bytes.
unfoldable pub copy_directory_item : FatDirectoryItem → Store → ℕ × FatDirectoryItem × Store
copy_directory_item item s = let (copy, s') = zalloc s item_size in (copy, item, s')

-- `none` in the result is a null pointer.
unfoldable pub new_fat_item :
    ℕ → Drive → FatDisk → FatDirectoryItem → Store → Option (Option FatItem × Store)
unfolding copy_directory_item
new_fat_item fuel drive disk item s =
    let (p, s') = zalloc s 8 in
    if p == 0
    then some (none, s')
    else if has_subdirectory item
    then elim (load_fat_directory fuel drive disk item s') [
      | none ↦ none
      | some (d, s'') ↦ some (some (directory p d), s'')
    ]
    else let (copy, item', s'') = copy_directory_item item s' in
      some (some (file p copy item'), s'')
