-- ===== src/Fat/Volume.antt =====
-- fat16.c: fat16_init, and fat16_resolve, which reads a disk's boot sector and root directory.
-- `none` is a lack of fuel, or a null pointer that the code follows.
pub mod Blocks
pub mod Geometry
pub mod Resolve
use nuts_os.Base.{
  ℕ, ◌+◌, ◌-◌, ◌*◌, ◌/◌, ◌%◌, ◌^◌, ◌==◌, Option, none, some, if◌then◌else◌, not, eio, enomem,
  einvalid, ok, err,
}
use nuts_os.Memory.{Mem, memset}
use nuts_os.Text.{strcpy}
use nuts_os.Heap.Kernel.{kfree}
use nuts_os.Heap.Store.{Store, zalloc}
use nuts_os.Disk
use nuts_os.Disk.{Drive, DiskStream, stream_new}
use nuts_os.Fat.{FatDirectory, FatPrivate, FatDisk, header_at, item_size, neg, is_err}
use nuts_os.Fat.Items.{items_at, free_if, get_total_items_for_directory}

abbrev pub fat_signature : ℕ
fat_signature = 0x29

-- diskstream_new with its allocation: the address of the stream, the stream and the state.
unfoldable pub new_stream : ℕ → Store → ℕ × Option DiskStream × Store
new_stream disk_id s = elim (stream_new disk_id) [
  | none ↦ (0, none, s)
  | some stream ↦ let (p, s') = zalloc s 8 in if p == 0 then (0, none, s') else (p, some stream, s')
]

-- The structure of 104 bytes at `p`: zeros, and three streams of its own.
unfoldable pub init_private : ℕ → ℕ → Store → FatPrivate × Store
unfolding new_stream
init_private disk_id p s =
    let m = memset p 0 104 s.memory in
    let (_, cluster_read_stream, s₁) = new_stream disk_id (record s { memory = m }) in
    let (_, fat_read_stream, s₂) = new_stream disk_id s₁ in
    let (_, directory_stream, s₃) = new_stream disk_id s₂ in
    (
      record {
        header = header_at m p;
        root_directory = record {
          addr = p + 64;
          items_addr = 0;
          item = items_at m 0;
          total = 0;
          sector_pos = 0;
          ending_sector_pos = 0;
        };
        first_fat_sector = 0;
        fat_table_address = 0;
        bytes_per_cluster = 0;
        cluster_read_stream = cluster_read_stream;
        fat_read_stream = fat_read_stream;
        directory_stream = directory_stream;
      },
      s₃,
    )

unfoldable pub sector_to_abs_address : FatDisk → ℕ → ℕ
sector_to_abs_address disk sector = sector * disk.sector_size % 2 ^ 32

-- The first sector behind the tables.
abbrev pub root_dir_sector_pos : FatPrivate → ℕ
root_dir_sector_pos private =
    private.header.fat_copies * private.header.sectors_per_fat + private.header.reserved_sectors

abbrev pub root_dir_size : FatPrivate → ℕ
root_dir_size private = private.header.root_dir_entries * item_size

abbrev pub total_root_sectors : FatDisk → ℕ
total_root_sectors disk =
    let size = root_dir_size disk.fs_private in
    size / disk.sector_size + (if size % disk.sector_size == 0 then 0 else 1)

-- The array of the root directory, whose items are counted.
unfoldable pub read_root_items :
    Drive → FatDisk → ℕ → FatDirectory → Store → Option (ℕ × FatDirectory × Store)
unfolding sector_to_abs_address
read_root_items drive disk total_items root s =
    let size = root_dir_size disk.fs_private in
    let sector = root_dir_sector_pos disk.fs_private in
    let (dir, s') = zalloc s size in
    if dir == 0 then some (neg enomem, root, s') else elim disk.fs_private.directory_stream [
      | none ↦ none
      | some stream ↦
          elim (Disk.read drive (Disk.seek stream (sector_to_abs_address disk sector)) dir size
            s'.memory) [
              | none ↦ none
              | some (r, _, m) ↦
                  let s'' = record s' { memory = m } in
                  elim r [
                    | err _ ↦ some (neg eio, root, s'')
                    | ok _ ↦ some (
                      0,
                      record root {
                        items_addr = dir;
                        item = items_at m dir;
                        total = total_items;
                        sector_pos = sector;
                        ending_sector_pos = sector + total_root_sectors disk;
                      },
                      s'',
                    )
                  ]
            ]
    ]

-- The result, the directory and the state. An error of the count is not tested.
unfoldable pub get_root_directory :
    ℕ → Drive → FatDisk → FatDirectory → Store → Option (ℕ × FatDirectory × Store)
unfolding read_root_items
get_root_directory fuel drive disk root s =
    elim (get_total_items_for_directory fuel drive disk (root_dir_sector_pos disk.fs_private)) [
      | none ↦ none
      | some total_items ↦ read_root_items drive disk total_items root s
    ]

-- The end of fat16_resolve: the stream at `q` is closed, and after an error the structure at `p`
-- is freed and the disk has none.
unfoldable pub finish : ℕ → ℕ → ℕ → FatPrivate → Store → Option (ℕ × Option FatPrivate × Store)
finish res p q private s = elim (free_if s.heap q) [
  | none ↦ none
  | some h ↦
      if is_err res
      then elim (kfree h p) [ none ↦ none | some h' ↦ some (res, none, record s { heap = h' }) ]
      else some (res, some private, record s { heap = h })
]

-- The values that the header gives.
abbrev pub with_geometry : ℕ → FatPrivate → FatPrivate
with_geometry sector_size private = record private {
  first_fat_sector = private.header.reserved_sectors;
  fat_table_address = private.header.reserved_sectors * sector_size % 2 ^ 32;
  bytes_per_cluster = private.header.sectors_per_cluster * sector_size;
}

-- What follows once the header is read.
unfoldable pub resolve_header :
    ℕ → Drive → ℕ → ℕ → ℕ → FatPrivate → Store → Option (ℕ × Option FatPrivate × Store)
unfolding finish
resolve_header fuel drive sector_size p q private s =
    if not (private.header.signature == fat_signature)
    then finish (neg einvalid) p q private s
    else let private' = with_geometry sector_size private in
      let disk : FatDisk = record { sector_size = sector_size; fs_private = private' } in
      elim (get_root_directory fuel drive disk private'.root_directory s) [
        | none ↦ none
        | some (res, root, s') ↦
            finish (if res == 0 then 0 else neg eio) p q (record private' { root_directory = root })
              s'
      ]

-- What follows once the stream for the header is made.
unfoldable pub resolve_read :
    ℕ
    → Drive
    → ℕ
    → ℕ
    → FatPrivate
    → ℕ × Option DiskStream × Store
    → Option (ℕ × Option FatPrivate × Store)
unfolding resolve_header finish
resolve_read fuel drive sector_size p private (q, none, s) = finish (neg enomem) p q private s
resolve_read fuel drive sector_size p private (q, some stream, s) =
    elim (Disk.read drive stream p 62 s.memory) [
      | none ↦ none
      | some (r, _, m) ↦
          let s' = record s { memory = m } in
          elim r [
            | err _ ↦ finish (neg eio) p q private s'
            | ok _ ↦
                resolve_header fuel drive sector_size p q
                  (record private { header = header_at m p }) s'
          ]
    ]

-- The result, the private structure of the disk and the state. The address that kzalloc returns
-- for the structure is not tested.
unfoldable pub resolve : ℕ → Drive → ℕ → ℕ → Store → Option (ℕ × Option FatPrivate × Store)
unfolding resolve_read
resolve fuel drive disk_id sector_size s =
    let (p, s₁) = zalloc s 104 in
    let (private, s₂) = init_private disk_id p s₁ in
    resolve_read fuel drive sector_size p private (new_stream disk_id s₂)

-- The table of functions at `fat16_fs`, with its name, behind six pointers, copied from the literal
-- at `name`. `none` is a lack of fuel.
unfoldable pub fat16_init : ℕ → ℕ → ℕ → Mem → Option (ℕ × Mem)
fat16_init fuel fat16_fs name m = elim (strcpy fuel (fat16_fs + 24) name m) [
  | none ↦ none
  | some (_, m') ↦ some (fat16_fs, m')
]
