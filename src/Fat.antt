-- ===== src/Fat.antt =====
-- fs/fat/fat16.c: the structures of a FAT16 volume. An int of the driver is its 32-bit word, so an
-- error code is a word from 2^31 on. Arithmetic that the code does in 32 bits wraps.
pub mod Clusters
pub mod Names
pub mod Items
pub mod Directory
pub mod Volume
pub mod Files
mod Tests
use nuts_os.Base.{
  ℕ, ◌+◌, ◌-◌, ◌*◌, ◌^◌, Bool, Option, leb, not, ◌==◌, bit_and, Errno, eio, einvarg, enomem,
  ebadpath, einvalid, ereadonly, etaken,
}
use nuts_os.Memory.{Mem}
use nuts_os.Disk.{DiskStream}

-- The error codes of error.h.
abbrev pub code : Errno → ℕ
code eio = 1
code einvarg = 2
code enomem = 3
code ebadpath = 4
code einvalid = 5
code ereadonly = 6
code etaken = 7

abbrev pub neg : Errno → ℕ
neg e = 2 ^ 32 - code e

-- ISERR on a word.
abbrev pub is_err : ℕ → Bool
is_err w = leb (2 ^ 31) w

abbrev pub le_16 : Mem → ℕ → ℕ
le_16 m p = m p + 256 * m (p + 1)

abbrev pub le_32 : Mem → ℕ → ℕ
le_32 m p = le_16 m p + 2 ^ 16 * le_16 m (p + 2)

-- The fields of the two packed header structures that the driver reads.
pub record FatHeader : Type 0 where
  pub sectors_per_cluster : ℕ
  pub reserved_sectors : ℕ
  pub fat_copies : ℕ
  pub root_dir_entries : ℕ
  pub sectors_per_fat : ℕ
  pub signature : ℕ

-- The header at its place in the boot sector.
abbrev pub header_at : Mem → ℕ → FatHeader
header_at m p = record {
  sectors_per_cluster = m (p + 13);
  reserved_sectors = le_16 m (p + 14);
  fat_copies = m (p + 16);
  root_dir_entries = le_16 m (p + 17);
  sectors_per_fat = le_16 m (p + 22);
  signature = m (p + 38);
}

-- The packed structure of 32 bytes that a directory holds for each file.
pub record FatDirectoryItem : Type 0 where
  pub filename : ℕ → ℕ
  pub ext : ℕ → ℕ
  pub attribute : ℕ
  pub low_16_bits_first_cluster : ℕ
  pub filesize : ℕ

-- The bit of FAT_FILE_SUBDIRECTORY.
abbrev pub has_subdirectory : FatDirectoryItem → Bool
has_subdirectory item = not (bit_and item.attribute 0x10 == 0)

abbrev pub item_size : ℕ
item_size = 32

abbrev pub item_at : Mem → ℕ → FatDirectoryItem
item_at m p = record {
  filename = λ i. m (p + i);
  ext = λ i. m (p + 8 + i);
  attribute = m (p + 11);
  low_16_bits_first_cluster = le_16 m (p + 26);
  filesize = le_32 m (p + 28);
}

-- `addr` is the address of the structure and `items_addr` that of its array, as the heap gave them.
pub record FatDirectory : Type 0 where
  pub addr : ℕ
  pub items_addr : ℕ
  pub item : ℕ → FatDirectoryItem
  pub total : ℕ
  pub sector_pos : ℕ
  pub ending_sector_pos : ℕ

-- A pointer to a directory, or an error code in its place, as ERRTOPTR has it.
pub data FatDirectoryPtr : Type 0 where
  loaded : FatDirectory → FatDirectoryPtr
  error_ptr : ℕ → FatDirectoryPtr

-- The union of a fat_item with its type. The first number is the structure's address, the second
-- one that of a file's copied item, 0 where there was no memory for it.
pub data FatItem : Type 0 where
  directory : ℕ → FatDirectoryPtr → FatItem
  file : ℕ → ℕ → FatDirectoryItem → FatItem

-- `none` is a null stream. Each use of a stream seeks first, so the position that the use before
-- left is not kept.
pub record FatPrivate : Type 0 where
  pub header : FatHeader
  pub root_directory : FatDirectory
  pub first_fat_sector : ℕ
  pub fat_table_address : ℕ
  pub bytes_per_cluster : ℕ
  pub cluster_read_stream : Option DiskStream
  pub fat_read_stream : Option DiskStream
  pub directory_stream : Option DiskStream

-- The disk as the driver sees it.
pub record FatDisk : Type 0 where
  pub sector_size : ℕ
  pub fs_private : FatPrivate
