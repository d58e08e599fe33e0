-- ===== src/Disk/Search.antt =====
-- disk.c and disk.h: the one disk and its file system. What the file system keeps of a disk in
-- `fs_private` is its own: for FAT16 it is FatPrivate.
use nuts_os.Base.{ℕ}
use nuts_os.Disk.{sector_size, the_disk}
use nuts_os.File.{Filesystem, Files, fs_resolve}

abbrev pub disk_type_real : ℕ
disk_type_real = 0

-- `filesystem` is the address of one, or null.
pub record Disk : Type 0 where
  pub type : ℕ
  pub sector_size : ℕ
  pub id : ℕ
  pub filesystem : ℕ

unfoldable pub disk_search_and_init : (ℕ → Filesystem) → Files → Disk × Files
disk_search_and_init system_at s =
    let (fs, s') = fs_resolve system_at s the_disk in
    (record { type = disk_type_real; sector_size = sector_size; id = 0; filesystem = fs }, s')
