-- ===== src/Fat/Tests.antt =====
-- The theorems on cluster chains at a volume with one file.
mod Files
mod Nested
mod Volume
use nuts_os.Base.{
  ℕ, ◌+◌, ◌-◌, ◌*◌, ◌/◌, ◌≡◌, ◌==◌, ◌&&◌, ◌||◌, ltb, leb, if◌then◌else◌, arith, refl, some, eio,
}
use nuts_os.Memory.{Mem}
use nuts_os.Disk.{Drive}
use nuts_os.Disk.Sector.{Holds, IsBytes, command_lba}
use nuts_os.Disk.Stream.{at_pos}
use nuts_os.Fat.{FatDisk, item_at, neg}
use nuts_os.Fat.Clusters.{get_cluster_for_offset, read_internal, cluster_pos}
use nuts_os.Fat.Clusters.Entries.{IsMounted, follow, cluster_word, get_cluster_for_offset-follow}
use nuts_os.Fat.Clusters.Reads.{three_clusters_fail}

-- A table at byte 512 that chains the clusters 2, 3 and 4.
abbrev pub image : ℕ → ℕ
image a = if a == 516 then 3 else if a == 518 then 4 else if a == 520 || a == 521 then 0xff else 0

abbrev pub drive : Drive
drive c i = image (command_lba c * 512 + 2 * i) + 256 * image (command_lba c * 512 + 2 * i + 1)

pub drive-Holds : Holds drive image
drive-Holds c i one small = refl

pub image-IsBytes : IsBytes image
image-IsBytes a = ground arith

abbrev pub disk : FatDisk
disk = record {
  sector_size = 512;
  fs_private = record {
    header = record {
      sectors_per_cluster = 1;
      reserved_sectors = 1;
      fat_copies = 1;
      root_dir_entries = 16;
      sectors_per_fat = 1;
      signature = 0x29;
    };
    root_directory = record {
      addr = 0;
      items_addr = 0;
      item = λ _. item_at (λ _. 0) 0;
      total = 0;
      sector_pos = 2;
      ending_sector_pos = 3;
    };
    first_fat_sector = 1;
    fat_table_address = 512;
    bytes_per_cluster = 512;
    cluster_read_stream = some (at_pos 0);
    fat_read_stream = some (at_pos 0);
    directory_stream = some (at_pos 0);
  };
}

pub disk-IsMounted : IsMounted disk
disk-IsMounted = record {
  fat_stream = (0, refl);
  cluster_stream = (0, refl);
  table_low = omega arith;
  cluster_bytes = omega arith;
}

get_cluster_for_offset-follow_example :
    get_cluster_for_offset drive disk 2 1500
    ≡ some (cluster_word (follow image disk (1500 / 512) 2))
get_cluster_for_offset-follow_example =
    get_cluster_for_offset-follow drive image drive-Holds image-IsBytes disk disk-IsMounted 2 1500
      (omega arith) (omega arith)

-- A file of three clusters, read as a whole.
three_clusters_fail_example :
    (m' : Mem) × (read_internal 3 drive disk 2 0 1536 4096 (λ _. 7) ≡ some (neg eio, m'))
three_clusters_fail_example =
    three_clusters_fail drive image drive-Holds image-IsBytes disk disk-IsMounted 0 2 3 1536 4096
      (λ _. 7) (omega arith) refl (omega arith) refl (omega arith) (omega arith)
