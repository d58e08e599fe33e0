-- ===== src/Fat/Clusters.antt =====
-- fat16.c: the file allocation table, and reads of a file's bytes along its cluster chain.
pub mod Entries
pub mod Rounds
pub mod Reads
use nuts_os.Base.{
  ℕ, zero, suc, ◌+◌, ◌-◌, ◌*◌, ◌/◌, ◌%◌, ◌^◌, Bool, true, false, ◌||◌, ◌&&◌, Option, none, some,
  ltb, ◌==◌, if◌then◌else◌, eio, Result, ok, err, Errno,
}
use nuts_os.Memory.{Mem}
use nuts_os.Disk
use nuts_os.Disk.{Drive, DiskStream}
use nuts_os.Fat.{FatPrivate, FatDisk, le_16, neg, is_err}

abbrev pub fat_entry_size : ℕ
fat_entry_size = 2

unfoldable pub cluster_to_sector : FatPrivate → ℕ → ℕ
cluster_to_sector private cluster =
    let cluster_idx = (cluster + 2 ^ 32 - 2) % 2 ^ 32 in
    (private.root_directory.ending_sector_pos + cluster_idx * private.header.sectors_per_cluster)
    % 2 ^ 32

-- The entry, or the word of an error. `none` is fuel, of which a read of a stream has enough.
unfoldable pub get_fat_entry_for_cluster : Drive → FatDisk → ℕ → Option ℕ
get_fat_entry_for_cluster drive disk cluster = elim disk.fs_private.fat_read_stream [
  | none ↦ some (neg eio)
  | some stream ↦
      let pos = (disk.fs_private.fat_table_address + cluster * fat_entry_size) % 2 ^ 32 in
      elim (Disk.read drive (Disk.seek stream pos) 0 2 (λ _. 0)) [
        | none ↦ none
        | some (res, _, m) ↦ elim res [ err e ↦ some (neg e) | ok _ ↦ some (le_16 m 0) ]
      ]
]

abbrev pub is_last_sector : ℕ → Bool
is_last_sector x = x == 0xffff || x == 0xfff8

abbrev pub is_reserved_sector : ℕ → Bool
is_reserved_sector x = x == 0xfff0 || x == 0xfff5 || x == 0xfff6

abbrev pub bad_sector : ℕ
bad_sector = 0xfff7

abbrev pub free_cluster : ℕ
free_cluster = 0

-- The loop of fat16_get_cluster_for_offset, with the steps left.
unfoldable pub walk : Drive → FatDisk → ℕ → ℕ → Option ℕ
walk drive disk zero target = some target
walk drive disk (suc left) target = elim (get_fat_entry_for_cluster drive disk target) [
  | none ↦ none
  | some entry ↦
      elim (is_last_sector entry
        || entry == bad_sector
        || is_reserved_sector entry
        || entry == free_cluster) [ true ↦ some (neg eio) | false ↦ walk drive disk left entry ]
]

-- The steps of the loop: the offset is an int, and a negative one makes none.
unfoldable pub offset_to_cluster : FatPrivate → ℕ → ℕ
offset_to_cluster private offset =
    if ltb offset (2 ^ 31) then offset / private.bytes_per_cluster else 0

unfoldable pub get_cluster_for_offset : Drive → FatDisk → ℕ → ℕ → Option ℕ
unfolding offset_to_cluster
get_cluster_for_offset drive disk from_cluster offset =
    walk drive disk (offset_to_cluster disk.fs_private offset) from_cluster

-- The bytes that one cluster still holds from an offset on, at most `total`. Both are ints: the
-- remainder of a negative offset is negative, and a negative total is below what is left.
unfoldable pub cluster_chunk : FatPrivate → ℕ → ℕ → ℕ
cluster_chunk private offset total =
    let bytes_left_to_read_in_cluster =
      if ltb offset (2 ^ 31)
      then private.bytes_per_cluster - offset % private.bytes_per_cluster
      else private.bytes_per_cluster + (2 ^ 32 - offset) % private.bytes_per_cluster in
    if ltb total (2 ^ 31) && ltb bytes_left_to_read_in_cluster total
    then bytes_left_to_read_in_cluster
    else total

-- The absolute address of an offset inside a cluster, the remainder negative where the offset is.
unfoldable pub cluster_pos : FatDisk → ℕ → ℕ → ℕ
cluster_pos disk cluster offset =
    let bytes_per_cluster = disk.fs_private.bytes_per_cluster in
    let offset_from_cluster =
      if ltb offset (2 ^ 31)
      then offset % bytes_per_cluster
      else 2 ^ 32 - (2 ^ 32 - offset) % bytes_per_cluster in
    (cluster_to_sector disk.fs_private cluster * disk.sector_size + offset_from_cluster) % 2 ^ 32

-- The word of fat16_read_internal and the memory. As in the source, the recursion starts at the
-- cluster just read and still hands on the offset from the start. `none` is fuel, or a null stream.
unfoldable pub read_internal : ℕ → Drive → FatDisk → ℕ → ℕ → ℕ → ℕ → Mem → Option (ℕ × Mem)
read_internal zero drive disk starting offset total out m = none
read_internal (suc fuel) drive disk starting offset total out m =
    elim (get_cluster_for_offset drive disk starting offset) [
      | none ↦ none
      | some target ↦ elim (is_err target) [
        | true ↦ some (target, m)
        | false ↦ elim disk.fs_private.cluster_read_stream [
          | none ↦ none
          | some stream ↦
              let n = cluster_chunk disk.fs_private offset total in
              elim (Disk.read drive (Disk.seek stream (cluster_pos disk target offset)) out n m) [
                | none ↦ none
                | some (res, _, m') ↦ elim res [
                  | err e ↦ some (neg e, m')
                  | ok _ ↦ elim (ltb n total) [
                    | false ↦ some (0, m')
                    | true ↦
                        read_internal fuel drive disk target ((offset + n) % 2 ^ 32) (total - n)
                          (out + n) m'
                  ]
                ]
              ]
        ]
      ]
    ]
