-- ===== src/Fat/Clusters/Entries.antt =====
-- fat16_get_fat_entry_for_cluster and fat16_get_cluster_for_offset, on a drive that holds a volume.
use nuts_os.Base.{
  ℕ, zero, suc, ◌+◌, ◌-◌, ◌*◌, ◌/◌, ◌%◌, ◌^◌, ◌<◌, ◌≡◌, ◌==◌, ◌||◌, Bool, true, ltb, Option, none,
  some, arith, refl, Bool-cases, inl, inr, ap, eio, if◌then◌else◌,
}
use nuts_os.Disk.{Drive}
use nuts_os.Disk
use nuts_os.Disk.Sector.{Holds, IsBytes}
use nuts_os.Disk.Stream.{at_pos, read-Loaded}
use nuts_os.Fat.{FatDisk, le_16, neg}
use nuts_os.Fat.Clusters.{
  get_fat_entry_for_cluster, offset_to_cluster, walk, get_cluster_for_offset, is_last_sector,
  is_reserved_sector, bad_sector, free_cluster,
}

-- A disk whose streams are open, with the 65536 entries of a table below 2 GiB.
pub record IsMounted (disk : FatDisk) : Type 0 where
  pub fat_stream : (p : ℕ) × (disk.fs_private.fat_read_stream ≡ some (at_pos p))
  pub cluster_stream : (p : ℕ) × (disk.fs_private.cluster_read_stream ≡ some (at_pos p))
  pub table_low : disk.fs_private.fat_table_address + 2 ^ 17 < 2 ^ 31
  pub cluster_bytes : 0 < disk.fs_private.bytes_per_cluster

-- The entry of a cluster in the image: two bytes, the low one first.
abbrev pub table_entry : (ℕ → ℕ) → FatDisk → ℕ → ℕ
table_entry image disk cluster = le_16 image (disk.fs_private.fat_table_address + cluster * 2)

module _ (drive : Drive) (image : ℕ → ℕ) (holds : Holds drive image) (bytes : IsBytes image)
    (disk : FatDisk) (mounted : IsMounted disk) where
  -- fat16_get_fat_entry_for_cluster returns the table's entry of the cluster.
  pub get_fat_entry_for_cluster_lem :
      (cluster : ℕ)
      → cluster < 2 ^ 16
      → get_fat_entry_for_cluster drive disk cluster ≡ some (table_entry image disk cluster)
  unfolding get_fat_entry_for_cluster Disk.seek
  get_fat_entry_for_cluster_lem cluster small =
      let (p, open_stream) = mounted.fat_stream in
      let pos = (disk.fs_private.fat_table_address + cluster * 2) % 2 ^ 32 in
      let (m', e, loaded) =
        read-Loaded drive image holds bytes pos 0 2 (λ _. 0) (omega (arith, mounted.table_low)) in
      let at : pos ≡ disk.fs_private.fat_table_address + cluster * 2 =
        omega (arith, mounted.table_low) in
      rw (open_stream, get_fat_entry_for_cluster, e)
        (ap some (
          ground (
            arith,
            loaded 0,
            loaded 1,
            ap image (first pos),
            ap image (second pos),
            ap (le_16 image) at,
          )))
    where
      first : (p : ℕ) → p + (0 - 0) ≡ p
      first p = omega arith

      second : (p : ℕ) → p + (1 - 0) ≡ p + 1
      second p = omega arith

  table_entry-lt : (cluster : ℕ) → table_entry image disk cluster < 2 ^ 16
  table_entry-lt cluster =
      let a = disk.fs_private.fat_table_address + cluster * 2 in
      omega (arith, bytes a, bytes (a + 1))

-- An entry that ends a chain, or that no chain should hold.
abbrev pub is_end : ℕ → Bool
is_end entry =
    is_last_sector entry || entry == bad_sector || is_reserved_sector entry || entry == free_cluster

-- The cluster `k` steps behind `c` in the table of the image, if the chain reaches so far.
abbrev pub follow : (ℕ → ℕ) → FatDisk → ℕ → ℕ → Option ℕ
follow image disk zero c = some c
follow image disk (suc k) c =
    if is_end (table_entry image disk c)
    then none
    else follow image disk k (table_entry image disk c)

-- The word of a step result: the cluster, or -EIO.
abbrev pub cluster_word : Option ℕ → ℕ
cluster_word none = neg eio
cluster_word (some c) = c

module _ (drive : Drive) (image : ℕ → ℕ) (holds : Holds drive image) (bytes : IsBytes image)
    (disk : FatDisk) (mounted : IsMounted disk) where
  walk-follow :
      (k c : ℕ) → c < 2 ^ 16 → walk drive disk k c ≡ some (cluster_word (follow image disk k c))
  unfolding walk
  walk-follow zero c small = refl
  walk-follow (suc k) c small =
      let e = get_fat_entry_for_cluster_lem drive image holds bytes disk mounted c small in
      let entry = table_entry image disk c in
      let rest = walk-follow k entry (table_entry-lt drive image holds bytes disk mounted c) in
      rw (e, walk)
        (elim (Bool-cases (is_end entry)) [ inl end ↦ rw end refl | inr more ↦ rw more rest ])

  -- On a mounted disk, so with its table below 2 GiB, whose drive holds a byte image: for a cluster
  -- `c` below 2^16 and an offset that is not negative as an int, so below 2^31,
  -- fat16_get_cluster_for_offset returns the cluster that the chain from `c` reaches in `offset /
  -- bytes_per_cluster` steps, and -EIO if an entry on the way ends the chain, is bad, reserved or
  -- free.
  pub get_cluster_for_offset-follow :
      (c offset : ℕ)
      → c < 2 ^ 16
      → offset < 2 ^ 31
      → get_cluster_for_offset drive disk c offset
        ≡ some (cluster_word (follow image disk (offset / disk.fs_private.bytes_per_cluster) c))
  unfolding get_cluster_for_offset offset_to_cluster
  get_cluster_for_offset-follow c offset small low =
      let positive : ltb offset (2 ^ 31) ≡ true = ground arith in
      rw positive (walk-follow (offset / disk.fs_private.bytes_per_cluster) c small)
