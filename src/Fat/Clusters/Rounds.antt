-- ===== src/Fat/Clusters/Rounds.antt =====
-- fat16_read_internal: the arithmetic of its rounds.
use nuts_os.Base.{
  ℕ, suc, ◌+◌, ◌-◌, ◌*◌, ◌/◌, ◌%◌, ◌<◌, ◌≡◌, ◌^◌, refl, true, false, some, arith, ok, if◌then◌else◌,
  ltb,
}
use nuts_os.Memory.{Mem}
use nuts_os.Disk.{Drive, DiskStream}
use nuts_os.Disk
use nuts_os.Fat.{FatDisk, is_err}
use nuts_os.Fat.Clusters.{
  cluster_to_sector, get_cluster_for_offset, cluster_chunk, cluster_pos, read_internal,
}

-- One round, given what its calls return.
pub round-eq :
    (drive : Drive) (disk : FatDisk) (fuel c target offset total out : ℕ) (m m' : Mem)
    (stream end : DiskStream)
    → get_cluster_for_offset drive disk c offset ≡ some target
    → is_err target ≡ false
    → disk.fs_private.cluster_read_stream ≡ some stream
    → Disk.read drive
        (Disk.seek stream (cluster_pos disk target offset))
        out
        (cluster_chunk disk.fs_private offset total)
        m
      ≡ some (ok tt, end, m')
    → read_internal (suc fuel) drive disk c offset total out m ≡ (
        if ltb (cluster_chunk disk.fs_private offset total) total
        then read_internal fuel drive disk target
            ((offset + cluster_chunk disk.fs_private offset total) % 2 ^ 32)
            (total - cluster_chunk disk.fs_private offset total)
            (out + cluster_chunk disk.fs_private offset total)
            m'
        else some (0, m'))
unfolding read_internal
round-eq drive disk fuel c target offset total out m m' stream end found fine open_stream done =
    ground arith

abbrev pub bpc : FatDisk → ℕ
bpc disk = disk.fs_private.bytes_per_cluster

-- The address where a cluster begins.
abbrev pub base : FatDisk → ℕ → ℕ
base disk cluster = cluster_to_sector disk.fs_private cluster * disk.sector_size

-- Below 2 GiB the remainder is that of natural numbers.
pub cluster_chunk_low :
    (disk : FatDisk) (offset total : ℕ)
    → offset < 2 ^ 31
    → total < 2 ^ 31
    → cluster_chunk disk.fs_private offset total
      ≡ (if ltb (bpc disk - offset % bpc disk) total then bpc disk - offset % bpc disk else total)
unfolding cluster_chunk
cluster_chunk_low disk offset total low short =
    let positive : ltb offset (2 ^ 31) ≡ true = ground arith in
    let size : ltb total (2 ^ 31) ≡ true = ground arith in rw (positive, size) refl

pub cluster_pos_low :
    (disk : FatDisk) (cluster offset : ℕ)
    → offset < 2 ^ 31
    → base disk cluster + offset % bpc disk < 2 ^ 31
    → cluster_pos disk cluster offset ≡ base disk cluster + offset % bpc disk
unfolding cluster_pos
cluster_pos_low disk cluster offset low inside =
    let positive : ltb offset (2 ^ 31) ≡ true = ground arith in rw positive (omega arith)

pub div_small : (x b : ℕ) → x < b → x / b ≡ 0
div_small x b h = grind arith

pub mod_small : (x b : ℕ) → x < b → x % b ≡ x
mod_small x b h = grind arith

pub div_self : (b : ℕ) → 0 < b → b / b ≡ 1
div_self b h = grind arith

pub mod_self : (b : ℕ) → 0 < b → b % b ≡ 0
mod_self b h = grind arith

pub div_twice : (b : ℕ) → 0 < b → (b + b) / b ≡ 2
div_twice b h = grind arith

pub mod_twice : (b : ℕ) → 0 < b → (b + b) % b ≡ 0
mod_twice b h = grind arith

-- The recursion is taken, with the chunk's length known.
pub goes_on :
    (drive : Drive) (disk : FatDisk) (fuel target offset offset' total out n k : ℕ) (m : Mem)
    → n ≡ k
    → k < total
    → (offset + k) % 2 ^ 32 ≡ offset'
    → (if ltb n total
        then read_internal fuel drive disk target ((offset + n) % 2 ^ 32) (total - n) (out + n) m
        else some (0, m))
      ≡ read_internal fuel drive disk target offset' (total - k) (out + k) m
goes_on drive disk fuel target offset offset' total out n k m e lt at = ground arith
