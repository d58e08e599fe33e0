-- ===== src/Fat/Clusters/Reads.antt =====
-- fat16_read_internal: which bytes of the disk it reads, and where it goes wrong.
use nuts_os.Base.{
  ℕ, suc, ◌+◌, ◌-◌, ◌/◌, ◌%◌, ◌^◌, ◌<◌, ◌≤◌, ◌≡◌, false, none, some, arith, refl, ap, ◌∙◌, eio,
  if◌then◌else◌, ltb,
}
use nuts_os.Memory.{Mem}
use nuts_os.Disk.{Drive, DiskStream}
use nuts_os.Disk
use nuts_os.Disk.Sector.{Holds, IsBytes}
use nuts_os.Disk.Stream.{Loaded, at_pos, read-ok, read-Loaded}
use nuts_os.Fat.{FatDisk, neg, is_err}
use nuts_os.Fat.Clusters.{cluster_chunk, cluster_pos, read_internal}
use nuts_os.Fat.Clusters.Entries.{IsMounted, follow, cluster_word, get_cluster_for_offset-follow}
use nuts_os.Fat.Clusters.Rounds.{
  round-eq, cluster_chunk_low, cluster_pos_low, base, bpc, div_small, mod_small, div_self, mod_self,
  div_twice, goes_on,
}

module _ (drive : Drive) (image : ℕ → ℕ) (holds : Holds drive image) (bytes : IsBytes image)
    (disk : FatDisk) (mounted : IsMounted disk) where
  cluster_chunk-le : (offset total : ℕ) → cluster_chunk disk.fs_private offset total ≤ total
  unfolding cluster_chunk
  cluster_chunk-le offset total = ground arith

  -- A chain that breaks off before the offset makes the read fail, with memory as it was.
  pub read_internal-error :
      (fuel c offset total out : ℕ) (m : Mem)
      → c < 2 ^ 16
      → offset < 2 ^ 31
      → follow image disk (offset / disk.fs_private.bytes_per_cluster) c ≡ none
      → read_internal (suc fuel) drive disk c offset total out m ≡ some (neg eio, m)
  unfolding read_internal
  read_internal-error fuel c offset total out m small low broken =
      let e =
        get_cluster_for_offset-follow drive image holds bytes disk mounted c offset small low in
      let e' = e ∙ ap (λ o. some (cluster_word o)) broken in rw (e', read_internal) refl

  -- One round, whatever it reads, and then the rest.
  round :
      (fuel c target offset total out : ℕ) (m : Mem)
      → c < 2 ^ 16
      → offset < 2 ^ 31
      → follow image disk (offset / disk.fs_private.bytes_per_cluster) c ≡ some target
      → target < 2 ^ 31
      → let n = cluster_chunk disk.fs_private offset total in
        (m' : Mem) × (read_internal (suc fuel) drive disk c offset total out m ≡ (
          if ltb n total
          then read_internal fuel drive disk target ((offset + n) % 2 ^ 32) (total - n) (out + n) m'
          else some (0, m')))
  unfolding Disk.seek
  round fuel c target offset total out m small low reach word =
      let e =
        get_cluster_for_offset-follow drive image holds bytes disk mounted c offset small low in
      let e' = e ∙ ap (λ o. some (cluster_word o)) reach in
      let (p, open_stream) = mounted.cluster_stream in
      let n = cluster_chunk disk.fs_private offset total in
      let (end, m', done) = read-ok drive (cluster_pos disk target offset) out n m in
      let no_err : is_err target ≡ false = ground arith in
      (
        m',
        round-eq drive disk fuel c target offset total out m m' (at_pos p) (at_pos end) e' no_err
            open_stream done,
      )

  -- A read that ends inside the cluster of its offset, and below 2 GiB, puts the cluster's bytes at
  -- `out`, and changes nothing else.
  pub one_round :
      (fuel c target offset total out : ℕ) (m : Mem)
      → c < 2 ^ 16
      → offset < 2 ^ 31
      → follow image disk (offset / bpc disk) c ≡ some target
      → target < 2 ^ 31
      → base disk target + bpc disk < 2 ^ 31
      → offset % bpc disk + total ≤ bpc disk
      → (m' : Mem) × (read_internal (suc fuel) drive disk c offset total out m ≡ some (0, m'))
        × Loaded image (base disk target + offset % bpc disk) out total m m'
  unfolding Disk.seek
  one_round fuel c target offset total out m small low reach word inside fits =
      let e =
        get_cluster_for_offset-follow drive image holds bytes disk mounted c offset small low in
      let e' = e ∙ ap (λ o. some (cluster_word o)) reach in
      let (p, open_stream) = mounted.cluster_stream in
      let pos = base disk target + offset % bpc disk in
      let n = cluster_chunk disk.fs_private offset total in
      let all : n ≡ total = ground (arith, cluster_chunk_low disk offset total low (omega arith)) in
      let (m', done, loaded) = read-Loaded drive image holds bytes pos out total m (omega arith) in
      let no_err : is_err target ≡ false = ground arith in
      let at = cluster_pos_low disk target offset low (omega arith) in
      let run =
        round-eq drive disk fuel c target offset total out m m' (at_pos p) (at_pos (pos + total)) e'
          no_err open_stream
          (ap (λ q. Disk.read drive (at_pos q) out n m) at
            ∙ ap (λ k. Disk.read drive (at_pos pos) out k m) all
            ∙ done) in
      (m', ground (arith, run, all), loaded)

  first_round :
      (fuel c total out : ℕ) (m : Mem)
      → c < 2 ^ 16
      → total < 2 ^ 31
      → bpc disk < total
      → (m' : Mem) × (read_internal (suc fuel) drive disk c 0 total out m
          ≡ read_internal fuel drive disk c (bpc disk) (total - bpc disk) (out + bpc disk) m')
  first_round fuel c total out m small short over =
      let zero_steps = div_small 0 (bpc disk) mounted.cluster_bytes in
      let reach : follow image disk (0 / bpc disk) c ≡ some c =
        ap (λ k. follow image disk k c) zero_steps in
      let (m', e) = round fuel c c 0 total out m small (omega arith) reach (omega arith) in
      let n : cluster_chunk disk.fs_private 0 total ≡ bpc disk = ground (
        arith,
        cluster_chunk_low disk 0 total (omega arith) short,
        mod_small 0 (bpc disk) mounted.cluster_bytes,
      ) in
      (
        m',
        e
            ∙ goes_on drive disk fuel c 0 (bpc disk) total out
                (cluster_chunk disk.fs_private 0 total) (bpc disk) m' n over (omega arith),
      )

  -- After two whole clusters the recursion starts from the second one but with the offset from the
  -- start: it walks two steps on instead of one.
  walks_too_far :
      (fuel c d total out : ℕ) (m : Mem)
      → c < 2 ^ 16
      → follow image disk 1 c ≡ some d
      → d < 2 ^ 16
      → total < 2 ^ 31
      → bpc disk + bpc disk < total
      → (m' : Mem) × (read_internal (suc (suc fuel)) drive disk c 0 total out m
          ≡ read_internal fuel drive disk d
              (bpc disk + bpc disk)
              (total - bpc disk - bpc disk)
              (out + bpc disk + bpc disk)
              m')
  walks_too_far fuel c d total out m small next next_small short over =
      let (m', e) = first_round (suc fuel) c total out m small short (omega arith) in
      let one_step : follow image disk (bpc disk / bpc disk) c ≡ some d =
        ap (λ k. follow image disk k c) (div_self (bpc disk) mounted.cluster_bytes) ∙ next in
      let (m'', e') =
        round fuel c d (bpc disk) (total - bpc disk) (out + bpc disk) m' small (omega arith)
          one_step (omega arith) in
      let n : cluster_chunk disk.fs_private (bpc disk) (total - bpc disk) ≡ bpc disk = ground (
        arith,
        cluster_chunk_low disk (bpc disk) (total - bpc disk) (omega arith) (omega arith),
        mod_self (bpc disk) mounted.cluster_bytes,
      ) in
      (
        m'',
        e
            ∙ e'
            ∙ goes_on drive disk fuel d (bpc disk) (bpc disk + bpc disk) (total - bpc disk)
                (out + bpc disk) (cluster_chunk disk.fs_private (bpc disk) (total - bpc disk))
                (bpc disk) m'' n (omega arith) (omega arith),
      )

  -- On a mounted disk, so with its table below 2 GiB, whose drive holds a byte image: a read of
  -- more than two clusters, and less than 2^31 bytes, from the start of a chain that ends within
  -- two steps behind its second cluster `d`, so also on a file of three clusters whose chain is
  -- intact, returns -EIO, given three rounds of fuel or more; both clusters are below 2^16.
  pub three_clusters_fail :
      (fuel c d total out : ℕ) (m : Mem)
      → c < 2 ^ 16
      → follow image disk 1 c ≡ some d
      → d < 2 ^ 16
      → follow image disk 2 d ≡ none
      → total < 2 ^ 31
      → bpc disk + bpc disk < total
      → (m' : Mem) × (read_internal (suc (suc (suc fuel))) drive disk c 0 total out m
          ≡ some (neg eio, m'))
  three_clusters_fail fuel c d total out m small next next_small ends short over =
      let (m', e) = walks_too_far (suc fuel) c d total out m small next next_small short over in
      let broken : follow image disk ((bpc disk + bpc disk) / bpc disk) d ≡ none =
        ap (λ k. follow image disk k d) (div_twice (bpc disk) mounted.cluster_bytes) ∙ ends in
      (
        m',
        e
            ∙ read_internal-error fuel d (bpc disk + bpc disk) (total - bpc disk - bpc disk)
                (out + bpc disk + bpc disk) m' next_small (omega arith) broken,
      )
