-- ===== src/Disk/Stream.antt =====
-- diskstream_read: the bytes of the disk from the stream's position on, across sectors.
use nuts_os.Base.{
  ℕ, zero, suc, ◌+◌, ◌-◌, ◌*◌, ◌/◌, ◌%◌, ◌^◌, ◌<◌, ◌≤◌, ◌≡◌, ◌≢◌, ◌&&◌, ltb, leb, if◌then◌else◌,
  update, arith, true, false, some, ok, Bool-cases, inl, inr, ap, ◌∙◌, refl,
}
use mathlib.Core.Path.{subst}
use nuts_os.Memory.{Mem}
use nuts_os.Disk.{
  Drive, DiskStream, read_block, read_sector, the_disk, copy_out, chunk, sector_of, offset_of,
  rounds, read_loop, read,
}
use nuts_os.Disk.Sector.{Holds, IsBytes, read_sector_lem}

-- A memory with `n` bytes of `image` from `pos` on put at `out`.
abbrev pub Loaded : (ℕ → ℕ) → ℕ → ℕ → ℕ → Mem → Mem → Type 0
Loaded image pos out n m m' =
    (a : ℕ) → m' a ≡ (if leb out a && ltb a (out + n) then image (pos + (a - out)) else m a)

copy_out_at :
    (buf : ℕ → ℕ) (offset n out : ℕ) (m : Mem) (a : ℕ)
    → offset + n < 2 ^ 32
    → copy_out buf offset n out m a
      ≡ (if leb out a && ltb a (out + n) then buf (offset + (a - out)) else m a)
unfolding copy_out
copy_out_at buf offset zero out m a small = ground arith
copy_out_at buf offset (suc n) out m a small =
    let next : (offset + 1) % 2 ^ 32 ≡ offset + 1 = omega arith in
    rw next (
      ground (
        arith,
        copy_out_at buf (offset + 1) n (out + 1) (update m out (buf offset)) a (omega arith),
        at,
        at',
      ))
  where
    at : out ≤ a → a ≢ out → offset + 1 + (a - (out + 1)) ≡ offset + (a - out)
    at p q = omega arith

    at' : a ≡ out → offset + (a - out) ≡ offset
    at' p = omega arith

module _ (drive : Drive) (image : ℕ → ℕ) (holds : Holds drive image) (bytes : IsBytes image) where
  chunk_Loaded :
      (pos n out : ℕ) (m : Mem)
      → pos / 512 < 2 ^ 28
      → pos % 512 + n ≤ 512
      → Loaded image pos out n m (copy_out (read_sector drive (pos / 512) 1) (pos % 512) n out m)
  chunk_Loaded pos n out m small fits a = elim (Bool-cases (leb out a && ltb a (out + n))) [
    | inr e ↦ ground (arith, copy_out_at (read_sector drive (pos / 512) 1) (pos % 512) n out m a)
    | inl e ↦ ground (
      arith,
      copy_out_at (read_sector drive (pos / 512) 1) (pos % 512) n out m a (omega arith),
      read_sector_lem drive image (pos / 512) (pos % 512 + (a - out)) holds bytes small (below e),
      ap image (at (from e)),
    )
  ]
    where
      from : (leb out a && ltb a (out + n)) ≡ true → out ≤ a
      from e = ground arith

      below : (leb out a && ltb a (out + n)) ≡ true → pos % 512 + (a - out) < 512
      below e = ground arith

      at : out ≤ a → pos / 512 * 512 + (pos % 512 + (a - out)) ≡ pos + (a - out)
      at p = omega arith

pub Loaded-append :
    (image : ℕ → ℕ) (pos n k out : ℕ) (m m' m'' : Mem)
    → Loaded image pos out n m m'
    → Loaded image (pos + n) (out + n) k m' m''
    → Loaded image pos out (n + k) m m''
Loaded-append image pos n k out m m' m'' l l' a = ground (arith, l a, l' a, at)
  where
    at : out + n ≤ a → pos + n + (a - (out + n)) ≡ pos + (a - out)
    at p = omega arith

abbrev pub at_pos : ℕ → DiskStream
at_pos p = record { pos = p; disk = the_disk }

chunk-le : (pos remaining : ℕ) → chunk pos remaining ≤ remaining
unfolding chunk
chunk-le pos remaining = ground arith

chunk_fits :
    (pos remaining : ℕ) → pos < 2 ^ 31 → remaining < 2 ^ 31 → pos % 512 + chunk pos remaining ≤ 512
unfolding chunk
chunk_fits pos remaining low short = ground arith

chunk_progress :
    (pos remaining : ℕ) → ltb 0 (remaining - chunk pos remaining) ≡ true → 0 < chunk pos remaining
unfolding chunk
chunk_progress pos remaining h = ground arith

chunk_all :
    (pos remaining : ℕ)
    → ltb 0 (remaining - chunk pos remaining) ≡ false
    → chunk pos remaining ≡ remaining
chunk_all pos remaining h = ground (arith, chunk-le pos remaining)

-- Below 2 GiB the division is that of natural numbers.
low_position : (pos : ℕ) → pos < 2 ^ 31 → (sector_of pos ≡ pos / 512) × (offset_of pos ≡ pos % 512)
unfolding sector_of offset_of
low_position pos low = (ground arith, ground arith)

rounds_short : (n : ℕ) → n < 2 ^ 31 → rounds n ≡ n
unfolding rounds
rounds_short n short = ground arith

module _ (drive : Drive) (fuel pos out remaining : ℕ) (m : Mem) where
  -- The memory and the position after the first round.
  abbrev round : Mem
  round =
      copy_out (read_sector drive (sector_of pos) 1) (offset_of pos) (rounds (chunk pos remaining))
        out m

  abbrev moved : ℕ
  moved = (pos + chunk pos remaining) % 2 ^ 32

  read_loop-last :
      ltb 0 (remaining - chunk pos remaining) ≡ false
      → read_loop drive (suc fuel) (at_pos pos) out remaining m ≡ some (ok tt, at_pos moved, round)
  unfolding read_loop read_block
  read_loop-last h = rw (h, read_loop)

  read_loop-more :
      ltb 0 (remaining - chunk pos remaining) ≡ true
      → read_loop drive (suc fuel) (at_pos pos) out remaining m
        ≡ read_loop drive fuel
            (at_pos moved)
            (out + chunk pos remaining)
            (remaining - chunk pos remaining)
            round
  unfolding read_loop read_block
  read_loop-more h = rw (h, read_loop)

  -- Below 2 GiB a round reads a part of one sector.
  round-low :
      pos < 2 ^ 31
      → remaining < 2 ^ 31
      → round ≡ copy_out (read_sector drive (pos / 512) 1) (pos % 512) (chunk pos remaining) out m
  round-low low short =
      let (sector, offset) = low_position pos low in
      let all = rounds_short (chunk pos remaining) (omega (arith, chunk-le pos remaining)) in
      rw (sector, offset, all) refl

-- A read of the one disk ends without an error, whatever the position and the size are.
read_loop-ok :
    (drive : Drive) (fuel pos out remaining : ℕ) (m : Mem)
    → remaining < fuel
    → (end : ℕ) × (m' : Mem) × (read_loop drive fuel (at_pos pos) out remaining m
        ≡ some (ok tt, at_pos end, m'))
read_loop-ok drive zero pos out remaining m f = absurd (omega arith)
read_loop-ok drive (suc fuel) pos out remaining m f =
    let n = chunk pos remaining in
    let le = chunk-le pos remaining in
    elim (Bool-cases (ltb 0 (remaining - n))) [
      | inr done ↦ (
        moved drive fuel pos out remaining m,
        round drive fuel pos out remaining m,
        read_loop-last drive fuel pos out remaining m done,
      )
      | inl more ↦
          let step = chunk_progress pos remaining more in
          let (end, m', e) =
            read_loop-ok drive fuel (moved drive fuel pos out remaining m) (out + n) (remaining - n)
              (round drive fuel pos out remaining m) (omega arith) in
          (end, m', read_loop-more drive fuel pos out remaining m more ∙ e)
    ]

pub read-ok :
    (drive : Drive) (pos out total : ℕ) (m : Mem)
    → (end : ℕ) × (m' : Mem) × (read drive (at_pos pos) out total m ≡ some (ok tt, at_pos end, m'))
unfolding read
read-ok drive pos out total m = read_loop-ok drive (total + 1) pos out total m (omega arith)

module _ (drive : Drive) (image : ℕ → ℕ) (holds : Holds drive image) (bytes : IsBytes image) where
  first_Loaded :
      (fuel pos out remaining : ℕ) (m : Mem)
      → pos + remaining < 2 ^ 31
      → Loaded image pos out (chunk pos remaining) m (round drive fuel pos out remaining m)
  first_Loaded fuel pos out remaining m small =
      let n = chunk pos remaining in
      rw (round-low drive fuel pos out remaining m (omega arith) (omega arith)) (
        chunk_Loaded drive image holds bytes pos n out m (omega arith)
          (chunk_fits pos remaining (omega arith) (omega arith)))

  read_loop-Loaded :
      (fuel pos out remaining : ℕ) (m : Mem)
      → remaining < fuel
      → pos + remaining < 2 ^ 31
      → (m' : Mem) × (read_loop drive fuel (at_pos pos) out remaining m
          ≡ some (ok tt, at_pos (pos + remaining), m'))
        × Loaded image pos out remaining m m'
  read_loop-Loaded zero pos out remaining m f small = absurd (omega arith)
  read_loop-Loaded (suc fuel) pos out remaining m f small =
      let n = chunk pos remaining in
      let le = chunk-le pos remaining in
      let first = first_Loaded fuel pos out remaining m small in
      let to : moved drive fuel pos out remaining m ≡ pos + n = omega arith in
      elim (Bool-cases (ltb 0 (remaining - n))) [
        | inr done ↦
            let e = chunk_all pos remaining done in
            let m' = round drive fuel pos out remaining m in
            (
              m',
              read_loop-last drive fuel pos out remaining m done
                  ∙ ap (λ k. some (ok tt, at_pos k, m')) (to ∙ ap (λ k. pos + k) e),
              subst (λ k. Loaded image pos out k m m') e first,
            )
        | inl more ↦
            let step = chunk_progress pos remaining more in
            let m₁ = round drive fuel pos out remaining m in
            let (m', e, rest) =
              read_loop-Loaded fuel (pos + n) (out + n) (remaining - n) m₁ (omega arith)
                (omega arith) in
            let at : pos + n + (remaining - n) ≡ pos + remaining = omega arith in
            let all : n + (remaining - n) ≡ remaining = omega arith in
            (
              m',
              read_loop-more drive fuel pos out remaining m more
                  ∙ ap (λ k. read_loop drive fuel (at_pos k) (out + n) (remaining - n) m₁) to
                  ∙ e
                  ∙ ap (λ k. some (ok tt, at_pos k, m')) at,
              subst (λ k. Loaded image pos out k m m') all
                  (Loaded-append image pos n (remaining - n) out m m₁ m' first rest),
            )
      ]

  -- diskstream_read of `total` bytes that end below 2 GiB, so at a position that is an int, on a
  -- drive that holds `image`, whose values are bytes, ends without an error, moves the position on
  -- by `total`, puts the image's bytes from the position on at `out`, and changes no other byte of
  -- memory.
  pub read-Loaded :
      (pos out total : ℕ) (m : Mem)
      → pos + total < 2 ^ 31
      → (m' : Mem) × (read drive (at_pos pos) out total m ≡ some (ok tt, at_pos (pos + total), m'))
        × Loaded image pos out total m m'
  unfolding read
  read-Loaded pos out total m small =
      read_loop-Loaded (total + 1) pos out total m (omega arith) small
