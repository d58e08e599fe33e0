-- ===== src/Fat/Files/Position.antt =====
-- fat16_seek and fat16_stat: the position of an open file, and what it tells of the file.
use nuts_os.Base.{
  ℕ, ◌+◌, ◌%◌, ◌^◌, ◌<◌, ◌≡◌, ◌≢◌, ◌==◌, true, false, some, none, if◌then◌else◌, leb, arith, refl,
  bit_and, Bool-cases, inl, inr, Option, eio,
}
use nuts_os.File.{FileSeekMode, seek_set, seek_cur, seek_end}
use nuts_os.Fat.{FatDirectoryItem, file, neg, is_err}
use nuts_os.Fat.Files.{FatFileDescriptor, fat_seek, seek_item, fat_stat, FileStat}

-- Where a seek asks to go: none is from the end, which is not supported.
abbrev pub wanted : FatFileDescriptor → ℕ → FileSeekMode → Option ℕ
wanted desc offset seek_set = some offset
wanted desc offset seek_cur = some ((desc.pos + offset) % 2 ^ 32)
wanted desc offset seek_end = none

-- The result of a seek: the descriptor at the place that was asked for, inside the file, or an
-- error and the descriptor as it was.
pub record Sought (desc desc' : FatFileDescriptor) (item : FatDirectoryItem) (res : ℕ)
    (place : Option ℕ) : Type 0 where
  pub sound : is_err res ≡ false → (desc'.pos < item.filesize) × (place ≡ some desc'.pos)
  pub complete : (p : ℕ) → place ≡ some p → p < item.filesize → res ≡ 0
  pub unchanged : is_err res ≡ true → desc' ≡ desc
  pub same_file : desc'.item ≡ desc.item

some-inj : (a b : ℕ) → some a ≡ some b → a ≡ b
some-inj a b e = cc

module _ (desc : FatFileDescriptor) (item : FatDirectoryItem) (p : ℕ) where
  -- A seek to a place, inside the file or not.
  abbrev seek_result : ℕ × FatFileDescriptor
  seek_result = if leb item.filesize p then (neg eio, desc) else (0, record desc { pos = p })

  seek_to_place : Sought desc seek_result.1 item seek_result.0 (some p)
  seek_to_place = elim (Bool-cases (leb item.filesize p)) [
    | inl beyond ↦ rw beyond (record {
      sound = λ fine. absurd (ground arith);
      complete = λ q e small. let same = some-inj p q e in absurd (ground arith);
      unchanged = λ bad. refl;
      same_file = refl;
    })
    | inr inside ↦ rw inside (record {
      sound = λ fine. (ground arith, refl);
      complete = λ q e small. refl;
      unchanged = λ bad. absurd (ground arith);
      same_file = refl;
    })
  ]

seek_item-Sought :
    (item : FatDirectoryItem) (desc : FatFileDescriptor) (offset : ℕ) (mode : FileSeekMode)
    → Sought desc
        (seek_item item desc offset mode).1
        item
        (seek_item item desc offset mode).0
        (wanted desc offset mode)
unfolding seek_item
seek_item-Sought item desc offset seek_set = seek_to_place desc item offset
seek_item-Sought item desc offset seek_cur = seek_to_place desc item ((desc.pos + offset) % 2 ^ 32)
seek_item-Sought item desc offset seek_end = record {
  sound = λ fine. absurd (ground arith);
  complete = λ q e small. absurd cc;
  unchanged = λ bad. refl;
  same_file = refl;
}

-- A descriptor of a file whose item stands at `p`.
abbrev pub open_file : ℕ → ℕ → ℕ → FatDirectoryItem → ℕ → FatFileDescriptor
open_file addr a p item pos = record { addr = addr; item = file a p item; pos = pos }

-- fat16_seek on an open file, in every mode: it succeeds exactly for a place inside the file, from
-- the start or from the position, which wraps at 2^32, and then the position is that place; from
-- the end, or beyond it, it fails with the descriptor as it was. The pointer to the item is not
-- null.
pub fat_seek-Sought :
    (addr a p pos : ℕ) (item : FatDirectoryItem) (offset : ℕ) (mode : FileSeekMode)
    → p ≢ 0
    → (res : ℕ) × (desc' : FatFileDescriptor) × (fat_seek (open_file addr a p item pos) offset mode
        ≡ some (res, desc'))
      × Sought
          (open_file addr a p item pos)
          desc'
          item
          res
          (wanted (open_file addr a p item pos) offset mode)
unfolding fat_seek
fat_seek-Sought addr a p pos item offset mode ne =
    let known : (p == 0) ≡ false = ground arith in
    let done = seek_item item (open_file addr a p item pos) offset mode in
    (done.0, done.1, rw known refl, seek_item-Sought item (open_file addr a p item pos) offset mode)

-- fat16_stat of a file whose pointer to the item is not null gives the size of the item and flags
-- of 0, also for a read-only file, since the enumerator that stands for it is 0.
pub fat_stat-flags :
    (a p : ℕ) (item : FatDirectoryItem) (desc : FatFileDescriptor) (stat : FileStat)
    → desc.item ≡ file a p item
    → p ≢ 0
    → fat_stat desc stat ≡ some (0, record { flags = 0; filesize = item.filesize })
unfolding fat_stat
fat_stat-flags a p item desc stat e ne =
    let known : (p == 0) ≡ false = ground arith in
    rw (e, fat_stat, known)
      (elim (Bool-cases (bit_and item.attribute 1 == 0)) [
        | inl writable ↦ rw writable refl
        | inr read_only ↦ rw read_only refl
      ])
