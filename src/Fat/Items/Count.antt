-- ===== src/Fat/Items/Count.antt =====
-- fat16_get_total_items_for_directory: what it counts.
use nuts_os.Base.{
  ℕ, zero, suc, ◌+◌, ◌-◌, ◌*◌, ◌%◌, ◌^◌, ◌<◌, ◌≡◌, ◌≢◌, ◌==◌, some, if◌then◌else◌, arith, false,
  Bool-cases, inl, inr, ap, ok, ◌∙◌,
}
use nuts_os.Memory.{Mem}
use nuts_os.Disk
use nuts_os.Disk.{Drive}
use nuts_os.Disk.Sector.{Holds, IsBytes}
use nuts_os.Disk.Stream.{at_pos, read-Loaded}
use nuts_os.Fat.{FatDisk}
use nuts_os.Fat.Items.{count_items, get_total_items_for_directory}

-- How many of the first `k` items from `pos` on are in use.
abbrev pub used : (ℕ → ℕ) → ℕ → ℕ → ℕ
used image pos zero = 0
used image pos (suc k) = (if image pos == 0xE5 then 0 else 1) + used image (pos + 32) k

-- The `k`-th item from `pos` on is the first one that starts with a zero.
pub record EndsAt (image : ℕ → ℕ) (pos k : ℕ) : Type 0 where
  pub before : (j : ℕ) → j < k → image (pos + 32 * j) ≢ 0
  pub end : image (pos + 32 * k) ≡ 0

later : (pos j : ℕ) → pos + 32 + 32 * j ≡ pos + 32 * suc j
later pos j = omega arith

EndsAt-tail : (image : ℕ → ℕ) (pos k : ℕ) → EndsAt image pos (suc k) → EndsAt image (pos + 32) k
EndsAt-tail image pos k e = record {
  before = λ j h. rw (later pos j) (e.before (suc j) (omega arith));
  end = rw (later pos k) e.end;
}

module _ (drive : Drive) (image : ℕ → ℕ) (holds : Holds drive image) (bytes : IsBytes image) where
  -- One read of an item.
  read_item :
      (pos : ℕ) (m : Mem)
      → pos + 32 < 2 ^ 31
      → (m' : Mem) × (Disk.read drive (at_pos pos) 0 32 m ≡ some (ok tt, at_pos (pos + 32), m'))
        × (m' 0 ≡ image pos)
  read_item pos m small =
      let (m', e, l) = read-Loaded drive image holds bytes pos 0 32 m small in
      (m', e, ground (arith, l 0, ap image (at pos)))
    where
      at : (p : ℕ) → p + (0 - 0) ≡ p
      at p = omega arith

  count_items-used :
      (fuel pos k res : ℕ) (m : Mem)
      → EndsAt image pos k
      → k < fuel
      → pos + 32 * (k + 1) < 2 ^ 31
      → count_items fuel drive (at_pos pos) res m ≡ some (res + used image pos k)
  unfolding count_items
  count_items-used zero pos k res m e f small = absurd (omega arith)
  count_items-used (suc fuel) pos zero res m e f small =
      let (m', run, first) = read_item pos m (omega arith) in
      let end : image pos ≡ 0 = ap image (omega arith) ∙ e.end in
      let none_left : m' 0 ≡ 0 = first ∙ end in rw (run, none_left, count_items) (ground arith)
  count_items-used (suc fuel) pos (suc k) res m e f small =
      let (m', run, first) = read_item pos m (omega arith) in
      let ne : image pos ≢ 0 = λ z. e.before 0 (omega arith) (ap image (omega arith) ∙ z) in
      let rest = count_items-used fuel (pos + 32) k in
      elim (Bool-cases (image pos == 0xE5)) [
        | inl skipped ↦
            rw (run, first, skipped, count_items)
              (rest res m' (EndsAt-tail image pos k e) (omega arith) (omega arith) ∙ ground arith)
        | inr counted ↦
            let in_use : (m' 0 == 0xE5) ≡ false = ground arith in
            let more : (m' 0 == 0) ≡ false = ground arith in
            rw (run, in_use, more, counted, count_items)
              (rest (res + 1) m' (EndsAt-tail image pos k e) (omega arith) (omega arith)
                ∙ ground arith)
      ]

  -- On a disk whose directory stream is open, and whose drive holds a byte image: where the `k`-th
  -- item of the directory that starts at a sector is the first with a zero at its start, and it
  -- ends below 2 GiB, so at a position that is an int, fat16_get_total_items_for_directory, given
  -- more than `k` rounds of fuel, returns how many of the first `k` items are not marked as unused.
  pub get_total_items_for_directory_lem :
      (disk : FatDisk) (p fuel sector k : ℕ)
      → disk.fs_private.directory_stream ≡ some (at_pos p)
      → sector * disk.sector_size + 32 * (k + 1) < 2 ^ 31
      → EndsAt image (sector * disk.sector_size) k
      → k < fuel
      → get_total_items_for_directory fuel drive disk sector
        ≡ some (used image (sector * disk.sector_size) k)
  unfolding get_total_items_for_directory Disk.seek
  get_total_items_for_directory_lem disk p fuel sector k open_stream small e f =
      let pos = sector * disk.sector_size in
      let at : pos % 2 ^ 32 ≡ pos = omega arith in
      rw (open_stream, at)
        (count_items-used fuel pos k 0 (λ _. 0) e f (omega arith) ∙ ap some (omega arith))
