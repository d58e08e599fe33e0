-- ===== src/Paging/Round.antt =====
-- paging_chunk_new: one entry of the directory and its table.
use nuts_os.Base.{ℕ, ◌+◌, ◌*◌, ◌<◌, ◌≤◌, ◌≡◌, ◌≢◌, ◌⊎◌, true, arith, update, bit_or, inl, inr}
use nuts_os.Heap.Store.{Store, IsUsable, free_blocks, is_safe, Fresh, Fresh-apart, zalloc}
use nuts_os.Heap.Store.Taking.{zalloc-Fresh}
use nuts_os.Paging.{fill_table}
use nuts_os.Paging.Fill.{page_entry, fill_table_outside, fill_table_at}

-- The state after a round, with the new table at `table_address`.
abbrev pub table_address : Store → ℕ
table_address s = (zalloc s 4096).0

abbrev pub after : Store → ℕ → ℕ → ℕ → ℕ → Store
after s d i offset flags = record {
  heap = (zalloc s 4096).1.heap;
  memory =
      update (fill_table 1024 0 (table_address s) offset flags (zalloc s 4096).1.memory) (d + 4 * i)
        (bit_or (table_address s) (bit_or flags 2));
}

-- One entry of the directory, on the page of the directory, which is safe.
module _ (s : Store) (d i offset flags : ℕ) (u : IsUsable s.heap)
    (some_free : 0 < free_blocks s.heap) (own : (k : ℕ) → k < 4096 → is_safe s.heap (d + k) ≡ true)
    (inside : i < 1024) where
  pub fresh : Fresh s (zalloc s 4096).1 (table_address s) 4096
  fresh = zalloc-Fresh s 4096 u (omega arith) (omega arith) some_free

  -- The new table is not in the directory.
  pub apart : (k j : ℕ) → k < 4096 → j < 4096 → d + k ≢ (table_address s) + j
  apart k j h h' e =
      elim (Fresh-apart s (zalloc s 4096).1 (table_address s) 4096 (d + k) fresh (own k h)) [
        | inl low ↦ omega arith
        | inr high ↦ omega arith
      ]

  pub after_kept :
      (a : ℕ)
      → is_safe s.heap a ≡ true
      → a ≢ d + 4 * i
      → (after s d i offset flags).memory a ≡ s.memory a
  after_kept a safe ne =
      let out : (a < (table_address s) + 4 * 0) ⊎ ((table_address s) + 4 * (0 + 1024) ≤ a) =
        elim (Fresh-apart s (zalloc s 4096).1 (table_address s) 4096 a fresh safe) [
          | inl low ↦ inl (omega arith)
          | inr high ↦ inr (omega arith)
        ] in
      ground (
        arith,
        fill_table_outside 1024 0 (table_address s) offset flags (zalloc s 4096).1.memory a out,
        fresh.kept a safe,
      )

  pub after_entry :
      (after s d i offset flags).memory (d + 4 * i) ≡ bit_or (table_address s) (bit_or flags 2)
  after_entry = ground arith

  pub after_mapped :
      (k : ℕ)
      → k < 1024
      → (after s d i offset flags).memory ((table_address s) + 4 * k) ≡ page_entry offset flags k
  after_mapped k h = ground (
    arith,
    fill_table_at 1024 0 (table_address s) offset flags (zalloc s 4096).1.memory k (omega arith)
        (omega arith),
    apart (4 * i) (4 * k) (omega arith) (omega arith),
  )
