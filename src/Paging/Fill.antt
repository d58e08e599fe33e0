-- ===== src/Paging/Fill.antt =====
-- The memory that paging_chunk_new takes, and the tables that it fills.
use nuts_os.Base.{
  ℕ, zero, suc, ◌+◌, ◌*◌, ◌/◌, ◌%◌, ◌^◌, ◌<◌, ◌≤◌, ◌≡◌, ◌⊎◌, ◌==◌, arith, refl, update, bit_and,
  bit_or, Bool-cases, inl, inr, fun_ext, ap, ◌∙◌,
}
use nuts_os.Base.Bits.{bit_or_sum, bit_and_high, bit_and_mod}
use nuts_os.Memory.{memset}
use nuts_os.Memory.Laws.{memset_at}
use nuts_os.Heap.{Heap}
use nuts_os.Heap.Kernel.{kmalloc, kzalloc}
use nuts_os.Heap.Store.{Store, zalloc}
use nuts_os.Paging.{Words, kzalloc_words, zero_words, fill_table, entry_get_pointer}

-- The store of page tables: the heap, with the words that they hold.
abbrev pub word_store : Heap → Words → Store
word_store heap w = record { heap = heap; memory = w }

zero_words-memset : (ptr size : ℕ) (w : Words) → zero_words ptr size w ≡ memset ptr 0 size w
zero_words-memset ptr size w = fun_ext λ a. ground (arith, memset_at ptr 0 size w a)

-- An allocation of words is one of the store.
pub kzalloc_words-zalloc :
    (heap : Heap) (w : Words) (size : ℕ)
    → let (p, s) = zalloc (word_store heap w) size in
      kzalloc_words heap w size ≡ (p, s.heap, s.memory)
unfolding kzalloc_words kzalloc
kzalloc_words-zalloc heap w size = elim (Bool-cases ((kmalloc heap size).0 == 0)) [
  | inl null ↦ rw (null, kzalloc_words, kzalloc) refl
  | inr made ↦
      rw (made, kzalloc_words, kzalloc, zero_words-memset (kmalloc heap size).0 size w) refl
]

-- The entry of page `b` of a table that begins at `offset`.
abbrev pub page_entry : ℕ → ℕ → ℕ → ℕ
page_entry offset flags b = bit_or ((offset + b * 4096) % 2 ^ 32) flags

pub fill_table_outside :
    (left b entry offset flags : ℕ) (w : Words) (a : ℕ)
    → (a < entry + 4 * b) ⊎ (entry + 4 * (b + left) ≤ a)
    → fill_table left b entry offset flags w a ≡ w a
unfolding fill_table
fill_table_outside zero b entry offset flags w a h = refl
fill_table_outside (suc left) b entry offset flags w a h =
    fill_table_outside left (b + 1) entry offset flags
      (update w (entry + 4 * b) (page_entry offset flags b)) a (nearer h)
    ∙ ground arith
  where
    nearer :
        (a < entry + 4 * b) ⊎ (entry + 4 * (b + suc left) ≤ a)
        → (a < entry + 4 * (b + 1)) ⊎ (entry + 4 * (b + 1 + left) ≤ a)
    nearer (inl k) = inl (omega arith)
    nearer (inr k) = inr (omega arith)

pub fill_table_at :
    (left b entry offset flags : ℕ) (w : Words) (j : ℕ)
    → b ≤ j
    → j < b + left
    → fill_table left b entry offset flags w (entry + 4 * j) ≡ page_entry offset flags j
unfolding fill_table
fill_table_at zero b entry offset flags w j low high = absurd (omega arith)
fill_table_at (suc left) b entry offset flags w j low high =
    let w' = update w (entry + 4 * b) (page_entry offset flags b) in
    elim (Bool-cases (j == b)) [
      | inl e ↦
          let here : j ≡ b = ground arith in
          fill_table_outside left (b + 1) entry offset flags w' (entry + 4 * j) (inl (omega arith))
          ∙ ground (arith, ap (page_entry offset flags) here)
      | inr e ↦ fill_table_at left (b + 1) entry offset flags w' j (ground arith) (omega arith)
    ]

-- The pointer in an entry of a directory is the address of the table, which starts a page.
pub entry_pointer :
    (t flags : ℕ)
    → t % 4096 ≡ 0
    → t < 2 ^ 32
    → flags < 4096
    → entry_get_pointer (bit_or t flags) ≡ t
entry_pointer t flags a small low =
    let q = t / 2 ^ 12 in
    let at : q * 2 ^ 12 ≡ t = omega arith in
    let joined = bit_or_sum 12 q flags low in
    omega (
      arith,
      joined,
      ap (λ k. bit_or k flags) at,
      ap (λ k. bit_and k 0xfffff000) joined,
      bit_and_high 12 0xfffff q flags low,
      bit_and_mod 20 q,
      ap (λ k. bit_and (bit_or k flags) 0xfffff000) at,
    )
