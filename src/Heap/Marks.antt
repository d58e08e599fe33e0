-- ===== src/Heap/Marks.antt =====
-- What heap_mark_blocks_taken and heap_mark_blocks_free leave in each table entry.
use nuts_os.Base.{
  ℕ, zero, suc, ◌+◌, ◌-◌, ◌<◌, ◌≤◌, ◌≡◌, ◌==◌, ◌&&◌, ltb, leb, if◌then◌else◌, update, arith, true,
  false, Bool, bit_and, bit_or, not, sym, ap, ◌∙◌, update_ne,
}
use mathlib.Core.Path.{subst}
use nuts_os.Heap.{
  Heap, taken, free, has_next, is_first, mark_loop, mark_blocks_taken, free_loop, mark_blocks_free,
}

-- The entry of block `j` in a chunk of `n` blocks from `b` on.
abbrev pub chunk_entry : ℕ → ℕ → ℕ → ℕ
chunk_entry b n j =
    if j == b then if n == 1 then 0x41 else 0xc1 else if j + 1 == b + n then 0x01 else 0x81

abbrev pub inside : ℕ → ℕ → ℕ → Bool
inside b n j = leb b j && ltb j (b + n)

mark_loop_at :
    (left i end entry : ℕ) (es : ℕ → ℕ) (j : ℕ)
    → i + left ≡ end + 1
    → mark_loop left i end entry es j ≡ (
        if j == i && ltb 0 left
        then entry
        else if ltb i j && leb j end
        then if j == end then 0x01 else 0x81
        else es j)
unfolding mark_loop
mark_loop_at zero i end entry es j e = ground arith
mark_loop_at (suc left) i end entry es j e = ground (
  arith,
  mark_loop_at left (i + 1) end (if i + 1 == end then taken else bit_or taken has_next)
      (update es i entry) j,
)

-- heap_mark_blocks_taken writes the entries of one chunk, its first block and its last one marked,
-- and leaves the others as they were.
pub mark_blocks_taken_at :
    (h : Heap) (b n j : ℕ)
    → 0 < n
    → (mark_blocks_taken h b n).table.entries j
      ≡ (if inside b n j then chunk_entry b n j else h.table.entries j)
unfolding mark_blocks_taken
mark_blocks_taken_at h b n j some_blocks = ground (
  arith,
  mark_loop_at n b (b + n - 1)
      (if ltb 1 n then bit_or (bit_or taken is_first) has_next else bit_or taken is_first)
      h.table.entries j,
)

abbrev pub HasNext : ℕ → Bool → Type 0
HasNext e b = (bit_and e has_next == 0) ≡ not b

-- From block `b` on, `k` blocks that have a next one and then one that has none.
abbrev pub Linked : (ℕ → ℕ) → ℕ → ℕ → Type 0
Linked es b k = (i : ℕ) → b ≤ i → i < b + k → HasNext (es i) true

module _ (left i : ℕ) (es : ℕ → ℕ) where
  free_loop-last : HasNext (es i) false → free_loop (suc left) i es ≡ update es i free
  unfolding free_loop
  free_loop-last h = rw (h, free_loop)

  free_loop-more :
      HasNext (es i) true → free_loop (suc left) i es ≡ free_loop left (i + 1) (update es i free)
  unfolding free_loop
  free_loop-more h = rw (h, free_loop)

free_loop_at :
    (k left i : ℕ) (es : ℕ → ℕ) (j : ℕ)
    → k < left
    → Linked es i k
    → HasNext (es (i + k)) false
    → free_loop left i es j ≡ (if inside i (k + 1) j then free else es j)
free_loop_at k zero i es j fuel linked ended = absurd (omega arith)
free_loop_at zero (suc left) i es j fuel linked ended =
    let at : i + zero ≡ i = omega arith in
    rw (free_loop-last left i es (rw at at ended)) (ground arith)
free_loop_at (suc k) (suc left) i es j fuel linked ended =
    let later : Linked (update es i free) (i + 1) k = λ c p q.
      subst (λ v. HasNext v true) (sym (update_ne es i c free (omega arith)))
        (linked c (omega arith) (omega arith)) in
    let at : i + suc k ≡ i + 1 + k = omega arith in
    let last : HasNext (update es i free (i + 1 + k)) false =
      subst (λ v. HasNext v false) (ap es at ∙ sym (update_ne es i (i + 1 + k) free (omega arith)))
        ended in
    let rest = free_loop_at k left (i + 1) (update es i free) j (omega arith) later last in
    rw (free_loop-more left i es (linked i (omega arith) (omega arith))) (ground (arith, rest))

-- On a chunk of `k + 1` blocks heap_mark_blocks_free clears exactly the chunk's entries.
pub mark_blocks_free_at :
    (h : Heap) (b k j : ℕ)
    → b + k < h.table.total
    → Linked h.table.entries b k
    → HasNext (h.table.entries (b + k)) false
    → (mark_blocks_free h b).table.entries j
      ≡ (if inside b (k + 1) j then free else h.table.entries j)
unfolding mark_blocks_free
mark_blocks_free_at h b k j fits linked ended =
    free_loop_at k (h.table.total - b) b h.table.entries j (omega arith) linked ended
