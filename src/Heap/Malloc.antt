-- ===== src/Heap/Malloc.antt =====
-- heap_malloc and heap_free: sizes, addresses, and a chunk taken and given back.
use mathlib.Core.Path.{subst}
use nuts_os.Base.{
  ℕ, zero, suc, ◌+◌, ◌-◌, ◌*◌, ◌/◌, ◌^◌, ◌<◌, ◌≤◌, ◌≡◌, ◌==◌, Bool-cases, inl, inr, if◌then◌else◌,
  arith, true, false, refl, some, sym, ap, ◌∙◌, fun_ext, ok,
}
use nuts_os.Base.Int.{pos}
use nuts_os.Heap.{
  Heap, free, align_value_to_upper, get_next_free_block, block_to_address, address_to_block,
  mark_blocks_taken, mark_blocks_free, malloc, malloc_blocks, release,
}
use nuts_os.Heap.Scan.{IsFree, IsFreeFrom, first_fit}
use nuts_os.Heap.Marks.{
  chunk_entry, inside, HasNext, Linked, mark_blocks_taken_at, mark_blocks_free_at,
}

-- The blocks that `size` bytes take.
abbrev pub blocks : ℕ → ℕ
blocks size = (size + 4095) / 4096

-- heap_align_value_to_upper rounds up to whole blocks, where the result fits 32 bits.
pub align_value_to_upper_lem :
    (val : ℕ) → val ≤ 2 ^ 32 - 4096 → align_value_to_upper val ≡ blocks val * 4096
unfolding align_value_to_upper
align_value_to_upper_lem val h = ground arith

-- Above the last whole block below 4 GiB the sum wraps: the aligned size is 0.
pub align_wraps : (val : ℕ) → 2 ^ 32 - 4096 < val → val < 2 ^ 32 → align_value_to_upper val ≡ 0
unfolding align_value_to_upper
align_wraps val h g = ground arith

-- Every block of a heap within the address space and below 2 GiB has an address that leads back.
pub address_to_block-block_to_address :
    (h : Heap) (b : ℕ)
    → h.saddr < 2 ^ 32
    → b < 2 ^ 19
    → address_to_block h (block_to_address h b) ≡ pos b
unfolding address_to_block block_to_address
address_to_block-block_to_address h b s small = ground arith

malloc_blocks-ok :
    (h : Heap) (n b : ℕ)
    → get_next_free_block h n ≡ ok b
    → malloc_blocks h n ≡ (block_to_address h b, mark_blocks_taken h b n)
unfolding malloc_blocks
malloc_blocks-ok h n b e = rw (e, malloc_blocks)

malloc_lem :
    (h : Heap) (size : ℕ) → size ≤ 2 ^ 32 - 4096 → malloc h size ≡ malloc_blocks h (blocks size)
unfolding malloc
malloc_lem h size small =
    let e : align_value_to_upper size / 4096 ≡ blocks size =
      omega (arith, align_value_to_upper_lem size small) in
    ap (malloc_blocks h) e

-- For a size from 1 to 2^32 - 4096 whose blocks stand free in a row from `b₀` on, inside the table,
-- heap_malloc returns the address of such a row of free blocks at or before `b₀`, takes exactly its
-- blocks, and changes no other entry.
pub malloc_taken :
    (h : Heap) (size b₀ : ℕ)
    → 0 < size
    → size ≤ 2 ^ 32 - 4096
    → b₀ + blocks size ≤ h.table.total
    → IsFreeFrom h.table.entries b₀ (b₀ + blocks size)
    → (b : ℕ) × (malloc h size ≡ (block_to_address h b, mark_blocks_taken h b (blocks size)))
      × (b ≤ b₀)
      × (b + blocks size ≤ h.table.total)
      × IsFreeFrom h.table.entries b (b + blocks size)
      × ((j : ℕ)
          → (malloc h size).1.table.entries j ≡ (
              if inside b (blocks size) j
              then chunk_entry b (blocks size) j
              else h.table.entries j))
malloc_taken h size b₀ positive small fits run =
    let (b, e, below, inside, was_free) = first_fit h (blocks size) b₀ (omega arith) fits run in
    let whole = malloc_lem h size small ∙ malloc_blocks-ok h (blocks size) b e in
    (
      b,
      whole,
      below,
      inside,
      was_free,
      λ j. rw whole (mark_blocks_taken_at h b (blocks size) j (omega arith)),
    )

-- The entries of a fresh chunk are linked up to its last block.
chunk-Linked : (h : Heap) (b k : ℕ) → Linked (mark_blocks_taken h b (suc k)).table.entries b k
chunk-Linked h b k i from below = subst (λ v. HasNext v true) (sym e) (linked i from below)
  where
    e : (mark_blocks_taken h b (suc k)).table.entries i ≡ (if i == b then 0xc1 else 0x81)
    e = ground (arith, mark_blocks_taken_at h b (suc k) i (omega arith))

    linked : (i : ℕ) → b ≤ i → i < b + k → HasNext (if i == b then 0xc1 else 0x81) true
    linked i from below = ground arith

chunk-ended :
    (h : Heap) (b k : ℕ) → HasNext ((mark_blocks_taken h b (suc k)).table.entries (b + k)) false
chunk-ended h b k = subst (λ v. HasNext v false) (sym e) (ended (k == 0))
  where
    e : (mark_blocks_taken h b (suc k)).table.entries (b + k) ≡ (if k == 0 then 0x41 else 0x01)
    e = ground (arith, mark_blocks_taken_at h b (suc k) (b + k) (omega arith))

    ended : (c : _) → HasNext (if c then 0x41 else 0x01) false
    ended true = refl
    ended false = refl

-- Only the entries of a heap differ after its blocks are marked and cleared.
with_entries : Heap → (ℕ → ℕ) → Heap
with_entries h es = record h { table = record (h.table) { entries = es } }

pub mark_blocks_taken-rest :
    (h : Heap) (b n : ℕ)
    → ((mark_blocks_taken h b n).saddr ≡ h.saddr)
      × ((mark_blocks_taken h b n).table.total ≡ h.table.total)
unfolding mark_blocks_taken
mark_blocks_taken-rest h b n = (refl, refl)

free_taken :
    (h : Heap) (b n : ℕ)
    → mark_blocks_free (mark_blocks_taken h b n) b
      ≡ with_entries h (mark_blocks_free (mark_blocks_taken h b n) b).table.entries
unfolding mark_blocks_taken mark_blocks_free with_entries
free_taken h b n = refl

pub release-pos :
    (h : Heap) (ptr b : ℕ)
    → address_to_block h ptr ≡ pos b
    → release h ptr ≡ some (mark_blocks_free h b)
unfolding release
release-pos h ptr b e = rw (e, release)

-- Clearing a fresh chunk brings the entries back, if those of its blocks were zero.
entries_back :
    (h : Heap) (b k j : ℕ)
    → b + suc k ≤ h.table.total
    → ((i : ℕ) → b ≤ i → i < b + suc k → h.table.entries i ≡ 0)
    → (mark_blocks_free (mark_blocks_taken h b (suc k)) b).table.entries j ≡ h.table.entries j
entries_back h b k j fits zeros = elim (Bool-cases (inside b (k + 1) j)) [
  | inl e ↦ ground (arith, after, zeros j (omega (arith, inside-le)) (omega (arith, inside-lt)))
  | inr e ↦ ground (arith, after, mark_blocks_taken_at h b (suc k) j (omega arith))
]
  where
    inside-le : inside b (k + 1) j ≡ true → b ≤ j
    inside-le e = ground arith

    inside-lt : inside b (k + 1) j ≡ true → j < b + suc k
    inside-lt e = ground arith

    after :
        (mark_blocks_free (mark_blocks_taken h b (suc k)) b).table.entries j
        ≡ (if inside b (k + 1) j then free else (mark_blocks_taken h b (suc k)).table.entries j)
    after =
        mark_blocks_free_at (mark_blocks_taken h b (suc k)) b k j
          (omega (arith, (mark_blocks_taken-rest h b (suc k)).1)) (chunk-Linked h b k)
          (chunk-ended h b k)

chunk_back :
    (h : Heap) (b n : ℕ)
    → 0 < n
    → h.saddr < 2 ^ 32
    → h.table.total ≤ 2 ^ 19
    → b + n ≤ h.table.total
    → ((i : ℕ) → b ≤ i → i < b + n → h.table.entries i ≡ 0)
    → release (mark_blocks_taken h b n) (block_to_address h b) ≡ some h
chunk_back h b zero some_blocks s small fits zeros = absurd (omega arith)
chunk_back h b (suc k) some_blocks s small fits zeros =
    release-pos h' (block_to_address h b) b back ∙ ap some (free_taken h b (suc k) ∙ restored)
  where
    h' : Heap
    h' = mark_blocks_taken h b (suc k)

    same : block_to_address h' b ≡ block_to_address h b
    same = unfold block_to_address in rw ((mark_blocks_taken-rest h b (suc k)).0)

    back : address_to_block h' (block_to_address h b) ≡ pos b
    back =
        ap (address_to_block h') (sym same)
        ∙ address_to_block-block_to_address h' b
            (omega (arith, (mark_blocks_taken-rest h b (suc k)).0)) (omega arith)

    restored : with_entries h (mark_blocks_free h' b).table.entries ≡ h
    restored =
        unfold with_entries in ap (with_entries h) (fun_ext λ j. entries_back h b k j fits zeros)

-- Freeing what heap_malloc has just returned gives back the heap as it was: for a size from 1 to
-- 2^32 - 4096 whose blocks stand free in a row inside the table, a heap that starts below 4 GiB and
-- has at most 2^19 blocks, and free entries that are zero.
pub malloc-release :
    (h : Heap) (size b₀ : ℕ)
    → h.saddr < 2 ^ 32
    → h.table.total ≤ 2 ^ 19
    → ((i : ℕ) → i < h.table.total → IsFree h.table.entries i → h.table.entries i ≡ 0)
    → 0 < size
    → size ≤ 2 ^ 32 - 4096
    → b₀ + blocks size ≤ h.table.total
    → IsFreeFrom h.table.entries b₀ (b₀ + blocks size)
    → release (malloc h size).1 (malloc h size).0 ≡ some h
malloc-release h size b₀ s small clean positive fits_size fits run =
    let (b, e, _, inside, was_free, _) = malloc_taken h size b₀ positive fits_size fits run in
    rw e (
      chunk_back h b (blocks size) (omega arith) s small inside
        λ i p q. clean i (omega arith) (was_free i p q))
