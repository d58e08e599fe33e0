-- ===== src/Heap/Chains.antt =====
-- heap_malloc and heap_free keep the chains of the table.
use nuts_os.Base.{
  ℕ, zero, suc, ◌+◌, ◌-◌, ◌^◌, ◌<◌, ◌≤◌, ◌≡◌, inl, inr, Bool, true, false, Bool-cases,
  if◌then◌else◌, arith, refl, some, sym, ap, ◌∙◌,
}
use nuts_os.Heap.{Heap, free, malloc, release, block_to_address, mark_blocks_free}
use native.Mathlib.Decide.{dec_lt}
use nuts_os.Heap.Scan.{IsFreeFrom}
use nuts_os.Heap.Marks.{chunk_entry, inside, HasNext, mark_blocks_free_at}
use nuts_os.Heap.Malloc.{
  blocks, malloc_taken, release-pos, mark_blocks_taken-rest, address_to_block-block_to_address,
}
use nuts_os.Heap.Chained.{
  links, continues, starts, IsChained, code-free, code-HasNext, clash, Replaces-IsChained,
}

-- For a size from 1 to 2^32 - 4096 whose blocks stand free in a row inside the table, heap_malloc
-- keeps a chained table chained.
pub malloc-IsChained :
    (h : Heap) (size b₀ : ℕ)
    → IsChained h
    → 0 < size
    → size ≤ 2 ^ 32 - 4096
    → b₀ + blocks size ≤ h.table.total
    → IsFreeFrom h.table.entries b₀ (b₀ + blocks size)
    → IsChained (malloc h size).1
malloc-IsChained h size b₀ v positive small fits run =
    let (b, e, _, room, was_free, entry) = malloc_taken h size b₀ positive small fits run in
    let n = blocks size in
    let zero_at : (i : ℕ) → b ≤ i → i < b + n → h.table.entries i ≡ 0 =
      λ i p q. code-free _ (v.coded i (omega arith)) (was_free i p q) in
    Replaces-IsChained h (malloc h size).1 b n (chunk_entry b n)
      (record { size = rw e (mark_blocks_taken-rest h b n).1; entry = entry }) v (λ j. ground arith)
      (λ j p q. ground arith) (λ j p p' q. ground arith) room (omega arith) (ground arith)
      (ap continues (zero_at b (omega arith) (omega arith)))
      (ap links (zero_at (b + n - 1) (omega arith) (omega arith)))

-- `k` linked blocks from `b` on and then one that has no next one: the rest of a chunk.
pub record IsTail (h : Heap) (b k : ℕ) : Type 0 where
  pub room : b + k < h.table.total
  pub linked : (i : ℕ) → b ≤ i → i < b + k → links (h.table.entries i) ≡ true
  pub ended : links (h.table.entries (b + k)) ≡ false

module _ (h : Heap) (v : IsChained h) where
  IsTail-one : (b : ℕ) → b < h.table.total → links (h.table.entries b) ≡ false → IsTail h b 0
  IsTail-one b room e =
      let at : b ≡ b + 0 = omega arith in
      record {
        room = omega arith;
        linked = λ i p q. absurd (omega arith);
        ended = ap (λ k. links (h.table.entries k)) (sym at) ∙ e;
      }

  IsTail-more :
      (b k : ℕ) → links (h.table.entries b) ≡ true → IsTail h (b + 1) k → IsTail h b (suc k)
  IsTail-more b k e t =
      let at : b + suc k ≡ b + 1 + k = omega arith in
      record {
        room = omega (arith, t.room);
        linked = λ i p q. elim (dec_lt b i) [
          | yes l ↦ t.linked i (omega arith) (omega arith)
          | no g ↦ let same : i ≡ b = omega arith in ap (λ k. links (h.table.entries k)) same ∙ e
        ];
        ended = ap (λ k. links (h.table.entries k)) at ∙ t.ended;
      }

  -- From every block on the chain ends inside the table.
  chain_end : (left b : ℕ) → b + suc left ≡ h.table.total → (k : ℕ) × IsTail h b k
  chain_end zero b e = elim (Bool-cases (links (h.table.entries b))) [
    | inl l ↦ absurd (omega (arith, (v.linked b (omega arith) l).0))
    | inr l ↦ (0, IsTail-one b (omega arith) l)
  ]
  chain_end (suc left) b e =
      let (k, t) = chain_end left (b + 1) (omega arith) in
      elim (Bool-cases (links (h.table.entries b))) [
        | inl l ↦ (suc k, IsTail-more b k l t)
        | inr l ↦ (0, IsTail-one b (omega arith) l)
      ]

  HasNext-links :
      (i : ℕ) (c : Bool)
      → i < h.table.total
      → links (h.table.entries i) ≡ c
      → HasNext (h.table.entries i) c
  HasNext-links i c p e = rw e at (code-HasNext (h.table.entries i) (v.coded i p))

  cleared_at :
      (b k j : ℕ)
      → IsTail h b k
      → (mark_blocks_free h b).table.entries j
        ≡ (if inside b (k + 1) j then free else h.table.entries j)
  cleared_at b k j t =
      mark_blocks_free_at h b k j t.room
        (λ i p q. HasNext-links i true (omega (arith, t.room)) (t.linked i p q))
        (HasNext-links (b + k) false t.room t.ended)

  cleared_IsChained :
      (b k : ℕ)
      → IsTail h b k
      → starts (h.table.entries b) ≡ true
      → IsChained (mark_blocks_free h b)
  cleared_IsChained b k t first =
      let at : b + (k + 1) - 1 ≡ b + k = omega arith in
      Replaces-IsChained h (mark_blocks_free h b) b (k + 1) (λ _. free)
        (record { size = unfold mark_blocks_free in refl; entry = λ j. cleared_at b k j t }) v
        (λ j. refl) (λ j p q. absurd (clash q refl)) (λ j p p' q. absurd (clash q refl))
        (omega (arith, t.room)) (omega arith) refl (ground arith)
        (ap (λ i. links (h.table.entries i)) at ∙ t.ended)

-- On a chained heap of at most 2^19 blocks that starts below 4 GiB, heap_free, given the address of
-- a chunk's first block, clears the entries from it up to the first one that has no next block, no
-- other entry, and keeps the table chained.
pub release-IsChained :
    (h : Heap) (b : ℕ)
    → IsChained h
    → h.saddr < 2 ^ 32
    → h.table.total ≤ 2 ^ 19
    → b < h.table.total
    → starts (h.table.entries b) ≡ true
    → (g : Heap) × (k : ℕ) × (release h (block_to_address h b) ≡ some g)
      × IsChained g
      × IsTail h b k
      × ((j : ℕ) → g.table.entries j ≡ (if inside b (k + 1) j then free else h.table.entries j))
release-IsChained h b v s small room first =
    let (k, t) = chain_end h v (h.table.total - b - 1) b (omega arith) in
    (
      mark_blocks_free h b,
      k,
      release-pos h (block_to_address h b) b
          (address_to_block-block_to_address h b s (omega arith)),
      cleared_IsChained h v b k t first,
      t,
      λ j. cleared_at h v b k j t,
    )
