-- ===== src/Heap/Store/Taking.antt =====
-- kzalloc of at most one block, and the release of that block.
use nuts_os.Base.{
  ℕ, suc, ◌+◌, ◌-◌, ◌*◌, ◌/◌, ◌<◌, ◌≤◌, ◌≡◌, ◌≢◌, ◌==◌, ltb, if◌then◌else◌, arith, true, false,
  refl, Bool-cases, inl, inr, sym, ap, ◌∙◌,
}
use mathlib.Core.Path.{subst}
use nuts_os.Memory.{Mem, memset}
use nuts_os.Memory.Laws.{memset_at}
use nuts_os.Base.{update}
use nuts_os.Heap.{mark_blocks_free, release, free_loop, Heap, free, malloc, block_to_address}
use nuts_os.Heap.Scan.{IsFree, IsFreeFrom}
use nuts_os.Heap.Marks.{inside}
use nuts_os.Heap.Malloc.{
  blocks, malloc_taken, mark_blocks_taken-rest, release-pos, address_to_block-block_to_address,
}
use nuts_os.Heap.Kernel.{kzalloc-ok, address_inside}
use nuts_os.Heap.Store.{
  Store, count_free, free_blocks, IsUsable, is_safe, Released, Fresh, zalloc, differ,
}
use nuts_os.Heap.Store.Counting.{count_free-found, count_free-taken, count_free-alike, is_free}

-- The table after one block is taken.
abbrev TakesBlock : Heap → Heap → ℕ → Type 0
TakesBlock h h' b =
    (h'.saddr ≡ h.saddr)
    × (h'.table.total ≡ h.table.total)
    × ((j : ℕ) → h'.table.entries j ≡ (if j == b then 0x41 else h.table.entries j))

in_block : (p saddr b i : ℕ) → p ≡ saddr + b * 4096 → i < 4096 → (p + i - saddr) / 4096 ≡ b
in_block p saddr b i e small = omega arith

module _ (h h' : Heap) (b : ℕ) (takes : TakesBlock h h' b) (inside : b < h.table.total)
    (was_free : IsFree h.table.entries b) where
  taken_safe : (p i : ℕ) → p ≡ h.saddr + b * 4096 → i < 4096 → is_safe h' (p + i) ≡ true
  taken_safe p i e small = ground (
    arith,
    takes.0,
    takes.1,
    takes.2 ((p + i - h'.saddr) / 4096),
    in_block p h'.saddr b i (e ∙ ap (λ k. k + b * 4096) (sym takes.0)) small,
  )

  free_unsafe : (p i : ℕ) → p ≡ h.saddr + b * 4096 → i < 4096 → is_safe h (p + i) ≡ false
  free_unsafe p i e small =
      ground
        (arith, in_block p h.saddr b i e small, ap h.table.entries (in_block p h.saddr b i e small))

  safe_kept : (a : ℕ) → is_safe h a ≡ true → is_safe h' a ≡ true
  safe_kept a safe = ground (
    arith,
    takes.0,
    takes.1,
    takes.2 ((a - h'.saddr) / 4096),
    ap (λ k. h.table.entries ((a - k) / 4096)) takes.0,
  )

  room_taken : suc (free_blocks h') ≡ free_blocks h
  room_taken =
      ap (λ n. suc (count_free h'.table.entries n)) takes.1
      ∙ count_free-taken h.table.entries h'.table.entries b h.table.total inside was_free
          (ground (arith, takes.2 b)) (λ j ne. ground (arith, takes.2 j))

  -- A safe address lies in no block that was free.
  free_apart :
      (p size a : ℕ)
      → p ≡ h.saddr + b * 4096
      → size ≤ 4096
      → is_safe h a ≡ true
      → p ≤ a
      → p + size ≤ a
  free_apart p size a e small safe le = elim (Bool-cases (ltb a (p + 4096))) [
    | inl near ↦
        let at : p + (a - p) ≡ a = omega arith in
        absurd (differ (sym (ap (is_safe h) at) ∙ free_unsafe p (a - p) e (ground arith)) safe)
    | inr far ↦ ground arith
  ]

free_loop-single :
    (left i : ℕ) (es : ℕ → ℕ) → es i ≡ 0x41 → free_loop (suc left) i es ≡ update es i free
unfolding free_loop
free_loop-single left i es e = rw (e, free_loop) refl

free_block :
    (h : Heap) (b : ℕ)
    → b < h.table.total
    → h.table.entries b ≡ 0x41
    → (mark_blocks_free h b).table.entries ≡ update h.table.entries b free
unfolding mark_blocks_free
free_block h b inside e =
    ap (λ n. free_loop n b h.table.entries) (left h.table.total b inside)
    ∙ free_loop-single (h.table.total - suc b) b h.table.entries e
  where
    left : (n b : ℕ) → b < n → n - b ≡ suc (n - suc b)
    left n b lt = omega arith

free_block-rest :
    (h : Heap) (b : ℕ)
    → ((mark_blocks_free h b).saddr ≡ h.saddr)
      × ((mark_blocks_free h b).table.total ≡ h.table.total)
unfolding mark_blocks_free
free_block-rest h b = (refl, refl)

safe-alike :
    (h g : Heap) (a : ℕ)
    → g.saddr ≡ h.saddr
    → g.table.total ≡ h.table.total
    → ((j : ℕ) → is_free g.table.entries j ≡ is_free h.table.entries j)
    → is_safe h a ≡ true
    → is_safe g a ≡ true
unfolding is_free
safe-alike h g a start total alike safe =
    ground (arith, alike ((a - g.saddr) / 4096), ap (λ k. h.table.entries ((a - k) / 4096)) start)

free_again :
    (es es' es'' : ℕ → ℕ) (b j : ℕ)
    → IsFree es b
    → es' j ≡ (if j == b then 0x41 else es j)
    → es'' j ≡ (if j == b then 0 else es' j)
    → is_free es'' j ≡ is_free es j
unfolding is_free
free_again es es' es'' b j f e e' = elim (Bool-cases (j == b)) [
  | inl same ↦ let here : j ≡ b = ground arith in ground (arith, ap es here)
  | inr other ↦ ground arith
]

-- A block that was taken alone and is released again.
release_taken :
    (h h' : Heap) (b p : ℕ)
    → IsUsable h
    → TakesBlock h h' b
    → b < h.table.total
    → IsFree h.table.entries b
    → p ≡ block_to_address h' b
    → Released h h' p
release_taken h h' b p u takes inside was_free e =
    let g = mark_blocks_free h' b in
    let (start, total) = free_block-rest h' b in
    let entry = takes.2 b in
    let entries : (j : ℕ) → g.table.entries j ≡ (if j == b then 0 else h'.table.entries j) = λ j.
      ap (λ (f : ℕ → ℕ). f j) (free_block h' b (omega (arith, takes.1)) (ground arith))
      ∙ ground arith in
    let alike : (j : ℕ) → is_free g.table.entries j ≡ is_free h.table.entries j = λ j.
      free_again h.table.entries h'.table.entries g.table.entries b j was_free (takes.2 j)
        (entries j) in
    record {
      heap = g;
      released =
          ap (release h') e
          ∙ release-pos h' (block_to_address h' b) b (
              address_to_block-block_to_address h' b (omega (arith, takes.0, u.fits))
                (omega (arith, u.small)));
      usable = record {
        start = omega (arith, start, takes.0, u.start);
        fits = omega (arith, start, total, takes.0, takes.1, u.fits);
        small = omega (arith, total, takes.1, u.small);
      };
      room =
          ap (count_free g.table.entries) (total ∙ takes.1)
          ∙ count_free-alike h.table.entries g.table.entries h.table.total alike;
      kept_safe = λ a safe. safe-alike h g a (start ∙ takes.0) (total ∙ takes.1) alike safe;
    }

same_address :
    (h h' : Heap) (b : ℕ) → h'.saddr ≡ h.saddr → block_to_address h b ≡ block_to_address h' b
unfolding block_to_address
same_address h h' b e = ground arith

kept_outside : (p size a : ℕ) → (p ≤ a → p + size ≤ a) → (m : Mem) → memset p 0 size m a ≡ m a
kept_outside p size a apart m = ground (arith, memset_at p 0 size m a, apart)

-- heap_malloc of at most one block, where some block is free.
malloc_one :
    (h : Heap) (size : ℕ)
    → 0 < size
    → size ≤ 4096
    → 0 < free_blocks h
    → (b : ℕ) × (b < h.table.total)
      × IsFree h.table.entries b
      × ((malloc h size).0 ≡ block_to_address h b)
      × TakesBlock h (malloc h size).1 b
malloc_one h size positive small some_free =
    let (b₀, low, f) = count_free-found h.table.entries h.table.total some_free in
    let one : blocks size ≡ 1 = omega arith in
    let run : IsFreeFrom h.table.entries b₀ (b₀ + blocks size) =
      λ i p q. subst (IsFree h.table.entries) (omega (arith, one)) f in
    let (b, e, _, inside, was_free, entries) =
      malloc_taken h size b₀ positive (omega arith) (omega arith) run in
    let (start, total) = mark_blocks_taken-rest h b (blocks size) in
    (
      b,
      omega arith,
      was_free b (omega arith) (omega arith),
      ap (λ (r : ℕ × Heap). r.0) e,
      (
        ap (λ (r : ℕ × Heap). r.1.saddr) e ∙ start,
        ap (λ (r : ℕ × Heap). r.1.table.total) e ∙ total,
        λ j. ground (arith, entries j, one),
      ),
    )

-- On a usable heap with a free block, kzalloc of at most one block gives a block that was free, and
-- keeps the heap usable.
pub zalloc-Fresh :
    (s : Store) (size : ℕ)
    → IsUsable s.heap
    → 0 < size
    → size ≤ 4096
    → 0 < free_blocks s.heap
    → Fresh s (zalloc s size).1 (zalloc s size).0 size
zalloc-Fresh s size u positive small some_free =
    let (b, inside, was_free, e, takes) = malloc_one s.heap size positive small some_free in
    let h' = (malloc s.heap size).1 in
    let p = (malloc s.heap size).0 in
    let at : p ≡ s.heap.saddr + b * 4096 = e ∙ address_inside s.heap b (omega (arith, u.fits)) in
    let ne : p ≢ 0 = omega (arith, u.start) in
    let apart : (a : ℕ) → is_safe s.heap a ≡ true → p ≤ a → p + size ≤ a =
      λ a safe le. free_apart s.heap h' b takes inside was_free p size a at small safe le in
    rw (kzalloc-ok s.heap h' s.memory size p refl ne) (record {
      usable = record {
        start = omega (arith, takes.0, u.start);
        fits = omega (arith, takes.0, takes.1, u.fits);
        small = omega (arith, takes.1, u.small);
      };
      room = room_taken s.heap h' b takes inside was_free;
      nonnull = ne;
      start = takes.0;
      low = omega (arith, at);
      aligned = omega (arith, at);
      near = (omega (arith, at, u.small), omega (arith, at, u.fits));
      page = λ i h. taken_safe s.heap h' b takes inside was_free p i at h;
      new = λ i h. free_unsafe s.heap h' b takes inside was_free p i at h;
      kept_safe = λ a safe. safe_kept s.heap h' b takes inside was_free a safe;
      kept = λ a safe. kept_outside p size a (apart a safe) s.memory;
      zeroed = λ i h. ground (arith, memset_at p 0 size s.memory (p + i));
      undo =
          release_taken s.heap h' b p u takes inside was_free
            (e ∙ same_address s.heap h' b (takes.0));
    })
