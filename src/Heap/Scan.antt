-- ===== src/Heap/Scan.antt =====
-- heap_get_next_free_block: first fit, and what it returns where nothing fits.
use nuts_os.Base.{
  ℕ, zero, suc, ◌+◌, ◌<◌, ◌≤◌, ◌≡◌, ◌≢◌, ◌⊎◌, ◌==◌, Option, none, some, arith, sym, ==→eq, true,
  false, refl, Bool-cases, inl, inr, ok,
}
use mathlib.Core.Path.{subst}
use native.Mathlib.Decide.{dec_lt}
use nuts_os.Heap.{run_start, Heap, search, get_next_free_block, entry_type, free}

abbrev pub IsFree : (ℕ → ℕ) → ℕ → Type 0
IsFree es i = (entry_type (es i) == free) ≡ true

-- The blocks from `b` up to `e`, not included, are free.
abbrev pub IsFreeFrom : (ℕ → ℕ) → ℕ → ℕ → Type 0
IsFreeFrom es b e = (i : ℕ) → b ≤ i → i < e → IsFree es i

-- What the search returns: a free run that has the length asked for, or that the table's end cuts
-- short.
abbrev pub Found : (ℕ → ℕ) → ℕ → ℕ → Option ℕ → Type 0
Found es n total none = Unit
Found es n total (some b) =
    (b < total) × IsFreeFrom es b total × (total < b + n)
    ⊎ (b + n ≤ total) × IsFreeFrom es b (b + n)

-- The run counted so far: `bc` free blocks before `i`.
abbrev Counting : (ℕ → ℕ) → ℕ → ℕ → Option ℕ → Type 0
Counting es i bc none = bc ≡ 0
Counting es i bc (some b) = (b + bc ≡ i) × (0 < bc) × IsFreeFrom es b i

module _ (es : ℕ → ℕ) (n left i bc : ℕ) (bs : Option ℕ) where
  search-used :
      (entry_type (es i) == free) ≡ false
      → search es n (suc left) i bc bs ≡ search es n left (i + 1) 0 none
  unfolding search
  search-used h = ground arith

  search-hit :
      IsFree es i → (bc + 1 == n) ≡ true → search es n (suc left) i bc bs ≡ some (run_start i bs)
  unfolding search
  search-hit h e = ground arith

  search-more :
      IsFree es i
      → (bc + 1 == n) ≡ false
      → search es n (suc left) i bc bs ≡ search es n left (i + 1) (bc + 1) (some (run_start i bs))
  unfolding search
  search-more h e = ground arith

-- One more free block extends the run.
Counting-suc :
    (es : ℕ → ℕ) (i bc : ℕ) (bs : Option ℕ)
    → Counting es i bc bs
    → IsFree es i
    → Counting es (i + 1) (bc + 1) (some (run_start i bs))
Counting-suc es i bc none c h =
    (omega arith, omega arith, λ j p q. let e : i ≡ j = omega arith in rw (← e) h)
Counting-suc es i bc (some b) c h = (omega arith, omega arith, extend)
  where
    extend : IsFreeFrom es b (i + 1)
    extend j p q = elim (dec_lt j i) [
      | yes l ↦ c.2 j p l
      | no g ↦ let e : i ≡ j = omega arith in rw (← e) h
    ]

Found-run :
    (es : ℕ → ℕ) (n i bc total b : ℕ)
    → i < total
    → bc ≡ n
    → Counting es (i + 1) bc (some b)
    → Found es n total (some b)
Found-run es n i bc total b short e c =
    let at : i + 1 ≡ b + n = omega arith in inr (omega arith, rw at at c.2)

search-Found :
    (es : ℕ → ℕ) (n left i bc total : ℕ) (bs : Option ℕ)
    → 0 < n
    → bc < n
    → i + left ≡ total
    → Counting es i bc bs
    → Found es n total (search es n left i bc bs)
search-Found es n zero i bc total none pos short at counting = unfold search in tt
search-Found es n zero i bc total (some b) pos short at counting =
    unfold search in
    let e : i ≡ total = omega arith in inl (omega arith, rw e at counting.2, omega arith)
search-Found es n (suc left) i bc total bs pos short at counting =
    elim (Bool-cases (entry_type (es i) == free)) [
      | inr used ↦
          subst (Found es n total) (sym (search-used es n left i bc bs used))
            (search-Found es n left (i + 1) 0 total none pos pos (omega arith) refl)
      | inl h ↦ elim (Bool-cases (bc + 1 == n)) [
        | inl done ↦ subst (Found es n total) (sym (search-hit es n left i bc bs h done)) (
            Found-run es n i (bc + 1) total (run_start i bs) (omega arith) (==→eq _ _ done)
              (Counting-suc es i bc bs counting h))
        | inr more ↦ subst (Found es n total) (sym (search-more es n left i bc bs h more)) (
            search-Found es n left (i + 1) (bc + 1) total (some (run_start i bs)) pos (ground arith)
              (omega arith) (Counting-suc es i bc bs counting h))
      ]
    ]

-- A taken block lies before a free run that the counting has not passed.
ahead :
    (es : ℕ → ℕ) (n i bc b₀ : ℕ) (bs : Option ℕ)
    → bc < n
    → Counting es i bc bs
    → run_start i bs ≤ b₀
    → IsFreeFrom es b₀ (b₀ + n)
    → (entry_type (es i) == free) ≡ false
    → i + 1 ≤ b₀
ahead es n i bc b₀ bs short c below run used = elim (dec_lt i b₀) [
  | yes l ↦ omega arith
  | no g ↦ absurd (clash (run i (omega arith) (inside bs c below)))
]
  where
    inside : (bs : Option ℕ) → Counting es i bc bs → run_start i bs ≤ b₀ → i < b₀ + n
    inside none c below = omega arith
    inside (some b) c below = omega arith

    clash : IsFree es i → ⊥
    clash h = cc

hit_fits :
    (es : ℕ → ℕ) (n left i bc total : ℕ) (bs : Option ℕ)
    → i + suc left ≡ total
    → Counting es i bc bs
    → bc + 1 ≡ n
    → run_start i bs + n ≤ total
hit_fits es n left i bc total none at c e = omega arith
hit_fits es n left i bc total (some b) at c e = omega arith

-- With a free last block the search finds some run.
search-last :
    (es : ℕ → ℕ) (n left i bc last : ℕ) (bs : Option ℕ)
    → i + left ≡ suc last
    → IsFree es last
    → (left ≡ 0 → bs ≢ none)
    → (b : ℕ) × (search es n left i bc bs ≡ some b)
search-last es n zero i bc last none at f h = absurd (h refl refl)
search-last es n zero i bc last (some b) at f h = (b, unfold search in refl)
search-last es n (suc left) i bc last bs at f h = elim (Bool-cases (entry_type (es i) == free)) [
  | inr used ↦ rw (search-used es n left i bc bs used) (
      search-last es n left (i + 1) 0 last none (omega arith) f
        λ z _. let e : last ≡ i = omega arith in absurd (clash (rw e at f) used))
  | inl g ↦ elim (Bool-cases (bc + 1 == n)) [
    | inl done ↦ (run_start i bs, search-hit es n left i bc bs g done)
    | inr more ↦ rw (search-more es n left i bc bs g more) (
        search-last es n left (i + 1) (bc + 1) last (some (run_start i bs)) (omega arith) f
          λ _ e. cc)
  ]
]
  where
    clash : IsFree es i → (entry_type (es i) == free) ≡ false → ⊥
    clash a b = cc

-- A free run from `b₀` on that is not yet passed makes the search stop at or before `b₀`.
search-fit :
    (es : ℕ → ℕ) (n left i bc total b₀ : ℕ) (bs : Option ℕ)
    → bc < n
    → i + left ≡ total
    → Counting es i bc bs
    → run_start i bs ≤ b₀
    → b₀ + n ≤ total
    → IsFreeFrom es b₀ (b₀ + n)
    → (b : ℕ) × (search es n left i bc bs ≡ some b) × (b ≤ b₀) × (b + n ≤ total)
search-fit es n zero i bc total b₀ none short at c below fits run = absurd (omega arith)
search-fit es n zero i bc total b₀ (some b) short at c below fits run = absurd (omega arith)
search-fit es n (suc left) i bc total b₀ bs short at c below fits run =
    elim (Bool-cases (entry_type (es i) == free)) [
      | inr used ↦ rw (search-used es n left i bc bs used) (
          search-fit es n left (i + 1) 0 total b₀ none (omega arith) (omega arith) refl
            (ahead es n i bc b₀ bs short c below run used) fits run)
      | inl h ↦ elim (Bool-cases (bc + 1 == n)) [
        | inl done ↦
            rw (search-hit es n left i bc bs h done)
              (run_start i bs, refl, below, hit_fits es n left i bc total bs at c (==→eq _ _ done))
        | inr more ↦ rw (search-more es n left i bc bs h more) (
            search-fit es n left (i + 1) (bc + 1) total b₀ (some (run_start i bs)) (ground arith)
              (omega arith) (Counting-suc es i bc bs c h) below fits run)
      ]
    ]

Found-inside :
    (es : ℕ → ℕ) (n total b : ℕ)
    → Found es n total (some b)
    → b + n ≤ total
    → IsFreeFrom es b (b + n)
Found-inside es n total b (inl (_, _, out)) inside = absurd (omega arith)
Found-inside es n total b (inr (_, run)) inside = run

Found-cut :
    (es : ℕ → ℕ) (n total b : ℕ)
    → Found es n total (some b)
    → ((c : ℕ) → c + n ≤ total → ¬ IsFreeFrom es c (c + n))
    → (b < total) × (total < b + n)
Found-cut es n total b (inl (short, _, out)) none_fits = (short, out)
Found-cut es n total b (inr (inside, run)) none_fits = absurd (none_fits b inside run)

-- Where some `n` free blocks, at least one, stand in a row from `b₀` on inside the table, the
-- search returns the start of `n` free blocks inside the table, at or before `b₀`.
pub first_fit :
    (h : Heap) (n b₀ : ℕ)
    → 0 < n
    → b₀ + n ≤ h.table.total
    → IsFreeFrom h.table.entries b₀ (b₀ + n)
    → (b : ℕ) × (get_next_free_block h n ≡ ok b)
      × (b ≤ b₀)
      × (b + n ≤ h.table.total)
      × IsFreeFrom h.table.entries b (b + n)
unfolding get_next_free_block
first_fit h n b₀ some_blocks fits run =
    let total = h.table.total in
    let (b, e, below, inside) =
      search-fit h.table.entries n total 0 0 total b₀ none some_blocks (omega arith) refl
        (omega arith) fits run in
    let found = subst (Found h.table.entries n total) e (
      search-Found h.table.entries n total 0 0 total none some_blocks some_blocks (omega arith)
        refl) in
    (b, ground arith, below, inside, Found-inside h.table.entries n total b found inside)

-- For `n` at least 1: where no `n` free blocks stand in a row inside the table but its last block
-- is free, the search does not fail; it returns the start of a run that the end of the table cuts
-- short.
pub cut_short :
    (h : Heap) (n last : ℕ)
    → 0 < n
    → h.table.total ≡ suc last
    → IsFree h.table.entries last
    → ((c : ℕ) → c + n ≤ h.table.total → ¬ IsFreeFrom h.table.entries c (c + n))
    → (b : ℕ) × (get_next_free_block h n ≡ ok b) × (b < h.table.total) × (h.table.total < b + n)
unfolding get_next_free_block
cut_short h n last some_blocks size f none_fits =
    let total = h.table.total in
    let (b, e) =
      search-last h.table.entries n total 0 0 last none (omega arith) f
        (λ z. absurd (omega arith)) in
    let found = subst (Found h.table.entries n total) e (
      search-Found h.table.entries n total 0 0 total none some_blocks some_blocks (omega arith)
        refl) in
    let (short, out) = Found-cut h.table.entries n total b found none_fits in
    (b, ground arith, short, out)
