-- ===== src/Heap/Chained.antt =====
-- A table whose blocks are linked, as the flags of heap.h describe it, and what keeps it so.
use nuts_os.Base.{
  ℕ, ◌+◌, ◌-◌, ◌<◌, ◌≤◌, ◌≡◌, inl, inr, ◌==◌, ◌||◌, Bool, true, false, Bool-cases, if◌then◌else◌,
  arith, refl, sym, ap, ◌∙◌, bit_and, ok,
}
use nuts_os.Memory.Laws.{memset_at}
use nuts_os.Memory.{memset}
use nuts_os.Heap.{Heap, HeapTable, create, free}
use nuts_os.Heap.Marks.{inside, HasNext}

-- The five entries that the flags make: a free block, the only block of a chunk, its first, its
-- last and one between.
abbrev pub is_code : ℕ → Bool
is_code e = e == 0 || e == 0x41 || e == 0xc1 || e == 0x01 || e == 0x81

abbrev pub links : ℕ → Bool
links e = e == 0xc1 || e == 0x81

abbrev pub continues : ℕ → Bool
continues e = e == 0x01 || e == 0x81

abbrev pub starts : ℕ → Bool
starts e = e == 0x41 || e == 0xc1

-- Every entry is a code, and a block has a next one exactly if the next block continues a chunk.
pub record IsChained (h : Heap) : Type 0 where
  pub coded : (i : ℕ) → i < h.table.total → is_code (h.table.entries i) ≡ true
  pub linked :
      (i : ℕ)
      → i < h.table.total
      → links (h.table.entries i) ≡ true
      → (i + 1 < h.table.total) × (continues (h.table.entries (i + 1)) ≡ true)
  pub backed :
      (i : ℕ)
      → i + 1 < h.table.total
      → continues (h.table.entries (i + 1)) ≡ true
      → links (h.table.entries i) ≡ true
  pub headed : 0 < h.table.total → continues (h.table.entries 0) ≡ false

pub code-free : (e : ℕ) → is_code e ≡ true → (bit_and e 1 == free) ≡ true → e ≡ 0
code-free e c f = ground arith

pub code-HasNext : (e : ℕ) → is_code e ≡ true → HasNext e (links e)
code-HasNext e c = ground arith

pub clash : {c : Bool} → c ≡ true → c ≡ false → ⊥
clash p q = cc

abbrev pub created : ℕ → HeapTable → Heap
created ptr t = record {
  table = record t { entries = memset 0 free t.total t.entries };
  saddr = ptr;
}

pub create-ok :
    (h : Heap) (ptr end : ℕ) (t : HeapTable)
    → (create h ptr end t).1 ≡ ok tt
    → (create h ptr end t).0 ≡ created ptr t
unfolding create
create-ok h ptr end t e = ground arith

pub cleared : (t : HeapTable) (i : ℕ) → i < t.total → memset 0 free t.total t.entries i ≡ 0
cleared t i p = ground (arith, memset_at 0 free t.total t.entries i)

created-IsChained : (ptr : ℕ) (t : HeapTable) → IsChained (created ptr t)
created-IsChained ptr t = record {
  coded = λ i p. ap is_code (cleared t i p);
  linked = λ i p q. absurd (clash q (ap links (cleared t i p)));
  backed = λ i p q. absurd (clash q (ap continues (cleared t (i + 1) p)));
  headed = λ p. ap continues (cleared t 0 p);
}

-- heap_create, where it succeeds, makes a chained table of the size given, at the address given.
pub create-IsChained :
    (h : Heap) (ptr end : ℕ) (t : HeapTable)
    → (create h ptr end t).1 ≡ ok tt
    → IsChained (create h ptr end t).0
      × ((create h ptr end t).0.saddr ≡ ptr)
      × ((create h ptr end t).0.table.total ≡ t.total)
create-IsChained h ptr end t e = rw (create-ok h ptr end t e) (created-IsChained ptr t, refl, refl)

-- A table changed inside one range keeps its chains, if the range is itself chained and no chain
-- crosses its ends.
pub record Replaces (h g : Heap) (b n : ℕ) (new : ℕ → ℕ) : Type 0 where
  pub size : g.table.total ≡ h.table.total
  pub entry : (j : ℕ) → g.table.entries j ≡ (if inside b n j then new j else h.table.entries j)

module _ (h g : Heap) (b n : ℕ) (new : ℕ → ℕ) (r : Replaces h g b n new) (v : IsChained h)
    (coded : (j : ℕ) → is_code (new j) ≡ true)
    (linked : (j : ℕ)
      → inside b n j ≡ true
      → links (new j) ≡ true
      → (inside b n (j + 1) ≡ true) × (continues (new (j + 1)) ≡ true))
    (backed : (j : ℕ)
      → inside b n j ≡ true
      → inside b n (j + 1) ≡ true
      → continues (new (j + 1)) ≡ true
      → links (new j) ≡ true)
    (fits : b + n ≤ h.table.total) (some_blocks : 0 < n) (begins : continues (new b) ≡ false)
    (no_entry : continues (h.table.entries b) ≡ false)
    (no_exit : links (h.table.entries (b + n - 1)) ≡ false) where
  Replaces-coded : (i : ℕ) → i < g.table.total → is_code (g.table.entries i) ≡ true
  Replaces-coded i p = ground (arith, r.size, r.entry i, coded i, v.coded i)

  new_at : (i : ℕ) → inside b n i ≡ true → g.table.entries i ≡ new i
  new_at i e = r.entry i ∙ rw e

  old_at : (i : ℕ) → inside b n i ≡ false → g.table.entries i ≡ h.table.entries i
  old_at i e = r.entry i ∙ rw e

  enter : (i : ℕ) → inside b n i ≡ false → inside b n (i + 1) ≡ true → i + 1 ≡ b
  enter i o e = ground arith

  leave : (i : ℕ) → inside b n i ≡ true → inside b n (i + 1) ≡ false → i ≡ b + n - 1
  leave i e o = ground arith

  within : (i : ℕ) → inside b n i ≡ true → i < b + n
  within i e = ground arith

  Replaces-linked :
      (i : ℕ)
      → i < g.table.total
      → links (g.table.entries i) ≡ true
      → (i + 1 < g.table.total) × (continues (g.table.entries (i + 1)) ≡ true)
  Replaces-linked i p q = elim (Bool-cases (inside b n i)) [
    | inl e ↦
        let (e', c) = linked i e (ap links (sym (new_at i e)) ∙ q) in
        (omega (arith, r.size, within (i + 1) e'), ap continues (new_at (i + 1) e') ∙ c)
    | inr o ↦
        let (lt, c) = v.linked i (omega (arith, r.size)) (ap links (sym (old_at i o)) ∙ q) in
        elim (Bool-cases (inside b n (i + 1))) [
          | inl e' ↦
              absurd (clash c (ap (λ k. continues (h.table.entries k)) (enter i o e') ∙ no_entry))
          | inr o' ↦ (omega (arith, r.size), ap continues (old_at (i + 1) o') ∙ c)
        ]
  ]

  Replaces-backed :
      (i : ℕ)
      → i + 1 < g.table.total
      → continues (g.table.entries (i + 1)) ≡ true
      → links (g.table.entries i) ≡ true
  Replaces-backed i p q = elim (Bool-cases (inside b n (i + 1))) [
    | inl e' ↦
        let c = ap continues (sym (new_at (i + 1) e')) ∙ q in
        elim (Bool-cases (inside b n i)) [
          | inl e ↦ ap links (new_at i e) ∙ backed i e e' c
          | inr o ↦ absurd (clash c (ap (λ k. continues (new k)) (enter i o e') ∙ begins))
        ]
    | inr o' ↦
        let l = v.backed i (omega (arith, r.size)) (ap continues (sym (old_at (i + 1) o')) ∙ q) in
        elim (Bool-cases (inside b n i)) [
          | inl e ↦ absurd (clash l (ap (λ k. links (h.table.entries k)) (leave i e o') ∙ no_exit))
          | inr o ↦ ap links (old_at i o) ∙ l
        ]
  ]

  Replaces-headed : 0 < g.table.total → continues (g.table.entries 0) ≡ false
  Replaces-headed p = elim (Bool-cases (inside b n 0)) [
    | inl e ↦
        let z : 0 ≡ b = ground arith in
        ap continues (new_at 0 e) ∙ ap (λ k. continues (new k)) z ∙ begins
    | inr o ↦ ap continues (old_at 0 o) ∙ v.headed (omega (arith, r.size))
  ]

  pub Replaces-IsChained : IsChained g
  Replaces-IsChained = record {
    coded = Replaces-coded;
    linked = Replaces-linked;
    backed = Replaces-backed;
    headed = Replaces-headed;
  }
