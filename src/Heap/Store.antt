-- ===== src/Heap/Store.antt =====
-- The kernel's heap with the memory that it gives out.
pub mod Counting
pub mod Start
pub mod Taking
use nuts_os.Base.{
  ℕ, zero, suc, ◌+◌, ◌-◌, ◌*◌, ◌/◌, ◌%◌, ◌^◌, ◌<◌, ◌≤◌, ◌≡◌, ◌≢◌, ◌==◌, ◌&&◌, ◌⊎◌, ltb, leb,
  if◌then◌else◌, arith, true, false, refl, Bool-cases, inl, inr, sym, ap, ◌∙◌, Bool,
}
use mathlib.Core.Path.{subst}
use nuts_os.Memory.{Mem, memset}
use nuts_os.Memory.Laws.{memset_at}
use nuts_os.Base.{some, update}
use nuts_os.Heap.{
  mark_blocks_free, release, free_loop, Heap, free, entry_type, malloc, block_to_address,
}
use nuts_os.Heap.Scan.{IsFree, IsFreeFrom}
use nuts_os.Heap.Marks.{inside}
use nuts_os.Heap.Malloc.{
  blocks, malloc_taken, mark_blocks_taken-rest, release-pos, address_to_block-block_to_address,
}
use nuts_os.Heap.Kernel.{kzalloc, kzalloc-ok, address_inside}

pub record Store : Type 0 where
  pub heap : Heap
  pub memory : Mem

-- How many of the first `n` blocks are free.
unfoldable pub count_free : (ℕ → ℕ) → ℕ → ℕ
count_free es zero = 0
count_free es (suc n) = count_free es n + (if entry_type (es n) == free then 1 else 0)

abbrev pub free_blocks : Heap → ℕ
free_blocks h = count_free h.table.entries h.table.total

-- A heap that does not start at the null pointer, of at most 2 GiB that end inside the 32-bit
-- addresses.
pub record IsUsable (h : Heap) : Type 0 where
  pub start : 0 < h.saddr
  pub fits : h.saddr + h.table.total * 4096 ≤ 2 ^ 32
  pub small : h.table.total ≤ 2 ^ 19

-- An address that the heap does not give out: outside its blocks, or in one that is taken.
abbrev pub is_safe : Heap → ℕ → Bool
is_safe h a =
    if leb h.saddr a && ltb a (h.saddr + h.table.total * 4096)
    then if entry_type (h.table.entries ((a - h.saddr) / 4096)) == free then false else true
    else true

-- Releasing what was taken leaves as many free blocks as before, and what was safe before is safe.
pub record Released (h h' : Heap) (p : ℕ) : Type 0 where
  pub heap : Heap
  pub released : release h' p ≡ some heap
  pub usable : IsUsable heap
  pub room : free_blocks heap ≡ free_blocks h
  pub kept_safe : (a : ℕ) → is_safe h a ≡ true → is_safe heap a ≡ true

-- What an allocation of at most one block does: a block that was free is taken, its first `size`
-- bytes are zero, and all that was safe stays safe and keeps its value.
pub record Fresh (s s' : Store) (p size : ℕ) : Type 0 where
  pub usable : IsUsable s'.heap
  pub room : suc (free_blocks s'.heap) ≡ free_blocks s.heap
  pub nonnull : p ≢ 0
  pub start : s'.heap.saddr ≡ s.heap.saddr
  pub low : s.heap.saddr ≤ p
  pub aligned : p % 4096 ≡ s.heap.saddr % 4096
  pub near : (p < s.heap.saddr + 2 ^ 31) × (p < 2 ^ 32)
  pub page : (i : ℕ) → i < 4096 → is_safe s'.heap (p + i) ≡ true
  pub new : (i : ℕ) → i < 4096 → is_safe s.heap (p + i) ≡ false
  pub kept_safe : (a : ℕ) → is_safe s.heap a ≡ true → is_safe s'.heap a ≡ true
  pub kept : (a : ℕ) → is_safe s.heap a ≡ true → s'.memory a ≡ s.memory a
  pub zeroed : (i : ℕ) → i < size → s'.memory (p + i) ≡ 0
  pub undo : Released s.heap s'.heap p

abbrev pub zalloc : Store → ℕ → ℕ × Store
zalloc s size =
    let (p, heap, memory) = kzalloc s.heap s.memory size in
    (p, record { heap = heap; memory = memory })

pub differ : {c : Bool} → c ≡ false → c ≡ true → ⊥
differ e e' = cc

-- All that was safe stays safe and keeps its value.
pub record Extends (s s' : Store) : Type 0 where
  pub usable : IsUsable s'.heap
  pub kept_safe : (a : ℕ) → is_safe s.heap a ≡ true → is_safe s'.heap a ≡ true
  pub kept : (a : ℕ) → is_safe s.heap a ≡ true → s'.memory a ≡ s.memory a

pub Fresh-Extends : (s s' : Store) (p size : ℕ) → Fresh s s' p size → Extends s s'
Fresh-Extends s s' p size f = record { usable = f.usable; kept_safe = f.kept_safe; kept = f.kept }

pub Extends-trans : (s t u : Store) → Extends s t → Extends t u → Extends s u
Extends-trans s t u e e' = record {
  usable = e'.usable;
  kept_safe = λ a safe. e'.kept_safe a (e.kept_safe a safe);
  kept = λ a safe. e'.kept a (e.kept_safe a safe) ∙ e.kept a safe;
}

-- A safe address does not lie in the new block.
pub Fresh-apart :
    (s s' : Store) (p size a : ℕ)
    → Fresh s s' p size
    → is_safe s.heap a ≡ true
    → (a < p) ⊎ (p + 4096 ≤ a)
Fresh-apart s s' p size a f safe = elim (Bool-cases (ltb a p)) [
  | inl low ↦ inl (ground arith)
  | inr more ↦ elim (Bool-cases (ltb a (p + 4096))) [
    | inl near ↦
        let le : p ≤ a = ground arith in
        let at : p + (a - p) ≡ a = omega arith in
        absurd (differ (sym (ap (is_safe s.heap) at) ∙ f.new (a - p) (ground arith)) safe)
    | inr far ↦ inr (ground arith)
  ]
]
