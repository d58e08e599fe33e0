-- ===== src/Heap/Store/Counting.antt =====
-- How many blocks of the heap's table are free, before and after one is taken.
use nuts_os.Base.{
  ℕ, zero, suc, ◌<◌, ◌≡◌, ◌≢◌, ◌==◌, arith, false, refl, Bool-cases, inl, inr, ap, Bool,
}
use nuts_os.Heap.{free, entry_type}
use nuts_os.Heap.Scan.{IsFree}
use nuts_os.Heap.Store.{count_free}

pub count_free-found : (es : ℕ → ℕ) (n : ℕ) → 0 < count_free es n → (b : ℕ) × (b < n) × IsFree es b
unfolding count_free
count_free-found es zero some_free = absurd (omega arith)
count_free-found es (suc n) some_free = elim (Bool-cases (entry_type (es n) == free)) [
  | inl e ↦ (n, omega arith, e)
  | inr e ↦ let (b, small, f) = count_free-found es n (ground arith) in (b, omega arith, f)
]

pub count_free-same :
    (es es' : ℕ → ℕ) (n : ℕ) → ((j : ℕ) → j < n → es' j ≡ es j) → count_free es' n ≡ count_free es n
unfolding count_free
count_free-same es es' zero same = refl
count_free-same es es' (suc n) same =
    ground (arith, count_free-same es es' n (λ j h. same j (omega arith)), same n)

-- A free block that is taken is one free block less.
pub count_free-taken :
    (es es' : ℕ → ℕ) (b n : ℕ)
    → b < n
    → IsFree es b
    → (entry_type (es' b) == free) ≡ false
    → ((j : ℕ) → j ≢ b → es' j ≡ es j)
    → suc (count_free es' n) ≡ count_free es n
unfolding count_free
count_free-taken es es' b zero small f t same = absurd (omega arith)
count_free-taken es es' b (suc n) small f t same = elim (Bool-cases (b == n)) [
  | inl e ↦
      let here : b ≡ n = ground arith in
      ground
        (arith, count_free-same es es' n (λ j h. same j (omega arith)), ap es here, ap es' here)
  | inr e ↦ ground (arith, count_free-taken es es' b n (ground arith) f t same, same n)
]

unfoldable pub is_free : (ℕ → ℕ) → ℕ → Bool
is_free es j = entry_type (es j) == free

pub count_free-alike :
    (es es' : ℕ → ℕ) (n : ℕ)
    → ((j : ℕ) → is_free es' j ≡ is_free es j)
    → count_free es' n ≡ count_free es n
unfolding count_free is_free
count_free-alike es es' zero alike = refl
count_free-alike es es' (suc n) alike = ground (arith, count_free-alike es es' n alike, alike n)
