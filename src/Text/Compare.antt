-- ===== src/Text/Compare.antt =====
-- strncmp and istrncmp: when they return zero.
use nuts_os.Base.{
  ℕ, zero, suc, ◌+◌, ◌<◌, ◌≡◌, ◌≢◌, ◌↔◌, ◌==◌, arith, refl, Bool-cases, inl, inr, sym, ap, ◌∙◌,
}
use mathlib.Core.Path.{subst}
use nuts_os.Base.Int.{pos, sub_ℕ-zero}
use nuts_os.Memory.{Mem}
use nuts_os.Text.{compare_loop, strncmp, istrncmp, tolower}
use nuts_os.Text.Length.{IsNonzero}

-- Two strings agree on their first `n` characters: at every place that no terminator of the first
-- string stands before.
abbrev pub Agree : (ℕ → ℕ) → Mem → Mem → ℕ → ℕ → ℕ → Type 0
Agree fold m₁ m₂ s1 s2 n =
    (i : ℕ) → i < n → IsNonzero m₁ s1 i → fold (m₁ (s1 + i)) ≡ fold (m₂ (s2 + i))

module _ (fold : ℕ → ℕ) (m₁ m₂ : Mem) where
  shift :
      (s1 s2 i : ℕ)
      → (fold (m₁ (s1 + suc i)) ≡ fold (m₁ (s1 + 1 + i)))
        × (fold (m₂ (s2 + suc i)) ≡ fold (m₂ (s2 + 1 + i)))
  shift s1 s2 i = (ap (λ k. fold (m₁ k)) (omega arith), ap (λ k. fold (m₂ k)) (omega arith))

  nonzero_head : (s1 i : ℕ) → IsNonzero m₁ s1 (suc i) → m₁ s1 ≢ 0
  nonzero_head s1 i before = ground (arith, before 0 (omega arith))

  nonzero_tail : (s1 i : ℕ) → IsNonzero m₁ s1 (suc i) → IsNonzero m₁ (s1 + 1) i
  nonzero_tail s1 i before j p =
      let at : s1 + suc j ≡ s1 + 1 + j = omega arith in
      subst (λ k. m₁ k ≢ 0) at (before (suc j) (omega arith))

  nonzero_cons : (s1 i : ℕ) → m₁ s1 ≢ 0 → IsNonzero m₁ (s1 + 1) i → IsNonzero m₁ s1 (suc i)
  nonzero_cons s1 i nz after zero p = ground arith
  nonzero_cons s1 i nz after (suc j) p =
      let at : s1 + suc j ≡ s1 + 1 + j = omega arith in
      subst (λ k. m₁ k ≢ 0) (sym at) (after j (omega arith))

  Agree-tail :
      (s1 s2 n : ℕ)
      → m₁ s1 ≢ 0
      → Agree fold m₁ m₂ s1 s2 (suc n)
      → Agree fold m₁ m₂ (s1 + 1) (s2 + 1) n
  Agree-tail s1 s2 n nz a i h before =
      let (e, e') = shift s1 s2 i in
      sym e ∙ a (suc i) (omega arith) (nonzero_cons s1 i nz before) ∙ e'

  compare_loop-zero :
      (s1 s2 n : ℕ) → compare_loop fold m₁ m₂ s1 s2 n ≡ pos 0 → Agree fold m₁ m₂ s1 s2 n
  unfolding compare_loop
  compare_loop-zero s1 s2 zero e i h before = absurd (omega arith)
  compare_loop-zero s1 s2 (suc n) e zero h before =
      ground (arith, sub_ℕ-zero (fold (m₁ s1)) (fold (m₂ s2)))
  compare_loop-zero s1 s2 (suc n) e (suc i) h before =
      let nz = nonzero_head s1 i before in
      let more : compare_loop fold m₁ m₂ (s1 + 1) (s2 + 1) n ≡ pos 0 =
        ground (arith, sub_ℕ-zero (fold (m₁ s1)) (fold (m₂ s2))) in
      let (at, at') = shift s1 s2 i in
      at
      ∙ compare_loop-zero (s1 + 1) (s2 + 1) n more i (omega arith) (nonzero_tail s1 i before)
      ∙ sym at'

  zero-compare_loop :
      (s1 s2 n : ℕ) → Agree fold m₁ m₂ s1 s2 n → compare_loop fold m₁ m₂ s1 s2 n ≡ pos 0
  unfolding compare_loop
  zero-compare_loop s1 s2 zero a = refl
  zero-compare_loop s1 s2 (suc n) a = elim (Bool-cases (m₁ s1 == 0)) [
    | inl z ↦ ground (arith, first)
    | inr nz ↦
        let ne : m₁ s1 ≢ 0 = ground arith in
        ground (arith, first, zero-compare_loop (s1 + 1) (s2 + 1) n (Agree-tail s1 s2 n ne a))
  ]
    where
      first : fold (m₁ s1) ≡ fold (m₂ s2)
      first = ground (arith, a 0 (omega arith) (λ i p. absurd (omega arith)))

-- strncmp returns zero exactly if the strings agree on their first `n` characters.
pub strncmp-zero_iff :
    (m₁ m₂ : Mem) (s1 s2 n : ℕ) → (strncmp m₁ m₂ s1 s2 n ≡ pos 0) ↔ Agree (λ c. c) m₁ m₂ s1 s2 n
unfolding strncmp
strncmp-zero_iff m₁ m₂ s1 s2 n =
    (compare_loop-zero (λ c. c) m₁ m₂ s1 s2 n, zero-compare_loop (λ c. c) m₁ m₂ s1 s2 n)

-- istrncmp returns zero exactly if the strings agree so but for the case of their letters.
pub istrncmp-zero_iff :
    (m₁ m₂ : Mem) (s1 s2 n : ℕ) → (istrncmp m₁ m₂ s1 s2 n ≡ pos 0) ↔ Agree tolower m₁ m₂ s1 s2 n
unfolding istrncmp
istrncmp-zero_iff m₁ m₂ s1 s2 n =
    (compare_loop-zero tolower m₁ m₂ s1 s2 n, zero-compare_loop tolower m₁ m₂ s1 s2 n)
