-- ===== src/Text/Trim.antt =====
-- trim: what it cuts from a string, and that it returns.
use nuts_os.Base.{
  ℕ, zero, suc, ◌+◌, ◌-◌, ◌<◌, ◌≤◌, ◌≡◌, ◌≢◌, some, arith, true, false, Bool-cases, inl, inr, sym,
  update,
}
use mathlib.Core.Path.{subst}
use native.Mathlib.Decide.{dec_lt}
use nuts_os.Memory.{Mem}
use nuts_os.Text.{isspace, rtrim, rtrim_loop}
use nuts_os.Text.Length.{IsNonzero, IsString, strlen-IsString}

-- What rtrim keeps ends in no space, and all that it drops is spaces.
pub record Kept (m : Mem) (s n k : ℕ) : Type 0 where
  pub shorter : k ≤ n
  pub ends : 0 < k → isspace (m (s + (k - 1))) ≡ false
  pub dropped : (i : ℕ) → k ≤ i → i < n → isspace (m (s + i)) ≡ true

module _ (m : Mem) (s n : ℕ) where
  rtrim_loop-space :
      m (s + n) ≢ 0 → isspace (m (s + n)) ≡ true → rtrim_loop m s (suc n) ≡ rtrim_loop m s n
  unfolding rtrim_loop
  rtrim_loop-space ne e = ground arith

  rtrim_loop-word : isspace (m (s + n)) ≡ false → rtrim_loop m s (suc n) ≡ suc n
  unfolding rtrim_loop
  rtrim_loop-word e = ground arith

  Kept-space : (k : ℕ) → isspace (m (s + n)) ≡ true → Kept m s n k → Kept m s (suc n) k
  Kept-space k e kept = record {
    shorter = omega (arith, kept.shorter);
    ends = kept.ends;
    dropped = λ i p q. elim (dec_lt i n) [
      | yes l ↦ kept.dropped i p l
      | no g ↦ let at : n ≡ i = omega arith in rw at at e
    ];
  }

  Kept-word : isspace (m (s + n)) ≡ false → Kept m s (suc n) (suc n)
  Kept-word e = record {
    shorter = omega arith;
    ends = λ _. let at : n ≡ suc n - 1 = omega arith in rw at at e;
    dropped = λ i p q. absurd (omega arith);
  }

rtrim_loop-Kept : (m : Mem) (s n : ℕ) → IsNonzero m s n → Kept m s n (rtrim_loop m s n)
rtrim_loop-Kept m s zero nz =
    unfold rtrim_loop in
    record {
      shorter = omega arith;
      ends = λ h. absurd (omega arith);
      dropped = λ i p q. absurd (omega arith);
    }
rtrim_loop-Kept m s (suc n) nz = elim (Bool-cases (isspace (m (s + n)))) [
  | inl e ↦
      subst (Kept m s (suc n)) (sym (rtrim_loop-space m s n (nz n (omega arith)) e))
        (Kept-space m s n (rtrim_loop m s n) e (rtrim_loop-Kept m s n λ i p. nz i (omega arith)))
  | inr e ↦ subst (Kept m s (suc n)) (sym (rtrim_loop-word m s n e)) (Kept-word m s n e)
]

-- rtrim of a string of `n` bytes writes one zero: behind the last byte that is no space, or at the
-- start of a string of spaces.
pub rtrim-Kept :
    (fuel : ℕ) (m : Mem) (s n : ℕ)
    → IsString m s n
    → n < fuel
    → (k : ℕ) × (rtrim fuel m s ≡ some (update m (s + k) 0)) × Kept m s n k
unfolding rtrim
rtrim-Kept fuel m s n str f = (
  rtrim_loop m s n,
  rw (strlen-IsString fuel m s n str f, rtrim),
  rtrim_loop-Kept m s n str.bytes,
)
