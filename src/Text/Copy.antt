-- ===== src/Text/Copy.antt =====
-- strcpy and strncpy: what they write, and how far.
use nuts_os.Base.{
  ℕ, zero, suc, ◌+◌, ◌<◌, ◌≤◌, ◌≡◌, ◌≢◌, ◌⊎◌, some, arith, inl, inr, sym, ap, ◌∙◌, update,
}
use nuts_os.Memory.{Mem, memcpy}
use nuts_os.Text.{strcpy, strncpy}
use nuts_os.Text.Length.{IsNonzero, IsString}

-- The target of a copy of `n` bytes starts at or below the source, or behind its end.
abbrev pub Apart : ℕ → ℕ → ℕ → Type 0
Apart dest src n = (dest ≤ src) ⊎ (src + n ≤ dest)

-- Writing at the target leaves what is still to be read.
module _ (m : Mem) (dest src n v : ℕ) (apart : Apart dest src (suc (suc n))) where
  still : (i : ℕ) → i ≤ n → update m dest v (src + 1 + i) ≡ m (src + suc i)
  still i p = ground arith

  nonzero-tail : IsNonzero m src (suc n) → IsNonzero (update m dest v) (src + 1) n
  nonzero-tail s i p z = s (suc i) (omega arith) (sym (still i (omega arith)) ∙ z)

  IsString-tail : IsString m src (suc n) → IsString (update m dest v) (src + 1) n
  IsString-tail s = record { bytes = nonzero-tail s.bytes; ended = still n (omega arith) ∙ s.ended }

behind : (dest n : ℕ) → dest + 1 + suc n ≡ dest + suc (suc n)
behind dest n = omega arith

-- Where the target starts at or below the source or behind it, and with fuel above the length,
-- strcpy is memcpy of the string and its terminator, and returns the address behind them.
pub strcpy-memcpy :
    (fuel dest src n : ℕ) (m : Mem)
    → IsString m src n
    → Apart dest src (suc n)
    → n < fuel
    → strcpy fuel dest src m ≡ some (dest + suc n, memcpy dest src (suc n) m)
unfolding strcpy memcpy
strcpy-memcpy zero dest src n m s apart f = absurd (omega arith)
strcpy-memcpy (suc fuel) dest src zero m s apart f =
    let at : src + 0 ≡ src = omega arith in
    let e : m src ≡ 0 = ap m (sym at) ∙ s.ended in ground arith
strcpy-memcpy (suc fuel) dest src (suc n) m s apart f =
    let at : src + 0 ≡ src = omega arith in
    let e : m src ≢ 0 = λ z. s.bytes 0 (omega arith) (ap m at ∙ z) in
    ground (
      arith,
      behind dest n,
      strcpy-memcpy fuel (dest + 1) (src + 1) n (update m dest (m src))
          (IsString-tail m dest src n (m src) apart s) (omega arith) (omega arith),
    )

-- strncpy copies `k + 1` bytes, where the string ends at `k`, or `k` is the size given, and the
-- target is at or below the source, or behind the `k + 1` bytes: a string that fills the size is
-- written one byte past it.
pub strncpy-memcpy :
    (dest src size k : ℕ) (m : Mem)
    → k ≤ size
    → IsNonzero m src k
    → (k ≡ size) ⊎ (m (src + k) ≡ 0)
    → Apart dest src (suc k)
    → strncpy dest src size m ≡ (dest + suc k, memcpy dest src (suc k) m)
unfolding strncpy memcpy
strncpy-memcpy dest src zero zero m le nz stop apart = ground arith
strncpy-memcpy dest src zero (suc k) m le nz stop apart = absurd (omega arith)
strncpy-memcpy dest src (suc size) zero m le nz stop apart =
    let at : src + 0 ≡ src = omega arith in
    let e : m src ≡ 0 = elim stop [ inl z ↦ absurd (omega arith) | inr z ↦ ap m (sym at) ∙ z ] in
    ground arith
strncpy-memcpy dest src (suc size) (suc k) m le nz stop apart =
    let at : src + 0 ≡ src = omega arith in
    let e : m src ≢ 0 = λ z. nz 0 (omega arith) (ap m at ∙ z) in
    let stop' : (k ≡ size) ⊎ (update m dest (m src) (src + 1 + k) ≡ 0) = elim stop [
      | inl z ↦ inl (omega arith)
      | inr z ↦ inr (still m dest src k (m src) apart k (omega arith) ∙ z)
    ] in
    ground (
      arith,
      behind dest k,
      strncpy-memcpy (dest + 1) (src + 1) size k (update m dest (m src)) (omega arith)
          (nonzero-tail m dest src k (m src) apart nz) stop' (omega arith),
    )
