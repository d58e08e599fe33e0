-- ===== src/Text/Length.antt =====
-- strlen and strnlen against the string that stands in memory.
use nuts_os.Base.{
  ℕ, zero, suc, ◌+◌, ◌<◌, ◌≤◌, ◌≡◌, ◌≢◌, ◌==◌, some, arith, Bool-cases, inl, inr, ==→eq, sym, ap,
  ◌∙◌, ltb, if◌then◌else◌,
}
use nuts_os.Memory.{Mem}
use nuts_os.Text.{strlen, strlen_loop, strnlen, strnlen_loop}

-- `n` bytes from `p` on that are not zero.
abbrev pub IsNonzero : Mem → ℕ → ℕ → Type 0
IsNonzero m p n = (i : ℕ) → i < n → m (p + i) ≢ 0

-- A string of `n` bytes at `p`, and its terminator.
pub record IsString (m : Mem) (p n : ℕ) : Type 0 where
  pub bytes : IsNonzero m p n
  pub ended : m (p + n) ≡ 0

strlen_loop_lem :
    (k fuel : ℕ) (m : Mem) (p len : ℕ)
    → IsString m p (len + k)
    → k < fuel
    → strlen_loop fuel m p len ≡ some (len + k)
unfolding strlen_loop
strlen_loop_lem k zero m p len s f = absurd (omega arith)
strlen_loop_lem zero (suc fuel) m p len s f =
    let at : len + zero ≡ len = omega arith in
    let e : m (p + len) ≡ 0 = ap (λ k. m (p + k)) (sym at) ∙ s.ended in ground arith
strlen_loop_lem (suc k) (suc fuel) m p len s f =
    let at : len + suc k ≡ len + 1 + k = omega arith in
    let e : m (p + len) ≢ 0 = s.bytes len (omega arith) in
    ground (arith, strlen_loop_lem k fuel m p (len + 1) (rw at at s) (omega arith))

-- strlen of a string returns its length, given more fuel than that.
pub strlen-IsString :
    (fuel : ℕ) (m : Mem) (p n : ℕ) → IsString m p n → n < fuel → strlen fuel m p ≡ some n
unfolding strlen
strlen-IsString fuel m p n s f =
    let at : n ≡ 0 + n = omega arith in
    strlen_loop_lem n fuel m p 0 (rw at at s) f ∙ ap some (sym at)

strnlen_loop_lem :
    (left : ℕ) (m : Mem) (p n len : ℕ)
    → IsString m p n
    → len ≤ n
    → strnlen_loop left m p len ≡ (if ltb n (len + left) then n else len + left)
unfolding strnlen_loop
strnlen_loop_lem zero m p n len s le = ground arith
strnlen_loop_lem (suc left) m p n len s le = elim (Bool-cases (n == len)) [
  | inl e ↦
      let at : n ≡ len = ==→eq n len e in
      let z : m (p + len) ≡ 0 = ap (λ k. m (p + k)) (sym at) ∙ s.ended in ground arith
  | inr e ↦
      let nz : m (p + len) ≢ 0 = s.bytes len (ground arith) in
      ground (arith, strnlen_loop_lem left m p n (len + 1) s (ground arith))
]

-- strnlen returns the length of a string, cut at `max`.
pub strnlen-IsString :
    (m : Mem) (p n max : ℕ) → IsString m p n → strnlen m p max ≡ (if ltb n max then n else max)
unfolding strnlen
strnlen-IsString m p n max s = ground (arith, strnlen_loop_lem max m p n 0 s (omega arith))
