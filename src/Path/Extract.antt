-- ===== src/Path/Extract.antt =====
-- pathparser_extract_next_path_part: the next part, copied into a buffer of its own.
use nuts_os.Base.{
  ℕ, zero, suc, ◌+◌, ◌<◌, ◌≤◌, ◌≡◌, ◌≢◌, ◌⊎◌, ◌==◌, if◌then◌else◌, List, [], ◌∷◌, some, arith, refl,
  length, update, Bool-cases, inl, inr, ap, ◌∙◌,
}
use mathlib.Core.Path.{subst}
use nuts_os.Memory.{Mem}
use nuts_os.Path.{extract_loop}
use nuts_os.Path.Parts.{Spells, word, behind}

-- The bytes `ws`, none of them zero, stand at `p`.
abbrev pub Starts : Mem → ℕ → List ℕ → Type 0
Starts m p [] = Unit {0}
Starts m p (w ∷ ws) = (m p ≡ w) × (w ≢ 0) × Starts m (p + 1) ws

shift : (p k : ℕ) → p + 1 + k ≡ p + suc k
shift p k = omega arith

-- Another memory that agrees where the string stands.
pub Spells-same :
    (m m' : Mem) (p : ℕ) (cs : List ℕ)
    → ((k : ℕ) → k ≤ length cs → m' (p + k) ≡ m (p + k))
    → Spells m p cs
    → Spells m' p cs
Spells-same m m' p [] same s = ground (arith, same 0)
Spells-same m m' p (c ∷ cs) same (e, ne, s) =
    (ground (arith, same 0), ne, Spells-same m m' (p + 1) cs shifted s)
  where
    shifted : (k : ℕ) → k ≤ length cs → m' (p + 1 + k) ≡ m (p + 1 + k)
    shifted k h = rw (shift p k) (same (suc k) (omega arith))

Starts-same :
    (m m' : Mem) (p : ℕ) (ws : List ℕ)
    → ((a : ℕ) → p ≤ a → m' a ≡ m a)
    → Starts m p ws
    → Starts m' p ws
Starts-same m m' p [] same s = tt
Starts-same m m' p (w ∷ ws) same (e, ne, s) =
    (same p (omega arith) ∙ e, ne, Starts-same m m' (p + 1) ws (λ a h. same a (omega arith)) s)

pub Starts-Spells :
    (m : Mem) (p : ℕ) (ws : List ℕ) → Starts m p ws → m (p + length ws) ≡ 0 → Spells m p ws
Starts-Spells m p [] s e = ap m (omega arith) ∙ e
Starts-Spells m p (w ∷ ws) (at, ne, s) e =
    (at, ne, Starts-Spells m (p + 1) ws s (ap m (shift p (length ws)) ∙ e))

-- Where the path goes on behind a part.
abbrev pub next_at : Mem → ℕ → ℕ
next_at m path = if m path == b'/' then path + 1 else path

-- What the loop leaves: the part in the buffer from byte `i` on, and nothing else changed. The
-- path is then at the slash behind the part, or at the end.
pub record Copied (m m' : Mem) (path' path result i n : ℕ) (cs : List ℕ) : Type 0 where
  pub count : n ≡ i + length (word cs)
  pub letters : Starts m' (result + i) (word cs)
  pub others : (a : ℕ) → (a < result + i) ⊎ (result + n ≤ a) → m' a ≡ m a
  pub stop : path' ≡ path + length (word cs)
  pub rest : Spells m' (next_at m' path') (behind cs)
  pub ahead : path ≤ next_at m' path'
  pub reach : next_at m' path' + length (behind cs) ≤ path + length cs

-- One byte more in the buffer.
others_kept :
    (m m' : Mem) (p end v a : ℕ)
    → ((a < p + 1) ⊎ (end ≤ a) → m' a ≡ update m p v a)
    → p < end
    → (a < p) ⊎ (end ≤ a)
    → m' a ≡ m a
others_kept m m' p end v a same lt (inl h) = same (inl (omega arith)) ∙ ground arith
others_kept m m' p end v a same lt (inr h) = same (inr h) ∙ ground arith

pub extract_loop-Copied :
    (fuel path result i : ℕ) (m : Mem) (cs : List ℕ)
    → Spells m path cs
    → length cs < fuel
    → ((k j : ℕ) → k ≤ length cs → j < i + length cs → path + k ≢ result + j)
    → (path' : ℕ) × (n : ℕ) × (m' : Mem) × (extract_loop fuel path result i m ≡ some (path', n, m'))
      × Copied m m' path' path result i n cs
unfolding extract_loop
extract_loop-Copied zero path result i m cs s f apart = absurd (omega arith)
extract_loop-Copied (suc fuel) path result i m [] s f apart = (
  path,
  i,
  m,
  ground arith,
  record {
    count = omega arith;
    letters = tt;
    others = λ a h. refl;
    stop = omega arith;
    rest = ground arith;
    ahead = ground arith;
    reach = ground arith;
  },
)
extract_loop-Copied (suc fuel) path result i m (c ∷ cs) (e, ne, s) f apart =
    elim (Bool-cases (c == b'/')) [
      | inl slash ↦ (
        path,
        i,
        m,
        ground arith,
        record {
          count = rw slash (omega arith);
          letters = rw slash tt;
          others = λ a h. refl;
          stop = rw slash (omega arith);
          rest = ground (arith, slash, s);
          ahead = ground arith;
          reach = ground arith;
        },
      )
      | inr letter ↦
          let m₁ = update m (result + i) (m path) in
          let same : (k : ℕ) → k ≤ length cs → m₁ (path + 1 + k) ≡ m (path + 1 + k) =
            λ k h. ground (arith, apart (suc k) i) in
          let (path', n, m', run, copied) =
            extract_loop-Copied fuel (path + 1) result (i + 1) m₁ cs
              (Spells-same m m₁ (path + 1) cs same s) (omega arith)
              (λ k j h h' eq. apart (suc k) j (omega arith) (omega arith) (omega (arith, eq))) in
          let closer : (a : ℕ)
              → (a < result + i + 1) ⊎ (result + n ≤ a)
              → (a < result + (i + 1)) ⊎ (result + n ≤ a) =
            λ a q. elim q [ inl h ↦ inl (omega arith) | inr h ↦ inr h ] in
          (
            path',
            n,
            m',
            ground (arith, run),
            record {
              count = rw letter (omega (arith, copied.count));
              letters = rw letter (
                copied.others (result + i) (inl (omega arith)) ∙ ground arith,
                ne,
                subst (λ q. Starts m' q (word cs)) (omega arith) copied.letters,
              );
              others = λ a h.
                  others_kept m m' (result + i) (result + n) (m path) a
                    (λ q. copied.others a (closer a q)) (omega (arith, copied.count)) h;
              stop = rw letter (omega (arith, copied.stop));
              rest = rw letter copied.rest;
              ahead = omega (arith, copied.ahead);
              reach = rw letter (omega (arith, copied.reach));
            },
          )
    ]
