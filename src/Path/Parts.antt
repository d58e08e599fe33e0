-- ===== src/Path/Parts.antt =====
-- What a path means: the parts between its slashes, and the list that stands for them in memory.
use nuts_os.Base.{
  ℕ, ◌+◌, ◌≤◌, ◌≡◌, ◌≢◌, ◌==◌, if◌then◌else◌, List, [], ◌∷◌, ◌++◌, arith, refl, true, false, length,
  Bool-cases, inl, inr,
}
use mathlib.Core.List.{append-nil, append_assoc}
use nuts_os.Memory.{Mem}
use nuts_os.Path.{Paths}

-- The string `cs` stands at `p`, with its terminator.
abbrev pub Spells : Mem → ℕ → List ℕ → Type 0
Spells m p [] = m p ≡ 0
Spells m p (c ∷ cs) = (m p ≡ c) × (c ≢ 0) × Spells m (p + 1) cs

-- The part that is read, letter by letter, and the parts behind it. An empty part ends the path.
abbrev pub parts_from : List ℕ → List ℕ → List (List ℕ)
parts_from [] [] = []
parts_from (w ∷ ws) [] = (w ∷ ws) ∷ []
parts_from [] (c ∷ cs) = elim (c == b'/') [ true ↦ [] | false ↦ parts_from (c ∷ []) cs ]
parts_from (w ∷ ws) (c ∷ cs) = elim (c == b'/') [
  | true ↦ (w ∷ ws) ∷ parts_from [] cs
  | false ↦ parts_from ((w ∷ ws) ++ c ∷ []) cs
]

abbrev pub parts : List ℕ → List (List ℕ)
parts cs = parts_from [] cs

-- The list at the address `a` holds these parts.
abbrev pub HoldsParts : Paths → ℕ → List (List ℕ) → Type 0
HoldsParts s a [] = a ≡ 0
HoldsParts s a (x ∷ xs) =
    (a ≢ 0) × Spells s.store.memory (s.part_at a).part x × HoldsParts s (s.part_at a).next xs

-- The first part of a path, and what stands behind its slash.
abbrev pub word : List ℕ → List ℕ
word [] = []
word (c ∷ cs) = if c == b'/' then [] else c ∷ word cs

abbrev pub behind : List ℕ → List ℕ
behind [] = []
behind (c ∷ cs) = if c == b'/' then cs else behind cs

abbrev pub parts_of : List ℕ → List ℕ → List (List ℕ)
parts_of [] cs = []
parts_of (w ∷ ws) cs = (w ∷ ws) ∷ parts cs

parts_from-word : (ws cs : List ℕ) → parts_from ws cs ≡ parts_of (ws ++ word cs) (behind cs)
parts_from-word [] [] = refl
parts_from-word (w ∷ ws) [] = rw (append-nil ws) refl
parts_from-word [] (c ∷ cs) = elim (Bool-cases (c == b'/')) [
  | inl e ↦ rw (e, parts_from) refl
  | inr e ↦ rw (e, parts_from) (parts_from-word (c ∷ []) cs)
]
parts_from-word (w ∷ ws) (c ∷ cs) = elim (Bool-cases (c == b'/')) [
  | inl e ↦ rw (e, append-nil ws, parts_from) refl
  | inr e ↦
      rw (e, parts_from, ← append_assoc ws (c ∷ []) (word cs))
        (parts_from-word ((w ∷ ws) ++ c ∷ []) cs)
]

-- The parts of a path, one at a time.
pub parts-word : (cs : List ℕ) → parts cs ≡ parts_of (word cs) (behind cs)
parts-word cs = parts_from-word [] cs

pub length-word : (cs : List ℕ) → length (word cs) + length (behind cs) ≤ length cs
length-word [] = omega arith
length-word (c ∷ cs) = ground (arith, length-word cs)
