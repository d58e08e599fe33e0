-- ===== src/Path/Valid.antt =====
-- Which strings pathparser_parse takes for a path.
use nuts_os.Base.{
  ℕ, zero, suc, ◌+◌, ◌≡◌, ◌==◌, ◌&&◌, List, [], ◌∷◌, arith, false, length, Bool, ap, sym, ◌∙◌,
}
use nuts_os.Memory.{Mem, memcmp}
use nuts_os.Text.{isdigit}
use nuts_os.Text.Length.{IsString, IsNonzero, strnlen-IsString}
use nuts_os.Path.{is_path_valid}
use nuts_os.Path.Parts.{Spells}

-- A digit, a colon and a slash, and then anything.
abbrev pub is_path : List ℕ → Bool
is_path [] = false
is_path (d ∷ []) = false
is_path (d ∷ a ∷ []) = false
is_path (d ∷ a ∷ b ∷ cs) = isdigit d && ((a == b':') && (b == b'/'))

pub Spells-bytes : (m : Mem) (p : ℕ) (cs : List ℕ) → Spells m p cs → IsNonzero m p (length cs)
Spells-bytes m p [] s i h z = absurd (omega arith)
Spells-bytes m p (c ∷ cs) (e, ne, s) zero h z = ne (sym e ∙ ap m (omega arith) ∙ z)
Spells-bytes m p (c ∷ cs) (e, ne, s) (suc i) h z =
    Spells-bytes m (p + 1) cs s i (omega arith) (ap m (omega arith) ∙ z)

pub Spells-ended : (m : Mem) (p : ℕ) (cs : List ℕ) → Spells m p cs → m (p + length cs) ≡ 0
Spells-ended m p [] s = ap m (omega arith) ∙ s
Spells-ended m p (c ∷ cs) (e, ne, s) = ap m (omega arith) ∙ Spells-ended m (p + 1) cs s

pub Spells-IsString : (m : Mem) (p : ℕ) (cs : List ℕ) → Spells m p cs → IsString m p (length cs)
Spells-IsString m p cs s = record { bytes = Spells-bytes m p cs s; ended = Spells-ended m p cs s }

pub is_path_valid-is_path :
    (m : Mem) (p : ℕ) (cs : List ℕ) → Spells m p cs → is_path_valid m p ≡ is_path cs
unfolding is_path_valid memcmp
is_path_valid-is_path m p [] s =
    ground (arith, strnlen-IsString m p 0 256 (Spells-IsString m p [] s))
is_path_valid-is_path m p (d ∷ []) s =
    ground (arith, strnlen-IsString m p 1 256 (Spells-IsString m p (d ∷ []) s))
is_path_valid-is_path m p (d ∷ a ∷ []) s =
    ground (arith, strnlen-IsString m p 2 256 (Spells-IsString m p (d ∷ a ∷ []) s))
is_path_valid-is_path m p (d ∷ a ∷ b ∷ cs) (e, ne, (e', ne', (e'', ne'', s))) = ground (
  arith,
  strnlen-IsString m p (length (d ∷ a ∷ b ∷ cs)) 256
      (Spells-IsString m p (d ∷ a ∷ b ∷ cs) (e, ne, (e', ne', (e'', ne'', s)))),
)
