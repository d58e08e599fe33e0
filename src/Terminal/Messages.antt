-- ===== src/Terminal/Messages.antt =====
-- print on the string literals of the program.
use Prim.Native.Char.{code}
use Prim.Native.String.{String}
use nuts_os.Base.{
  ℕ, zero, suc, ◌+◌, ◌<◌, ◌≤◌, ◌≡◌, ◌≢◌, ◌==◌, Bool, true, not, ◌&&◌, Option, some, List, [], ◌∷◌,
  arith, refl, ap, sym, ◌∙◌,
}
use nuts_os.Memory.{Mem, literal}
use nuts_os.Text.Length.{IsString, strlen-IsString}
use nuts_os.Terminal.{Terminal, writechar, print_loop, print}

-- The bytes of a literal, without its terminator.
abbrev pub codes : String → List ℕ
codes String.[] = []
codes (String.◌∷◌ c s) = code c ∷ codes s

abbrev pub size : List ℕ → ℕ
size [] = 0
size (c ∷ cs) = suc (size cs)

-- print of a literal; its length is enough fuel.
unfoldable pub print_text : List ℕ → Terminal → Option Terminal
print_text cs t = print (suc (size cs)) (literal cs) 0 t

-- The screen with each character written in order, in white.
abbrev pub written : List ℕ → Terminal → Terminal
written [] t = t
written (c ∷ cs) t = written cs (writechar t c 15)

abbrev pub is_text : List ℕ → Bool
is_text [] = true
is_text (c ∷ cs) = not (c == 0) && is_text cs

text_at : (cs : List ℕ) (i : ℕ) → is_text cs ≡ true → i < size cs → literal cs i ≢ 0
text_at [] i e h z = absurd (omega arith)
text_at (c ∷ cs) zero e h z = absurd (ground arith)
text_at (c ∷ cs) (suc i) e h z = text_at cs i (ground arith) (omega arith) z

text_end : (cs : List ℕ) → literal cs (size cs) ≡ 0
text_end [] = refl
text_end (c ∷ cs) = text_end cs

-- A text with its terminator stands at `p`.
abbrev pub Stands : Mem → ℕ → List ℕ → Type 0
Stands m p cs = (j : ℕ) → j ≤ size cs → m (p + j) ≡ literal cs j

Stands-IsString :
    (m : Mem) (p : ℕ) (cs : List ℕ) → is_text cs ≡ true → Stands m p cs → IsString m p (size cs)
Stands-IsString m p cs e stands = record {
  bytes = λ i h z. text_at cs i e h (sym (stands i (omega arith)) ∙ z);
  ended = stands (size cs) (omega arith) ∙ text_end cs;
}

print_loop-written :
    (cs : List ℕ) (i : ℕ) (m : Mem) (p : ℕ) (t : Terminal)
    → ((j : ℕ) → j < size cs → m (p + (i + j)) ≡ literal cs j)
    → print_loop (size cs) i m p t ≡ written cs t
unfolding print_loop
print_loop-written [] i m p t same = refl
print_loop-written (c ∷ cs) i m p t same =
    let first : m (p + i) ≡ c = ap m (omega arith) ∙ same 0 (omega arith) in
    ap (λ d. print_loop (size cs) (i + 1) m p (writechar t d 15)) first
    ∙ print_loop-written cs (i + 1) m p (writechar t c 15)
        (λ j h. ap m (omega arith) ∙ same (suc j) (omega arith))

-- print of a text that stands in memory, given more fuel than its length, returns, with its
-- characters on the screen.
pub print-written :
    (fuel : ℕ) (m : Mem) (p : ℕ) (cs : List ℕ) (t : Terminal)
    → is_text cs ≡ true
    → Stands m p cs
    → size cs < fuel
    → print fuel m p t ≡ some (written cs t)
unfolding print
print-written fuel m p cs t e stands enough =
    rw (strlen-IsString fuel m p (size cs) (Stands-IsString m p cs e stands) enough, print)
      (ap some (print_loop-written cs 0 m p t (λ j h. ap m (omega arith) ∙ stands j (omega arith))))

-- print of a literal, whose characters are not zero.
pub print_text-written :
    (cs : List ℕ) (t : Terminal) → is_text cs ≡ true → print_text cs t ≡ some (written cs t)
unfolding print_text
print_text-written cs t e =
    print-written (suc (size cs)) (literal cs) 0 cs t e (λ j h. ap (literal cs) (omega arith))
      (omega arith)
