-- ===== src/Path/Parse.antt =====
-- pathparser_parse: the list that it builds holds the parts of the path.
use nuts_os.Base.{
  ℕ, zero, suc, ◌+◌, ◌*◌, ◌<◌, ◌≤◌, ◌≡◌, ◌≢◌, List, [], ◌∷◌, some, arith, refl, true, length, inl,
  inr, ap, sym, ◌∙◌,
}
use mathlib.Core.Path.{subst}
use nuts_os.Heap.Store.{IsUsable, free_blocks, is_safe, Extends, Extends-trans}
use nuts_os.Path.{Paths, PathPart, parse_loop}
use nuts_os.Path.Parts.{Spells, HoldsParts, word, behind, parts, parts_of, parts-word, length-word}
use nuts_os.Path.Buffer.{IsText, IsText-Extends}
use nuts_os.Path.Step.{nonzero, parse_path_part-Stepped}

-- What the loop leaves behind the part `a`: the parts of the rest of the path.
pub record Appended (s s' : Paths) (a : ℕ) (xs : List (List ℕ)) : Type 0 where
  pub extends : Extends s.store s'.store
  pub holds : HoldsParts s' (s'.part_at a).next xs
  pub same_part : (s'.part_at a).part ≡ (s.part_at a).part
  pub others : (b : ℕ) → is_safe s.store.heap b ≡ true → b ≢ a → s'.part_at b ≡ s.part_at b
  pub roots : s'.root_at ≡ s.root_at

pub parts-nil : (cs : List ℕ) → word cs ≡ [] → parts cs ≡ []
parts-nil cs e = parts-word cs ∙ ap (λ w. parts_of w (behind cs)) e

parts_of-cons : (w cs : List ℕ) → w ≢ [] → parts_of w cs ≡ w ∷ parts cs
parts_of-cons [] cs ne = absurd (ne refl)
parts_of-cons (c ∷ w) cs ne = refl

pub parts-cons : (cs : List ℕ) → word cs ≢ [] → parts cs ≡ word cs ∷ parts (behind cs)
parts-cons cs ne = parts-word cs ∙ parts_of-cons (word cs) (behind cs) ne

nonempty : (w : List ℕ) → w ≢ [] → 0 < length w
nonempty [] ne = absurd (ne refl)
nonempty (c ∷ w) ne = omega arith

pub behind-lt : (cs : List ℕ) → word cs ≢ [] → length (behind cs) < length cs
behind-lt cs ne = omega (arith, length-word cs, nonempty (word cs) ne)

-- A part in front of those that the rest of the loop appends behind it.
pub HoldsParts-cons :
    (s s' : Paths) (part : ℕ) (cs : List ℕ) (first : ℕ)
    → word cs ≢ []
    → first ≡ part
    → part ≢ 0
    → IsText s.store (s.part_at part).part (word cs)
    → Appended s s' part (parts (behind cs))
    → HoldsParts s' first (parts cs)
HoldsParts-cons s s' part cs first cons e nonnull text rest =
    let text' = IsText-Extends s.store s'.store (s.part_at part).part (word cs) rest.extends text in
    subst (λ xs. HoldsParts s' first xs) (sym (parts-cons cs cons))
      (subst (λ q. HoldsParts s' q (word cs ∷ parts (behind cs))) (sym e)
        (
          nonnull,
          subst (λ q. Spells s'.store.memory q (word cs)) (sym rest.same_part) text'.spells,
          rest.holds,
        ))

pub parse_loop-Appended :
    (rounds fuel a path : ℕ) (cs : List ℕ) (s : Paths)
    → length cs < rounds
    → IsUsable s.store.heap
    → 2 * length (parts cs) + 2 ≤ free_blocks s.store.heap
    → IsText s.store path cs
    → length cs < 256
    → length cs < fuel
    → a ≢ 0
    → is_safe s.store.heap a ≡ true
    → (s.part_at a).next ≡ 0
    → (s' : Paths) × (parse_loop rounds fuel a path s ≡ some s') × Appended s s' a (parts cs)
unfolding parse_loop
parse_loop-Appended zero fuel a path cs s r u room t short f ne safe end = absurd (omega arith)
parse_loop-Appended (suc rounds) fuel a path cs s r u room t short f ne safe end =
    let (part, path', s₁, run, st) =
      parse_path_part-Stepped fuel a path cs s u (omega arith) t short f (inr safe) in
    elim st.outcome [
      | inl (nil, null, same) ↦ (
        s₁,
        rw (run, null, parse_loop) refl,
        record {
          extends = st.extends;
          holds =
              subst (λ xs. HoldsParts s₁ (s₁.part_at a).next xs) (sym (parts-nil cs nil))
                (ap (λ (f : ℕ → PathPart). (f a).next) same ∙ end);
          same_part = ap (λ (f : ℕ → PathPart). (f a).part) same;
          others = λ b sb nb. ap (λ (f : ℕ → PathPart). f b) same;
          roots = st.roots;
        },
      )
      | inr (cons, nonnull, part_safe, text, part_end, two, link, others, new) ↦
          let rest = behind cs in
          let smaller = behind-lt cs cons in
          let count : length (parts cs) ≡ suc (length (parts rest)) =
            ap (λ (xs : List (List ℕ)). length xs) (parts-cons cs cons) in
          let (s₂, run', ap₂) =
            parse_loop-Appended rounds fuel part path' rest s₁ (omega arith) st.extends.usable
              (omega (arith, two, count)) st.rest (omega arith) (omega arith) nonnull part_safe
              part_end in
          let at_a : s₂.part_at a ≡ record (s.part_at a) { next = part } =
            ap₂.others a (st.extends.kept_safe a safe) (new a safe) ∙ link ne safe in
          (
            s₂,
            rw (run, nonzero part nonnull, parse_loop) run',
            record {
              extends = Extends-trans s.store s₁.store s₂.store st.extends ap₂.extends;
              holds =
                  HoldsParts-cons s₁ s₂ part cs (s₂.part_at a).next cons
                    (ap (λ (q : PathPart). q.next) at_a) nonnull text ap₂;
              same_part = ap (λ (q : PathPart). q.part) at_a;
              others =
                  λ b sb nb. ap₂.others b (st.extends.kept_safe b sb) (new b sb) ∙ others b sb nb;
              roots = ap₂.roots ∙ st.roots;
            },
          )
    ]
