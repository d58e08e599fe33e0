-- ===== src/Path/Whole.antt =====
-- pathparser_parse from the string to the root, and the paths that it refuses.
use nuts_os.Base.{
  ℕ, suc, ◌+◌, ◌-◌, ◌*◌, ◌<◌, ◌≤◌, ◌≡◌, ◌≢◌, ◌⊎◌, ◌&&◌, ltb, List, ◌∷◌, some, none, arith, refl,
  true, false, length, update, Bool, Bool-cases, inl, inr, ap, sym, ◌∙◌,
}
use mathlib.Core.Path.{subst}
use nuts_os.Base.Int.{pos}
use nuts_os.Memory.{Mem}
use nuts_os.Text.{isdigit, ctoi}
use nuts_os.Text.Length.{strlen-IsString}
use nuts_os.Heap.Store.{
  Store, IsUsable, free_blocks, is_safe, Fresh, zalloc, Extends, Extends-trans, Fresh-Extends,
}
use nuts_os.Heap.Store.Taking.{zalloc-Fresh}
use nuts_os.Path.{
  Paths, PathRoot, is_path_valid, extract_drive_from_path, create_root, parse_path_part,
  parse_first, parse_parts, parse,
}
use nuts_os.Path.Parts.{Spells, HoldsParts, parts, behind}
use nuts_os.Path.Buffer.{IsText, IsText-Extends}
use nuts_os.Path.Step.{nonzero, parse_path_part-Stepped}
use nuts_os.Path.Parse.{HoldsParts-cons, parts-nil, parts-cons, behind-lt, parse_loop-Appended}
use nuts_os.Path.Valid.{is_path, Spells-IsString, is_path_valid-is_path}

no_drive : (m : Mem) (p : ℕ) → is_path_valid m p ≡ false → extract_drive_from_path m p ≡ none
unfolding extract_drive_from_path
no_drive m p e = rw (e, extract_drive_from_path) refl

refused : (n : ℕ) (valid : Bool) → (256 < n) ⊎ (valid ≡ false) → ltb 256 n ≡ false → valid ≡ false
refused n valid (inl h) fits = absurd (ground arith)
refused n valid (inr e) fits = e

-- pathparser_parse of a string that is longer than 256 bytes, or does not start with a drive, given
-- fuel above its length, returns a null root and leaves the state as it was.
pub parse-refused :
    (fuel path : ℕ) (cs : List ℕ) (s : Paths)
    → Spells s.store.memory path cs
    → length cs < fuel
    → (256 < length cs) ⊎ (is_path cs ≡ false)
    → parse fuel path s ≡ some (0, s)
unfolding parse extract_drive_from_path parse_parts
parse-refused fuel path cs s t f bad =
    let m = s.store.memory in
    let len = strlen-IsString fuel m path (length cs) (Spells-IsString m path cs t) f in
    elim (Bool-cases (ltb 256 (length cs))) [
      | inl long ↦ rw (len, long, parse) refl
      | inr fits ↦
          let bad_path = refused (length cs) (is_path cs) bad fits in
          let none_found = no_drive m path (is_path_valid-is_path m path cs t ∙ bad_path) in
          rw (len, fits, none_found, parse) refl
    ]

-- What a parse leaves at the root.
pub record Parsed (s s' : Paths) (root drive_no : ℕ) (xs : List (List ℕ)) : Type 0 where
  pub nonnull : root ≢ 0
  pub drive : (s'.root_at root).drive_no ≡ drive_no
  pub holds : HoldsParts s' (s'.root_at root).first xs
  pub extends : Extends s.store s'.store

-- The structure of the root, before it has parts.
create_root_at :
    (drive_no : ℕ) (s : Paths)
    → (create_root drive_no s).1.root_at (create_root drive_no s).0
      ≡ (record { drive_no = drive_no; first = 0 })
unfolding create_root
create_root_at drive_no s =
    same s.root_at (zalloc s.store 8).0 (record { drive_no = drive_no; first = 0 })
  where
    same : (f : ℕ → PathRoot) (p : ℕ) (v : PathRoot) → update f p v p ≡ v
    same f p v = ground arith

update_same : (f : ℕ → PathRoot) (p : ℕ) (v : PathRoot) → update f p v p ≡ v
update_same f p v = ground arith

-- The parts behind a root that is there, on the path behind the drive.
parse_first-Parsed :
    (fuel root path : ℕ) (cs : List ℕ) (s : Paths) (drive_no : ℕ)
    → IsUsable s.store.heap
    → 2 * length (parts cs) + 2 ≤ free_blocks s.store.heap
    → IsText s.store path cs
    → length cs < 256
    → length cs < fuel
    → root ≢ 0
    → s.root_at root ≡ (record { drive_no = drive_no; first = 0 })
    → (s' : Paths) × (parse_first fuel root (parse_path_part fuel 0 path s) ≡ some (root, s'))
      × Parsed s s' root drive_no (parts cs)
unfolding parse_first
parse_first-Parsed fuel root path cs s drive_no u room t short f ne at =
    let (part, path', s₁, run, st) =
      parse_path_part-Stepped fuel 0 path cs s u (omega arith) t short f (inl refl) in
    let at₁ = ap (λ (f : ℕ → PathRoot). f root) st.roots ∙ at in
    elim st.outcome [
      | inl (nil, null, same) ↦ (
        s₁,
        rw (run, null, parse_first) refl,
        record {
          nonnull = ne;
          drive = ap (λ (r : PathRoot). r.drive_no) at₁;
          holds =
              subst (λ xs. HoldsParts s₁ (s₁.root_at root).first xs) (sym (parts-nil cs nil))
                (ap (λ (r : PathRoot). r.first) at₁);
          extends = st.extends;
        },
      )
      | inr (cons, nonnull, part_safe, text, part_end, two, link, others, new) ↦
          let linked = record (s₁.root_at root) { first = part } in
          let s₂ : Paths = record s₁ { root_at = update s₁.root_at root linked } in
          let smaller = behind-lt cs cons in
          let count : length (parts cs) ≡ suc (length (parts (behind cs))) =
            ap (λ (xs : List (List ℕ)). length xs) (parts-cons cs cons) in
          let (s₃, run', rest) =
            parse_loop-Appended fuel fuel part path' (behind cs) s₂ (omega arith) st.extends.usable
              (omega (arith, two, count)) st.rest (omega arith) (omega arith) nonnull part_safe
              part_end in
          let at₃ =
            ap (λ (f : ℕ → PathRoot). f root) rest.roots ∙ update_same s₁.root_at root linked in
          (
            s₃,
            rw (run, nonzero part nonnull, run', parse_first) refl,
            record {
              nonnull = ne;
              drive = ap (λ (r : PathRoot). r.drive_no) at₃ ∙ ap (λ (r : PathRoot). r.drive_no) at₁;
              holds =
                  HoldsParts-cons s₂ s₃ part cs (s₃.root_at root).first cons
                    (ap (λ (r : PathRoot). r.first) at₃) nonnull text rest;
              extends = Extends-trans s.store s₁.store s₃.store st.extends rest.extends;
            },
          )
    ]

digit_lem : (d : ℕ) → isdigit d ≡ true → ctoi d ≡ pos (d - b'0')
unfolding isdigit ctoi
digit_lem d e = ground arith

found_drive :
    (m : Mem) (p : ℕ)
    → is_path_valid m p ≡ true
    → isdigit (m p) ≡ true
    → extract_drive_from_path m p ≡ some (pos (m p - b'0'), p + 3)
unfolding extract_drive_from_path
found_drive m p e d = rw (e, digit_lem (m p) d, extract_drive_from_path) refl

-- The path of a valid string, behind the drive.
IsText-behind_drive :
    (s : Store) (p d a b : ℕ) (cs : List ℕ) → IsText s p (d ∷ a ∷ b ∷ cs) → IsText s (p + 3) cs
IsText-behind_drive s p d a b cs t = record {
  spells = subst (λ q. Spells s.memory q cs) (omega arith) t.spells.2.2.2;
  safe = λ k h. subst (λ q. is_safe s.heap q ≡ true) (omega arith) (t.safe (k + 3) (omega arith));
}

create_root-Fresh :
    (drive_no : ℕ) (s : Paths)
    → IsUsable s.store.heap
    → 0 < free_blocks s.store.heap
    → Fresh s.store (create_root drive_no s).1.store (create_root drive_no s).0 8
unfolding create_root
create_root-Fresh drive_no s u some_free =
    zalloc-Fresh s.store 8 u (omega arith) (omega arith) some_free

with_root :
    (fuel path drive_no : ℕ) (s : Paths)
    → (create_root drive_no s).0 ≢ 0
    → parse_parts fuel (some (pos drive_no, path)) s
      ≡ parse_first fuel
          (create_root drive_no s).0
          (parse_path_part fuel 0 path (create_root drive_no s).1)
unfolding parse_parts
with_root fuel path drive_no s ne = rw (nonzero (create_root drive_no s).0 ne) refl

both : (a b : Bool) → (a && b) ≡ true → a ≡ true
both a b e = ground arith

-- On a usable heap with two free blocks for each part and three more, and for a string of at most
-- 256 bytes that starts with a drive and lies in no free block: pathparser_parse returns a root
-- that is not null, with the number of the drive and a list that holds the parts of the path in
-- order; nothing that was safe before is changed. The fuel is more than the length of the string.
pub parse-Parsed :
    (fuel path d a b : ℕ) (cs : List ℕ) (s : Paths)
    → IsUsable s.store.heap
    → 2 * length (parts cs) + 3 ≤ free_blocks s.store.heap
    → IsText s.store path (d ∷ a ∷ b ∷ cs)
    → is_path (d ∷ a ∷ b ∷ cs) ≡ true
    → length cs + 3 ≤ 256
    → length cs + 3 < fuel
    → (root : ℕ) × (s' : Paths) × (parse fuel path s ≡ some (root, s'))
      × Parsed s s' root (d - b'0') (parts cs)
unfolding parse
parse-Parsed fuel path d a b cs s u room t valid short f =
    let xs = d ∷ a ∷ b ∷ cs in
    let m = s.store.memory in
    let at_d : m path ≡ d = t.spells.0 in
    let (root, s₁) = create_root (d - b'0') s in
    let fresh = create_root-Fresh (d - b'0') s u (omega arith) in
    let t₁ =
      IsText-Extends s.store s₁.store (path + 3) cs (Fresh-Extends s.store s₁.store root 8 fresh)
        (IsText-behind_drive s.store path d a b cs t) in
    let (s', run, parsed) =
      parse_first-Parsed fuel root (path + 3) cs s₁ (d - b'0') fresh.usable
        (omega (arith, fresh.room)) t₁ (omega arith) (omega arith) fresh.nonnull
        (create_root_at (d - b'0') s) in
    let len =
      strlen-IsString fuel m path (length xs) (Spells-IsString m path xs t.spells) (omega arith) in
    let fits : ltb 256 (length xs) ≡ false = ground arith in
    let digit : isdigit (m path) ≡ true = ap isdigit at_d ∙ both (isdigit d) _ valid in
    let drive =
      found_drive m path (is_path_valid-is_path m path xs t.spells ∙ valid) digit
      ∙ ap (λ k. some (pos (k - b'0'), path + 3)) at_d in
    (
      root,
      s',
      rw (len, fits, drive, with_root fuel (path + 3) (d - b'0') s fresh.nonnull, parse) run,
      record {
        nonnull = parsed.nonnull;
        drive = parsed.drive;
        holds = parsed.holds;
        extends =
            Extends-trans s.store s₁.store s'.store (Fresh-Extends s.store s₁.store root 8 fresh)
              parsed.extends;
      },
    )
