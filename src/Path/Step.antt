-- ===== src/Path/Step.antt =====
-- pathparser_parse_path_part: one part more at the end of the list.
use nuts_os.Base.{
  ℕ, suc, ◌+◌, ◌<◌, ◌≤◌, ◌≡◌, ◌≢◌, ◌⊎◌, ◌==◌, if◌then◌else◌, List, [], some, arith, refl, true,
  false, length, update, inl, inr, ap, sym,
}
use mathlib.Core.Path.{subst}
use nuts_os.Heap.Store.{
  Store, IsUsable, free_blocks, is_safe, Fresh, zalloc, Extends, Extends-trans, Fresh-Extends,
  Fresh-apart,
}
use nuts_os.Heap.Store.Taking.{zalloc-Fresh}
use nuts_os.Path.{Paths, PathPart, append_part, parse_path_part}
use nuts_os.Path.Parts.{word, behind}
use nuts_os.Path.Buffer.{IsText, IsText-Extends, extract-Extracted}

-- One part more: its structure stands behind `last`, if there is one.
pub record Linked (s s' : Paths) (last part path_part_str : ℕ) : Type 0 where
  pub extends : Extends s.store s'.store
  pub nonnull : part ≢ 0
  pub safe : is_safe s'.store.heap part ≡ true
  pub room : suc (free_blocks s'.store.heap) ≡ free_blocks s.store.heap
  pub made : s'.part_at part ≡ (record { part = path_part_str; next = 0 })
  pub link :
      last ≢ 0
      → is_safe s.store.heap last ≡ true
      → s'.part_at last ≡ record (s.part_at last) { next = part }
  pub others : (b : ℕ) → is_safe s.store.heap b ≡ true → b ≢ last → s'.part_at b ≡ s.part_at b
  pub roots : s'.root_at ≡ s.root_at
  pub new : (b : ℕ) → is_safe s.store.heap b ≡ true → b ≢ part

-- The structures after one more is written at `p` and linked behind `last`.
abbrev pub parts_after : (ℕ → PathPart) → ℕ → ℕ → ℕ → ℕ → PathPart
parts_after f p last str =
    let made = update f p (record { part = str; next = 0 }) in
    if last == 0 then made else update made last (record (made last) { next = p })

module _ (f : ℕ → PathPart) (p last str : ℕ) where
  after_new :
      (last ≡ 0) ⊎ (last ≢ p) → parts_after f p last str p ≡ (record { part = str; next = 0 })
  after_new (inl e) = ground arith
  after_new (inr ne) = ground arith

  after_last : last ≢ 0 → last ≢ p → parts_after f p last str last ≡ record (f last) { next = p }
  after_last ne other = ground arith

  after_other : (b : ℕ) → b ≢ p → b ≢ last → parts_after f p last str b ≡ f b
  after_other b ne other = ground arith

pub nonzero_address :
    (s s' : Store) (p size a : ℕ) → Fresh s s' p size → is_safe s.heap a ≡ true → a ≢ p
nonzero_address s s' p size a f safe e = elim (Fresh-apart s s' p size a f safe) [
  | inl low ↦ omega arith
  | inr high ↦ omega arith
]

pub append_part-Linked :
    (last path_part_str : ℕ) (s : Paths)
    → IsUsable s.store.heap
    → 0 < free_blocks s.store.heap
    → (last ≡ 0) ⊎ (is_safe s.store.heap last ≡ true)
    → Linked s
        (append_part last path_part_str s).1
        last
        (append_part last path_part_str s).0
        path_part_str
unfolding append_part
append_part-Linked last path_part_str s u some_free last_safe =
    let (p, store) = zalloc s.store 8 in
    let fresh = zalloc-Fresh s.store 8 u (omega arith) (omega arith) some_free in
    record {
      extends = Fresh-Extends s.store store p 8 fresh;
      nonnull = fresh.nonnull;
      safe = subst (λ q. is_safe store.heap q ≡ true) (omega arith) (fresh.page 0 (omega arith));
      room = fresh.room;
      made = after_new s.part_at p last path_part_str (elim last_safe [
        | inl e ↦ inl e
        | inr safe ↦ inr (nonzero_address s.store store p 8 last fresh safe)
      ]);
      link = λ ne safe.
          after_last s.part_at p last path_part_str ne
            (nonzero_address s.store store p 8 last fresh safe);
      others = λ b safe ne.
          after_other s.part_at p last path_part_str b
            (nonzero_address s.store store p 8 b fresh safe) ne;
      roots = refl;
      new = λ b safe. nonzero_address s.store store p 8 b fresh safe;
    }

-- What pathparser_parse_path_part leaves: no part, where the next one is empty; else a part that
-- holds it, behind the last one.
pub record Stepped (s s' : Paths) (last part path' : ℕ) (cs : List ℕ) : Type 0 where
  pub extends : Extends s.store s'.store
  pub rest : IsText s'.store path' (behind cs)
  pub roots : s'.root_at ≡ s.root_at
  pub outcome :
      ((word cs ≡ []) × (part ≡ 0) × (s'.part_at ≡ s.part_at))
      ⊎ ((word cs ≢ [])
          × (part ≢ 0)
          × (is_safe s'.store.heap part ≡ true)
          × IsText s'.store (s'.part_at part).part (word cs)
          × ((s'.part_at part).next ≡ 0)
          × (2 + free_blocks s'.store.heap ≡ free_blocks s.store.heap)
          × (last ≢ 0
              → is_safe s.store.heap last ≡ true
              → s'.part_at last ≡ record (s.part_at last) { next = part })
          × ((b : ℕ) → is_safe s.store.heap b ≡ true → b ≢ last → s'.part_at b ≡ s.part_at b)
          × ((b : ℕ) → is_safe s.store.heap b ≡ true → b ≢ part))

pub nonzero : (n : ℕ) → n ≢ 0 → (n == 0) ≡ false
nonzero n ne = ground arith

pub parse_path_part-Stepped :
    (fuel last path : ℕ) (cs : List ℕ) (s : Paths)
    → IsUsable s.store.heap
    → 2 ≤ free_blocks s.store.heap
    → IsText s.store path cs
    → length cs < 256
    → length cs < fuel
    → (last ≡ 0) ⊎ (is_safe s.store.heap last ≡ true)
    → (part : ℕ) × (path' : ℕ) × (s' : Paths) × (parse_path_part fuel last path s
        ≡ some (part, path', s'))
      × Stepped s s' last part path' cs
unfolding parse_path_part
parse_path_part-Stepped fuel last path cs s u room t short f last_safe =
    let (str, path', store, run, ex) =
      extract-Extracted fuel path cs s.store u (omega arith) t short f in
    let s₁ : Paths = record s { store = store } in
    elim ex.part [
      | inl (nil, null) ↦ (
        0,
        path',
        s₁,
        rw (run, null, parse_path_part) refl,
        record {
          extends = ex.extends;
          rest = ex.rest;
          roots = refl;
          outcome = inl (nil, refl, refl);
        },
      )
      | inr (cons, nonnull, text, one) ↦
          let l =
            append_part-Linked last str s₁ ex.extends.usable (omega (arith, one)) (elim last_safe [
              | inl e ↦ inl e
              | inr safe ↦ inr (ex.extends.kept_safe last safe)
            ]) in
          let (part, s₂) = append_part last str s₁ in
          (
            part,
            path',
            s₂,
            rw (run, nonzero str nonnull, parse_path_part) refl,
            record {
              extends = Extends-trans s.store store s₂.store ex.extends l.extends;
              rest = IsText-Extends store s₂.store path' (behind cs) l.extends ex.rest;
              roots = l.roots;
              outcome = inr (
                cons,
                l.nonnull,
                l.safe,
                subst (λ r. IsText s₂.store r (word cs))
                    (sym (ap (λ (q : PathPart). q.part) l.made))
                    (IsText-Extends store s₂.store str (word cs) l.extends text),
                ap (λ (q : PathPart). q.next) l.made,
                omega (arith, l.room, one),
                λ ne safe. l.link ne (ex.extends.kept_safe last safe),
                λ b safe ne. l.others b (ex.extends.kept_safe b safe) ne,
                λ b safe. l.new b (ex.extends.kept_safe b safe),
              );
            },
          )
    ]
