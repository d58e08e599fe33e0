-- ===== src/Path/Buffer.antt =====
-- pathparser_extract_next_path_part: the next part, on a heap of its own block.
use nuts_os.Base.{
  ℕ, suc, ◌+◌, ◌-◌, ◌<◌, ◌≤◌, ◌≡◌, ◌≢◌, ◌⊎◌, ◌==◌, List, [], ◌∷◌, some, arith, refl, true, length,
  Bool-cases, inl, inr, ap, sym, ◌∙◌,
}
use mathlib.Core.Path.{subst}
use nuts_os.Memory.{Mem}
use nuts_os.Heap.{Heap}
use nuts_os.Heap.Kernel.{kfree}
use nuts_os.Heap.Store.{
  Store, IsUsable, free_blocks, is_safe, Fresh, zalloc, Extends, Fresh-Extends, Fresh-apart,
}
use nuts_os.Heap.Store.Taking.{zalloc-Fresh}
use nuts_os.Path.{extract_loop, finish_part, extract_next_path_part}
use nuts_os.Path.Parts.{Spells, word, behind, length-word}
use nuts_os.Path.Extract.{Spells-same, Starts, Starts-Spells, next_at, Copied, extract_loop-Copied}

no_letters : (ws : List ℕ) → length ws ≡ 0 → ws ≡ []
no_letters [] e = refl
no_letters (w ∷ ws) e = absurd (omega arith)

some_letters : (n : ℕ) → n ≢ 0 → n ≡ 0 → ⊥
some_letters n ne e = ne e

-- A string that the heap does not give out.
pub record IsText (s : Store) (p : ℕ) (cs : List ℕ) : Type 0 where
  pub spells : Spells s.memory p cs
  pub safe : (k : ℕ) → k ≤ length cs → is_safe s.heap (p + k) ≡ true

pub IsText-Extends :
    (s s' : Store) (p : ℕ) (cs : List ℕ) → Extends s s' → IsText s p cs → IsText s' p cs
IsText-Extends s s' p cs e t = record {
  spells = Spells-same s.memory s'.memory p cs (λ k h. e.kept (p + k) (t.safe k h)) t.spells;
  safe = λ k h. e.kept_safe (p + k) (t.safe k h);
}

-- What pathparser_extract_next_path_part leaves: the rest of the path, and the part in a new
-- buffer, or no buffer for an empty part.
pub record Extracted (s s' : Store) (result path' : ℕ) (cs : List ℕ) : Type 0 where
  pub extends : Extends s s'
  pub rest : IsText s' path' (behind cs)
  pub part :
      ((word cs ≡ []) × (result ≡ 0))
      ⊎ ((word cs ≢ [])
          × (result ≢ 0)
          × IsText s' result (word cs)
          × (suc (free_blocks s'.heap) ≡ free_blocks s.heap))

-- The next part, once its buffer is there.
module _ (s s₁ : Store) (p path : ℕ) (cs : List ℕ) (t : IsText s path cs) (short : length cs < 256)
    (buffer : Fresh s s₁ p 256) where
  -- The path does not lie in the buffer.
  apart : (k j : ℕ) → k ≤ length cs → j < 4096 → path + k ≢ p + j
  apart k j h h' e = elim (Fresh-apart s s₁ p 256 (path + k) buffer (t.safe k h)) [
    | inl low ↦ omega arith
    | inr high ↦ omega arith
  ]

  copy :
      (fuel : ℕ)
      → length cs < fuel
      → (path' : ℕ) × (n : ℕ) × (m' : Mem) × (extract_loop fuel path p 0 s₁.memory
          ≡ some (path', n, m'))
        × Copied s₁.memory m' path' path p 0 n cs
  copy fuel f =
      extract_loop-Copied fuel path p 0 s₁.memory cs
        (IsText-Extends s s₁ path cs (Fresh-Extends s s₁ p 256 buffer) t).spells f
        (λ k j h h'. apart k j h (omega arith))

  module _ (path' n : ℕ) (m' : Mem) (copied : Copied s₁.memory m' path' path p 0 n cs) where
    -- Writing in the buffer touches nothing that was safe before.
    buffer_kept : (a : ℕ) → is_safe s.heap a ≡ true → m' a ≡ s.memory a
    buffer_kept a safe =
        copied.others a (elim (Fresh-apart s s₁ p 256 a buffer safe) [
          | inl low ↦ inl (omega arith)
          | inr high ↦ inr (omega (arith, copied.count, length-word cs))
        ])
        ∙ buffer.kept a safe

    -- The rest of the path on any heap that keeps safe what was safe.
    rest_text :
        (g : Heap)
        → ((a : ℕ) → is_safe s.heap a ≡ true → is_safe g a ≡ true)
        → IsText (record { heap = g; memory = m' }) (next_at m' path') (behind cs)
    rest_text g keep = record {
      spells = copied.rest;
      safe = λ k h.
          let at : path + (next_at m' path' - path + k) ≡ next_at m' path' + k =
            omega (arith, copied.ahead) in
          sym (ap (is_safe g) at)
          ∙ keep (path + (next_at m' path' - path + k))
              (t.safe (next_at m' path' - path + k) (omega (arith, copied.ahead, copied.reach)));
    }

    word_text : IsText (record { heap = s₁.heap; memory = m' }) p (word cs)
    word_text = record {
      spells =
          Starts-Spells m' p (word cs)
            (subst (λ q. Starts m' q (word cs)) (omega arith) copied.letters)
            (copied.others (p + length (word cs)) (inr (omega (arith, copied.count)))
              ∙ buffer.zeroed (length (word cs)) (omega (arith, length-word cs)));
      safe = λ k h. buffer.page k (omega (arith, length-word cs));
    }

    extends :
        (g : Heap)
        → IsUsable g
        → ((a : ℕ) → is_safe s.heap a ≡ true → is_safe g a ≡ true)
        → Extends s (record { heap = g; memory = m' })
    extends g usable keep = record {
      usable = usable;
      kept_safe = keep;
      kept = λ a safe. buffer_kept a safe;
    }

    finish :
        (result : ℕ) × (path'' : ℕ) × (s' : Store) × (finish_part p (path', n, m') s₁.heap
          ≡ some (result, path'', s'))
        × Extracted s s' result path'' cs
    unfolding finish_part kfree
    finish = elim (Bool-cases (n == 0)) [
      | inl e ↦
          let g = buffer.undo.heap in
          let keep = buffer.undo.kept_safe in
          (
            0,
            next_at m' path',
            record { heap = g; memory = m' },
            rw (e, buffer.undo.released, finish_part) refl,
            record {
              extends = extends g buffer.undo.usable keep;
              rest = rest_text g keep;
              part = inl (no_letters (word cs) (ground (arith, copied.count)), refl);
            },
          )
      | inr e ↦ (
        p,
        next_at m' path',
        record { heap = s₁.heap; memory = m' },
        rw (e, finish_part) refl,
        record {
          extends = extends s₁.heap buffer.usable buffer.kept_safe;
          rest = rest_text s₁.heap buffer.kept_safe;
          part = inr (
            λ nil. some_letters n (ground arith) (copied.count ∙ ap (λ ws. 0 + length ws) nil),
            buffer.nonnull,
            word_text,
            buffer.room,
          );
        },
      )
    ]

pub extract-Extracted :
    (fuel path : ℕ) (cs : List ℕ) (s : Store)
    → IsUsable s.heap
    → 0 < free_blocks s.heap
    → IsText s path cs
    → length cs < 256
    → length cs < fuel
    → (result : ℕ) × (path' : ℕ) × (s' : Store) × (extract_next_path_part fuel path s
        ≡ some (result, path', s'))
      × Extracted s s' result path' cs
unfolding extract_next_path_part
extract-Extracted fuel path cs s u some_free t short f =
    let (p, s₁) = zalloc s 256 in
    let buffer = zalloc-Fresh s 256 u (omega arith) (omega arith) some_free in
    let (path', n, m', run, copied) = copy s s₁ p path cs t short buffer fuel f in
    let (result, path'', s', e, done) = finish s s₁ p path cs t short buffer path' n m' copied in
    (result, path'', s', rw (run, extract_next_path_part) e, done)
