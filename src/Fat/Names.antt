-- ===== src/Fat/Names.antt =====
-- fat16.c: the name of a directory's item, put together from its padded name and extension.
use mathlib.Core.Path.{subst}
use nuts_os.Base.{
  ℕ, zero, suc, ◌+◌, ◌-◌, ◌%◌, ◌^◌, ◌<◌, ◌≤◌, ◌≡◌, ◌≢◌, ◌⊎◌, ◌==◌, Bool, true, false, ◌||◌, List,
  [], ◌∷◌, ◌++◌, update, arith, refl, length, length-append, Bool-cases, inl, inr, ◌∙◌,
  if◌then◌else◌,
}
use nuts_os.Memory.{Mem}
use nuts_os.Text.{isspace}
use nuts_os.Path.Parts.{Spells}
use nuts_os.Path.Extract.{Starts, Starts-Spells}
use nuts_os.Fat.{FatDirectoryItem, has_subdirectory}

-- `--` on an int.
abbrev pub dec : ℕ → ℕ
dec max_len = (max_len + 2 ^ 32 - 1) % 2 ^ 32

-- Where a name or an extension ends.
abbrev pub ends : ℕ → Bool
ends c = c == 0 || isspace c

-- One of the two loops, with its rounds left: the end of what is written, what is left of `max_len`
-- and memory.
unfoldable pub copy_name : (ℕ → ℕ) → ℕ → ℕ → ℕ → ℕ → Mem → ℕ × ℕ × Mem
copy_name chars zero i out max_len m = (out, max_len, m)
copy_name chars (suc left) i out max_len m = elim (max_len == 0 || ends (chars i)) [
  | true ↦ (out, max_len, m)
  | false ↦ copy_name chars left (i + 1) (out + 1) (dec max_len) (update m out (chars i))
]

-- Where the separator finds no room, no terminator is written.
unfoldable pub add_extension : FatDirectoryItem → ℕ → ℕ → Mem → Mem
unfolding copy_name
add_extension item out max_len m =
    if dec max_len == 0
    then m
    else let (out', _, m') = copy_name item.ext 3 0 (out + 1) (dec max_len) (update m out b'.') in
      update m' out' 0

unfoldable pub get_full_filename : FatDirectoryItem → ℕ → ℕ → Mem → Mem
unfolding copy_name add_extension
get_full_filename item out max_len m =
    let (out', max_len', m') = copy_name item.filename 8 0 out (dec max_len) m in
    if has_subdirectory item then update m' out' 0 else add_extension item out' max_len' m'

-- The characters before the padding.
abbrev pub unpadded : (ℕ → ℕ) → ℕ → ℕ → List ℕ
unpadded chars zero i = []
unpadded chars (suc left) i = if ends (chars i) then [] else chars i ∷ unpadded chars left (i + 1)

-- The name of an item: a file's has a dot, also where its extension is empty.
abbrev pub full_name : FatDirectoryItem → List ℕ
full_name item =
    if has_subdirectory item
    then unpadded item.filename 8 0
    else unpadded item.filename 8 0 ++ b'.' ∷ unpadded item.ext 3 0

pub length-unpadded : (chars : ℕ → ℕ) (left i : ℕ) → length (unpadded chars left i) ≤ left
length-unpadded chars zero i = omega arith
length-unpadded chars (suc left) i = ground (arith, length-unpadded chars left (i + 1))

-- What a loop leaves: the characters at `out`, and nothing else changed.
record Wrote (m m' : Mem) (out : ℕ) (cs : List ℕ) : Type 0 where
  letters : Starts m' out cs
  others : (a : ℕ) → (a < out) ⊎ (out + length cs ≤ a) → m' a ≡ m a

one_letter_more :
    (m m' : Mem) (out c : ℕ) (cs : List ℕ)
    → c ≢ 0
    → Wrote (update m out c) m' (out + 1) cs
    → Wrote m m' out (c ∷ cs)
one_letter_more m m' out c cs ne w = record {
  letters = (w.others out (inl (omega arith)) ∙ ground arith, ne, w.letters);
  others = λ a h. elim h [
    | inl low ↦ w.others a (inl (omega arith)) ∙ ground arith
    | inr high ↦ w.others a (inr (omega arith)) ∙ ground arith
  ];
}

copy_name-Wrote :
    (chars : ℕ → ℕ) (left i out max_len : ℕ) (m : Mem)
    → left ≤ max_len
    → max_len < 2 ^ 32
    → (m' : Mem) × (copy_name chars left i out max_len m
        ≡ (out + length (unpadded chars left i), max_len - length (unpadded chars left i), m'))
      × Wrote m m' out (unpadded chars left i)
unfolding copy_name
copy_name-Wrote chars zero i out max_len m room small =
    (m, ground arith, record { letters = tt; others = λ a h. refl })
copy_name-Wrote chars (suc left) i out max_len m room small = elim (Bool-cases (ends (chars i))) [
  | inl e ↦ rw e (m, ground arith, record { letters = tt; others = λ a h. refl })
  | inr e ↦
      let m₁ = update m out (chars i) in
      let (m', run, w) =
        copy_name-Wrote chars left (i + 1) (out + 1) (dec max_len) m₁ (omega arith) (omega arith) in
      rw e (
        m',
        ground (arith, run),
        one_letter_more m m' out (chars i) (unpadded chars left (i + 1)) (ground arith) w,
      )
]

Starts-append :
    (m : Mem) (p : ℕ) (xs ys : List ℕ)
    → Starts m p xs
    → Starts m (p + length xs) ys
    → Starts m p (xs ++ ys)
Starts-append m p [] ys s t = subst (λ q. Starts m q ys) (omega arith) t
Starts-append m p (x ∷ xs) ys (e, ne, s) t =
    (e, ne, Starts-append m (p + 1) xs ys s (subst (λ q. Starts m q ys) (omega arith) t))

Starts-kept :
    (m m' : Mem) (p : ℕ) (xs : List ℕ)
    → ((a : ℕ) → a < p + length xs → m' a ≡ m a)
    → Starts m p xs
    → Starts m' p xs
Starts-kept m m' p [] same s = tt
Starts-kept m m' p (x ∷ xs) same (e, ne, s) =
    (same p (omega arith) ∙ e, ne, Starts-kept m m' (p + 1) xs (λ a h. same a (omega arith)) s)

-- The terminator behind what is written.
abbrev pub NamedAt : Mem → Mem → ℕ → List ℕ → Type 0
NamedAt m m' out cs = Spells m' out cs × ((a : ℕ) → (a < out) ⊎ (out + length cs < a) → m' a ≡ m a)

terminated :
    (m m' : Mem) (out : ℕ) (cs : List ℕ)
    → Wrote m m' out cs
    → NamedAt m (update m' (out + length cs) 0) out cs
terminated m m' out cs w = (
  Starts-Spells (update m' (out + length cs) 0) out cs
      (Starts-kept m' (update m' (out + length cs) 0) out cs (λ a h. ground arith) w.letters)
      (ground arith),
  λ a h. elim h [
    | inl low ↦ ground (arith, w.others a (inl (omega arith)))
    | inr high ↦ ground (arith, w.others a (inr (omega arith)))
  ],
)

append_name :
    (m m₁ m₂ : Mem) (out : ℕ) (xs ys : List ℕ)
    → Wrote m m₁ out xs
    → Wrote m₁ m₂ (out + length xs) ys
    → Wrote m m₂ out (xs ++ ys)
append_name m m₁ m₂ out xs ys w v = record {
  letters =
      Starts-append m₂ out xs ys (Starts-kept m₁ m₂ out xs (λ a h. v.others a (inl h)) w.letters)
        v.letters;
  others = λ a h. elim h [
    | inl low ↦ v.others a (inl (omega arith)) ∙ w.others a (inl low)
    | inr high ↦
        v.others a (inr (omega (arith, length-append xs ys)))
        ∙ w.others a (inr (omega (arith, length-append xs ys)))
  ];
}

room_left :
    (n max_len : ℕ) → n ≤ 8 → 13 ≤ max_len → max_len < 2 ^ 32 → (dec (dec max_len - n) == 0) ≡ false
room_left n max_len short room small =
    let left : 4 ≤ dec max_len - n = omega arith in
    let high : dec max_len - n < 2 ^ 32 = omega arith in not_last (dec max_len - n) left high
  where
    not_last : (k : ℕ) → 4 ≤ k → k < 2 ^ 32 → (dec k == 0) ≡ false
    not_last k left high = let more : 0 < dec k = omega arith in ground arith

-- fat16_get_full_filename into a buffer of at least 13 bytes, for a directory: its name up to the
-- padding, with a terminator. For a file: its name up to the padding, a dot and its extension up to
-- the padding, with a terminator. No other byte is changed.
pub get_full_filename_lem :
    (item : FatDirectoryItem) (out max_len : ℕ) (m : Mem)
    → 13 ≤ max_len
    → max_len < 2 ^ 32
    → NamedAt m (get_full_filename item out max_len m) out (full_name item)
unfolding get_full_filename add_extension
get_full_filename_lem item out max_len m room small =
    let name = unpadded item.filename 8 0 in
    let ext = unpadded item.ext 3 0 in
    let short = length-unpadded item.filename 8 0 in
    let (m₁, run, w) =
      copy_name-Wrote item.filename 8 0 out (dec max_len) m (omega arith) (omega arith) in
    let end = out + length name in
    let left = dec max_len - length name in
    elim (Bool-cases (has_subdirectory item)) [
      | inl e ↦ rw (run, e) (terminated m m₁ out name w)
      | inr e ↦
          let dotted = update m₁ end b'.' in
          let (m₂, run', v) =
            copy_name-Wrote item.ext 3 0 (end + 1) (dec left) dotted (omega arith) (omega arith) in
          let more = room_left (length name) max_len short room small in
          let at : end + 1 + length ext ≡ out + length (name ++ b'.' ∷ ext) =
            omega (arith, length-append name (b'.' ∷ ext)) in
          rw (run, e, more, run', at)
            (terminated m m₂ out (name ++ b'.' ∷ ext) (
              append_name m m₁ m₂ out name (b'.' ∷ ext) w
                (one_letter_more m₁ m₂ end b'.' ext (omega arith) v)))
    ]
