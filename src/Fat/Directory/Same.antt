-- ===== src/Fat/Directory/Same.antt =====
-- The items of a directory in memory against those of the image that they were read from.
use nuts_os.Base.{ℕ, zero, suc, ◌+◌, ◌*◌, ◌<◌, ◌≡◌, some, List, arith, refl, ap, sym, ◌∙◌}
use nuts_os.Memory.{Mem}
use nuts_os.Fat.{FatDirectoryItem, has_subdirectory, le_16}
use nuts_os.Fat.Names.{full_name, unpadded}
use nuts_os.Fat.Items.{items_at}
use nuts_os.Fat.Directory.Find.{first_named}

-- The fields of an item, with the 11 characters of its name.
pub record Same (a b : FatDirectoryItem) : Type 0 where
  pub name : (i : ℕ) → i < 8 → a.filename i ≡ b.filename i
  pub ext : (i : ℕ) → i < 3 → a.ext i ≡ b.ext i
  pub attribute : a.attribute ≡ b.attribute
  pub cluster : a.low_16_bits_first_cluster ≡ b.low_16_bits_first_cluster
  pub filesize : a.filesize ≡ b.filesize

unpadded-same :
    (xs ys : ℕ → ℕ) (left i : ℕ)
    → ((j : ℕ) → j < i + left → xs j ≡ ys j)
    → unpadded xs left i ≡ unpadded ys left i
unpadded-same xs ys zero i same = refl
unpadded-same xs ys (suc left) i same =
    let rest = unpadded-same xs ys left (i + 1) (λ j h. same j (omega arith)) in
    rw (same i (omega arith), rest) refl

pub has_subdirectory-Same :
    (a b : FatDirectoryItem) → Same a b → has_subdirectory a ≡ has_subdirectory b
has_subdirectory-Same a b s = ap (λ x. has_subdirectory (record a { attribute = x })) s.attribute

full_name-Same : (a b : FatDirectoryItem) → Same a b → full_name a ≡ full_name b
full_name-Same a b s =
    rw
      (
        has_subdirectory-Same a b s,
        unpadded-same a.filename b.filename 8 0 (λ j h. s.name j (omega arith)),
        unpadded-same a.ext b.ext 3 0 (λ j h. s.ext j (omega arith)),
      )
      refl

pub first_named-Same :
    (xs ys : ℕ → FatDirectoryItem) (left i : ℕ) (cs : List ℕ)
    → ((j : ℕ) → j < i + left → Same (xs j) (ys j))
    → first_named xs left i cs ≡ first_named ys left i cs
first_named-Same xs ys zero i cs same = refl
first_named-Same xs ys (suc left) i cs same =
    let rest = first_named-Same xs ys left (i + 1) cs (λ j h. same j (omega arith)) in
    rw (full_name-Same (xs i) (ys i) (same i (omega arith)), rest) refl

pub first_named-lt :
    (xs : ℕ → FatDirectoryItem) (left i j : ℕ) (cs : List ℕ)
    → first_named xs left i cs ≡ some j
    → j < i + left
first_named-lt xs zero i j cs e = absurd (ground arith)
first_named-lt xs (suc left) i j cs e = ground (arith, first_named-lt xs left (i + 1) j cs)

-- Items whose bytes are those of the image.
pub items_at-Same :
    (m : Mem) (image : ℕ → ℕ) (p pos n : ℕ)
    → ((a : ℕ) → a < 32 * n → m (p + a) ≡ image (pos + a))
    → (i : ℕ) → i < n
    → Same (items_at m p i) (items_at image pos i)
items_at-Same m image p pos n bytes i h = record {
  name = λ j g. byte j (omega arith);
  ext = λ j g. ap m (omega arith) ∙ byte (8 + j) (omega arith) ∙ ap image (omega arith);
  attribute = byte 11 (omega arith);
  cluster = word 26 (p + 32 * i + 26) (pos + 32 * i + 26) refl refl (omega arith);
  filesize = omega (
    arith,
    word 28 (p + 32 * i + 28) (pos + 32 * i + 28) refl refl (omega arith),
    word 30 (p + 32 * i + 28 + 2) (pos + 32 * i + 28 + 2) (omega arith) (omega arith) (omega arith),
  );
}
  where
    byte : (j : ℕ) → j < 32 → m (p + 32 * i + j) ≡ image (pos + 32 * i + j)
    byte j g = ap m (omega arith) ∙ bytes (32 * i + j) (omega arith) ∙ ap image (omega arith)

    word :
        (j x y : ℕ)
        → x ≡ p + 32 * i + j
        → y ≡ pos + 32 * i + j
        → j + 1 < 32
        → le_16 m x ≡ le_16 image y
    word j x y e e' g =
        let low : m x ≡ image y = ap m e ∙ byte j (omega arith) ∙ ap image (sym e') in
        let high : m (x + 1) ≡ image (y + 1) =
          ap m (omega arith) ∙ byte (j + 1) (omega arith) ∙ ap image (omega arith) in
        omega (arith, low, high)
