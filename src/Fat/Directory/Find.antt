-- ===== src/Fat/Directory/Find.antt =====
-- fat16_find_item_in_directory: the first item with the name, whatever the case of its letters.
use nuts_os.Base.{
  ℕ, zero, suc, ◌+◌, ◌<◌, ◌≤◌, ◌≡◌, ◌==◌, ◌&&◌, Bool, true, false, List, [], ◌∷◌, Option, none,
  some, if◌then◌else◌, arith, Bool-cases, inl, inr, refl, length, length-append,
}
use nuts_os.Base.Int.{is_zero}
use nuts_os.Memory.{Mem}
use nuts_os.Text.{compare_loop, istrncmp, tolower}
use nuts_os.Heap.Store.{Store}
use nuts_os.Disk.{Drive}
use nuts_os.Path.Parts.{Spells}
use nuts_os.Fat.{FatDirectoryItem, FatDirectory, FatItem, FatDisk, is_err}
use nuts_os.Fat.Names.{
  full_name, unpadded, length-unpadded, get_full_filename, get_full_filename_lem,
}
use nuts_os.Fat.Items.{new_fat_item}
use nuts_os.Fat.Directory.{is_named, find_loop, find_item_in_directory}

-- Whether two names are equal but for the case of their letters.
abbrev pub same_letters : List ℕ → List ℕ → Bool
same_letters [] [] = true
same_letters [] (y ∷ ys) = false
same_letters (x ∷ xs) [] = false
same_letters (x ∷ xs) (y ∷ ys) = (tolower x == tolower y) && same_letters xs ys

-- The first of `left` items, from the `i`-th on, that has the name.
abbrev pub first_named : (ℕ → FatDirectoryItem) → ℕ → ℕ → List ℕ → Option ℕ
first_named items zero i cs = none
first_named items (suc left) i cs =
    if same_letters (full_name (items i)) cs then some i else first_named items left (i + 1) cs

tolower-zero : (c : ℕ) → (tolower c ≡ 0) → c ≡ 0
unfolding tolower
tolower-zero c e = ground arith

tolower_zero : tolower 0 ≡ 0
unfolding tolower
tolower_zero = refl

istrncmp-same_letters :
    (m₁ m₂ : Mem) (s1 s2 n : ℕ) (xs ys : List ℕ)
    → Spells m₁ s1 xs
    → Spells m₂ s2 ys
    → length xs < n
    → is_zero (compare_loop tolower m₁ m₂ s1 s2 n) ≡ same_letters xs ys
unfolding compare_loop
istrncmp-same_letters m₁ m₂ s1 s2 zero xs ys s t f = absurd (omega arith)
istrncmp-same_letters m₁ m₂ s1 s2 (suc n) [] [] s t f = ground (arith, tolower_zero)
istrncmp-same_letters m₁ m₂ s1 s2 (suc n) [] (y ∷ ys) s (e, ne, t) f =
    ground (arith, tolower_zero, tolower-zero y)
istrncmp-same_letters m₁ m₂ s1 s2 (suc n) (x ∷ xs) [] (e, ne, s) t f =
    ground (arith, tolower_zero, tolower-zero x)
istrncmp-same_letters m₁ m₂ s1 s2 (suc n) (x ∷ xs) (y ∷ ys) (e, ne, s) (e', ne', t) f =
    ground (arith, istrncmp-same_letters m₁ m₂ (s1 + 1) (s2 + 1) n xs ys s t)

length-full_name : (item : FatDirectoryItem) → length (full_name item) ≤ 12
length-full_name item = ground (
  arith,
  length-unpadded item.filename 8 0,
  length-unpadded item.ext 3 0,
  length-append (unpadded item.filename 8 0) (b'.' ∷ unpadded item.ext 3 0),
)

is_named-same_letters :
    (item : FatDirectoryItem) (m tmp : Mem) (name : ℕ) (cs : List ℕ)
    → Spells m name cs
    → is_named item m name tmp ≡ same_letters (full_name item) cs
unfolding is_named istrncmp
is_named-same_letters item m tmp name cs s =
    let (t, _) = get_full_filename_lem item 0 256 tmp (omega arith) (omega arith) in
    istrncmp-same_letters (get_full_filename item 0 256 tmp) m 0 name 256 (full_name item) cs t s
      (omega (arith, length-full_name item))

-- What the search comes to.
abbrev pub made :
    ℕ
    → Drive
    → FatDisk
    → (ℕ → FatDirectoryItem)
    → Option ℕ
    → Store
    → Option (Option FatItem × Store)
made fuel drive disk items none s = some (none, s)
made fuel drive disk items (some i) s = new_fat_item fuel drive disk (items i) s

find_loop-first_named :
    (left fuel : ℕ) (drive : Drive) (disk : FatDisk) (items : ℕ → FatDirectoryItem) (i name : ℕ)
    (tmp : Mem) (s : Store) (cs : List ℕ)
    → Spells s.memory name cs
    → find_loop left fuel drive disk items i name tmp s
      ≡ made fuel drive disk items (first_named items left i cs) s
unfolding find_loop
find_loop-first_named zero fuel drive disk items i name tmp s cs t = refl
find_loop-first_named (suc left) fuel drive disk items i name tmp s cs t =
    let e = is_named-same_letters (items i) s.memory tmp name cs t in
    elim (Bool-cases (same_letters (full_name (items i)) cs)) [
      | inl found ↦ rw (e, found, find_loop) refl
      | inr other ↦
          rw (e, other, find_loop)
            (find_loop-first_named left fuel drive disk items (i + 1) name
              (get_full_filename (items i) 0 256 tmp) s cs t)
    ]

-- fat16_find_item_in_directory, for a name that stands in memory and a directory whose total is not
-- the word of an error: makes an item of the first one of
-- the directory whose full name is that name but for the case of letters, and returns null, with
-- the state as it was, where there is none.
pub find_item_in_directory_lem :
    (fuel : ℕ) (drive : Drive) (disk : FatDisk) (d : FatDirectory) (name : ℕ) (s : Store)
    (cs : List ℕ)
    → Spells s.memory name cs
    → is_err d.total ≡ false
    → find_item_in_directory fuel drive disk d name s
      ≡ made fuel drive disk d.item (first_named d.item d.total 0 cs) s
unfolding find_item_in_directory
find_item_in_directory_lem fuel drive disk d name s cs t fine =
    rw fine (find_loop-first_named d.total fuel drive disk d.item 0 name (λ _. 0) s cs t)
