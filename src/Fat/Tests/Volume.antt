-- ===== src/Fat/Tests/Volume.antt =====
-- The theorems on directories and fat16_resolve, at a volume with one file A.TXT.
use nuts_os.Base.{
  ℕ, zero, suc, ◌+◌, ◌-◌, ◌*◌, ◌<◌, ◌≡◌, ◌≢◌, ◌==◌, ◌&&◌, ◌||◌, if◌then◌else◌, ltb, leb, arith,
  refl, some, [], ◌∷◌,
}
use nuts_os.Memory.{literal}
use nuts_os.Text.{isspace, tolower}
use nuts_os.Disk.{Drive}
use nuts_os.Disk.Sector.{Holds, IsBytes, command_lba}
use nuts_os.Heap.Store.{Store, IsUsable, free_blocks, count_free}
use nuts_os.Fat.{FatPrivate, FatDirectory, FatDisk, has_subdirectory}
use nuts_os.Fat.Items.{items_at, get_total_items_for_directory}
use nuts_os.Fat.Items.Count.{EndsAt, used, get_total_items_for_directory_lem}
use nuts_os.Fat.Directory.{find_item_in_directory}
use nuts_os.Fat.Directory.Find.{made, first_named, find_item_in_directory_lem}
use nuts_os.Fat.Volume.{resolve}
use nuts_os.Fat.Volume.Geometry.{IsVolume, Resolved}
use nuts_os.Fat.Volume.Resolve.{resolve-Resolved}
use nuts_os.Fat.Tests.{disk}
use nuts_os.Fat.Files.{fat_open}
use nuts_os.Fat.Files.Opening.{Answer, fat_open-Answer}
use nuts_os.File.{mode_read}
use nuts_os.Path.{PathPart}
use nuts_os.Path.Buffer.{IsText}
use nuts_os.Base.{not, false, ap, bit_and, List}

-- One sector for each cluster, one reserved, one table, and 16 entries in the root directory.
abbrev boot : ℕ → ℕ
boot a =
    if a == 13 || a == 14 || a == 16 || a == 22
    then 1
    else if a == 17
    then 16
    else if a == 38
    then 0x29
    else 0

-- The item of A.TXT, which stands at byte 1024.
abbrev item_byte : ℕ → ℕ
item_byte i =
    if i == 0
    then b'A'
    else if ltb i 8
    then 32
    else if i == 9
    then b'X'
    else if i == 8 || i == 10
    then b'T'
    else if i == 26
    then 2
    else if i == 28
    then 100
    else 0

abbrev image : ℕ → ℕ
image a = if ltb a 512 then boot a else if leb 1024 a && ltb a 1056 then item_byte (a - 1024) else 0

abbrev drive : Drive
drive c i = image (command_lba c * 512 + 2 * i) + 256 * image (command_lba c * 512 + 2 * i + 1)

drive-Holds : Holds drive image
drive-Holds c i one small = refl

image-IsBytes : IsBytes image
image-IsBytes a = ground arith

root-EndsAt : EndsAt image 1024 1
root-EndsAt = record { before = first; end = refl }
  where
    first : (j : ℕ) → j < 1 → image (1024 + 32 * j) ≢ 0
    first zero h = omega arith
    first (suc j) h = absurd (omega arith)

image-IsVolume : IsVolume image 1
image-IsVolume = record {
  signature = refl;
  clusters = omega arith;
  root_some = omega arith;
  root_small = omega arith;
  root_low = omega arith;
  ends = root-EndsAt;
  items_low = omega arith;
}

abbrev store : Store
store = record {
  heap = record { table = record { entries = λ _. 0; total = 8 }; saddr = 0x01000000 };
  memory =
      λ a. if leb 0x9000 a then literal (b'a' ∷ b'.' ∷ b't' ∷ b'x' ∷ b't' ∷ []) (a - 0x9000) else 0;
}

store-IsUsable : IsUsable store.heap
store-IsUsable = record { start = omega arith; fits = omega arith; small = omega arith }

eight : free_blocks store.heap ≡ 8
unfolding count_free
eight = refl

resolve-Resolved_example :
    (private : FatPrivate) × (s' : Store) × (resolve 2 drive 0 512 store
      ≡ some (0, some private, s'))
    × Resolved image 1 private s'.memory
resolve-Resolved_example =
    resolve-Resolved drive image 1 2 store drive-Holds image-IsBytes image-IsVolume (omega arith)
      store-IsUsable (omega (arith, eight))

get_total_items_for_directory_lem_example :
    get_total_items_for_directory 2 drive disk 2 ≡ some (used image 1024 1)
get_total_items_for_directory_lem_example =
    get_total_items_for_directory_lem drive image drive-Holds image-IsBytes disk 0 2 2 1 refl
      (omega arith) root-EndsAt (omega arith)

abbrev root : FatDirectory
root = record {
  addr = 0x2000;
  items_addr = 0x3000;
  item = items_at image 1024;
  total = 1;
  sector_pos = 2;
  ending_sector_pos = 3;
}

-- The name is asked for in small letters.
found : first_named root.item 1 0 (b'a' ∷ b'.' ∷ b't' ∷ b'x' ∷ b't' ∷ []) ≡ some 0
unfolding isspace tolower
found = refl

find_item_in_directory_lem_example :
    find_item_in_directory 2 drive disk root 0x9000 store
    ≡ made 2 drive disk root.item
        (first_named root.item 1 0 (b'a' ∷ b'.' ∷ b't' ∷ b'x' ∷ b't' ∷ []))
        store
find_item_in_directory_lem_example =
    find_item_in_directory_lem 2 drive disk root 0x9000 store
      (b'a' ∷ b'.' ∷ b't' ∷ b'x' ∷ b't' ∷ []) (omega arith) refl

-- The disk with the root directory, whose path 0x8000 is the name.
abbrev rooted : FatDisk
rooted = record disk { fs_private = record (disk.fs_private) { root_directory = root } }

abbrev part_at : ℕ → PathPart
part_at _ = record { part = 0x9000; next = 0 }

abbrev name : List ℕ
name = b'a' ∷ b'.' ∷ b't' ∷ b'x' ∷ b't' ∷ []

name-IsText : IsText store 0x9000 name
name-IsText = record { spells = omega arith; safe = λ k h. ground arith }

no_directory : (i : ℕ) → has_subdirectory (root.item i) ≡ false
no_directory i =
    let plain : image (1024 + 32 * i + 11) ≡ 0 = ground arith in
    ap (λ x. not (bit_and x 0x10 == 0)) plain

fat_open-Answer_example :
    Answer root.item
      (first_named root.item 1 0 name)
      (fat_open 1 drive rooted part_at 0x8000 mode_read store)
fat_open-Answer_example =
    fat_open-Answer 0 drive rooted part_at 0x8000 store name store-IsUsable (omega (arith, eight))
      name-IsText refl refl (λ i e. no_directory i)
