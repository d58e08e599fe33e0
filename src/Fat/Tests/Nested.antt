-- ===== src/Fat/Tests/Nested.antt =====
-- The theorem on opening a file of a directory, at a volume with the file BIN/A.TXT.
use nuts_os.Base.{ℕ, ◌+◌, ◌-◌, ◌*◌, ◌==◌, ◌&&◌, ◌||◌, if◌then◌else◌, ltb, leb, [], ◌∷◌, List}
use nuts_os.Memory.{literal}
use nuts_os.Disk.{Drive}
use nuts_os.Disk.Sector.{command_lba}
use nuts_os.Heap.Store.{Store}
use nuts_os.Fat.{FatDirectory, FatDisk}
use nuts_os.Fat.Items.{items_at}
use nuts_os.Fat.Tests.{disk}
use nuts_os.Path.{PathPart}

-- The item of BIN, a directory in cluster 2.
abbrev bin_byte : ℕ → ℕ
bin_byte i =
    if i == 0
    then b'B'
    else if i == 1
    then b'I'
    else if i == 2
    then b'N'
    else if ltb i 11
    then 32
    else if i == 11
    then 0x10
    else if i == 26
    then 2
    else 0

-- The item of A.TXT.
abbrev item_byte : ℕ → ℕ
item_byte i =
    if i == 0
    then b'A'
    else if ltb i 8
    then 32
    else if i == 9
    then b'X'
    else if i == 8 || i == 10
    then b'T'
    else if i == 26
    then 3
    else if i == 28
    then 100
    else 0

-- The root directory at byte 1024, and cluster 2 at byte 1536.
abbrev image : ℕ → ℕ
image a =
    if leb 1024 a && ltb a 1056
    then bin_byte (a - 1024)
    else if leb 1536 a && ltb a 1568
    then item_byte (a - 1536)
    else 0

abbrev drive : Drive
drive c i = image (command_lba c * 512 + 2 * i) + 256 * image (command_lba c * 512 + 2 * i + 1)

abbrev root : FatDirectory
root = record {
  addr = 0x2000;
  items_addr = 0x3000;
  item = items_at image 1024;
  total = 1;
  sector_pos = 2;
  ending_sector_pos = 3;
}

abbrev rooted : FatDisk
rooted = record disk { fs_private = record (disk.fs_private) { root_directory = root } }

abbrev bin : List ℕ
bin = b'b' ∷ b'i' ∷ b'n' ∷ []

abbrev name : List ℕ
name = b'a' ∷ b'.' ∷ b't' ∷ b'x' ∷ b't' ∷ []

abbrev store : Store
store = record {
  heap = record { table = record { entries = λ _. 0; total = 8 }; saddr = 0x01000000 };
  memory = λ a.
      if leb 0x9100 a
      then literal bin (a - 0x9100)
      else if leb 0x9000 a
      then literal name (a - 0x9000)
      else 0;
}

-- The path bin/a.txt.
abbrev part_at : ℕ → PathPart
part_at p =
    if p == 0x8000
    then record { part = 0x9100; next = 0x8100 }
    else record { part = 0x9000; next = 0 }
