-- ===== src/Fat/Tests/Files.antt =====
-- The theorems on open files, at a file of 1200 bytes in the clusters 2, 3 and 4.
use nuts_os.Base.{
  ℕ, zero, suc, ◌+◌, ◌-◌, ◌*◌, ◌/◌, ◌<◌, ◌≡◌, ◌≤◌, ◌==◌, if◌then◌else◌, ◌^◌, [], ◌∷◌, arith, refl,
  some,
}
use nuts_os.Memory.{Mem}
use nuts_os.Text.{isspace}
use nuts_os.Disk.Stream.{Loaded}
use nuts_os.Fat.{FatDirectoryItem}
use nuts_os.Fat.Clusters.{cluster_to_sector}
use nuts_os.Fat.Clusters.Entries.{follow}
use nuts_os.Fat.Clusters.Rounds.{base}
use nuts_os.Fat.Names.{NamedAt, full_name, get_full_filename, get_full_filename_lem}
use nuts_os.Fat.Files.{FatFileDescriptor, fat_read, fat_seek}
use nuts_os.Fat.Files.Reading.{IsChain, file_byte, fitting, fat_read_lem}
use nuts_os.Fat.Files.Position.{Sought, open_file, wanted, fat_seek-Sought}
use nuts_os.File.{seek_cur}
use nuts_os.Fat.Tests.{image, drive, drive-Holds, image-IsBytes, disk, disk-IsMounted}

-- A.TXT, read-only.
abbrev item : FatDirectoryItem
item = record {
  filename = λ i. if i == 0 then b'A' else 32;
  ext = λ i. if i == 1 then b'X' else b'T';
  attribute = 1;
  low_16_bits_first_cluster = 2;
  filesize = 1200;
}

a_txt : full_name item ≡ b'A' ∷ b'.' ∷ b'T' ∷ b'X' ∷ b'T' ∷ []
unfolding isspace
a_txt = refl

get_full_filename_lem_example :
    NamedAt (λ _. 7) (get_full_filename item 100 13 (λ _. 7)) 100 (full_name item)
get_full_filename_lem_example =
    get_full_filename_lem item 100 13 (λ _. 7) (omega arith) (omega arith)

abbrev chain : ℕ → ℕ
chain j = if j == 0 then 2 else if j == 1 then 3 else 4

reached : (j : ℕ) → j < 3 → follow image disk j 2 ≡ some (chain j)
reached zero h = refl
reached (suc zero) h = refl
reached (suc (suc zero)) h = refl
reached (suc (suc (suc j))) h = absurd (omega arith)

low : (c : ℕ) → 2 ≤ c → c < 5 → base disk c + 512 < 2 ^ 31
unfolding cluster_to_sector
low c h h' = omega arith

item-IsChain : IsChain image disk item chain
item-IsChain = record {
  small = omega arith;
  reach = λ o h. reached (o / 512) (omega arith);
  word = λ j. ground arith;
  inside = λ j. low (chain j) (ground arith) (ground arith);
}

abbrev desc : FatFileDescriptor
desc = open_file 0x2000 0x3000 0x4000 item 256

-- Three of the four elements of 256 bytes that are asked for stand behind position 256.
fat_read_lem_example :
    (m' : Mem) × (fat_read 1 drive disk desc 256 4 4096 (λ _. 7)
      ≡ some (fitting (1200 - 256) 256 4, m'))
    × Loaded (file_byte image disk chain) 256 4096 (fitting (1200 - 256) 256 4 * 256) (λ _. 7) m'
fat_read_lem_example =
    fat_read_lem drive image disk desc item chain 0 256 4 4096 (λ _. 7) drive-Holds image-IsBytes
      disk-IsMounted refl item-IsChain (omega arith) (omega arith) (omega arith) (omega arith)
      (omega arith) (λ j h. omega arith)

fat_seek-Sought_example :
    (res : ℕ) × (desc' : FatFileDescriptor) × (fat_seek desc 1000 seek_cur ≡ some (res, desc'))
    × Sought desc desc' item res (wanted desc 1000 seek_cur)
fat_seek-Sought_example = fat_seek-Sought 0x2000 0x3000 0x4000 256 item 1000 seek_cur (omega arith)
