-- ===== src/Disk/Sector.antt =====
-- disk_read_sector: which sector the drive is asked for, and what arrives.
use nuts_os.Base.{ℕ, ◌+◌, ◌*◌, ◌/◌, ◌%◌, ◌^◌, ◌<◌, ◌≡◌, ◌==◌, arith, true, refl, bit_or, ==→eq}
use nuts_os.Base.Bits.{passes_below, passes_below-lt, bit_and_mod}
use nuts_os.Disk.{Drive, AtaCommand, ata_command, read_sector}

-- The sector that a command of LBA28 names: the head register holds its top four bits.
abbrev pub command_lba : AtaCommand → ℕ
command_lba c = c.drive_head % 16 * 2 ^ 24 + c.lba_high * 2 ^ 16 + c.lba_mid * 2 ^ 8 + c.lba_low

-- A drive that holds the bytes of `image`, as the ATA standard has it: the words of a command for
-- one sector are the sector's bytes in pairs, low byte first.
abbrev pub Holds : Drive → (ℕ → ℕ) → Type 0
Holds drive image =
    (c : AtaCommand) (i : ℕ)
    → c.count ≡ 1
    → i < 256
    → drive c i
      ≡ image (command_lba c * 512 + 2 * i) + 256 * image (command_lba c * 512 + 2 * i + 1)

abbrev pub IsBytes : (ℕ → ℕ) → Type 0
IsBytes image = (a : ℕ) → image a < 256

head_table : passes_below (λ x. bit_or x 0xe0 % 256 % 16 == x) 16 ≡ true
unfolding passes_below
head_table = refl

-- The five registers name the sector asked for, for every sector of LBA28.
pub command_lba-ata_command :
    (lba total : ℕ) → lba < 2 ^ 28 → command_lba (ata_command lba total) ≡ lba
unfolding ata_command
command_lba-ata_command lba total small = omega (
  arith,
  bit_and_mod 8 lba,
  ==→eq (bit_or (lba / 2 ^ 24) 0xe0 % 256 % 16) (lba / 2 ^ 24) (
      passes_below-lt (λ x. bit_or x 0xe0 % 256 % 16 == x) 16 (lba / 2 ^ 24) (omega arith)
        head_table),
)

word_lem :
    (drive : Drive) (image : ℕ → ℕ) (lba w : ℕ)
    → Holds drive image
    → lba < 2 ^ 28
    → w < 256
    → drive (ata_command lba 1) w ≡ image (lba * 512 + 2 * w) + 256 * image (lba * 512 + 2 * w + 1)
word_lem drive image lba w holds small inside =
    rw (command_lba-ata_command lba 1 small) at
      (holds (ata_command lba 1) w (unfold ata_command in refl) inside)

-- Reading one sector, of a number below 2^28, of a drive that holds `image`, whose values are
-- bytes, puts the sector's 512 bytes into the buffer.
pub read_sector_lem :
    (drive : Drive) (image : ℕ → ℕ) (lba i : ℕ)
    → Holds drive image
    → IsBytes image
    → lba < 2 ^ 28
    → i < 512
    → read_sector drive lba 1 i ≡ image (lba * 512 + i)
unfolding read_sector
read_sector_lem drive image lba i holds bytes small inside = ground (
  arith,
  word_lem drive image lba (i / 2) holds small (omega arith),
  bytes (lba * 512 + 2 * (i / 2)),
  bytes (lba * 512 + 2 * (i / 2) + 1),
)
