-- ===== src/Disk.antt =====
-- disk/disk.c and disk/stream.c: sectors of 512 bytes from an ATA drive, and reads at any position.
pub mod Sector
pub mod Stream
pub mod Search
mod Tests
use nuts_os.Base.{
  ℕ, zero, suc, ◌+◌, ◌-◌, ◌*◌, ◌/◌, ◌%◌, ◌^◌, Bool, true, false, not, ◌&&◌, Option, none, some, ltb,
  ◌==◌, if◌then◌else◌, update, bit_and, bit_or, Errno, eio, Result, ok, err,
}
use nuts_os.Memory.{Mem}

abbrev pub sector_size : ℕ
sector_size = 512

-- The bytes that disk_read_sector sends to the drive's ports 0x1F6 and 0x1F2 to 0x1F5, before the
-- command 0x20, which reads sectors.
pub record AtaCommand : Type 0 where
  pub drive_head : ℕ
  pub count : ℕ
  pub lba_low : ℕ
  pub lba_mid : ℕ
  pub lba_high : ℕ

-- outb sends a byte.
unfoldable pub ata_command : ℕ → ℕ → AtaCommand
ata_command lba total = record {
  drive_head = bit_or (lba / 2 ^ 24) 0xe0 % 256;
  count = total % 256;
  lba_low = bit_and lba 0xff;
  lba_mid = lba / 2 ^ 8 % 256;
  lba_high = lba / 2 ^ 16 % 256;
}

-- A drive answers a command with words of 16 bits on port 0x1F0. That it gets ready is not
-- modelled: the loop that polls port 0x1F7 ends at once.
abbrev pub Drive : Type 0
Drive = AtaCommand → ℕ → ℕ

-- The words come into the buffer with the low byte first.
unfoldable pub read_sector : Drive → ℕ → ℕ → ℕ → ℕ
read_sector drive lba total i =
    let word = drive (ata_command lba total) (i / 2) in
    if i % 2 == 0 then word % 256 else word / 256 % 256

-- The address of the one disk.
abbrev pub the_disk : ℕ
the_disk = 1

-- 0 is the null pointer.
unfoldable pub disk_get : ℕ → ℕ
disk_get index = if not (index == 0) then 0 else the_disk

-- What a read of blocks leaves in the buffer.
unfoldable pub read_block : Drive → ℕ → ℕ → ℕ → Result (ℕ → ℕ)
read_block drive idisk lba total =
    if not (idisk == the_disk) then err eio else ok (read_sector drive lba total)

-- A position is an int: its 32-bit word, from 2^31 on negative.
pub record DiskStream : Type 0 where
  pub pos : ℕ
  pub disk : ℕ

-- `none` is a null pointer: there is no such disk.
unfoldable pub stream_new : ℕ → Option DiskStream
stream_new disk_id =
    let disk = disk_get disk_id in
    if disk == 0 then none else some (record { pos = 0; disk = disk })

unfoldable pub seek : DiskStream → ℕ → DiskStream
seek stream pos = record stream { pos = pos }

-- The inner loop: `read` bytes of the buffer from `offset` on go to `out`. Beyond the buffer's 512
-- bytes, `buf` is what stands beside it.
unfoldable pub copy_out : (ℕ → ℕ) → ℕ → ℕ → ℕ → Mem → Mem
copy_out buf offset zero out m = m
copy_out buf offset (suc read) out m =
    copy_out buf ((offset + 1) % 2 ^ 32) read (out + 1) (update m out (buf offset))

-- The quotient and the remainder of an int by the size of a sector, which C rounds toward 0: from
-- 2 GiB on both are negative.
unfoldable pub sector_of : ℕ → ℕ
sector_of pos =
    if ltb pos (2 ^ 31) then pos / sector_size else (2 ^ 32 - (2 ^ 32 - pos) / sector_size) % 2 ^ 32

unfoldable pub offset_of : ℕ → ℕ
offset_of pos =
    if ltb pos (2 ^ 31) then pos % sector_size else (2 ^ 32 - (2 ^ 32 - pos) % sector_size) % 2 ^ 32

-- With a negative offset more than a sector counts as readable; a negative rest is below it.
unfoldable pub chunk : ℕ → ℕ → ℕ
chunk pos remaining =
    let readable_in_sector =
      if ltb pos (2 ^ 31)
      then sector_size - pos % sector_size
      else sector_size + (2 ^ 32 - pos) % sector_size in
    if ltb remaining (2 ^ 31) && ltb readable_in_sector remaining
    then readable_in_sector
    else remaining

-- The rounds of the inner loop, for an int.
unfoldable pub rounds : ℕ → ℕ
rounds read = if ltb read (2 ^ 31) then read else 0

-- One round reads what a sector still holds. The position gives the sector and the offset.
unfoldable pub read_loop :
    Drive → ℕ → DiskStream → ℕ → ℕ → Mem → Option (Result (Unit {0}) × DiskStream × Mem)
read_loop drive zero stream out remaining m = none
read_loop drive (suc fuel) stream out remaining m =
    elim (read_block drive stream.disk (sector_of stream.pos) 1) [
      | err e ↦ some (err e, stream, m)
      | ok buf ↦
          let total_to_read = chunk stream.pos remaining in
          let m' = copy_out buf (offset_of stream.pos) (rounds total_to_read) out m in
          let stream' = record stream { pos = (stream.pos + total_to_read) % 2 ^ 32 } in
          elim (ltb 0 (remaining - total_to_read)) [
            | false ↦ some (ok tt, stream', m')
            | true ↦
                read_loop drive fuel stream' (out + total_to_read) (remaining - total_to_read) m'
          ]
    ]

-- Each round but the last reads at least one byte.
unfoldable pub read :
    Drive → DiskStream → ℕ → ℕ → Mem → Option (Result (Unit {0}) × DiskStream × Mem)
read drive stream out total m = read_loop drive (total + 1) stream out total m
