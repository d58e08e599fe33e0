-- ===== src/Fat/Files.antt =====
-- fat16.c: open files. `none` is a lack of fuel, or a pointer that the code follows and that is
-- null or points to something else.
pub mod Reading
pub mod Position
pub mod Opening
pub mod Entering
pub mod Nested
use nuts_os.Base.{
  ℕ, zero, suc, ◌+◌, ◌-◌, ◌%◌, ◌^◌, ◌==◌, true, false, Option, none, some, if◌then◌else◌, ltb, leb,
  bit_and, bit_or, eio, einvarg, enomem, ereadonly,
}
use nuts_os.Memory.{Mem}
use nuts_os.Heap.Kernel.{kfree}
use nuts_os.Heap.Store.{Store, zalloc}
use nuts_os.Disk.{Drive}
use nuts_os.Path.{PathPart}
use nuts_os.File.{FileMode, mode_read, FileSeekMode, seek_set, seek_cur, seek_end}
use nuts_os.Fat.{FatItem, directory, file, FatDirectoryItem, FatDisk, neg, is_err}
use nuts_os.Fat.Items.{fat_item_free}
use nuts_os.Fat.Directory.{get_directory_entry}
use nuts_os.Fat.Clusters.{read_internal}

-- `addr` is the address of the structure.
pub record FatFileDescriptor : Type 0 where
  pub addr : ℕ
  pub item : FatItem
  pub pos : ℕ

-- What fat16_open returns: a descriptor, or an error code in its place.
pub data FatFilePtr : Type 0 where
  opened : FatFileDescriptor → FatFilePtr
  refused : ℕ → FatFilePtr

unfoldable pub fat_open :
    ℕ → Drive → FatDisk → (ℕ → PathPart) → ℕ → FileMode → Store → Option (FatFilePtr × Store)
fat_open fuel drive disk part_at path mode s = elim mode [
  | mode_read ↦
      let (p, s') = zalloc s 8 in
      if p == 0
      then some (refused (neg enomem), s')
      else elim (get_directory_entry fuel drive disk part_at path s') [
        | none ↦ none
        | some (none, s'') ↦ elim (kfree s''.heap p) [
          | none ↦ none
          | some h ↦ some (refused (neg eio), record s'' { heap = h })
        ]
        | some (some item, s'') ↦ some (opened (record { addr = p; item = item; pos = 0 }), s'')
      ]
  | _ ↦ some (refused (neg ereadonly), s)
]

-- The loop of fat16_read over the elements that are left; the result is how many were read.
unfoldable pub read_elements :
    ℕ → ℕ → Drive → FatDisk → FatDirectoryItem → ℕ → ℕ → ℕ → ℕ → Mem → Option (ℕ × Mem)
read_elements zero fuel drive disk item size offset out read m = some (read, m)
read_elements (suc nmemb) fuel drive disk item size offset out read m =
    elim (ltb ((item.filesize + 2 ^ 32 - offset) % 2 ^ 32) size) [
      | true ↦ some (read, m)
      | false ↦
          elim (read_internal fuel drive disk item.low_16_bits_first_cluster offset size out m) [
            | none ↦ none
            | some (res, m') ↦ elim (is_err res) [
              | true ↦ some (read, m')
              | false ↦
                  read_elements nmemb fuel drive disk item size ((offset + size) % 2 ^ 32)
                    ((out + size) % 2 ^ 32) (read + 1) m'
            ]
          ]
    ]

-- The item that a descriptor's pointer leads to; the type of the item is not tested.
abbrev pub file_item : FatFileDescriptor → Option FatDirectoryItem
file_item desc = elim desc.item [
  | directory _ _ ↦ none
  | file _ p item ↦ if p == 0 then none else some item
]

unfoldable pub fat_read :
    ℕ → Drive → FatDisk → FatFileDescriptor → ℕ → ℕ → ℕ → Mem → Option (ℕ × Mem)
unfolding read_elements
fat_read fuel drive disk desc size nmemb out m = elim (file_item desc) [
  | none ↦ none
  | some item ↦ read_elements nmemb fuel drive disk item size desc.pos out 0 m
]

-- The result and the descriptor, for a file's item.
unfoldable pub seek_item :
    FatDirectoryItem → FatFileDescriptor → ℕ → FileSeekMode → ℕ × FatFileDescriptor
seek_item item desc offset seek_mode = elim seek_mode [
  | seek_set ↦
      if leb item.filesize offset then (neg eio, desc) else (0, record desc { pos = offset })
  | seek_end ↦ (2 ^ 32 - 1, desc)
  | seek_cur ↦
      let pos = (desc.pos + offset) % 2 ^ 32 in
      if leb item.filesize pos then (neg eio, desc) else (0, record desc { pos = pos })
]

unfoldable pub fat_seek : FatFileDescriptor → ℕ → FileSeekMode → Option (ℕ × FatFileDescriptor)
unfolding seek_item
fat_seek desc offset seek_mode = elim desc.item [
  | directory _ _ ↦ some (neg einvarg, desc)
  | file _ p item ↦ if p == 0 then none else some (seek_item item desc offset seek_mode)
]

pub record FileStat : Type 0 where
  pub flags : ℕ
  pub filesize : ℕ

-- The enumerator of file.h, the first of its type.
abbrev pub file_stat_ro : ℕ
file_stat_ro = 0

abbrev pub file_read_only : ℕ
file_read_only = 0x01

abbrev pub item_stat : FatDirectoryItem → FileStat
item_stat item = record {
  flags = if bit_and item.attribute file_read_only == 0 then 0 else bit_or 0 file_stat_ro;
  filesize = item.filesize;
}

-- The result and what stands at `stat` then.
unfoldable pub fat_stat : FatFileDescriptor → FileStat → Option (ℕ × FileStat)
fat_stat desc stat = elim desc.item [
  | directory _ _ ↦ some (neg einvarg, stat)
  | file _ p item ↦ if p == 0 then none else some (0, item_stat item)
]

unfoldable pub free_file_descriptor : FatFileDescriptor → Store → Option Store
free_file_descriptor desc s = elim (fat_item_free desc.item s) [
  | none ↦ none
  | some s' ↦ elim (kfree s'.heap desc.addr) [
    | none ↦ none
    | some h ↦ some (record s' { heap = h })
  ]
]

unfoldable pub fat_close : FatFileDescriptor → Store → Option (ℕ × Store)
unfolding free_file_descriptor
fat_close desc s = elim (free_file_descriptor desc s) [ none ↦ none | some s' ↦ some (0, s') ]
