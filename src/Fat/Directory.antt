-- ===== src/Fat/Directory.antt =====
-- fat16.c: items found by name, and along a path. `none` is a lack of
-- fuel, or a pointer that the code follows and that is null or an error code.
pub mod Find
pub mod Same
use nuts_os.Base.{
  ℕ, zero, suc, ◌+◌, ◌-◌, ◌*◌, ◌%◌, ◌^◌, ◌==◌, Bool, true, false, not, Option, none, some,
  if◌then◌else◌, eio, einvarg, enomem, ok, err,
}
use nuts_os.Base.Int.{is_zero}
use nuts_os.Memory.{Mem, memcpy}
use nuts_os.Text.{istrncmp}
use nuts_os.Heap.{Heap}
use nuts_os.Heap.Kernel.{kfree}
use nuts_os.Heap.Store.{Store, zalloc}
use nuts_os.Disk
use nuts_os.Disk.{Drive, DiskStream}
use nuts_os.Path.{PathPart, max_path}
use nuts_os.Fat.{
  FatDirectoryItem, FatDirectory, FatDirectoryPtr, loaded, error_ptr, FatItem, directory, file,
  FatDisk, item_at, item_size, has_subdirectory, neg, is_err,
}
use nuts_os.Fat.Names.{get_full_filename}
use nuts_os.Fat.Clusters.{cluster_to_sector, read_internal}
use nuts_os.Fat.Items.{new_fat_item, fat_item_free}

-- Whether an item has the name, and the local buffer, at address 0 of a memory of its own.
unfoldable pub is_named : FatDirectoryItem → Mem → ℕ → Mem → Bool
is_named item m name tmp =
    is_zero (istrncmp (get_full_filename item 0 max_path tmp) m 0 name max_path)

-- The loop over a directory's items, with the rounds left.
unfoldable pub find_loop :
    ℕ
    → ℕ
    → Drive
    → FatDisk
    → (ℕ → FatDirectoryItem)
    → ℕ
    → ℕ
    → Mem
    → Store
    → Option (Option FatItem × Store)
find_loop zero fuel drive disk items i name tmp s = some (none, s)
find_loop (suc left) fuel drive disk items i name tmp s =
    elim (is_named (items i) s.memory name tmp) [
      | true ↦ new_fat_item fuel drive disk (items i) s
      | false ↦
          find_loop left fuel drive disk items (i + 1) name
            (get_full_filename (items i) 0 max_path tmp) s
    ]

-- A negative total makes no round.
unfoldable pub find_item_in_directory :
    ℕ → Drive → FatDisk → FatDirectory → ℕ → Store → Option (Option FatItem × Store)
unfolding find_loop
find_item_in_directory fuel drive disk d name s =
    find_loop (if is_err d.total then 0 else d.total) fuel drive disk d.item 0 name (λ _. 0) s

-- The item is freed and the result is null.
unfoldable pub give_up : FatItem → Store → Option (Option FatItem × Store)
unfolding fat_item_free
give_up item s = elim (fat_item_free item s) [ none ↦ none | some s' ↦ some (none, s') ]

-- The directory to go on in: none is an error code in its place, and `some none` a file.
abbrev pub content : FatItem → Option (Option FatDirectory)
content (file _ _ _) = some none
content (directory _ (error_ptr _)) = none
content (directory _ (loaded d)) = some (some d)

-- The loop of fat16_get_directory_entry, from the part `next` of the path on.
unfoldable pub entry_loop :
    ℕ → ℕ → Drive → FatDisk → (ℕ → PathPart) → FatItem → ℕ → Store → Option (Option FatItem × Store)
unfolding give_up
entry_loop zero fuel drive disk part_at item next s = none
entry_loop (suc rounds) fuel drive disk part_at item next s = elim (next == 0) [
  | true ↦ some (some item, s)
  | false ↦ elim (content item) [
    | none ↦ none
    | some none ↦ give_up item s
    | some (some d) ↦ elim (find_item_in_directory fuel drive disk d (part_at next).part s) [
      | none ↦ none
      | some (none, s') ↦ give_up item s'
      | some (some next_item, s') ↦ elim (fat_item_free item s') [
        | none ↦ none
        | some s'' ↦ entry_loop rounds fuel drive disk part_at next_item (part_at next).next s''
      ]
    ]
  ]
]

unfoldable pub get_directory_entry :
    ℕ → Drive → FatDisk → (ℕ → PathPart) → ℕ → Store → Option (Option FatItem × Store)
unfolding entry_loop
get_directory_entry fuel drive disk part_at path s =
    elim (find_item_in_directory fuel drive disk disk.fs_private.root_directory (part_at path).part
      s) [
        | none ↦ none
        | some (none, s') ↦ some (none, s')
        | some (some item, s') ↦ entry_loop fuel fuel drive disk part_at item (part_at path).next s'
      ]
