-- ===== src/Fat/Files/Nested.antt =====
-- fat16_open: a file of a directory that stands in the root directory.
use nuts_os.Base.{ℕ, suc, ◌<◌, ◌≤◌, ◌≡◌, ◌≢◌, true, false, List, Option, none, some, eio}
use nuts_os.Heap.Store.{Store, IsUsable, free_blocks, zalloc}
use nuts_os.Disk.{Drive}
use nuts_os.Disk.Sector.{Holds, IsBytes}
use nuts_os.Disk.Stream.{at_pos}
use nuts_os.Path.{PathPart}
use nuts_os.Path.Buffer.{IsText}
use nuts_os.Fat.{
  FatDirectoryItem, FatDirectory, loaded, directory, FatDisk, neg, is_err, has_subdirectory,
}
use nuts_os.Fat.Clusters.Entries.{IsMounted}
use nuts_os.Fat.Clusters.Rounds.{base}
use nuts_os.Fat.Items.{items_at}
use nuts_os.Fat.Items.Count.{used}
use nuts_os.Fat.Items.Load.{Fits}
use nuts_os.Fat.Directory.{find_item_in_directory, get_directory_entry, entry_loop}
use nuts_os.Fat.Directory.Find.{first_named, made}
use nuts_os.Fat.Directory.Same.{Same}
use nuts_os.Fat.Volume.Blocks.{IsGiven}
use nuts_os.Fat.Files.{FatFilePtr, opened, refused}
use nuts_os.Fat.Files.Position.{open_file}

-- The items in the first cluster of a directory in the image.
abbrev pub entries_of : (ℕ → ℕ) → FatDisk → ℕ → ℕ → FatDirectoryItem
entries_of image disk c = items_at image (base disk c)

-- What opening comes to, for the item of the image that the name finds.
abbrev pub NestedAnswer : (ℕ → FatDirectoryItem) → Option ℕ → Option (FatFilePtr × Store) → Type 0
NestedAnswer items none result = (s' : Store) × (result ≡ some (refused (neg eio), s'))
NestedAnswer items (some j) result =
    (a : ℕ) × (p : ℕ) × (copy : ℕ) × (item : FatDirectoryItem) × (s' : Store) × (result
      ≡ some (opened (open_file a p copy item 0), s'))
    × (copy ≢ 0)
    × Same item (items j)

module _ (drive : Drive) (image : ℕ → ℕ) (holds : Holds drive image) (bytes : IsBytes image)
    (disk : FatDisk) (mounted : IsMounted disk) (c k : ℕ) (fits : Fits image disk c k) (fuel q : ℕ)
    (open_stream : disk.fs_private.directory_stream ≡ some (at_pos q)) (enough : k ≤ suc fuel) where
  abbrev count : ℕ
  count = used image (base disk c) k

  abbrev entries : ℕ → FatDirectoryItem
  entries = entries_of image disk c

  module _ (part_at : ℕ → PathPart) (path i : ℕ) (s : Store) (cs cs' : List ℕ) (u : IsUsable s.heap)
      (room : 6 ≤ free_blocks s.heap) (text : IsText s (part_at path).part cs)
      (text' : IsText s (part_at (part_at path).next).part cs') (more : (part_at path).next ≢ 0)
      (last : (part_at (part_at path).next).next ≡ 0)
      (fine : is_err disk.fs_private.root_directory.total ≡ false)
      (is_in_root : first_named disk.fs_private.root_directory.item
          disk.fs_private.root_directory.total 0 cs
        ≡ some i)
      (sub : has_subdirectory (disk.fs_private.root_directory.item i) ≡ true)
      (first : (disk.fs_private.root_directory.item i).low_16_bits_first_cluster ≡ c) where
    -- The directory of the first part, found and loaded, and the search for the second part.
    record Entered : Type 0 where
      p : ℕ
      d : FatDirectory
      here : Store
      start : here.heap.saddr ≡ s.heap.saddr
      usable : IsUsable here.heap
      left : 2 ≤ free_blocks here.heap
      given : IsGiven here.heap p
      given_d : IsGiven here.heap d.addr
      given_items : IsGiven here.heap d.items_addr
      same : (j : ℕ) → j < count → Same (d.item j) (entries j)
      entry :
          get_directory_entry (suc (suc fuel)) drive disk part_at path (zalloc s 8).1
          ≡ entry_loop
              (suc (suc fuel))
              (suc (suc fuel))
              drive
              disk
              part_at
              (directory p (loaded d))
              (part_at path).next
              here
      search :
          find_item_in_directory
            (suc (suc fuel))
            drive
            disk
            d
            (part_at (part_at path).next).part
            here
          ≡ made (suc (suc fuel)) drive disk d.item (first_named entries count 0 cs') here
