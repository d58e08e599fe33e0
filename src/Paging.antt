-- ===== src/Paging.antt =====
-- memory/paging/paging.c: page directories and tables. `Words` maps the address of each 32-bit word
-- to its value; an array of words has its element `i` at `4 * i` behind its address.
pub mod Align
pub mod Fill
pub mod Round
pub mod Build
pub mod Identity
pub mod Table
pub mod Translate
pub mod Tests
use nuts_os.Base.{
  ℕ, zero, suc, ◌+◌, ◌-◌, ◌*◌, ◌/◌, ◌%◌, ◌^◌, Bool, true, false, not, ◌&&◌, ◌||◌, Option, none,
  some, ltb, leb, ◌==◌, if◌then◌else◌, update, bit_and, bit_or, Errno, einvarg, Result, ok, err,
}
use nuts_os.Heap.{Heap}
use nuts_os.Heap.Kernel.{kmalloc, kfree}

abbrev pub Words : Type 0
Words = ℕ → ℕ

abbrev pub is_writeable : ℕ
is_writeable = 0b00000010

abbrev pub access_from_all : ℕ
access_from_all = 0b00000100

abbrev pub is_present : ℕ
is_present = 0b00000001

abbrev pub total_dir_entries : ℕ
total_dir_entries = 1024

abbrev pub total_entries_per_table : ℕ
total_entries_per_table = 1024

abbrev pub page_size : ℕ
page_size = 4096

abbrev pub entry_get_pointer : ℕ → ℕ
entry_get_pointer entry = bit_and entry 0xfffff000

abbrev pub entry_set_flags : ℕ → ℕ → ℕ
entry_set_flags entry flags = bit_or entry flags

-- `addr` is the address of the structure itself.
pub record PagingChunk : Type 0 where
  pub addr : ℕ
  pub directory_entry : ℕ
  pub dir_count : ℕ
  pub entries_count : ℕ

unfoldable pub is_aligned : ℕ → Bool
is_aligned addr = addr % page_size == 0

unfoldable pub align_address : ℕ → ℕ
align_address ptr =
    let reminder = ptr % page_size in
    if not (reminder == 0) then (ptr - reminder + page_size) % 2 ^ 32 else ptr

-- The two indexes that the source returns through pointers.
unfoldable pub get_indexes : ℕ → Result (ℕ × ℕ)
unfolding is_aligned
get_indexes virtual_address =
    if not (is_aligned virtual_address)
    then err einvarg
    else ok (
      virtual_address / (total_entries_per_table * page_size),
      virtual_address % (total_entries_per_table * page_size) / page_size,
    )

unfoldable pub paging_set : Words → ℕ → ℕ → ℕ → Result (Unit {0}) × Words
unfolding is_aligned get_indexes
paging_set w directory virt pdesc =
    if not (is_aligned virt) then (err einvarg, w) else elim (get_indexes virt) [
      | err e ↦ (err e, w)
      | ok (directory_index, table_index) ↦
          let table = entry_get_pointer (w (directory + 4 * directory_index)) in
          (ok tt, update w (table + 4 * table_index) pdesc)
    ]

unfoldable pub paging_map : Words → ℕ → ℕ → ℕ → ℕ → Result (Unit {0}) × Words
unfolding is_aligned
paging_map w directory virt phys flags =
    if not (is_aligned virt) || not (is_aligned phys)
    then (err einvarg, w)
    else paging_set w directory virt (entry_set_flags phys flags)

-- The loop over the pages left; `res` is the result of the page before.
map_loop : ℕ → Words → ℕ → ℕ → ℕ → ℕ → Result (Unit {0}) → Result (Unit {0}) × Words
map_loop zero w directory virt phys flags res = (res, w)
map_loop (suc count) w directory virt phys flags res =
    let (res', w') = paging_map w directory virt phys flags in
    elim res' [
      | err e ↦ (err e, w')
      | ok done ↦
          map_loop count w' directory ((virt + page_size) % 2 ^ 32) ((phys + page_size) % 2 ^ 32)
            flags (ok done)
    ]

unfoldable pub map_range : Words → ℕ → ℕ → ℕ → ℕ → ℕ → Result (Unit {0}) × Words
unfolding map_loop
map_range w directory virt phys count flags = map_loop count w directory virt phys flags (ok tt)

unfoldable pub map_to : Words → ℕ → ℕ → ℕ → ℕ → ℕ → Result (Unit {0}) × Words
map_to w directory virt phys phys_end flags =
    if not (virt % page_size == 0) || not (phys % page_size == 0) || not (phys_end % page_size == 0)
    then (err einvarg, w)
    else if ltb phys_end phys
    then (err einvarg, w)
    else map_range w directory virt phys ((phys_end - phys) / page_size) flags

-- What the memset of kzalloc does to the words.
abbrev pub zero_words : ℕ → ℕ → Words → Words
zero_words ptr size w a = if leb ptr a && ltb a (ptr + size) then 0 else w a

-- A null pointer is not cleared, and not checked by the callers below either: they write from
-- address 0 on.
unfoldable pub kzalloc_words : Heap → Words → ℕ → ℕ × Heap × Words
kzalloc_words heap w size =
    let (ptr, heap') = kmalloc heap size in
    if ptr == 0 then (0, heap', w) else (ptr, heap', zero_words ptr size w)

-- The entries of one table from index `b` on, with the rounds left.
unfoldable pub fill_table : ℕ → ℕ → ℕ → ℕ → ℕ → Words → Words
fill_table zero b entry offset flags w = w
fill_table (suc left) b entry offset flags w =
    fill_table left (b + 1) entry offset flags
      (update w (entry + 4 * b) (bit_or ((offset + b * page_size) % 2 ^ 32) flags))

-- The tables of the directory from index `i` on, with the rounds left.
unfoldable pub fill_directory : ℕ → ℕ → ℕ → ℕ → ℕ → ℕ → Heap → Words → Heap × Words
unfolding fill_table
fill_directory zero i directory page_entries offset flags heap w = (heap, w)
fill_directory (suc left) i directory page_entries offset flags heap w =
    let (entry, heap', w') = kzalloc_words heap w (4 * page_entries) in
    let filled = fill_table page_entries 0 entry offset flags w' in
    fill_directory left (i + 1) directory page_entries
      ((offset + page_entries * page_size) % 2 ^ 32) flags heap'
      (update filled (directory + 4 * i) (bit_or entry (bit_or flags is_writeable)))

abbrev pub chunk_size : ℕ
chunk_size = 12

-- The flags come as a uint8_t.
unfoldable pub chunk_new : Heap → Words → ℕ → ℕ → ℕ → PagingChunk × Heap × Words
unfolding fill_directory
chunk_new heap w dir_entries page_entries flags =
    let (directory, heap₁, w₁) = kzalloc_words heap w (4 * dir_entries) in
    let (heap₂, w₂) =
      fill_directory dir_entries 0 directory page_entries 0 (flags % 2 ^ 8) heap₁ w₁ in
    let (addr, heap₃, w₃) = kzalloc_words heap₂ w₂ chunk_size in
    (
      record {
        addr = addr;
        directory_entry = directory;
        dir_count = dir_entries;
        entries_count = page_entries;
      },
      heap₃,
      w₃,
    )

-- The tables from index `i` on; `none` is a pointer below the heap. The count is the constant, not
-- the chunk's own.
free_tables : ℕ → ℕ → ℕ → Words → Heap → Option Heap
free_tables zero i directory w heap = some heap
free_tables (suc left) i directory w heap =
    elim (kfree heap (entry_get_pointer (w (directory + 4 * i)))) [
      | none ↦ none
      | some heap' ↦ free_tables left (i + 1) directory w heap'
    ]

unfoldable pub chunk_free : Heap → Words → PagingChunk → Option Heap
unfolding free_tables
chunk_free heap w chunk = elim (free_tables total_dir_entries 0 chunk.directory_entry w heap) [
  | none ↦ none
  | some heap₁ ↦ elim (kfree heap₁ chunk.directory_entry) [
    | none ↦ none
    | some heap₂ ↦ kfree heap₂ chunk.addr
  ]
]

-- The directory that the processor uses, which is also the kernel's note of it.
unfoldable pub paging_switch : ℕ → ℕ → ℕ
paging_switch current_directory directory = directory

unfoldable pub chunk_get_directory : PagingChunk → ℕ
chunk_get_directory chunk = chunk.directory_entry
