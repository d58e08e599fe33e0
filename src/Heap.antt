-- ===== src/Heap.antt =====
-- memory/heap/heap.c: the block allocator. Each block of 4096 bytes has one byte in a table.
pub mod Scan
pub mod Marks
pub mod Malloc
pub mod Chained
pub mod Chains
pub mod Kernel
pub mod Store
mod Tests
use nuts_os.Base.{
  ℕ, zero, suc, ◌+◌, ◌-◌, ◌*◌, ◌/◌, ◌%◌, ◌^◌, Bool, true, false, not, ◌||◌, Option, none, some, ltb,
  leb, ◌==◌, if◌then◌else◌, update, bit_and, bit_or, Errno, enomem, einvarg, Result, ok, err,
}
use nuts_os.Base.Int.{ℤ, pos, negsuc}
use nuts_os.Memory.{Mem, memset}

abbrev pub block_size : ℕ
block_size = 4096

-- The flags of a table entry.
abbrev pub taken : ℕ
taken = 0b00000001

abbrev pub free : ℕ
free = 0b00000000

abbrev pub has_next : ℕ
has_next = 0b10000000

abbrev pub is_first : ℕ
is_first = 0b01000000

-- `entries` maps an index from the table's address on to the byte there, also past `total`:
-- the C code checks no bound when it writes.
pub record HeapTable : Type 0 where
  pub entries : ℕ → ℕ
  pub total : ℕ

pub record Heap : Type 0 where
  pub table : HeapTable
  pub saddr : ℕ

-- `end - ptr` is a difference of 32-bit pointers.
validate_table : ℕ → ℕ → HeapTable → Bool
validate_table ptr end table = table.total == (end + 2 ^ 32 - ptr) % 2 ^ 32 / block_size

validate_alignment : ℕ → Bool
validate_alignment ptr = ptr % block_size == 0

-- On a table of the wrong size the heap is set up all the same, and its table left as it was.
unfoldable pub create : Heap → ℕ → ℕ → HeapTable → Heap × Result (Unit {0})
unfolding validate_table validate_alignment
create heap ptr end table =
    if not (validate_alignment ptr) || not (validate_alignment end)
    then (heap, err einvarg)
    else if not (validate_table ptr end table)
    then (record { table = table; saddr = ptr }, err einvarg)
    else (
      record {
        table = record table { entries = memset 0 free table.total table.entries };
        saddr = ptr;
      },
      ok tt,
    )

-- On a uint32_t.
unfoldable pub align_value_to_upper : ℕ → ℕ
align_value_to_upper val =
    if val % block_size == 0 then val else (val - val % block_size + block_size) % 2 ^ 32

abbrev pub entry_type : ℕ → ℕ
entry_type entry = bit_and entry 0b00000001

-- The start of the run that is being counted, after a free block at `i`.
abbrev pub run_start : ℕ → Option ℕ → ℕ
run_start i none = i
run_start i (some b) = b

-- The loop of heap_get_next_free_block: rounds left, index, blocks counted, and the start of the
-- run that is being counted (`none` for -1).
search : (ℕ → ℕ) → ℕ → ℕ → ℕ → ℕ → Option ℕ → Option ℕ
search entries n zero i bc bs = bs
search entries n (suc left) i bc bs = elim (entry_type (entries i) == free) [
  | false ↦ search entries n left (i + 1) 0 none
  | true ↦
      let start = run_start i bs in
      elim (bc + 1 == n) [
        | true ↦ some start
        | false ↦ search entries n left (i + 1) (bc + 1) (some start)
      ]
]

-- As in the source, the run that is returned may be cut short by the end of the table.
unfoldable pub get_next_free_block : Heap → ℕ → Result ℕ
unfolding search
get_next_free_block heap n = elim (search heap.table.entries n heap.table.total 0 0 none) [
  | none ↦ err enomem
  | some b ↦ ok b
]

unfoldable pub block_to_address : Heap → ℕ → ℕ
block_to_address heap block = (heap.saddr + block * block_size) % 2 ^ 32

-- The difference of the pointers read as an int, divided towards zero.
unfoldable pub address_to_block : Heap → ℕ → ℤ
address_to_block heap address =
    let diff = (address + 2 ^ 32 - heap.saddr) % 2 ^ 32 in
    let back = (2 ^ 32 - diff) / block_size in
    if ltb diff (2 ^ 31)
    then pos (diff / block_size)
    else if back == 0
    then pos 0
    else negsuc (back - 1)

-- The rounds of heap_mark_blocks_taken that are left, from block `i` to block `end`.
mark_loop : ℕ → ℕ → ℕ → ℕ → (ℕ → ℕ) → ℕ → ℕ
mark_loop zero i end entry es = es
mark_loop (suc left) i end entry es =
    mark_loop left (i + 1) end (if i + 1 == end then taken else bit_or taken has_next)
      (update es i entry)

unfoldable pub mark_blocks_taken : Heap → ℕ → ℕ → Heap
unfolding mark_loop
mark_blocks_taken heap start n =
    let first = bit_or taken is_first in
    let entry = if ltb 1 n then bit_or first has_next else first in
    record heap {
      table = record (heap.table) {
        entries = mark_loop n start (start + n - 1) entry heap.table.entries;
      };
    }

-- 0 is the null pointer.
unfoldable pub malloc_blocks : Heap → ℕ → ℕ × Heap
malloc_blocks heap n = elim (get_next_free_block heap n) [
  | err _ ↦ (0, heap)
  | ok start ↦ (block_to_address heap start, mark_blocks_taken heap start n)
]

free_loop : ℕ → ℕ → (ℕ → ℕ) → ℕ → ℕ
free_loop zero i es = es
free_loop (suc left) i es = elim (bit_and (es i) has_next == 0) [
  | true ↦ update es i free
  | false ↦ free_loop left (i + 1) (update es i free)
]

unfoldable pub mark_blocks_free : Heap → ℕ → Heap
unfolding free_loop
mark_blocks_free heap start = record heap {
  table = record (heap.table) {
    entries = free_loop (heap.table.total - start) start heap.table.entries;
  };
}

unfoldable pub malloc : Heap → ℕ → ℕ × Heap
unfolding align_value_to_upper malloc_blocks
malloc heap size = malloc_blocks heap (align_value_to_upper size / block_size)

-- `none` is an access before the table, which a pointer below the heap leads to.
unfoldable pub release : Heap → ℕ → Option Heap
release heap ptr = elim (address_to_block heap ptr) [
  | pos block ↦ some (mark_blocks_free heap block)
  | negsuc _ ↦ none
]
