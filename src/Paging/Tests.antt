-- ===== src/Paging/Tests.antt =====
-- The theorems on mapping at a directory of empty tables, and on new directories.
use nuts_os.Base.{
  ℕ, ◌+◌, ◌-◌, ◌*◌, ◌/◌, ◌%◌, ◌^◌, ◌<◌, ◌≤◌, ◌≡◌, ◌⊎◌, ◌&&◌, ltb, leb, if◌then◌else◌, arith, refl,
  ok, err, einvarg, bit_and, ap, ◌∙◌,
}
use nuts_os.Base.Bits.{bit_and_high, bit_and_mod}
use nuts_os.Heap.Kernel.{kheap_init}
use nuts_os.Heap.Store.{Store}
use nuts_os.Heap.Store.Start.{IsEmpty, kheap_init-IsEmpty}
use nuts_os.Paging.{Words, PagingChunk, entry_get_pointer, map_range, map_to, chunk_new}
use nuts_os.Paging.Fill.{word_store}
use nuts_os.Paging.Identity.{Identity, chunk_new-Identity}
use nuts_os.Paging.Table.{IsDirectory, Mapped, table_of, map_range-Mapped, map_to_lem}

-- A directory at 0x1000 whose tables stand in a row from 1 MiB on.
abbrev pub words : Words
words a = if leb 0x1000 a && ltb a 0x2000 then (256 + (a - 0x1000) / 4) * 2 ^ 12 else 0

pub pointer_lem : (q : ℕ) → q < 2 ^ 20 → entry_get_pointer (q * 2 ^ 12) ≡ q * 2 ^ 12
pointer_lem q small = omega (
  arith,
  ap (λ k. bit_and k 0xfffff000) plus_zero,
  bit_and_high 12 0xfffff q 0 (omega arith),
  bit_and_mod 20 q,
)
  where
    plus_zero : q * 2 ^ 12 + 0 ≡ q * 2 ^ 12
    plus_zero = omega arith

table_lem : (i : ℕ) → i < 1024 → table_of words 0x1000 i ≡ (256 + i) * 2 ^ 12
table_lem i small = ap entry_get_pointer entry ∙ pointer_lem (256 + i) (omega arith)
  where
    entry : words (0x1000 + 4 * i) ≡ (256 + i) * 2 ^ 12
    entry = ground arith

pub words-IsDirectory : IsDirectory words 0x1000
words-IsDirectory = record {
  aligned = refl;
  apart = λ i h e. omega (arith, table_lem i h);
  own = λ i j h h' e. omega (arith, table_lem i h, table_lem j h');
}

map_range-Mapped_example :
    (w' : Words) × (map_range words 0x1000 0x400000 0x900000 3 7 ≡ (ok tt, w'))
    × Mapped words w' 0x1000 0x400000 0x900000 3 7
map_range-Mapped_example =
    map_range-Mapped 3 words 0x1000 0x400000 0x900000 7 words-IsDirectory (omega arith)
      (omega arith) (omega arith) (omega arith)

map_to_lem_example :
    ((0x400000 % 4096 ≡ 0) × (0x900000 % 4096 ≡ 0) × (0x903000 % 4096 ≡ 0) × (0x900000 ≤ 0x903000))
      × ((w' : Words) × (map_to words 0x1000 0x400000 0x900000 0x903000 7 ≡ (ok tt, w'))
          × Mapped words w' 0x1000 0x400000 0x900000 ((0x903000 - 0x900000) / 4096) 7)
    ⊎ (¬ (
        (0x400000 % 4096 ≡ 0)
        × (0x900000 % 4096 ≡ 0)
        × (0x903000 % 4096 ≡ 0)
        × (0x900000 ≤ 0x903000)))
      × (map_to words 0x1000 0x400000 0x900000 0x903000 7 ≡ (err einvarg, words))
map_to_lem_example =
    map_to_lem words 0x1000 0x400000 0x900000 0x903000 7 words-IsDirectory (omega arith)
      (omega arith)

-- The kernel's heap, from which nothing is taken, and words that are all 7.
abbrev before : Store
before =
    word_store
      (kheap_init (record { table = record { entries = λ i. i; total = 0 }; saddr = 0 }) (λ i. i)).0
      (λ _. 7)

before-IsEmpty : IsEmpty before.heap
before-IsEmpty =
    kheap_init-IsEmpty (record { table = record { entries = λ i. i; total = 0 }; saddr = 0 })
      (λ i. i)

chunk_new-Identity_example :
    (chunk : PagingChunk) × (s' : Store) × (chunk_new before.heap (λ _. 7) 1024 1024 7
      ≡ (chunk, s'.heap, s'.memory))
    × Identity before s' chunk.directory_entry 7
chunk_new-Identity_example =
    chunk_new-Identity before 7 before-IsEmpty.usable before-IsEmpty.whole
      (omega (arith, before-IsEmpty.room))
