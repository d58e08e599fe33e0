-- ===== src/Heap/Tests.antt =====
-- The theorems on the heap at small heaps.
use nuts_os.Base.{ℕ, ◌+◌, ◌*◌, ◌^◌, ◌<◌, ◌≤◌, ◌≡◌, ◌==◌, if◌then◌else◌, arith, refl, some, ok}
use nuts_os.Heap.{
  Heap, free, malloc, release, block_to_address, mark_blocks_taken, get_next_free_block,
}
use nuts_os.Heap.Scan.{IsFreeFrom, cut_short}
use nuts_os.Heap.Marks.{chunk_entry, inside}
use nuts_os.Heap.Malloc.{blocks, malloc_taken, malloc-release}
use nuts_os.Heap.Chained.{IsChained}
use nuts_os.Heap.Chains.{IsTail, malloc-IsChained, release-IsChained}
use nuts_os.Heap.Kernel.{kheap_init, kheap_init-IsChained}

-- Four free blocks.
abbrev empty_heap : Heap
empty_heap = record { table = record { entries = λ _. 0; total = 4 }; saddr = 0x01000000 }

-- Four blocks of which the first is taken.
abbrev used_heap : Heap
used_heap = record {
  table = record { entries = λ i. if i == 0 then 0x41 else 0; total = 4 };
  saddr = 0x01000000;
}

-- Two blocks of which the first is taken.
abbrev short_heap : Heap
short_heap = record {
  table = record { entries = λ i. if i == 0 then 0x41 else 0; total = 2 };
  saddr = 0x01000000;
}

empty_heap-IsChained : IsChained empty_heap
empty_heap-IsChained = record {
  coded = λ i h. refl;
  linked = λ i h e. absurd (ground arith);
  backed = λ i h e. absurd (ground arith);
  headed = λ h. refl;
}

used_heap-IsChained : IsChained used_heap
used_heap-IsChained = record {
  coded = λ i h. ground arith;
  linked = λ i h e. absurd (ground arith);
  backed = λ i h e. absurd (ground arith);
  headed = λ h. refl;
}

free_run : IsFreeFrom empty_heap.table.entries 0 2
free_run i h h' = refl

malloc_taken_example :
    (b : ℕ) × (malloc empty_heap 5000
      ≡ (block_to_address empty_heap b, mark_blocks_taken empty_heap b (blocks 5000)))
    × (b ≤ 0)
    × (b + blocks 5000 ≤ 4)
    × IsFreeFrom empty_heap.table.entries b (b + blocks 5000)
    × ((j : ℕ)
        → (malloc empty_heap 5000).1.table.entries j
          ≡ (if inside b (blocks 5000) j then chunk_entry b (blocks 5000) j else 0))
malloc_taken_example =
    malloc_taken empty_heap 5000 0 (omega arith) (omega arith) (omega arith) free_run

malloc-release_example :
    release (malloc empty_heap 5000).1 (malloc empty_heap 5000).0 ≡ some empty_heap
malloc-release_example =
    malloc-release empty_heap 5000 0 (omega arith) (omega arith) (λ i h f. refl) (omega arith)
      (omega arith) (omega arith) free_run

malloc-IsChained_example : IsChained (malloc empty_heap 5000).1
malloc-IsChained_example =
    malloc-IsChained empty_heap 5000 0 empty_heap-IsChained (omega arith) (omega arith)
      (omega arith) free_run

release-IsChained_example :
    (g : Heap) × (k : ℕ) × (release used_heap (block_to_address used_heap 0) ≡ some g)
    × IsChained g
    × IsTail used_heap 0 k
    × ((j : ℕ)
        → g.table.entries j ≡ (if inside 0 (k + 1) j then free else used_heap.table.entries j))
release-IsChained_example =
    release-IsChained used_heap 0 used_heap-IsChained (omega arith) (omega arith) (omega arith) refl

cut_short_example : (b : ℕ) × (get_next_free_block short_heap 2 ≡ ok b) × (b < 2) × (2 < b + 2)
cut_short_example =
    cut_short short_heap 2 1 (omega arith) refl refl λ c h run. ground (arith, run 0)

kheap_init-IsChained_example :
    ((kheap_init empty_heap (λ i. i)).1 ≡ ok tt)
    × IsChained (kheap_init empty_heap (λ i. i)).0
    × ((kheap_init empty_heap (λ i. i)).0.table.total ≡ 131072)
    × ((kheap_init empty_heap (λ i. i)).0.saddr ≡ 0x01000000)
    × ((kheap_init empty_heap (λ i. i)).0.saddr + 131072 * 4096 < 2 ^ 32)
kheap_init-IsChained_example = kheap_init-IsChained empty_heap (λ i. i)
