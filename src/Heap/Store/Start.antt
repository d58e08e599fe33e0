-- ===== src/Heap/Store/Start.antt =====
-- kheap_init: the kernel's heap before anything is taken from it.
use nuts_os.Base.{ℕ, zero, suc, ◌+◌, ◌%◌, ◌<◌, ◌≡◌, ◌==◌, arith, true, refl, ap}
use nuts_os.Heap.{free, entry_type}
use nuts_os.Heap.{Heap, HeapTable}
use nuts_os.Heap.Kernel.{kheap_init, heap_address, heap_size, kheap_init-ok}
use nuts_os.Heap.Chained.{created, create-ok, cleared}
use nuts_os.Heap.Store.{count_free, free_blocks, IsUsable}

count_free-all :
    (es : ℕ → ℕ) (n : ℕ)
    → ((j : ℕ) → j < n → (entry_type (es j) == free) ≡ true)
    → count_free es n ≡ n
unfolding count_free
count_free-all es zero all = refl
count_free-all es (suc n) all =
    ground (arith, count_free-all es n (λ j h. all j (omega arith)), all n (omega arith))

-- What every component that allocates asks of the heap holds of the new one: it is usable, starts
-- on a page, and all its blocks are free.
pub record IsEmpty (h : Heap) : Type 0 where
  pub usable : IsUsable h
  pub whole : h.saddr % 4096 ≡ 0
  pub room : free_blocks h ≡ 131072

abbrev table_of_bytes : (ℕ → ℕ) → HeapTable
table_of_bytes bytes = record { entries = bytes; total = 131072 }

kheap_init-created :
    (h : Heap) (bytes : ℕ → ℕ)
    → (kheap_init h bytes).0 ≡ created heap_address (table_of_bytes bytes)
unfolding kheap_init
kheap_init-created h bytes =
    create-ok h heap_address (heap_address + heap_size) (table_of_bytes bytes)
      (kheap_init-ok h bytes)

pub kheap_init-IsEmpty : (h : Heap) (bytes : ℕ → ℕ) → IsEmpty (kheap_init h bytes).0
kheap_init-IsEmpty h bytes = rw (kheap_init-created h bytes) (record {
  usable = record { start = omega arith; fits = omega arith; small = omega arith };
  whole = refl;
  room =
      count_free-all (created heap_address (table_of_bytes bytes)).table.entries 131072
        (λ j h. ap (λ e. entry_type e == free) (cleared (table_of_bytes bytes) j h));
})
