-- ===== src/Heap/Kernel.antt =====
-- memory/heap/kheap.c: the kernel's heap of 512 MiB at 16 MiB.
use nuts_os.Base.{
  ℕ, ◌+◌, ◌*◌, ◌/◌, ◌^◌, ◌<◌, ◌≤◌, ◌≡◌, ◌≢◌, ◌==◌, ◌&&◌, ltb, leb, if◌then◌else◌, arith, refl,
  Option, Result, ok,
}
use nuts_os.Memory.{Mem, memset}
use nuts_os.Memory.Laws.{memset_at}
use nuts_os.Heap.{Heap, block_size, create, malloc, release, block_to_address}
use nuts_os.Heap.Scan.{IsFreeFrom}
use nuts_os.Heap.Malloc.{blocks, malloc_taken}
use nuts_os.Heap.Chained.{IsChained, create-IsChained}

abbrev pub heap_size : ℕ
heap_size = 512 * (1024 * 1024)

abbrev pub heap_address : ℕ
heap_address = 0x01000000

-- `bytes` is what stands at the table's address before. A failure is only printed.
unfoldable pub kheap_init : Heap → (ℕ → ℕ) → Heap × Result (Unit {0})
kheap_init kernel_heap bytes =
    create kernel_heap heap_address (heap_address + heap_size)
      (record { entries = bytes; total = heap_size / block_size })

unfoldable pub kmalloc : Heap → ℕ → ℕ × Heap
kmalloc = malloc

unfoldable pub kzalloc : Heap → Mem → ℕ → ℕ × Heap × Mem
unfolding kmalloc
kzalloc heap m size =
    let (ptr, heap') = kmalloc heap size in
    if ptr == 0 then (0, heap', m) else (ptr, heap', memset ptr 0 size m)

unfoldable pub kfree : Heap → ℕ → Option Heap
kfree = release

pub kheap_init-ok : (h : Heap) (bytes : ℕ → ℕ) → (kheap_init h bytes).1 ≡ ok tt
unfolding kheap_init create
kheap_init-ok h bytes = refl

-- Whatever memory holds, the kernel's heap is created: chained, 131072 blocks from 16 MiB on, all
-- within the 32-bit addresses.
pub kheap_init-IsChained :
    (h : Heap) (bytes : ℕ → ℕ)
    → ((kheap_init h bytes).1 ≡ ok tt)
      × IsChained (kheap_init h bytes).0
      × ((kheap_init h bytes).0.table.total ≡ 131072)
      × ((kheap_init h bytes).0.saddr ≡ 0x01000000)
      × ((kheap_init h bytes).0.saddr + 131072 * 4096 < 2 ^ 32)
unfolding kheap_init
kheap_init-IsChained h bytes =
    let (chained, at, size) =
      create-IsChained h heap_address (heap_address + heap_size) _ (kheap_init-ok h bytes) in
    (kheap_init-ok h bytes, chained, size, at, omega (arith, at))

pub address_inside :
    (h : Heap) (b : ℕ) → h.saddr + b * 4096 < 2 ^ 32 → block_to_address h b ≡ h.saddr + b * 4096
unfolding block_to_address
address_inside h b small = omega arith

pub kzalloc-ok :
    (h h' : Heap) (m : Mem) (size ptr : ℕ)
    → malloc h size ≡ (ptr, h')
    → ptr ≢ 0
    → kzalloc h m size ≡ (ptr, h', memset ptr 0 size m)
unfolding kzalloc
kzalloc-ok h h' m size ptr e ne = rw (e, kzalloc) (ground arith)

-- On a heap that starts above 0 and ends at or below 4 GiB, where the blocks for `size` bytes, at
-- least one, stand free in a row inside the table, kzalloc returns an address inside the heap that
-- is not null, with `size` zero bytes there, and changes no other byte of memory.
pub kzalloc-zeroed :
    (h : Heap) (m : Mem) (size b₀ : ℕ)
    → 0 < h.saddr
    → h.saddr + h.table.total * 4096 ≤ 2 ^ 32
    → 0 < size
    → b₀ + blocks size ≤ h.table.total
    → IsFreeFrom h.table.entries b₀ (b₀ + blocks size)
    → let (ptr, h', m') = kzalloc h m size in
      (ptr ≢ 0)
      × (h.saddr ≤ ptr)
      × (ptr + size ≤ h.saddr + h.table.total * 4096)
      × ((a : ℕ) → m' a ≡ (if leb ptr a && ltb a (ptr + size) then 0 else m a))
unfolding kzalloc
kzalloc-zeroed h m size b₀ start fits positive room run =
    let (b, e, _, inside, _, _) = malloc_taken h size b₀ positive (omega arith) room run in
    let ptr = block_to_address h b in
    let at = address_inside h b (omega arith) in
    let whole = kzalloc-ok h _ m size ptr e (omega arith) in
    rw whole (omega arith, omega arith, omega arith, λ a. ground (arith, memset_at ptr 0 size m a))
