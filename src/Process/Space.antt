-- ===== src/Process/Space.antt =====
-- The end of process_load_for_slot: the whole address space of a process.
use nuts_os.Base.{
  ℕ, ◌*◌, ◌/◌, ◌%◌, ◌^◌, ◌<◌, ◌≤◌, ◌≡◌, arith, refl, ap, ◌∙◌, ok, some, bit_or, update, ◌+◌, ◌-◌,
  ◌&&◌, leb, ltb, if◌then◌else◌, Bool-cases, inl, inr,
}
use nuts_os.Heap.{Heap}
use nuts_os.Heap.Store.{IsUsable, free_blocks}
use nuts_os.Paging.{Words}
use nuts_os.Paging.Fill.{word_store}
use nuts_os.Paging.Translate.{translate, translate_lem}
use nuts_os.Paging.Table.{entry_for}
use nuts_os.Task.{Tasks, task_new}
use nuts_os.Task.Start.{first_registers, task_new-Started}
use nuts_os.Process.{
  Process, Kernel, directory_of, process_map_memory, load_task, finish_load, set_process,
  with_store,
}
use nuts_os.Process.Pages.{IsLoaded, pages, space, process_map_memory-entries}

-- The physical address that stands behind an address of a process.
abbrev pub physical : Process → ℕ → ℕ
physical p v =
    if leb 0x400000 v && ltb v (0x400000 + pages p.size * 4096)
    then p.ptr + (v - 0x400000)
    else if leb 0x3FB000 v && ltb v 0x3FF000
    then p.stack + (v - 0x3FB000)
    else v

pub space-translate :
    (p : Process) (w : Words) (dir v : ℕ)
    → IsLoaded p
    → v < 2 ^ 32
    → entry_for w dir v ≡ space p v (bit_or (v / 2 ^ 12 * 2 ^ 12) 0b101)
    → translate w dir v ≡ physical p v
space-translate p w dir v l small e =
    elim (Bool-cases (leb 0x400000 v && ltb v (0x400000 + pages p.size * 4096))) [
      | inl program ↦
          translate_lem w dir v (p.ptr + (v / 2 ^ 12 - 0x400) * 4096) 0b111 (ground (arith, e))
            (omega (arith, l.aligned)) (ground (arith, l.fits)) (omega arith)
          ∙ ground arith
      | inr other ↦ elim (Bool-cases (leb 0x3FB000 v && ltb v 0x3FF000)) [
        | inl stack ↦
            translate_lem w dir v (p.stack + (v / 2 ^ 12 - 0x3FB) * 4096) 0b111 (ground (arith, e))
              (omega (arith, l.stack_aligned)) (ground (arith, l.stack_fits)) (omega arith)
            ∙ ground arith
        | inr rest ↦
            translate_lem w dir v (v / 2 ^ 12 * 2 ^ 12) 0b101 (ground (arith, e)) (omega arith)
              (omega arith) (omega arith)
            ∙ ground arith
      ]
    ]

-- The kernel with the task of a process made and not mapped yet.
abbrev made : ℕ → ℕ → Heap → Words → Tasks → Kernel → Kernel
made p task heap w tasks k =
    set_process p (record (k.process_at p) { task = task })
      (record (with_store k (record (k.files.store) { heap = heap })) { words = w; tasks = tasks })

load_task_parts :
    (out slot p task : ℕ) (k : Kernel) (heap : Heap) (w w' : Words) (tasks : Tasks)
    → task_new p k.files.store.heap k.words k.tasks ≡ some (task, heap, w, tasks)
    → process_map_memory (record (k.process_at p) { task = task }) tasks w ≡ (ok tt, w')
    → load_task out slot p k
      ≡ some (
        0,
        p,
        record (made p task heap w tasks k) { words = w'; processes = update k.processes slot p },
      )
unfolding load_task finish_load
load_task_parts out slot p task k heap w w' tasks e e' =
    rw (e, load_task) (rw (e', finish_load) refl)

-- Where a program and a stack are loaded for the process at `p`, each in memory that starts on a
-- page and, with a page behind it, fits into the address space, and the heap is usable, starts on a
-- page and has 1027 free blocks, the end of process_load_for_slot succeeds: the process stands in
-- its slot, its task has the registers of a program that begins in ring 3, and in its address space
-- the pages of the program and of the stack are mapped for the user's reads and writes, and every
-- other page to itself, for the user to read and not to write; so the addresses of the program and
-- of the stack stand for the memory that was loaded, and all others for themselves.
pub load_task-space :
    (out slot p : ℕ) (k : Kernel)
    → IsLoaded (k.process_at p)
    → IsUsable k.files.store.heap
    → k.files.store.heap.saddr % 4096 ≡ 0
    → 1027 ≤ free_blocks k.files.store.heap
    → (k' : Kernel) × (load_task out slot p k ≡ some (0, p, k'))
      × (k'.processes ≡ update k.processes slot p)
      × ((k'.tasks.task_at (k'.process_at p).task).registers ≡ first_registers)
      × ((v : ℕ)
          → v < 2 ^ 32
          → entry_for k'.words (directory_of (k'.process_at p) k'.tasks) v
            ≡ space (k.process_at p) v (bit_or (v / 2 ^ 12 * 2 ^ 12) 0b101))
      × ((v : ℕ)
          → v < 2 ^ 32
          → translate k'.words (directory_of (k'.process_at p) k'.tasks) v
            ≡ physical (k.process_at p) v)
load_task-space out slot p k l u whole room =
    let (task, st, tasks, e, m) =
      task_new-Started p (word_store k.files.store.heap k.words) k.tasks u whole room in
    let process = record (k.process_at p) { task = task } in
    let l' : IsLoaded process = record {
      at = l.at;
      stack_at = l.stack_at;
      stack_pages = l.stack_pages;
      aligned = l.aligned;
      stack_aligned = l.stack_aligned;
      fits = l.fits;
      fits_virt = l.fits_virt;
      stack_fits = l.stack_fits;
    } in
    let (w', e', _, entries) = process_map_memory-entries process tasks st.memory l' m.valid in
    let k' : Kernel = record (made p task st.heap st.memory tasks k) {
      words = w';
      processes = update k.processes slot p;
    } in
    let here : k'.process_at p ≡ process = ground arith in
    let all : (v : ℕ)
        → v < 2 ^ 32
        → entry_for w' (directory_of (k'.process_at p) tasks) v
          ≡ space process v (bit_or (v / 2 ^ 12 * 2 ^ 12) 0b101) =
      λ v small.
        ap (λ (q : Process). entry_for w' (directory_of q tasks) v) here
        ∙ entries v small
        ∙ ap (space process v) (m.entries v small) in
    (
      k',
      load_task_parts out slot p task k st.heap st.memory w' tasks e e',
      refl,
      ap (λ (q : Process). (tasks.task_at q.task).registers) here ∙ m.registers,
      all,
      λ v small.
          space-translate process w' (directory_of (k'.process_at p) tasks) v l' small
            (all v small),
    )
