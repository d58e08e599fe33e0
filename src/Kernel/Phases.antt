-- ===== src/Kernel/Phases.antt =====
-- kmain up to the first process, part by part.
use Prim.Native.String.{String}
use nuts_os.Base.{ℕ, ◌+◌, ◌≡◌, true, some, refl, Option, List}
use nuts_os.Terminal.{Terminal, initialize}
use nuts_os.Terminal.Messages.{codes, is_text, written, print_text-written}
use nuts_os.Gdt.{GdtRaw, gdt, get_raw_gdt_struct}
use nuts_os.Heap.Store.{Store}
use nuts_os.Heap.Kernel.{kheap_init}
use nuts_os.Disk.Search.{disk_search_and_init}
use nuts_os.File.{fs_init}
use nuts_os.Idt.{idt_init}
use nuts_os.Paging.{PagingChunk}
use nuts_os.Kernel.{
  Machine, Image, zero_tss, kprint, log, phase, boot, setup_gdt, setup_heap, setup_fs, setup_disk,
  setup_idt, setup_tss, setup_paging, setup_commands, heap_table_address, with_files, ◌>>=◌,
}

-- The machine with another screen.
abbrev pub with_screen : Machine → Terminal → Machine
with_screen m t = record m { terminal = t }

pub log-written :
    (msg : String) (m : Machine)
    → is_text (codes msg) ≡ true
    → log msg m ≡ some (with_screen m (written (codes msg) (written (codes "[K] ") m.terminal)))
unfolding log kprint
log-written msg m e =
    rw (print_text-written (codes "[K] ") m.terminal refl)
      (rw (print_text-written (codes msg) (written (codes "[K] ") m.terminal) e) refl)

-- A part that leaves the screen alone, between its messages.
pub phase_lem :
    (title : String) (act : Machine → Option Machine) (m m' : Machine)
    → is_text (codes title) ≡ true
    → ((t : Terminal) → act (with_screen m t) ≡ some (with_screen m' t))
    → (t : Terminal) × (phase title act m ≡ some (with_screen m' t))
unfolding phase
phase_lem title act m m' e does =
    let t₁ = written (codes title) (written (codes "[K] ") m.terminal) in
    (
      written (codes " done\n") (written (codes "[K] ") t₁),
      rw (log-written title m e) (rw (does t₁) (log-written " done\n" (with_screen m' t₁) refl)),
    )

-- What each part does to the machine.
abbrev pub gdt_done : List GdtRaw → Machine → Machine
gdt_done raws m = record m { gdt_raw = raws }

abbrev pub heap_done : Machine → Machine
heap_done m =
    let store = m.kernel.files.store in
    let bytes : ℕ → ℕ = λ i. store.memory (heap_table_address + i) in
    let heap = (kheap_init store.heap bytes).0 in
    with_files (record (m.kernel.files) { store = record store { heap = heap } }) m

abbrev pub fs_done : Image → Machine → Machine
fs_done image m = with_files (fs_init m.kernel.files image.fat16_fs) m

abbrev pub disk_done : Image → Machine → Machine
disk_done image m =
    let found = disk_search_and_init image.ops.system_at m.kernel.files in
    record (with_files found.1 m) { disk = found.0 }

abbrev pub idt_done : Image → Machine → Machine
idt_done image m =
    let set = idt_init image.handlers image.idt_address in record m { idt = set.0; idtr = set.1 }

abbrev pub tss_done : Machine → Machine
tss_done m = record m { tss = record zero_tss { ss0 = 0x10; esp0 = 0x600000 } }

abbrev pub paging_done : PagingChunk → Store → Machine → Machine
paging_done chunk made m = record m {
  kernel = record (m.kernel) {
    files = record (m.kernel.files) { store = record (m.kernel.files.store) { heap = made.heap } };
    words = made.memory;
  };
  kernel_chunk = chunk;
  directory = chunk.directory_entry;
  paging = true;
}

-- The machine before paging is set up.
abbrev pub early : Image → List GdtRaw → Machine → Machine
early image raws m =
    tss_done (idt_done image (disk_done image (fs_done image (heap_done (gdt_done raws m)))))

pub boot-early :
    (image : Image) (m : Machine) (raws : List GdtRaw)
    → get_raw_gdt_struct (gdt image.tss_address) ≡ some raws
    → (t : Terminal) × (boot image m ≡ (do
      m₈ ← phase "Setting up paging..." setup_paging (with_screen (early image raws m) t)
      phase "Registering system call interrupts..." setup_commands m₈))
unfolding boot
boot-early image m raws e =
    let m₁ : Machine = record m { terminal = initialize m.terminal.video_mem } in
    let t₁ = written (codes "Terminal initialized.\n") (written (codes "[K] ") m₁.terminal) in
    let m₂ : Machine = gdt_done raws m in
    let m₃ : Machine = heap_done m₂ in
    let m₄ : Machine = fs_done image m₃ in
    let m₅ : Machine = disk_done image m₄ in
    let m₆ : Machine = idt_done image m₅ in
    let e₁ = log-written "Terminal initialized.\n" m₁ refl in
    let (t₂, e₂) =
      phase_lem "Setting up GDT..." (setup_gdt image) (with_screen m t₁) m₂ refl
        (λ t. unfold setup_gdt in rw e refl) in
    let (t₃, e₃) =
      phase_lem "Initializing kernel heap..." setup_heap (with_screen m₂ t₂) m₃ refl
        (λ t. unfold setup_heap in refl) in
    let (t₄, e₄) =
      phase_lem "Initializing file systems..." (setup_fs image) (with_screen m₃ t₃) m₄ refl
        (λ t. unfold setup_fs in refl) in
    let (t₅, e₅) =
      phase_lem "Searching for disks..." (setup_disk image) (with_screen m₄ t₄) m₅ refl
        (λ t. unfold setup_disk in refl) in
    let (t₆, e₆) =
      phase_lem "Initializing interrupts..." (setup_idt image) (with_screen m₅ t₅) m₆ refl
        (λ t. unfold setup_idt in refl) in
    let (t₇, e₇) =
      phase_lem "Initializing TSS..." setup_tss (with_screen m₆ t₆) (tss_done m₆) refl
        (λ t. unfold setup_tss in refl) in
    (t₇, rw e₁ (rw e₂ (rw e₃ (rw e₄ (rw e₅ (rw e₆ (rw e₇ refl)))))))
