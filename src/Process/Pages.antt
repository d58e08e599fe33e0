-- ===== src/Process/Pages.antt =====
-- process_map_memory and process_validate_pointer: what a process may pass is mapped.
use nuts_os.Base.{
  ℕ, ◌+◌, ◌-◌, ◌*◌, ◌/◌, ◌%◌, ◌^◌, ◌<◌, ◌≤◌, ◌≡◌, ◌⊎◌, ◌&&◌, ltb, if◌then◌else◌, leb, true, arith,
  refl, Bool-cases, inl, inr, ap, ◌∙◌, ok, bit_or,
}
use mathlib.Core.Path.{subst}
use nuts_os.Paging.{Words, map_to, align_address}
use nuts_os.Paging.Table.{IsDirectory, Mapped, entry_for, map_to_lem}
use nuts_os.Task.{Tasks}
use nuts_os.Process.{
  Process, directory_of, process_map_binary, process_map_memory, then_stack,
  process_validate_pointer, page_flags,
}

-- The pages that `size` bytes take.
abbrev pub pages : ℕ → ℕ
pages size = (size + 4095) / 4096

align_lem :
    (phys size : ℕ)
    → phys % 4096 ≡ 0
    → phys + size + 4096 < 2 ^ 32
    → align_address ((phys + size) % 2 ^ 32) ≡ phys + pages size * 4096
unfolding align_address
align_lem phys size a small = ground arith

pub map_whole :
    (w : Words) (dir virt phys size flags : ℕ)
    → IsDirectory w dir
    → virt % 4096 ≡ 0
    → phys % 4096 ≡ 0
    → virt + size + 4096 ≤ 2 ^ 32
    → phys + size + 4096 < 2 ^ 32
    → (w' : Words) × (map_to w dir virt phys (align_address ((phys + size) % 2 ^ 32)) flags
        ≡ (ok tt, w'))
      × Mapped w w' dir virt phys (pages size) flags
map_whole w dir virt phys size flags d a a' small small' =
    let end = phys + pages size * 4096 in
    let e = align_lem phys size a' small' in
    let count : (end - phys) / 4096 ≡ pages size = omega arith in
    elim (map_to_lem w dir virt phys end flags d (omega arith) (omega arith)) [
      | inl (_, (w', done, m)) ↦ (
        w',
        ap (λ x. map_to w dir virt phys x flags) e ∙ done,
        subst (λ n. Mapped w w' dir virt phys n flags) count m,
      )
      | inr (bad, _) ↦ absurd (bad (a, a', omega arith, omega arith))
    ]

-- A process whose program and stack are loaded at their virtual addresses.
pub record IsLoaded (p : Process) : Type 0 where
  pub at : p.ptr_virt ≡ 0x400000
  pub stack_at : p.stack_virt ≡ 0x3FB000
  pub stack_pages : p.stack_size ≡ 16384
  pub aligned : p.ptr % 4096 ≡ 0
  pub stack_aligned : p.stack % 4096 ≡ 0
  pub fits : p.ptr + p.size + 4096 < 2 ^ 32
  pub fits_virt : 0x400000 + p.size + 4096 ≤ 2 ^ 32
  pub stack_fits : p.stack + 16384 + 4096 < 2 ^ 32

-- The page of the program or of the stack that a virtual address stands for.
abbrev pub page_of : Process → ℕ → ℕ
page_of p a =
    if leb 0x400000 a
    then p.ptr + (a / 4096 - 0x400) * 4096
    else p.stack + (a / 4096 - 0x3FB) * 4096

in_program :
    (p : Process) (a : ℕ)
    → IsLoaded p
    → process_validate_pointer p a ≡ true
    → ((0x400000 ≤ a) × (a < 0x400000 + p.size)) ⊎ ((0x3FB000 ≤ a) × (a < 0x3FF000))
unfolding process_validate_pointer
in_program p a l v = elim (Bool-cases (leb 0x400000 a)) [
  | inl high ↦ inl (ground arith, ground arith)
  | inr low ↦ inr (ground arith, ground arith)
]

-- What the processor finds for an address: the page of the program or of the stack, writeable, and
-- `other` for the rest.
abbrev pub space : Process → ℕ → ℕ → ℕ
space p v other =
    let page = v / 2 ^ 12 in
    if leb 0x400 page && ltb page (0x400 + pages p.size)
    then bit_or (p.ptr + (page - 0x400) * 4096) 0b111
    else if leb 0x3FB page && ltb page 0x3FF
    then bit_or (p.stack + (page - 0x3FB) * 4096) 0b111
    else other

pub process_map_memory-entries :
    (p : Process) (tasks : Tasks) (w : Words)
    → IsLoaded p
    → IsDirectory w (directory_of p tasks)
    → (w' : Words) × (process_map_memory p tasks w ≡ (ok tt, w'))
      × IsDirectory w' (directory_of p tasks)
      × ((v : ℕ)
          → v < 2 ^ 32
          → entry_for w' (directory_of p tasks) v
            ≡ space p v (entry_for w (directory_of p tasks) v))
unfolding process_map_memory process_map_binary then_stack
process_map_memory-entries p tasks w l d =
    let dir = directory_of p tasks in
    let (w₁, e₁, m₁) =
      map_whole w dir 0x400000 p.ptr p.size page_flags d refl l.aligned l.fits_virt l.fits in
    let (w₂, e₂, m₂) =
      map_whole w₁ dir 0x3FB000 p.stack 16384 page_flags m₁.valid refl l.stack_aligned (omega arith)
        l.stack_fits in
    (
      w₂,
      ap (then_stack p tasks) e₁ ∙ e₂,
      m₂.valid,
      λ v small. ground (arith, m₂.entries v small, m₁.entries v small),
    )

-- For a process with its program at 0x400000 and its stack of 16 KiB at 0x3FB000, both in memory
-- that starts on a page and, with a page behind it, fits into the address space, and whose task has
-- a directory with a table of its own for each entry: process_map_memory succeeds, and every
-- address that process_validate_pointer accepts is then mapped to its page of the program or of the
-- stack, for the user's reads and writes.
pub validated_is_mapped :
    (p : Process) (tasks : Tasks) (w : Words)
    → IsLoaded p
    → IsDirectory w (directory_of p tasks)
    → (w' : Words) × (process_map_memory p tasks w ≡ (ok tt, w'))
      × IsDirectory w' (directory_of p tasks)
      × ((a : ℕ)
          → process_validate_pointer p a ≡ true
          → entry_for w' (directory_of p tasks) a ≡ bit_or (page_of p a) 0b111)
validated_is_mapped p tasks w l d =
    let (w', e, valid, entries) = process_map_memory-entries p tasks w l d in
    (
      w',
      e,
      valid,
      λ a v.
          let near = in_program p a l v in
          let small : a < 2 ^ 32 = ground (arith, near, l.fits_virt) in
          ground (arith, near, entries a small),
    )
