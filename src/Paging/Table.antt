-- ===== src/Paging/Table.antt =====
-- The entry of a page in the tables, and what mapping pages does to it.
use nuts_os.Base.{
  ℕ, zero, suc, ◌+◌, ◌-◌, ◌*◌, ◌/◌, ◌%◌, ◌^◌, ◌<◌, ◌≤◌, ◌≡◌, ◌≢◌, ◌==◌, if◌then◌else◌, ltb, leb,
  ◌&&◌, Result, Bool, Bool-cases, ◌⊎◌, inl, inr, arith, refl, update, update_ne, bit_and, bit_or,
  ok, err, einvarg, sym, ap, ◌∙◌,
}
use nuts_os.Base.Bits.{bit_and_high}
use nuts_os.Paging.{Words, entry_get_pointer, paging_set, paging_map, map_loop, map_range, map_to}

-- The table that entry `i` of a directory points to.
abbrev pub table_of : Words → ℕ → ℕ → ℕ
table_of w dir i = entry_get_pointer (w (dir + 4 * i))

-- Where the entry of a page stands.
abbrev pub slot : Words → ℕ → ℕ → ℕ
slot w dir virt = table_of w dir (virt / 2 ^ 22) + 4 * (virt / 2 ^ 12 % 1024)

-- The entry that the processor finds for a page.
abbrev pub entry_for : Words → ℕ → ℕ → ℕ
entry_for w dir virt = w (slot w dir virt)

-- A directory on a page of its own, with a table of its own for each of its entries.
pub record IsDirectory (w : Words) (dir : ℕ) : Type 0 where
  pub aligned : dir % 4096 ≡ 0
  pub apart : (i : ℕ) → i < 1024 → table_of w dir i ≢ dir
  pub own : (i j : ℕ) → i < 1024 → j < 1024 → table_of w dir i ≡ table_of w dir j → i ≡ j

pointer_aligned : (e : ℕ) → entry_get_pointer e % 4096 ≡ 0
pointer_aligned e =
    let q = e / 2 ^ 12 in
    let at : q * 2 ^ 12 + e % 2 ^ 12 ≡ e = omega arith in
    omega (
      arith,
      ap (λ k. bit_and k 0xfffff000) at,
      bit_and_high 12 0xfffff q (e % 2 ^ 12) (omega arith),
    )

set_lem :
    (w : Words) (dir virt pdesc : ℕ)
    → virt % 4096 ≡ 0
    → paging_set w dir virt pdesc ≡ (ok tt, update w (slot w dir virt) pdesc)
unfolding paging_set
set_lem w dir virt pdesc a = ground arith

module _ (w : Words) (dir : ℕ) (d : IsDirectory w dir) where
  -- No table entry stands in the directory.
  slot-ne : (virt i : ℕ) → virt < 2 ^ 32 → i < 1024 → slot w dir virt ≢ dir + 4 * i
  slot-ne virt i small below e =
      d.apart (virt / 2 ^ 22) (omega arith)
        (omega (arith, pointer_aligned (w (dir + 4 * (virt / 2 ^ 22))), d.aligned))

  -- Different pages have different entries.
  slot-injective :
      (virt virt' : ℕ)
      → virt < 2 ^ 32
      → virt' < 2 ^ 32
      → slot w dir virt ≡ slot w dir virt'
      → virt / 2 ^ 12 ≡ virt' / 2 ^ 12
  slot-injective virt virt' small small' e =
      let t = pointer_aligned (w (dir + 4 * (virt / 2 ^ 22))) in
      let t' = pointer_aligned (w (dir + 4 * (virt' / 2 ^ 22))) in
      let same : table_of w dir (virt / 2 ^ 22) ≡ table_of w dir (virt' / 2 ^ 22) = omega arith in
      let index : virt / 2 ^ 22 ≡ virt' / 2 ^ 22 =
        d.own (virt / 2 ^ 22) (virt' / 2 ^ 22) (omega arith) (omega arith) same in
      omega arith

  module _ (virt pdesc : ℕ) (small : virt < 2 ^ 32) where
    directory_kept :
        (i : ℕ) → i < 1024 → update w (slot w dir virt) pdesc (dir + 4 * i) ≡ w (dir + 4 * i)
    directory_kept i below =
        update_ne w (slot w dir virt) (dir + 4 * i) pdesc (slot-ne virt i small below)

    table_kept :
        (i : ℕ) → i < 1024 → table_of (update w (slot w dir virt) pdesc) dir i ≡ table_of w dir i
    table_kept i below = ap entry_get_pointer (directory_kept i below)

    update-IsDirectory : IsDirectory (update w (slot w dir virt) pdesc) dir
    update-IsDirectory = record {
      aligned = d.aligned;
      apart = λ i p e. d.apart i p (sym (table_kept i p) ∙ e);
      own = λ i j p q e. d.own i j p q (sym (table_kept i p) ∙ e ∙ table_kept j q);
    }

    update-entry_for :
        (virt' : ℕ)
        → virt' < 2 ^ 32
        → entry_for (update w (slot w dir virt) pdesc) dir virt'
          ≡ (if virt' / 2 ^ 12 == virt / 2 ^ 12 then pdesc else entry_for w dir virt')
    update-entry_for virt' small' = ground (
      arith,
      ap (λ t. t + 4 * (virt' / 2 ^ 12 % 1024)) (table_kept (virt' / 2 ^ 22) (omega arith)),
      slot-injective virt virt' small small',
      same,
    )
      where
        same : virt' / 2 ^ 12 ≡ virt / 2 ^ 12 → slot w dir virt ≡ slot w dir virt'
        same e =
            let index : virt / 2 ^ 22 ≡ virt' / 2 ^ 22 = omega arith in
            omega (arith, ap (table_of w dir) index)

-- What mapping `count` pages from `virt` on to the pages from `phys` on leaves: the entries of
-- these pages, those of all other pages as they were, and the directory in order.
pub record Mapped (w w' : Words) (dir virt phys count flags : ℕ) : Type 0 where
  pub valid : IsDirectory w' dir
  pub entries :
      (v : ℕ)
      → v < 2 ^ 32
      → entry_for w' dir v ≡ (
          if leb (virt / 2 ^ 12) (v / 2 ^ 12) && ltb (v / 2 ^ 12) (virt / 2 ^ 12 + count)
          then bit_or (phys + (v / 2 ^ 12 - virt / 2 ^ 12) * 4096) flags
          else entry_for w dir v)

map_lem :
    (w : Words) (dir virt phys flags : ℕ)
    → virt % 4096 ≡ 0
    → phys % 4096 ≡ 0
    → paging_map w dir virt phys flags ≡ (ok tt, update w (slot w dir virt) (bit_or phys flags))
unfolding paging_map
map_lem w dir virt phys flags a b = ground (arith, set_lem w dir virt (bit_or phys flags) a)

map_loop-suc :
    (w : Words) (dir virt phys flags count : ℕ) (res : Result (Unit {0}))
    → virt % 4096 ≡ 0
    → phys % 4096 ≡ 0
    → map_loop (suc count) w dir virt phys flags res
      ≡ map_loop count
          (update w (slot w dir virt) (bit_or phys flags))
          dir
          ((virt + 4096) % 2 ^ 32)
          ((phys + 4096) % 2 ^ 32)
          flags
          (ok tt)
unfolding map_loop
map_loop-suc w dir virt phys flags count res a b =
    let e = map_lem w dir virt phys flags a b in
    rw (e, map_loop)
      (ap
        (λ (p : Result (Unit {0}) × Words).
          map_loop count p.1 dir ((virt + 4096) % 2 ^ 32) ((phys + 4096) % 2 ^ 32) flags (ok tt))
        e)

no_wrap :
    (x count : ℕ) → x + suc count * 4096 ≤ 2 ^ 32 → (x + 4096) % 2 ^ 32 + count * 4096 ≤ 2 ^ 32
no_wrap x count small = omega arith

-- The entry `z` of page `v`, first mapped as the first page and then as one of the others.
entries_step :
    (v virt phys count flags x y z : ℕ)
    → virt + suc count * 4096 ≤ 2 ^ 32
    → phys + suc count * 4096 ≤ 2 ^ 32
    → x ≡ (
        if leb ((virt + 4096) % 2 ^ 32 / 2 ^ 12) v
          && ltb v ((virt + 4096) % 2 ^ 32 / 2 ^ 12 + count)
        then bit_or ((phys + 4096) % 2 ^ 32 + (v - (virt + 4096) % 2 ^ 32 / 2 ^ 12) * 4096) flags
        else y)
    → y ≡ (if v == virt / 2 ^ 12 then bit_or phys flags else z)
    → x ≡ (
        if leb (virt / 2 ^ 12) v && ltb v (virt / 2 ^ 12 + suc count)
        then bit_or (phys + (v - virt / 2 ^ 12) * 4096) flags
        else z)
entries_step v virt phys zero flags x y z small small' e e' = ground arith
entries_step v virt phys (suc count) flags x y z small small' e e' =
    let next : (virt + 4096) % 2 ^ 32 ≡ virt + 4096 = omega arith in
    let next' : (phys + 4096) % 2 ^ 32 ≡ phys + 4096 = omega arith in ground arith

map_loop-Mapped :
    (count : ℕ) (w : Words) (dir virt phys flags : ℕ)
    → IsDirectory w dir
    → virt % 4096 ≡ 0
    → phys % 4096 ≡ 0
    → virt + count * 4096 ≤ 2 ^ 32
    → phys + count * 4096 ≤ 2 ^ 32
    → (w' : Words) × (map_loop count w dir virt phys flags (ok tt) ≡ (ok tt, w'))
      × Mapped w w' dir virt phys count flags
map_loop-Mapped zero w dir virt phys flags d a b small small' =
    (w, unfold map_loop in refl, record { valid = d; entries = λ v p. ground arith })
map_loop-Mapped (suc count) w dir virt phys flags d a b small small' =
    let w₁ = update w (slot w dir virt) (bit_or phys flags) in
    let low : virt < 2 ^ 32 = omega arith in
    let d₁ = update-IsDirectory w dir d virt (bit_or phys flags) low in
    let (w', e, m) =
      map_loop-Mapped count w₁ dir ((virt + 4096) % 2 ^ 32) ((phys + 4096) % 2 ^ 32) flags d₁
        (omega arith) (omega arith) (no_wrap virt count small) (no_wrap phys count small') in
    (
      w',
      map_loop-suc w dir virt phys flags count (ok tt) a b ∙ e,
      record {
        valid = m.valid;
        entries = λ v p.
            entries_step (v / 2 ^ 12) virt phys count flags _ _ _ small small' (m.entries v p)
              (update-entry_for w dir d virt (bit_or phys flags) low v p);
      },
    )

-- On a directory with a table of its own for each entry, paging_map_range on aligned addresses,
-- with both ranges inside the address space, succeeds and maps each page of the virtual range to
-- its page of the physical range, and no other page.
pub map_range-Mapped :
    (count : ℕ) (w : Words) (dir virt phys flags : ℕ)
    → IsDirectory w dir
    → virt % 4096 ≡ 0
    → phys % 4096 ≡ 0
    → virt + count * 4096 ≤ 2 ^ 32
    → phys + count * 4096 ≤ 2 ^ 32
    → (w' : Words) × (map_range w dir virt phys count flags ≡ (ok tt, w'))
      × Mapped w w' dir virt phys count flags
unfolding map_range
map_range-Mapped = map_loop-Mapped

-- On a directory with a table of its own for each entry, and with both ranges inside the address
-- space, paging_map_to maps every page of the interval from `phys` to `phys_end`, and refuses
-- unaligned addresses and an interval that ends before it starts with -EINVARG, memory as it was.
pub map_to_lem :
    (w : Words) (dir virt phys phys_end flags : ℕ)
    → IsDirectory w dir
    → virt + (phys_end - phys) ≤ 2 ^ 32
    → phys_end < 2 ^ 32
    → ((virt % 4096 ≡ 0) × (phys % 4096 ≡ 0) × (phys_end % 4096 ≡ 0) × (phys ≤ phys_end))
        × ((w' : Words) × (map_to w dir virt phys phys_end flags ≡ (ok tt, w'))
            × Mapped w w' dir virt phys ((phys_end - phys) / 4096) flags)
      ⊎ (¬ ((virt % 4096 ≡ 0) × (phys % 4096 ≡ 0) × (phys_end % 4096 ≡ 0) × (phys ≤ phys_end)))
        × (map_to w dir virt phys phys_end flags ≡ (err einvarg, w))
unfolding map_to
map_to_lem w dir virt phys phys_end flags d small small' =
    elim (Bool-cases (aligned && leb phys phys_end)) [
      | inl good ↦
          let m =
            map_range-Mapped ((phys_end - phys) / 4096) w dir virt phys flags d (ground arith)
              (ground arith) (omega arith) (ground arith) in
          inl (ground arith, (m.0, ground arith, m.2))
      | inr bad ↦ inr (ground arith, ground arith)
    ]
  where
    aligned : Bool
    aligned = virt % 4096 == 0 && phys % 4096 == 0 && phys_end % 4096 == 0
