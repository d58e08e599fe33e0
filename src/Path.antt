-- ===== src/Path.antt =====
-- fs/path_parser.c: paths such as 0:/bin/empty.bin, taken apart into a list on the kernel's heap.
-- Structures are kept by address, 0 being the null pointer; what kzalloc returns is not tested
-- where the source does not test it.
pub mod Parts
pub mod Extract
pub mod Buffer
pub mod Step
pub mod Parse
pub mod Valid
pub mod Whole
mod Tests
use nuts_os.Base.{
  ℕ, zero, suc, ◌+◌, ◌-◌, ◌*◌, ◌^◌, ◌==◌, not, ◌||◌, ◌&&◌, if◌then◌else◌, ltb, leb, update, Option,
  none, some, Bool, true, false, [], ◌∷◌,
}
use nuts_os.Base.Int.{ℤ, pos, negsuc, is_zero}
use nuts_os.Memory.{Mem, memcmp, literal}
use nuts_os.Heap.{Heap}
use nuts_os.Heap.Kernel.{kzalloc, kfree}
use nuts_os.Heap.Store.{Store, zalloc}
use nuts_os.Text.{strlen, strnlen, isdigit, ctoi}

abbrev pub max_path : ℕ
max_path = 256

pub record PathRoot : Type 0 where
  pub drive_no : ℕ
  pub first : ℕ

pub record PathPart : Type 0 where
  pub part : ℕ
  pub next : ℕ

-- The store, with the structures that stand at its addresses.
pub record Paths : Type 0 where
  pub store : Store
  pub root_at : ℕ → PathRoot
  pub part_at : ℕ → PathPart

unfoldable pub is_path_valid : Mem → ℕ → Bool
is_path_valid m filename =
    leb 3 (strnlen m filename max_path)
    && isdigit (m filename)
    && is_zero (memcmp m (literal (b':' ∷ b'/' ∷ [])) (filename + 1) 0 2)

-- The drive and the path behind it; none is -EBADPATH.
unfoldable pub extract_drive_from_path : Mem → ℕ → Option (ℤ × ℕ)
extract_drive_from_path m path =
    if not (is_path_valid m path) then none else some (ctoi (m path), path + 3)

unfoldable pub create_root : ℕ → Paths → ℕ × Paths
create_root drive_number s =
    let (path_r, store) = zalloc s.store 8 in
    (
      path_r,
      record s {
        store = store;
        root_at = update s.root_at path_r (record { drive_no = drive_number; first = 0 });
      },
    )

-- The loop of pathparser_extract_next_path_part: the path, the bytes copied and memory. `none` is
-- a lack of fuel.
unfoldable pub extract_loop : ℕ → ℕ → ℕ → ℕ → Mem → Option (ℕ × ℕ × Mem)
extract_loop zero path result i m = none
extract_loop (suc fuel) path result i m = elim (not (m path == b'/') && not (m path == 0)) [
  | true ↦ extract_loop fuel (path + 1) result (i + 1) (update m (result + i) (m path))
  | false ↦ some (path, i, m)
]

-- A null result where nothing was copied, once the buffer is released.
unfoldable pub finish_part : ℕ → ℕ × ℕ × Mem → Heap → Option (ℕ × ℕ × Store)
finish_part result (path, i, m) heap =
    let path' = if m path == b'/' then path + 1 else path in
    if i == 0
    then elim (kfree heap result) [
      | none ↦ none
      | some heap' ↦ some (0, path', record { heap = heap'; memory = m })
    ]
    else some (result, path', record { heap = heap; memory = m })

unfoldable pub extract_next_path_part : ℕ → ℕ → Store → Option (ℕ × ℕ × Store)
unfolding extract_loop finish_part
extract_next_path_part fuel path s =
    let (result, s') = zalloc s max_path in
    elim (extract_loop fuel path result 0 s'.memory) [
      | none ↦ none
      | some done ↦ finish_part result done s'.heap
    ]

-- The new part at the end of the list.
unfoldable pub append_part : ℕ → ℕ → Paths → ℕ × Paths
append_part last_part path_part_str s =
    let (part, store) = zalloc s.store 8 in
    let made = update s.part_at part (record { part = path_part_str; next = 0 }) in
    let linked = update made last_part (record (made last_part) { next = part }) in
    (part, record s { store = store; part_at = if last_part == 0 then made else linked })

-- The part, the rest of the path and the state.
unfoldable pub parse_path_part : ℕ → ℕ → ℕ → Paths → Option (ℕ × ℕ × Paths)
unfolding append_part
parse_path_part fuel last_part path s = elim (extract_next_path_part fuel path s.store) [
  | none ↦ none
  | some (path_part_str, path', store) ↦
      let s' = record s { store = store } in
      if path_part_str == 0
      then some (0, path', s')
      else let (part, s'') = append_part last_part path_part_str s' in some (part, path', s'')
]

-- The loop of pathparser_parse, after a part.
unfoldable pub parse_loop : ℕ → ℕ → ℕ → ℕ → Paths → Option Paths
parse_loop zero fuel part path s = none
parse_loop (suc rounds) fuel part path s = elim (parse_path_part fuel part path s) [
  | none ↦ none
  | some (next, path', s') ↦ elim (next == 0) [
    | true ↦ some s'
    | false ↦ parse_loop rounds fuel next path' s'
  ]
]

unfoldable pub parse_first : ℕ → ℕ → Option (ℕ × ℕ × Paths) → Option (ℕ × Paths)
parse_first fuel root none = none
parse_first fuel root (some (first_part, path, s)) =
    if first_part == 0
    then some (root, s)
    else let linked = record (s.root_at root) { first = first_part } in
      let s' = record s { root_at = update s.root_at root linked } in
      elim (parse_loop fuel fuel first_part path s') [ none ↦ none | some s'' ↦ some (root, s'') ]

unfoldable pub parse_parts : ℕ → Option (ℤ × ℕ) → Paths → Option (ℕ × Paths)
parse_parts fuel none s = some (0, s)
parse_parts fuel (some (negsuc _, path)) s = some (0, s)
parse_parts fuel (some (pos drive_no, path)) s =
    let (root, s') = create_root drive_no s in
    if root == 0 then some (0, s') else parse_first fuel root (parse_path_part fuel 0 path s')

-- The address of the root, or 0 for a path that is refused.
unfoldable pub parse : ℕ → ℕ → Paths → Option (ℕ × Paths)
unfolding parse_parts parse_first
parse fuel path s = elim (strlen fuel s.store.memory path) [
  | none ↦ none
  | some len ↦
      if ltb max_path len
      then some (0, s)
      else parse_parts fuel (extract_drive_from_path s.store.memory path) s
]

-- The loop of pathparser_free; `none` is fuel, or a pointer below the heap.
free_loop : ℕ → ℕ → (ℕ → PathPart) → Heap → Option Heap
free_loop zero part part_at heap = none
free_loop (suc fuel) part part_at heap = elim (part == 0) [
  | true ↦ some heap
  | false ↦ elim (kfree heap (part_at part).part) [
    | none ↦ none
    | some heap₁ ↦ elim (kfree heap₁ part) [
      | none ↦ none
      | some heap₂ ↦ free_loop fuel (part_at part).next part_at heap₂
    ]
  ]
]

unfoldable pub release_path : ℕ → ℕ → Paths → Option Paths
unfolding free_loop
release_path fuel root s = elim (free_loop fuel (s.root_at root).first s.part_at s.store.heap) [
  | none ↦ none
  | some heap ↦ elim (kfree heap root) [
    | none ↦ none
    | some heap' ↦ some (record s { store = record { heap = heap'; memory = s.store.memory } })
  ]
]
