-- ===== src/Path/Tests.antt =====
-- The theorems on paths at 0:/bin/a, on a heap of 16 free blocks.
use nuts_os.Base.{ℕ, ◌-◌, ◌≡◌, List, [], ◌∷◌, some, arith, refl, leb, if◌then◌else◌}
use nuts_os.Memory.{literal}
use nuts_os.Text.{isdigit}
use nuts_os.Heap.Store.{IsUsable, free_blocks, count_free}
use nuts_os.Path.{Paths, parse}
use nuts_os.Path.Parts.{Spells, parts}
use nuts_os.Path.Buffer.{IsText}
use nuts_os.Path.Whole.{Parsed, parse-Parsed}

abbrev rest : List ℕ
rest = b'b' ∷ b'i' ∷ b'n' ∷ b'/' ∷ b'a' ∷ []

abbrev name : List ℕ
name = b'0' ∷ b':' ∷ b'/' ∷ rest

abbrev paths : Paths
paths = record {
  store = record {
    heap = record { table = record { entries = λ _. 0; total = 16 }; saddr = 0x01000000 };
    memory = λ a. if leb 0x9000 a then literal name (a - 0x9000) else 0;
  };
  root_at = λ _. record { drive_no = 0; first = 0 };
  part_at = λ _. record { part = 0; next = 0 };
}

paths-IsUsable : IsUsable paths.store.heap
paths-IsUsable = record { start = omega arith; fits = omega arith; small = omega arith }

sixteen : free_blocks paths.store.heap ≡ 16
unfolding count_free
sixteen = refl

name-Spells : Spells paths.store.memory 0x9000 name
name-Spells = omega arith

name-IsText : IsText paths.store 0x9000 name
name-IsText = record { spells = name-Spells; safe = λ k h. ground arith }

two_parts : parts rest ≡ (b'b' ∷ b'i' ∷ b'n' ∷ []) ∷ (b'a' ∷ []) ∷ []
two_parts = refl

parse-Parsed_example :
    (root : ℕ) × (s' : Paths) × (parse 20 0x9000 paths ≡ some (root, s'))
    × Parsed paths s' root (b'0' - b'0') (parts rest)
unfolding isdigit
parse-Parsed_example =
    parse-Parsed 20 0x9000 b'0' b':' b'/' rest paths paths-IsUsable (omega (arith, sixteen))
      name-IsText refl (omega arith) (omega arith)
