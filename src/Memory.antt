-- ===== src/Memory.antt =====
-- memory/memory.c: the byte loops over a flat memory, which maps each address to its byte.
pub mod Laws
mod Tests
use nuts_os.Base.{
  ℕ, zero, suc, ◌+◌, ◌-◌, ◌%◌, ◌==◌, if◌then◌else◌, update, true, false, List, [], ◌∷◌,
}
use nuts_os.Base.Int.{ℤ, pos, sub_ℕ}

abbrev pub Mem : Type 0
Mem = ℕ → ℕ

-- The loop of memset, with the rounds left.
memset_loop : ℕ → ℕ → ℕ → ℕ → Mem → Mem
memset_loop zero i ptr c m = m
memset_loop (suc left) i ptr c m = memset_loop left (i + 1) ptr c (update m (ptr + i) c)

-- The fill value is a uint8_t.
unfoldable pub memset : ℕ → ℕ → ℕ → Mem → Mem
unfolding memset_loop
memset ptr c size m = memset_loop size 0 ptr (c % 256) m

-- The loop that compares while bytes are left and equal. Each operand comes with the memory that
-- it points into, since some are literals of the program.
unfoldable pub memcmp : Mem → Mem → ℕ → ℕ → ℕ → ℤ
memcmp m₁ m₂ t1 t2 zero = pos 0
memcmp m₁ m₂ t1 t2 (suc count) = elim (m₁ t1 == m₂ t2) [
  | true ↦ memcmp m₁ m₂ (t1 + 1) (t2 + 1) count
  | false ↦ sub_ℕ (m₂ t2) (m₁ t1)
]

-- The memory of a string literal, from address 0 on: its bytes and zeros behind them.
abbrev pub literal : List ℕ → Mem
literal [] i = 0
literal (c ∷ s) zero = c
literal (c ∷ s) (suc i) = literal s i

-- Copies from the second pointer to the first, upwards.
unfoldable pub memcpy : ℕ → ℕ → ℕ → Mem → Mem
memcpy t1 t2 zero m = m
memcpy t1 t2 (suc count) m = memcpy (t1 + 1) (t2 + 1) count (update m t1 (m t2))
