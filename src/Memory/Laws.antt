-- ===== src/Memory/Laws.antt =====
-- What the byte loops of memory.c do to each address.
use nuts_os.Base.{
  ℕ, zero, suc, ◌+◌, ◌%◌, ◌<◌, ◌≤◌, ◌≡◌, ◌⊎◌, ◌↔◌, ltb, leb, ◌&&◌, if◌then◌else◌, update, arith,
  refl,
}
use nuts_os.Base.Int.{pos, sub_ℕ-zero}
use nuts_os.Memory.{Mem, memset, memset_loop, memcmp, memcpy}

memset_loop_at :
    (left i ptr c : ℕ) (m : Mem) (a : ℕ)
    → memset_loop left i ptr c m a ≡ (if leb (ptr + i) a && ltb a (ptr + i + left) then c else m a)
unfolding memset_loop
memset_loop_at zero i ptr c m a = ground arith
memset_loop_at (suc left) i ptr c m a =
    ground (arith, memset_loop_at left (i + 1) ptr c (update m (ptr + i) c) a)

-- memset writes the low byte of `c` at the `size` addresses from `ptr`, and no other address.
pub memset_at :
    (ptr c size : ℕ) (m : Mem) (a : ℕ)
    → memset ptr c size m a ≡ (if leb ptr a && ltb a (ptr + size) then c % 256 else m a)
unfolding memset
memset_at ptr c size m a = ground (arith, memset_loop_at size 0 ptr (c % 256) m a)

-- Outside its target memcpy changes nothing.
pub memcpy_outside :
    (t1 t2 count : ℕ) (m : Mem) (a : ℕ) → (a < t1) ⊎ (t1 + count ≤ a) → memcpy t1 t2 count m a ≡ m a
unfolding memcpy
memcpy_outside t1 t2 zero m a h = refl
memcpy_outside t1 t2 (suc count) m a h =
    ground (arith, memcpy_outside (t1 + 1) (t2 + 1) count (update m t1 (m t2)) a)

-- Where the target starts at or below the source, or the two do not overlap, memcpy leaves at the
-- target what stood at the source before.
pub memcpy_inside :
    (t1 t2 count : ℕ) (m : Mem) (i : ℕ)
    → i < count
    → (t1 ≤ t2) ⊎ (t2 + count ≤ t1)
    → memcpy t1 t2 count m (t1 + i) ≡ m (t2 + i)
unfolding memcpy
memcpy_inside t1 t2 zero m i h d = absurd (omega arith)
memcpy_inside t1 t2 (suc count) m zero h d =
    ground (arith, memcpy_outside (t1 + 1) (t2 + 1) count (update m t1 (m t2)) (t1 + zero))
memcpy_inside t1 t2 (suc count) m (suc i) h d =
    ground (arith, memcpy_inside (t1 + 1) (t2 + 1) count (update m t1 (m t2)) i)

zero-memcmp :
    (m₁ m₂ : Mem) (t1 t2 count : ℕ)
    → ((i : ℕ) → i < count → m₁ (t1 + i) ≡ m₂ (t2 + i))
    → memcmp m₁ m₂ t1 t2 count ≡ pos 0
unfolding memcmp
zero-memcmp m₁ m₂ t1 t2 zero same = refl
zero-memcmp m₁ m₂ t1 t2 (suc count) same = ground (
  arith,
  same 0 (omega arith),
  zero-memcmp m₁ m₂ (t1 + 1) (t2 + 1) count λ i h. ground (arith, same (suc i) (omega arith)),
)

memcmp-zero :
    (m₁ m₂ : Mem) (t1 t2 count : ℕ)
    → memcmp m₁ m₂ t1 t2 count ≡ pos 0
    → (i : ℕ) → i < count
    → m₁ (t1 + i) ≡ m₂ (t2 + i)
unfolding memcmp
memcmp-zero m₁ m₂ t1 t2 zero e i h = absurd (omega arith)
memcmp-zero m₁ m₂ t1 t2 (suc count) e zero h = ground (arith, sub_ℕ-zero (m₂ t2) (m₁ t1))
memcmp-zero m₁ m₂ t1 t2 (suc count) e (suc i) h = ground (
  arith,
  sub_ℕ-zero (m₂ t2) (m₁ t1),
  λ (z : memcmp m₁ m₂ (t1 + 1) (t2 + 1) count ≡ pos 0).
      memcmp-zero m₁ m₂ (t1 + 1) (t2 + 1) count z i (omega arith),
)

-- memcmp returns zero exactly if the two ranges agree byte by byte.
pub memcmp-zero_iff :
    (m₁ m₂ : Mem) (t1 t2 count : ℕ)
    → (memcmp m₁ m₂ t1 t2 count ≡ pos 0) ↔ ((i : ℕ) → i < count → m₁ (t1 + i) ≡ m₂ (t2 + i))
memcmp-zero_iff m₁ m₂ t1 t2 count = (memcmp-zero m₁ m₂ t1 t2 count, zero-memcmp m₁ m₂ t1 t2 count)
