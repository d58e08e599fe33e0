-- ===== src/Paging/Align.antt =====
-- Page alignment.
use nuts_os.Base.{ℕ, ◌-◌, ◌^◌, ◌≤◌, ◌≡◌, arith, true}
use nuts_os.Paging.{align_address, is_aligned}

-- paging_align_address returns the least aligned address that is not below its argument, for every
-- pointer up to the last page boundary of the address space.
pub align_address_lem :
    (p : ℕ)
    → p ≤ 2 ^ 32 - 4096
    → (is_aligned (align_address p) ≡ true)
      × (p ≤ align_address p)
      × ((q : ℕ) → p ≤ q → is_aligned q ≡ true → align_address p ≤ q)
unfolding align_address is_aligned
align_address_lem p h = (ground arith, ground arith, λ q le a. ground arith)
