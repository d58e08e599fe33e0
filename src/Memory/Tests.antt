-- ===== src/Memory/Tests.antt =====
-- The theorems on the byte loops at small memories.
use nuts_os.Base.{ℕ, ◌+◌, ◌<◌, ◌≡◌, ◌↔◌}
use nuts_os.Base.Int.{pos}
use nuts_os.Memory.{memcmp}
use nuts_os.Memory.Laws.{memcmp-zero_iff}

memcmp-zero_iff_example :
    (memcmp (λ a. a) (λ a. a + 1) 3 2 4 ≡ pos 0) ↔ ((i : ℕ) → i < 4 → 3 + i ≡ 2 + i + 1)
memcmp-zero_iff_example = memcmp-zero_iff (λ a. a) (λ a. a + 1) 3 2 4
