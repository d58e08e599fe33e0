-- ===== src/Paging/Translate.antt =====
-- What the processor makes of an address, by the entry of its page.
use nuts_os.Base.{ℕ, ◌+◌, ◌%◌, ◌^◌, ◌<◌, ◌≡◌, bit_or, ap, ◌∙◌}
use nuts_os.Paging.{Words, entry_get_pointer}
use nuts_os.Paging.Table.{entry_for}
use nuts_os.Paging.Fill.{entry_pointer}

-- The physical address behind a virtual one.
abbrev pub translate : Words → ℕ → ℕ → ℕ
translate w dir v = entry_get_pointer (entry_for w dir v) + v % 2 ^ 12

-- The address on a page that is mapped, with flags that fit below its address.
pub translate_lem :
    (w : Words) (dir v page flags : ℕ)
    → entry_for w dir v ≡ bit_or page flags
    → page % 4096 ≡ 0
    → page < 2 ^ 32
    → flags < 4096
    → translate w dir v ≡ page + v % 2 ^ 12
translate_lem w dir v page flags e aligned small low =
    ap (λ x. entry_get_pointer x + v % 2 ^ 12) e
    ∙ ap (λ x. x + v % 2 ^ 12) (entry_pointer page flags aligned small low)
