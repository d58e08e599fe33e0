-- ===== src/Gdt/Encoding.antt =====
-- What the processor reads from an encoded descriptor.
use nuts_os.Base.{
  ℕ, ◌+◌, ◌*◌, ◌/◌, ◌%◌, ◌^◌, ◌<◌, ◌≡◌, ◌≢◌, ◌↔◌, ==→eq, ◌==◌, ltb, arith, refl, none, some,
  if◌then◌else◌, bit_or, true,
}
use nuts_os.Base.Bits.{bit_and_mod, passes_below, passes_below-lt}
use nuts_os.Gdt.{Gdt, GdtRaw, encode_gdt_entry, max_limit_for_byte_mode}

-- The base address of a descriptor.
abbrev pub raw_base : GdtRaw → ℕ
raw_base r = r.base_low_16bits + r.base_mid_8bits * 2 ^ 16 + r.base_high_8bits * 2 ^ 24

-- The last offset that a descriptor allows: its 20 bits, in bytes or, with the granularity flag, in
-- pages whose last byte counts.
abbrev pub raw_limit : GdtRaw → ℕ
raw_limit r =
    let field = r.limit_low_16bits + r.limit_high_and_flags % 16 * 2 ^ 16 in
    if r.limit_high_and_flags / 2 ^ 7 % 2 == 1 then field * 2 ^ 12 + 0xfff else field

byte_flags : passes_below (λ x. bit_or x 0x40 == x + 0x40) 16 ≡ true
unfolding passes_below
byte_flags = refl

page_flags : passes_below (λ x. bit_or x 0xc0 == x + 0xc0) 16 ≡ true
unfolding passes_below
page_flags = refl

high_byte : (x : ℕ) → x < 16 → (bit_or x 0x40 ≡ x + 0x40) × (bit_or x 0xc0 ≡ x + 0xc0)
high_byte x h = (
  ==→eq _ _ (passes_below-lt (λ x. bit_or x 0x40 == x + 0x40) 16 x h byte_flags),
  ==→eq _ _ (passes_below-lt (λ x. bit_or x 0xc0 == x + 0xc0) 16 x h page_flags),
)

-- The descriptor with its masks as remainders, for a limit field and its flags.
abbrev fields : Gdt → ℕ → ℕ → GdtRaw
fields g limit flags = record {
  limit_low_16bits = limit % 2 ^ 16;
  base_low_16bits = g.base % 2 ^ 16;
  base_mid_8bits = g.base / 2 ^ 16 % 2 ^ 8;
  access = g.type;
  limit_high_and_flags = limit / 2 ^ 16 % 16 + flags;
  base_high_8bits = g.base / 2 ^ 24 % 2 ^ 8;
}

encode-fields :
    (g : Gdt)
    → encode_gdt_entry g ≡ (
        if ltb max_limit_for_byte_mode g.limit
        then if g.limit % 2 ^ 12 == 0xfff then some (fields g (g.limit / 2 ^ 12) 0xc0) else none
        else some (fields g g.limit 0x40))
unfolding encode_gdt_entry
encode-fields g = ground (
  arith,
  bit_and_mod 12 g.limit,
  bit_and_mod 16 g.limit,
  bit_and_mod 16 (g.limit / 2 ^ 12),
  bit_and_mod 4 (g.limit / 2 ^ 16),
  bit_and_mod 4 (g.limit / 2 ^ 12 / 2 ^ 16),
  bit_and_mod 16 g.base,
  bit_and_mod 8 (g.base / 2 ^ 16),
  bit_and_mod 8 (g.base / 2 ^ 24),
  high_byte (g.limit / 2 ^ 16 % 16) (omega arith),
  high_byte (g.limit / 2 ^ 12 / 2 ^ 16 % 16) (omega arith),
)

fields-base :
    (g : Gdt) (limit flags : ℕ) → g.base < 2 ^ 32 → raw_base (fields g limit flags) ≡ g.base
fields-base g limit flags small = omega arith

byte_limit : (g : Gdt) → g.limit < 2 ^ 20 → raw_limit (fields g g.limit 0x40) ≡ g.limit
byte_limit g small = ground arith

page_limit :
    (g : Gdt)
    → g.limit < 2 ^ 32
    → g.limit % 2 ^ 12 ≡ 0xfff
    → raw_limit (fields g (g.limit / 2 ^ 12) 0xc0) ≡ g.limit
page_limit g small e = ground arith

-- A descriptor that encode_gdt_entry makes of a 32-bit base and a 32-bit limit other than 1 MiB
-- gives back the base, the limit and the access byte.
pub decode_encode :
    (g : Gdt) (r : GdtRaw)
    → g.base < 2 ^ 32
    → g.limit < 2 ^ 32
    → g.limit ≢ 2 ^ 20
    → encode_gdt_entry g ≡ some r
    → (raw_base r ≡ g.base) × (raw_limit r ≡ g.limit) × (r.access ≡ g.type)
decode_encode g r b l ne e = ground (
  arith,
  encode-fields g,
  fields-base g g.limit 0x40 b,
  fields-base g (g.limit / 2 ^ 12) 0xc0 b,
  byte_limit g,
  page_limit g l,
)

-- encode_gdt_entry panics exactly on the limits above 1 MiB that do not end in 0xfff.
pub encode-none_iff :
    (g : Gdt) → (encode_gdt_entry g ≡ none) ↔ ((2 ^ 20 < g.limit) × (g.limit % 2 ^ 12 ≢ 0xfff))
encode-none_iff g = ground (arith, encode-fields g)

-- A limit of exactly 1 MiB is taken for one that 20 bits hold: the descriptor's limit is 0.
pub one_mib_limit :
    (g : Gdt) (r : GdtRaw) → g.limit ≡ 2 ^ 20 → encode_gdt_entry g ≡ some r → raw_limit r ≡ 0
one_mib_limit g r e enc = ground (arith, encode-fields g)
