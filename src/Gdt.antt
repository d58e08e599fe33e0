-- ===== src/Gdt.antt =====
-- gdt/gdt.c: the encoding of segment descriptors.
pub mod Encoding
mod Tests
use nuts_os.Base.{
  ℕ, ◌+◌, ◌-◌, ◌*◌, ◌/◌, ◌%◌, ◌^◌, Bool, true, false, not, ◌&&◌, Option, none, some, List, [], ◌∷◌,
  ltb, ◌==◌, if◌then◌else◌, bit_and, bit_or,
}

pub record Gdt : Type 0 where
  pub base : ℕ
  pub limit : ℕ
  pub type : ℕ

-- The packed descriptor of 8 bytes.
pub record GdtRaw : Type 0 where
  pub limit_low_16bits : ℕ
  pub base_low_16bits : ℕ
  pub base_mid_8bits : ℕ
  pub access : ℕ
  pub limit_high_and_flags : ℕ
  pub base_high_8bits : ℕ

abbrev pub flags_4kb_blocks : ℕ
flags_4kb_blocks = 0b1000

abbrev pub flags_32bit_segment : ℕ
flags_32bit_segment = 0b0100

-- The macro has no parentheses; in the comparisons below `+` binds first all the same.
abbrev pub max_limit_for_byte_mode : ℕ
max_limit_for_byte_mode = 0xfffff + 1

-- `none` is the panic, after which the kernel does not go on.
unfoldable pub encode_gdt_entry : Gdt → Option GdtRaw
encode_gdt_entry source =
    if ltb max_limit_for_byte_mode source.limit && not (bit_and source.limit 0xfff == 0xfff)
    then none
    else let pages = ltb max_limit_for_byte_mode source.limit in
      let flags =
        if pages then bit_or flags_32bit_segment flags_4kb_blocks else flags_32bit_segment in
      let limit = if pages then source.limit / 2 ^ 12 else source.limit in
      some (record {
        limit_low_16bits = bit_and limit 0xffff;
        base_low_16bits = bit_and source.base 0xffff;
        base_mid_8bits = bit_and (source.base / 2 ^ 16) 0xff;
        access = source.type;
        limit_high_and_flags =
            bit_or (bit_and (limit / 2 ^ 16) 0x0f) (bit_and (flags * 2 ^ 4) 0xf0);
        base_high_8bits = bit_and (source.base / 2 ^ 24) 0xff;
      })

-- The entries in order; each is written whole, so what the memset before cleared does not matter.
unfoldable pub get_raw_gdt_struct : List Gdt → Option (List GdtRaw)
get_raw_gdt_struct [] = some []
get_raw_gdt_struct (entry ∷ rest) = elim (encode_gdt_entry entry) [
  | none ↦ none
  | some raw ↦ elim (get_raw_gdt_struct rest) [ none ↦ none | some raws ↦ some (raw ∷ raws) ]
]

-- The access bits of gdt.h.
abbrev pub seg_rw : ℕ → ℕ
seg_rw x = x * 2 ^ 1

abbrev pub seg_ex : ℕ → ℕ
seg_ex x = x * 2 ^ 3

abbrev pub seg_desc : ℕ → ℕ
seg_desc x = x * 2 ^ 4

abbrev pub seg_priv : ℕ → ℕ
seg_priv x = bit_and x 0b111 * 2 ^ 5

abbrev pub seg_pres : ℕ → ℕ
seg_pres x = x * 2 ^ 7

abbrev pub tss_32bit : ℕ → ℕ
tss_32bit x = x * 2 ^ 3

abbrev pub tss_size : ℕ
tss_size = 104

-- The table of kernel.c, with the address of its task state segment.
unfoldable pub gdt : ℕ → List Gdt
gdt tss =
    record { base = 0; limit = 0; type = 0 }
    ∷ record {
      base = 0;
      limit = 0xffffffff;
      type = bit_or (bit_or (bit_or (seg_rw 1) (seg_ex 1)) (seg_desc 1)) (seg_pres 1);
    }
    ∷ record {
      base = 0;
      limit = 0xffffffff;
      type = bit_or (bit_or (seg_rw 1) (seg_desc 1)) (seg_pres 1);
    }
    ∷ record {
      base = 0;
      limit = 0xffffffff;
      type = bit_or (bit_or (bit_or (seg_desc 1) (seg_ex 1)) (seg_priv 3)) (seg_pres 1);
    }
    ∷ record {
      base = 0;
      limit = 0xffffffff;
      type = bit_or (bit_or (bit_or (seg_desc 1) (seg_rw 1)) (seg_priv 3)) (seg_pres 1);
    }
    ∷ record {
      base = tss;
      limit = tss_size - 1;
      type = bit_or (bit_or (bit_or (seg_priv 3) (seg_pres 1)) (tss_32bit 1)) 1;
    }
    ∷ []
