-- ===== src/Gdt/Tests.antt =====
-- The theorems on segment descriptors at two of the kernel's.
use nuts_os.Base.{◌≡◌, arith, refl, some}
use nuts_os.Gdt.{Gdt, GdtRaw, encode_gdt_entry}
use nuts_os.Gdt.Encoding.{raw_base, raw_limit, decode_encode}

abbrev code_segment : Gdt
code_segment = record { base = 0x12345678; limit = 0xffffffff; type = 0x9a }

abbrev code_raw : GdtRaw
code_raw = record {
  limit_low_16bits = 0xffff;
  base_low_16bits = 0x5678;
  base_mid_8bits = 0x34;
  access = 0x9a;
  limit_high_and_flags = 0xcf;
  base_high_8bits = 0x12;
}

abbrev one_mib : Gdt
one_mib = record { base = 0; limit = 0x100000; type = 0x9a }

abbrev one_mib_raw : GdtRaw
one_mib_raw = record {
  limit_low_16bits = 0;
  base_low_16bits = 0;
  base_mid_8bits = 0;
  access = 0x9a;
  limit_high_and_flags = 0x40;
  base_high_8bits = 0;
}

code_encoded : encode_gdt_entry code_segment ≡ some code_raw
unfolding encode_gdt_entry
code_encoded = refl

one_mib_encoded : encode_gdt_entry one_mib ≡ some one_mib_raw
unfolding encode_gdt_entry
one_mib_encoded = refl

decode_encode_example :
    (raw_base code_raw ≡ 0x12345678) × (raw_limit code_raw ≡ 0xffffffff) × (code_raw.access ≡ 0x9a)
decode_encode_example =
    decode_encode code_segment code_raw (omega arith) (omega arith) (omega arith) code_encoded
