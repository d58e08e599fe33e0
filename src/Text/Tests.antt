-- ===== src/Text/Tests.antt =====
-- The theorems on strings at short ones.
use nuts_os.Base.{◌+◌, ◌≡◌, ◌↔◌, ◌==◌, [], ◌∷◌, arith, inl, refl, if◌then◌else◌}
use nuts_os.Base.Int.{pos}
use nuts_os.Memory.{Mem, memcpy, literal}
use nuts_os.Text.{strncmp, strncpy}
use nuts_os.Text.Length.{IsString, IsNonzero}
use nuts_os.Text.Compare.{Agree, strncmp-zero_iff}
use nuts_os.Text.Copy.{strncpy-memcpy}

-- A string of three characters, the last a space.
abbrev bytes : Mem
bytes a = if a == 10 then b'B' else if a == 11 then b'a' else if a == 12 then b' ' else 0

bytes-IsNonzero : IsNonzero bytes 10 3
bytes-IsNonzero i h = ground arith

bytes-IsString : IsString bytes 10 3
bytes-IsString = record { bytes = bytes-IsNonzero; ended = refl }

strncmp-zero_iff_example :
    (strncmp bytes (literal (b'B' ∷ [])) 10 0 1 ≡ pos 0)
    ↔ Agree (λ c. c) bytes (literal (b'B' ∷ [])) 10 0 1
strncmp-zero_iff_example = strncmp-zero_iff bytes (literal (b'B' ∷ [])) 10 0 1

strncpy-memcpy_example : strncpy 2 10 2 bytes ≡ (2 + 3, memcpy 2 10 3 bytes)
strncpy-memcpy_example =
    strncpy-memcpy 2 10 2 2 bytes (omega arith) (λ i h. bytes-IsNonzero i (omega arith)) (inl refl)
      (inl (omega arith))
