-- ===== src/File/Mode.antt =====
-- The mode that fopen is given as a string.
use nuts_os.Base.{ℕ, ◌≡◌, ◌≢◌, ◌==◌, if◌then◌else◌, arith, [], ◌∷◌}
use nuts_os.Memory.{Mem, literal}
use nuts_os.Text.{strncmp, compare_loop}
use nuts_os.File.{mode_read, mode_write, mode_append, mode_invalid, file_mode_from_string}
use nuts_os.Base.Int.{is_zero}

first_char :
    (m : Mem) (str c : ℕ) → c ≢ 0 → is_zero (strncmp m (literal (c ∷ [])) str 0 1) ≡ (m str == c)
unfolding strncmp compare_loop
first_char m str c nz = ground arith

-- The mode is that of the string's first character, whatever follows it: r, w or a, and invalid
-- for any other, so for the empty string too.
pub file_mode_from_string_lem :
    (m : Mem) (str : ℕ)
    → file_mode_from_string m str ≡ (
        if m str == b'r'
        then mode_read
        else if m str == b'w'
        then mode_write
        else if m str == b'a'
        then mode_append
        else mode_invalid)
unfolding file_mode_from_string
file_mode_from_string_lem m str = ground (
  arith,
  first_char m str b'r' (omega arith),
  first_char m str b'w' (omega arith),
  first_char m str b'a' (omega arith),
)
