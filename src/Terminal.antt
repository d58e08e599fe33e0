-- ===== src/Terminal.antt =====
-- terminal/terminal.c: the text screen. The state is video memory, a cell for each index, and the
-- cursor in two uint16_t.
pub mod Cursor
pub mod Messages
mod Tests
use nuts_os.Base.{
  ℕ, zero, suc, ◌+◌, ◌-◌, ◌*◌, ◌/◌, ◌%◌, ◌^◌, Bool, true, false, Option, none, some, List, [], ◌∷◌,
  ltb, leb, ◌==◌, if◌then◌else◌, update, bit_or,
}
use nuts_os.Memory.{Mem}
use nuts_os.Text.{strlen}

abbrev pub vga_width : ℕ
vga_width = 80

abbrev pub vga_height : ℕ
vga_height = 20

pub record Terminal : Type 0 where
  pub video_mem : ℕ → ℕ
  pub terminal_row : ℕ
  pub terminal_col : ℕ

-- A char above 127 is negative, so its upper bits are all set before the colour joins them.
unfoldable pub make_char : ℕ → ℕ → ℕ
make_char c colour = bit_or (colour * 2 ^ 8) (if ltb c 128 then c else c + 0xff00) % 2 ^ 16

unfoldable pub putchar : Terminal → ℕ → ℕ → ℕ → ℕ → Terminal
putchar t x y c colour = record t {
  video_mem = update t.video_mem (y * vga_width + x) (make_char c colour);
}

unfoldable pub writechar : Terminal → ℕ → ℕ → Terminal
unfolding putchar
writechar t c colour =
    if c == b'\n'
    then record t { terminal_row = (t.terminal_row + 1) % 2 ^ 16; terminal_col = 0 }
    else let t' = putchar t t.terminal_col t.terminal_row c colour in
      let col = (t'.terminal_col + 1) % 2 ^ 16 in
      if leb vga_width col
      then record t' { terminal_col = 0; terminal_row = (t'.terminal_row + 1) % 2 ^ 16 }
      else record t' { terminal_col = col }

-- The inner loop of terminal_initialize, with the columns left.
clear_row : ℕ → ℕ → ℕ → Terminal → Terminal
clear_row zero x y t = t
clear_row (suc left) x y t = clear_row left (x + 1) y (putchar t x y 32 0)

clear_rows : ℕ → ℕ → Terminal → Terminal
clear_rows zero y t = t
clear_rows (suc left) y t = clear_rows left (y + 1) (clear_row vga_width 0 y t)

unfoldable pub initialize : (ℕ → ℕ) → Terminal
unfolding clear_row clear_rows putchar
initialize video =
    clear_rows vga_height 0 (record { video_mem = video; terminal_row = 0; terminal_col = 0 })

-- The loop of print, with the characters left.
unfoldable pub print_loop : ℕ → ℕ → Mem → ℕ → Terminal → Terminal
print_loop zero i m str t = t
print_loop (suc left) i m str t = print_loop left (i + 1) m str (writechar t (m (str + i)) 15)

-- `none` is fuel for strlen.
unfoldable pub print : ℕ → Mem → ℕ → Terminal → Option Terminal
print fuel m str t = elim (strlen fuel m str) [
  | none ↦ none
  | some len ↦ some (print_loop len 0 m str t)
]

-- printf with the pointers that its `%s` take; `none` is fuel or an argument that is missing. A `%`
-- at the end of the format makes it read on behind the terminator.
unfoldable pub printf : ℕ → Mem → ℕ → List ℕ → Terminal → Option Terminal
printf zero m ptr args t = none
printf (suc fuel) m ptr args t = elim (m ptr == 0) [
  | true ↦ some t
  | false ↦ elim (m ptr == b'%') [
    | false ↦ printf fuel m (ptr + 1) args (writechar t (m ptr) 15)
    | true ↦ elim (m (ptr + 1) == b's') [
      | true ↦ elim args [
        | [] ↦ none
        | token ∷ rest ↦ elim (print fuel m token t) [
          | none ↦ none
          | some t' ↦ printf fuel m (ptr + 2) rest t'
        ]
      ]
      | false ↦ elim (m (ptr + 1) == b'%') [
        | true ↦ printf fuel m (ptr + 2) args (writechar t b'%' 15)
        | false ↦ printf fuel m (ptr + 2) args t
      ]
    ]
  ]
]
