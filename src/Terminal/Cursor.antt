-- ===== src/Terminal/Cursor.antt =====
-- Where the cursor goes, and which cells are written.
use nuts_os.Base.{ℕ, ◌+◌, ◌-◌, ◌*◌, ◌/◌, ◌%◌, ◌^◌, ◌<◌, ◌≡◌, ◌==◌, if◌then◌else◌, arith}
use nuts_os.Base.Bits.{bit_or_sum}
use nuts_os.Terminal.{Terminal, make_char, writechar}

-- The cursor stands in a column of the screen.
abbrev pub IsOnScreen : Terminal → Type 0
IsOnScreen t = t.terminal_col < 80

-- The cell at the cursor, counted from the start of video memory.
abbrev pub cursor : Terminal → ℕ
cursor t = t.terminal_row * 80 + t.terminal_col

-- An ASCII character and a colour below 128 make a cell that holds both.
pub make_char_lem :
    (c colour : ℕ)
    → c < 128
    → colour < 128
    → (make_char c colour % 256 ≡ c) × (make_char c colour / 256 ≡ colour)
unfolding make_char
make_char_lem c colour h g = ground (arith, bit_or_sum 8 colour c (omega arith))

-- With the cursor in a column of the screen and its row below 2^16 - 1, terminal_writechar keeps it
-- in a column of the screen. A newline starts the next row and writes nothing; any other character
-- is written at the cursor alone, which moves one cell on.
pub writechar_lem :
    (t : Terminal) (c colour : ℕ)
    → IsOnScreen t
    → t.terminal_row < 2 ^ 16 - 1
    → IsOnScreen (writechar t c colour)
      × (cursor (writechar t c colour)
          ≡ (if c == b'\n' then (t.terminal_row + 1) * 80 else cursor t + 1))
      × ((a : ℕ)
          → (writechar t c colour).video_mem a ≡ (
              if c == b'\n'
              then t.video_mem a
              else if a == cursor t
              then make_char c colour
              else t.video_mem a))
unfolding writechar
writechar_lem t c colour on low = (ground arith, ground arith, λ a. ground arith)
