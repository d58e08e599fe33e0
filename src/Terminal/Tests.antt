-- ===== src/Terminal/Tests.antt =====
-- The theorem on the cursor at the end of a row.
use nuts_os.Base.{ℕ, ◌+◌, ◌*◌, ◌≡◌, ◌==◌, if◌then◌else◌, arith}
use nuts_os.Terminal.{Terminal, make_char, writechar}
use nuts_os.Terminal.Cursor.{IsOnScreen, cursor, writechar_lem}

abbrev row_end : Terminal
row_end = record { video_mem = λ a. a; terminal_row = 3; terminal_col = 79 }

writechar_lem_example :
    IsOnScreen (writechar row_end 65 15)
    × (cursor (writechar row_end 65 15)
        ≡ (if 65 == b'\n' then (3 + 1) * 80 else cursor row_end + 1))
    × ((a : ℕ)
        → (writechar row_end 65 15).video_mem a
          ≡ (if 65 == b'\n' then a else if a == cursor row_end then make_char 65 15 else a))
writechar_lem_example = writechar_lem row_end 65 15 (omega arith) (omega arith)
