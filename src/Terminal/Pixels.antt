-- ===== src/Terminal/Pixels.antt =====
-- `TerminalWriter::print_pixels`: a picture, from the cursor on. The iterator is the list of colours it gives.
pub mod Drawing
use steelmind_os.Base.{
  ℕ, zero, suc, ◌+◌, ◌==◌, leb, if◌then◌else◌, Option, none, some, List, [], ◌∷◌, Checked, ok,
  panic, ◌>>=◌, add64,
}
use steelmind_os.Terminal.Color.{Color}
use steelmind_os.Terminal.Writer.{Writer, write_pixel, newline}

-- The `for` over one row, from `x` on: the colours that are left, or `none` when there is none for the next pixel.
unfoldable pub print_line :
    (rounds x x_offset y_offset : ℕ) → List Color → Writer → Checked (Option (List Color) × Writer)
print_line zero x x_offset y_offset colors t = ok (some colors, t)
print_line (suc rounds) x x_offset y_offset [] t = ok (none, t)
print_line (suc rounds) x x_offset y_offset (c ∷ cs) t = do
  column ← add64 x x_offset
  u ←
      (if leb t.info.width column
        then ok t
        else (do row ← add64 t.y_pos y_offset; write_pixel column row c t))
  print_line rounds (x + 1) x_offset y_offset cs u

-- After a row: the next offset.
unfoldable pub next_row : (y_offset : ℕ) → Writer → Checked (ℕ × Writer)
next_row y_offset t =
    if leb t.line_height (y_offset + 1)
    then (newline t >>= λ u. ok (0, u))
    else ok (y_offset + 1, t)

-- After the loop.
unfoldable pub last_row : (y_offset : ℕ) → Writer → Checked Writer
last_row y_offset t = if y_offset == 0 then ok t else newline t

-- The loop, with fuel for its rounds: `none` when it is used up.
unfoldable pub print_rows :
    (fuel width x_offset y_offset : ℕ) → List Color → Writer → Option (Checked Writer)
print_rows zero width x_offset y_offset colors t = none
print_rows (suc fuel) width x_offset y_offset colors t =
    elim (print_line width 0 x_offset y_offset colors t) [
      | panic ↦ some panic
      | ok (none, u) ↦ some (last_row y_offset u)
      | ok (some cs, u) ↦ elim (next_row y_offset u) [
        | panic ↦ some panic
        | ok (y, v) ↦ print_rows fuel width x_offset y cs v
      ]
    ]

unfoldable pub print_pixels : (fuel width : ℕ) → List Color → Writer → Option (Checked Writer)
unfolding print_rows
print_pixels fuel width colors t = print_rows fuel width t.x_pos 0 colors t
