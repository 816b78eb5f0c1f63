-- ===== src/Terminal/Examples.antt =====
-- A screen of 1280 by 720 pixels, a toy font, and the theorems at them.
use steelmind_os.Base.{
  ℕ, zero, suc, ◌+◌, ◌*◌, ◌≤◌, ◌<◌, ◌≡◌, ◌⊎◌, refl, arith, [], ◌∷◌, length, replicate, some, ok,
  panic, Returns,
}
use steelmind_os.Terminal.Color.{color, black, white}
use steelmind_os.Terminal.Window.{FrameBufferInfo, bgr, WindowInfo, get_window_info_for_core}
use steelmind_os.Terminal.Window.Grid.{
  IsScreen, core_window, left, top, get_window_info_for_core-inside, last_core-outside,
}
use steelmind_os.Terminal.Writer.{Writer, Font, regular, Rows, IsRaster, write_str}
use steelmind_os.Terminal.Writer.Paint.{pixel_at}
use steelmind_os.Terminal.Writer.Text.{IsTerminal, Drawn, write_str-Drawn}
use steelmind_os.Terminal.Pixels.{print_pixels}
use steelmind_os.Terminal.Pixels.Drawing.{print_pixels-Drawn}
use steelmind_os.Terminal.Isolation.{write_str-isolated}

abbrev screen : FrameBufferInfo
screen = record {
  byte_len = 1280 * 720 * 4;
  width = 1280;
  height = 720;
  pixel_format = bgr;
  bytes_per_pixel = 4;
  stride = 1280;
}

screen-IsScreen : IsScreen screen
screen-IsScreen = omega arith

-- Three application processors: one row of four windows.

get_window_info_for_core-inside_example :
    (get_window_info_for_core screen 2 3 ≡ ok (core_window screen 2 3))
    × (left screen 2 + (core_window screen 2 3).width ≤ 1280)
    × (top screen 2 3 + (core_window screen 2 3).height ≤ 720)
get_window_info_for_core-inside_example =
    get_window_info_for_core-inside screen screen-IsScreen 2 3 (omega arith) (omega arith)
      (omega arith) (omega arith) (omega arith)

-- Four application processors: the fifth core has no place.
last_core-outside_example :
    (get_window_info_for_core screen 4 4 ≡ panic)
    ⊎ ((w : WindowInfo) × (get_window_info_for_core screen 4 4 ≡ ok w)
        × (720 * 1280 * 4 ≤ w.byte_offset))
last_core-outside_example =
    last_core-outside screen screen-IsScreen 4 (omega arith) (omega arith) (omega arith)

-- Every character is two grey columns.
abbrev glyph : ℕ → Rows
glyph size = replicate size (255 ∷ 128 ∷ [])

glyph_fits : (size : ℕ) → (length (glyph size) ≤ size) × IsRaster 8 (glyph size)
glyph_fits zero = (omega arith, tt)
glyph_fits (suc size) =
    let (high, wide) = glyph_fits size in (omega arith, (omega arith, omega arith, wide))

some_glyph :
    (size : ℕ) (rows : Rows)
    → some (glyph size) ≡ some rows
    → (length rows ≤ size) × IsRaster 8 rows
some_glyph size rows e = let same : glyph size ≡ rows = cc in rw (← same) (glyph_fits size)

abbrev toy : Font
toy = record {
  get_raster_width = λ w size. 8;
  get_raster = λ c w size. some (glyph size);
  raster_rows = λ c w size rows e. some_glyph size rows e;
  has_replacement = λ w size. (glyph size, refl);
}

abbrev terminal : Writer
terminal = record {
  frame = λ _. 0;
  buffer_len = 1280 * 720 * 4;
  info = core_window screen 1 3;
  x_pos = 0;
  y_pos = 0;
  font_height = 16;
  line_height = 16;
  font_weight = regular;
  foreground = white;
  background = black;
  clear_color = color 10 67 33;
}

terminal-IsTerminal : IsTerminal toy terminal
terminal-IsTerminal = record {
  buffer = omega arith;
  width_small = omega arith;
  height_small = omega arith;
  x_in = omega arith;
  y_in = omega arith;
  glyph = omega arith;
  fits = omega arith;
  some_width = omega arith;
  foreground = omega arith;
  background = omega arith;
}

write_str-Drawn_example :
    Returns (Drawn toy terminal) (write_str toy (72 ∷ 105 ∷ 9 ∷ 10 ∷ []) terminal)
write_str-Drawn_example = write_str-Drawn toy (72 ∷ 105 ∷ 9 ∷ 10 ∷ []) terminal terminal-IsTerminal

write_str-isolated_example :
    (u : Writer) × (write_str toy (72 ∷ 10 ∷ []) terminal ≡ ok u)
    × IsTerminal toy u
    × ((x y k : ℕ)
        → x < (core_window screen 2 3).width
        → y < (core_window screen 2 3).height
        → k < 4
        → u.frame (pixel_at (core_window screen 2 3) x y + k)
          ≡ terminal.frame (pixel_at (core_window screen 2 3) x y + k))
write_str-isolated_example =
    write_str-isolated screen screen-IsScreen 1 2 3 (omega arith) (omega arith) (omega arith)
      (omega arith) (omega arith) toy (72 ∷ 10 ∷ []) terminal terminal-IsTerminal refl

print_pixels-Drawn_example :
    (u : Writer) × (print_pixels 4 2 (white ∷ black ∷ white ∷ []) terminal ≡ some (ok u))
    × Drawn toy terminal u
print_pixels-Drawn_example =
    print_pixels-Drawn toy 4 2 (white ∷ black ∷ white ∷ []) terminal terminal-IsTerminal
      (omega arith) (omega arith) (omega arith) (omega arith)
