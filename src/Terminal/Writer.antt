-- ===== src/Terminal/Writer.antt =====
-- `TerminalWriter`: a text cursor in a window, and the drawing of characters and pictures.
-- `frame` is the memory from `buffer_base_ptr` on; the slice `buffer` begins at the window's
-- `byte_offset` and has `buffer_len` bytes. A size of the font stands for its pixel height.
pub mod Paint
pub mod Text
use steelmind_os.Base.{
  ℕ, zero, suc, ◌+◌, ◌-◌, ◌*◌, ◌/◌, ◌%◌, ◌^◌, ◌≤◌, ◌<◌, ◌≡◌, min, Option, none, some, List, [], ◌∷◌,
  length, Bool, true, false, ltb, leb, ◌==◌, if◌then◌else◌, Checked, ok, panic, ◌>>=◌, ◌>>◌, unwrap,
  add64, sub64, mul64, for_range,
}
use steelmind_os.Terminal.Color.{Color, color, lerp, black, white}
use steelmind_os.Terminal.Window.{PixelFormat, rgb, bgr, WindowInfo, div64}

pub data FontWeight : Type 0 where
  light regular bold : FontWeight

abbrev pub Rows : Type 0
Rows = List (List ℕ)

abbrev pub AllBytes : List ℕ → Type 0
AllBytes [] = Unit {0}
AllBytes (b ∷ bs) = (b < 256) × AllBytes bs

abbrev pub IsRaster : ℕ → Rows → Type 0
IsRaster width [] = Unit {0}
IsRaster width (row ∷ rows) = (length row ≤ width) × AllBytes row × IsRaster width rows

abbrev pub replacement : ℕ
replacement = 0xfffd

-- The crate `noto_sans_mono_bitmap`: all characters of a weight and size have one width; a raster
-- has as many rows as the size says, and that many columns. It has the replacement character.
pub record Font : Type 0 where
  pub get_raster_width : FontWeight → ℕ → ℕ
  pub get_raster : ℕ → FontWeight → ℕ → Option Rows
  pub raster_rows :
      (c : ℕ) (w : FontWeight) (size : ℕ) (rows : Rows)
      → get_raster c w size ≡ some rows
      → (length rows ≤ size) × IsRaster (get_raster_width w size) rows
  pub has_replacement :
      (w : FontWeight) (size : ℕ) → (rows : Rows) × (get_raster replacement w size ≡ some rows)

pub record Writer : Type 0 where
  pub frame : ℕ → ℕ
  pub buffer_len : ℕ
  pub info : WindowInfo
  pub x_pos : ℕ
  pub y_pos : ℕ
  pub font_height : ℕ
  pub line_height : ℕ
  pub font_weight : FontWeight
  pub foreground : Color
  pub background : Color
  pub clear_color : Color

-- `construct_buffer`, as far as it can fail: the length of the slice.
unfoldable pub construct_buffer : WindowInfo → Checked ℕ
construct_buffer info = do n ← mul64 info.stride info.height; mul64 n info.bytes_per_pixel

-- `TerminalWriter::new`, over the memory of the frame buffer.
unfoldable pub new : (ℕ → ℕ) → WindowInfo → Checked Writer
unfolding construct_buffer
new frame info = do
  len ← construct_buffer info
  ok (record {
    frame = frame;
    buffer_len = len;
    info = info;
    x_pos = 0;
    y_pos = 0;
    font_height = 24;
    line_height = 24;
    font_weight = regular;
    foreground = white;
    background = black;
    clear_color = color 70 60 60;
  })

-- `self.buffer[i] = v`
unfoldable pub store : Writer → ℕ → ℕ → Checked Writer
store t i v =
    if ltb i t.buffer_len
    then ok (record t { frame = λ q. if q == t.info.byte_offset + i then v else t.frame q })
    else panic

-- The `match` on the pixel format.
unfoldable pub put_pixel : PixelFormat → Color → ℕ → Writer → Checked Writer
put_pixel rgb c i t = do a ← store t i c.r; b ← store a (i + 1) c.g; store b (i + 2) c.b
put_pixel bgr c i t = do a ← store t i c.b; b ← store a (i + 1) c.g; store b (i + 2) c.r
put_pixel _ c i t = store t i ((c.r + c.g + c.b) / 3)

unfoldable pub write_pixel : (x y : ℕ) → Color → Writer → Checked Writer
write_pixel x y c t = do
  row ← mul64 y t.info.stride
  pixel_offset ← add64 row x
  byte_offset ← mul64 pixel_offset t.info.bytes_per_pixel
  put_pixel t.info.pixel_format c byte_offset t

-- The two nested loops over the rows from `top` to `bottom` and all columns.
unfoldable pub fill : (ℕ → ℕ → Color) → (top rounds : ℕ) → Writer → Checked Writer
fill paint top rounds t =
    for_range rounds top (λ y u. for_range t.info.width 0 (λ x v. write_pixel x y (paint x y) v) u)
      t

unfoldable pub clear : Option ℕ → Writer → Checked Writer
clear font_height t = do
  u ← fill (λ _ _. t.clear_color) 0 t.info.height (record t { x_pos = 0; y_pos = 0 })
  elim font_height [
    | none ↦ ok u
    | some size ↦ ok (record u { font_height = size; line_height = size })
  ]

unfoldable pub set_window_info : WindowInfo → Option ℕ → Writer → Checked Writer
set_window_info info font_height t = do
  len ← construct_buffer info
  clear font_height (record t { info = info; buffer_len = len })

unfoldable pub carriage_return : Writer → Writer
carriage_return t = record t { x_pos = 0 }

-- The cursor moves to the next line, or back to the top with another clear colour.
unfoldable pub next_line : Writer → Checked Writer
unfolding carriage_return
next_line t = do
  y ← add64 t.y_pos t.line_height
  let u = carriage_return (record t { y_pos = y })
  end ← add64 y t.line_height
  ok (
      if ltb t.info.height end
      then record u {
        y_pos = 0;
        clear_color = color t.clear_color.b t.clear_color.r t.clear_color.g;
      }
      else u)

abbrev pub checkered : Color → ℕ → ℕ → Color
checkered c x y = if (x + y) % 2 == 0 then c else color (c.r / 2) (c.g / 2) (c.b / 2)

unfoldable pub newline : Writer → Checked Writer
newline t = do
  u ← next_line t
  twice ← mul64 u.line_height 2
  stop ← add64 u.y_pos twice
  fill (checkered u.clear_color) u.y_pos (min stop u.info.height - u.y_pos) u

-- The enumerated bytes of one row, from column `x` on.
unfoldable pub print_row : (x y : ℕ) → List ℕ → Writer → Checked Writer
print_row x y [] t = ok t
print_row x y (byte ∷ bytes) t = do
  c ← lerp t.background t.foreground (byte * 1024 / 255)
  u ← write_pixel (t.x_pos + x) (t.y_pos + y) c t
  print_row (x + 1) y bytes u

unfoldable pub print_rasterized_char : (y : ℕ) → Rows → Writer → Checked Writer
print_rasterized_char y [] t = ok t
print_rasterized_char y (row ∷ rows) t = do
  u ← print_row 0 y row t
  print_rasterized_char (y + 1) rows u

module _ (F : Font) where
  open F use {get_raster, get_raster_width}

  unfoldable pub get_rasterized_char : Writer → ℕ → Checked (Rows × ℕ)
  get_rasterized_char t c = elim (get_raster c t.font_weight t.font_height) [
    | some rows ↦ ok (rows, get_raster_width t.font_weight t.font_height)
    | none ↦ do
      rows ← unwrap (get_raster replacement t.font_weight t.font_height)
      ok (rows, get_raster_width t.font_weight t.font_height)
  ]

  -- The constants of spacing and padding are 0 in the source.
  unfoldable pub write_raw_char : ℕ → Writer → Checked Writer
  write_raw_char c t = do
    (raster, char_width) ← get_rasterized_char t c
    stop ← add64 t.x_pos char_width
    u ← (if leb t.info.width stop then newline t else ok t)
    v ← print_rasterized_char 0 raster u
    x ← add64 v.x_pos char_width
    ok (record v { x_pos = x })

  -- The spaces up to the next column that is a multiple of 4.
  unfoldable pub tab_spaces : Writer → Checked ℕ
  tab_spaces t = if t.x_pos == 0 then ok 4 else (do
    char_count ← div64 t.x_pos (get_raster_width t.font_weight t.font_height)
    ok ((char_count + 1 + 4 - 1) / 4 * 4 - char_count))

  unfoldable pub tab : Writer → Checked Writer
  tab t = do new_spaces ← tab_spaces t; for_range new_spaces 0 (λ _ u. write_raw_char b' ' u) t

  unfoldable pub write_char : ℕ → Writer → Checked Writer
  write_char c t =
      if c == 10
      then newline t
      else (if c == 13
          then ok (carriage_return t)
          else (if c == 9 then tab t else write_raw_char c t))

  unfoldable pub write_str : List ℕ → Writer → Checked Writer
  write_str [] t = ok t
  write_str (c ∷ cs) t = do u ← write_char c t; write_str cs u
