-- ===== src/Terminal/Writer/Text.antt =====
-- Printing text does not panic, keeps the cursor in the window and draws in the window only.
use mathlib.Core.Path.{subst}
use steelmind_os.Base.{
  ℕ, ◌+◌, ◌-◌, ◌*◌, ◌/◌, ◌^◌, ◌≤◌, ◌<◌, ◌≡◌, refl, ap, sym, ◌∙◌, arith, min, false, ltb, leb, ◌==◌,
  ok, ◌>>=◌, add64, add64-ok, mul64-ok, Returns, for_range-Returns, List, [], ◌∷◌, length,
  Option-cases, Bool-cases, inl, inr,
}
use steelmind_os.Terminal.Color.{Color, color, IsColor, lerp-Between}
use steelmind_os.Terminal.Writer.{
  Writer, Font, Rows, AllBytes, IsRaster, carriage_return, next_line, newline, print_row,
  print_rasterized_char, get_rasterized_char, write_raw_char, tab_spaces, tab, write_char,
  write_str, replacement, checkered,
}
use steelmind_os.Terminal.Writer.Paint.{
  IsBuffer, Kept, OutsideWindow, Painted, Painted-refl, Painted-trans, Painted-IsBuffer,
  fill-Painted, write_pixel-Painted,
}

module _ (F : Font) where
  open F use {get_raster_width}

  -- The cursor is in the window, the next line has room, and a character is at most as wide
  -- as the window.
  pub record IsTerminal (t : Writer) : Type 0 where
    pub buffer : IsBuffer t
    pub width_small : t.info.width < 2 ^ 32
    pub height_small : t.info.height < 2 ^ 32
    pub x_in : t.x_pos ≤ t.info.width
    pub y_in : t.y_pos + t.line_height ≤ t.info.height
    pub glyph : t.font_height ≤ t.line_height
    pub fits : get_raster_width t.font_weight t.font_height ≤ t.info.width
    pub some_width : 0 < get_raster_width t.font_weight t.font_height
    pub foreground : IsColor t.foreground
    pub background : IsColor t.background

  -- What drawing leaves: a terminal on the same window, and no change outside of it.
  pub record Drawn (t u : Writer) : Type 0 where
    pub terminal : IsTerminal u
    pub info : u.info ≡ t.info
    pub kept : Kept t.info t.frame u.frame

  pub Drawn-trans : {t u v : Writer} → Drawn t u → Drawn u v → Drawn t v
  Drawn-trans p q = record {
    terminal = q.terminal;
    info = q.info ∙ p.info;
    kept = λ a o. q.kept a (subst (λ i. OutsideWindow i a) (sym p.info) o) ∙ p.kept a o;
  }

  -- Painting keeps the terminal.
  pub Painted-Drawn :
      {t u v : Writer}
      → Painted u v
      → IsTerminal u
      → u.info ≡ t.info
      → u.frame ≡ t.frame
      → Drawn t v
  Painted-Drawn {t} {u} {v} p h e f = record {
    terminal = rw p.same (record {
      buffer = rw p.same at (Painted-IsBuffer p h.buffer);
      width_small = h.width_small;
      height_small = h.height_small;
      x_in = h.x_in;
      y_in = h.y_in;
      glyph = h.glyph;
      fits = h.fits;
      some_width = h.some_width;
      foreground = h.foreground;
      background = h.background;
    });
    info = ap (λ (w : Writer). w.info) p.same ∙ e;
    kept = λ a o. p.kept a (subst (λ i. OutsideWindow i a) (sym e) o) ∙ ap (λ (m : ℕ → ℕ). m a) f;
  }

  at_line :
      (t : Writer) (y : ℕ) (c : Color)
      → IsTerminal t
      → y + t.line_height ≤ t.info.height
      → IsTerminal (record t { x_pos = 0; y_pos = y; clear_color = c })
  at_line t y c h room = record {
    buffer = record {
      sized = h.buffer.sized;
      small = h.buffer.small;
      wide = h.buffer.wide;
      depth = h.buffer.depth;
    };
    width_small = h.width_small;
    height_small = h.height_small;
    x_in = omega arith;
    y_in = room;
    glyph = h.glyph;
    fits = h.fits;
    some_width = h.some_width;
    foreground = h.foreground;
    background = h.background;
  }

  -- The next line has room, at the bottom or back at the top.
  next_line-IsTerminal :
      (t : Writer)
      → IsTerminal t
      → Returns
          (λ u.
            IsTerminal u
            × (u.info ≡ t.info)
            × (u.frame ≡ t.frame)
            × (u.x_pos ≡ 0)
            × (u.font_weight ≡ t.font_weight)
            × (u.font_height ≡ t.font_height))
          (next_line t)
  unfolding next_line carriage_return
  next_line-IsTerminal t h =
      let y : ℕ = t.y_pos + t.line_height in
      rw
        (
          add64-ok t.y_pos t.line_height (omega (arith, h.y_in, h.height_small)),
          add64-ok y t.line_height (omega (arith, h.y_in, h.height_small)),
        )
        (elim (Bool-cases (ltb t.info.height (y + t.line_height))) [
          | inl e ↦
              let c : Color = color t.clear_color.b t.clear_color.r t.clear_color.g in
              (
                record t { x_pos = 0; y_pos = 0; clear_color = c },
                rw e,
                (at_line t 0 c h (omega (arith, h.y_in)), refl, refl, refl, refl, refl),
              )
          | inr e ↦ (
            record t { x_pos = 0; y_pos = y },
            rw e,
            (at_line t y t.clear_color h (ground arith), refl, refl, refl, refl, refl),
          )
        ])

  -- What a line break leaves: a terminal with the cursor in the first column.
  pub record Broken (t u : Writer) : Type 0 where
    pub drawn : Drawn t u
    pub x_zero : u.x_pos ≡ 0
    pub weight : u.font_weight ≡ t.font_weight
    pub height : u.font_height ≡ t.font_height

  pub newline-Broken : (t : Writer) → IsTerminal t → Returns (Broken t) (newline t)
  unfolding newline
  newline-Broken t h =
      let (u, run, (k, info, frame, x, weight, height)) = next_line-IsTerminal t h in
      let end : ℕ = u.y_pos + u.line_height * 2 in
      let (v, paints, p) =
        fill-Painted (checkered u.clear_color) u.y_pos (min end u.info.height - u.y_pos) u k.buffer
          (omega (arith, k.y_in)) in
      (
        v,
        rw
            (
              run,
              mul64-ok u.line_height 2 (omega (arith, k.y_in, k.height_small)),
              add64-ok u.y_pos (u.line_height * 2) (omega (arith, k.y_in, k.height_small)),
            )
            paints,
        record {
          drawn = Painted-Drawn p k info frame;
          x_zero = ap (λ (w : Writer). w.x_pos) p.same ∙ x;
          weight = ap (λ (w : Writer). w.font_weight) p.same ∙ weight;
          height = ap (λ (w : Writer). w.font_height) p.same ∙ height;
        },
      )

  -- A line break does not panic, and leaves a terminal on the same window; it draws in the window
  -- only.
  pub newline-Drawn : (t : Writer) → IsTerminal t → Returns (Drawn t) (newline t)
  newline-Drawn t h = let (u, run, b) = newline-Broken t h in (u, run, b.drawn)

-- What drawing a glyph needs of the writer.
record IsCanvas (t : Writer) : Type 0 where
  buffer : IsBuffer t
  width_small : t.info.width < 2 ^ 32
  height_small : t.info.height < 2 ^ 32
  foreground : IsColor t.foreground
  background : IsColor t.background

Painted-IsCanvas : {t u : Writer} → Painted t u → IsCanvas t → IsCanvas u
Painted-IsCanvas {t} {u} p h = rw p.same (record {
  buffer = rw p.same at (Painted-IsBuffer p h.buffer);
  width_small = h.width_small;
  height_small = h.height_small;
  foreground = h.foreground;
  background = h.background;
})

-- One row of a glyph, where its columns lie in the window.
print_row-Painted :
    (x y : ℕ) (bytes : List ℕ) (t : Writer)
    → IsCanvas t
    → AllBytes bytes
    → t.x_pos + x + length bytes ≤ t.info.width
    → t.y_pos + y < t.info.height
    → Returns (Painted t) (print_row x y bytes t)
unfolding print_row
print_row-Painted x y [] t h a hx hy = (t, refl, Painted-refl t)
print_row-Painted x y (byte ∷ bytes) t h a hx hy =
    let (c, blend, _) =
      lerp-Between t.background t.foreground (byte * 1024 / 255) h.background h.foreground
        (omega (arith, a.0)) in
    let (u, run, p) =
      write_pixel-Painted (t.x_pos + x) (t.y_pos + y) c t h.buffer (omega arith) hy in
    let (v, rest, q) =
      print_row-Painted (x + 1) y bytes u (Painted-IsCanvas p h) a.1 (rw p.same (omega arith))
        (rw p.same hy) in
    (v, rw (blend, run) rest, Painted-trans p q)

-- A glyph whose rows and columns lie in the window.
print_rasterized_char-Painted :
    (width y : ℕ) (rows : Rows) (t : Writer)
    → IsCanvas t
    → IsRaster width rows
    → t.x_pos + width ≤ t.info.width
    → t.y_pos + y + length rows ≤ t.info.height
    → Returns (Painted t) (print_rasterized_char y rows t)
unfolding print_rasterized_char
print_rasterized_char-Painted width y [] t h r hx hy = (t, refl, Painted-refl t)
print_rasterized_char-Painted width y (row ∷ rows) t h r hx hy =
    let (u, run, p) = print_row-Painted 0 y row t h r.1 (omega (arith, r.0)) (omega arith) in
    let (v, rest, q) =
      print_rasterized_char-Painted width (y + 1) rows u (Painted-IsCanvas p h) r.2 (rw p.same hx)
        (rw p.same (omega arith)) in
    (v, rw run rest, Painted-trans p q)

module _ (F : Font) where
  open F use {get_raster, get_raster_width}

  -- Some raster is found, and its width is the font's.
  get_rasterized_char-IsRaster :
      (t : Writer) (c : ℕ)
      → (rows : Rows) × (get_rasterized_char F t c
          ≡ ok (rows, get_raster_width t.font_weight t.font_height))
        × (length rows ≤ t.font_height)
        × IsRaster (get_raster_width t.font_weight t.font_height) rows
  unfolding get_rasterized_char
  get_rasterized_char-IsRaster t c =
      elim (Option-cases (get_raster c t.font_weight t.font_height)) [
        | inl e ↦
            let (rows, found) = F.has_replacement t.font_weight t.font_height in
            let (high, wide) = F.raster_rows replacement t.font_weight t.font_height rows found in
            (rows, rw (e, found, get_rasterized_char), high, wide)
        | inr (rows, e) ↦
            let (high, wide) = F.raster_rows c t.font_weight t.font_height rows e in
            (rows, rw (e, get_rasterized_char), high, wide)
      ]

  -- Drawing a glyph at the cursor and moving the cursor behind it.
  draw_glyph :
      (t : Writer) (rows : Rows)
      → IsTerminal F t
      → length rows ≤ t.font_height
      → IsRaster (get_raster_width t.font_weight t.font_height) rows
      → t.x_pos + get_raster_width t.font_weight t.font_height ≤ t.info.width
      → Returns (Drawn F t) (do
        v ← print_rasterized_char 0 rows t
        x ← add64 v.x_pos (get_raster_width t.font_weight t.font_height)
        ok (record v { x_pos = x }))
  draw_glyph t rows h high wide room =
      let w : ℕ = get_raster_width t.font_weight t.font_height in
      let (v, run, p) =
        print_rasterized_char-Painted w 0 rows t
          (record {
            buffer = h.buffer;
            width_small = h.width_small;
            height_small = h.height_small;
            foreground = h.foreground;
            background = h.background;
          })
          wide room (omega (arith, h.y_in, h.glyph)) in
      let d : Drawn F t v = Painted-Drawn F p h refl refl in
      let x : v.x_pos ≡ t.x_pos = ap (λ (w : Writer). w.x_pos) p.same in
      let k = d.terminal in
      (
        record v { x_pos = v.x_pos + w },
        rw (run, add64-ok v.x_pos w (omega (arith, h.width_small))),
        record {
          terminal = record {
            buffer = record {
              sized = k.buffer.sized;
              small = k.buffer.small;
              wide = k.buffer.wide;
              depth = k.buffer.depth;
            };
            width_small = k.width_small;
            height_small = k.height_small;
            x_in = rw (d.info, x) room;
            y_in = k.y_in;
            glyph = k.glyph;
            fits = k.fits;
            some_width = k.some_width;
            foreground = k.foreground;
            background = k.background;
          };
          info = d.info;
          kept = d.kept;
        },
      )

  -- A character that is no control character: at the line's end the line is broken first.
  write_raw_char-Drawn :
      (c : ℕ) (t : Writer) → IsTerminal F t → Returns (Drawn F t) (write_raw_char F c t)
  unfolding write_raw_char
  write_raw_char-Drawn c t h =
      let (rows, found, high, wide) = get_rasterized_char-IsRaster t c in
      let w : ℕ = get_raster_width t.font_weight t.font_height in
      rw (found, add64-ok t.x_pos w (omega (arith, h.x_in, h.fits, h.width_small)))
        (elim (Bool-cases (leb t.info.width (t.x_pos + w))) [
          | inl e ↦ rw e (
              let (u, run, b) = newline-Broken F t h in
              let same_w : get_raster_width u.font_weight u.font_height ≡ w =
                rw (b.weight, b.height) in
              let (v, rest, d) =
                draw_glyph u rows b.drawn.terminal (rw b.height high) (rw (b.weight, b.height) wide)
                  (omega (arith, b.x_zero, b.drawn.terminal.fits)) in
              (v, rw run (rw same_w at rest), Drawn-trans F b.drawn d))
          | inr e ↦ rw e (draw_glyph t rows h high wide (ground arith))
        ])

  Drawn-refl : (t : Writer) → IsTerminal F t → Drawn F t t
  Drawn-refl t h = record { terminal = h; info = refl; kept = λ q o. refl }

  tab_spaces-ok : (t : Writer) → IsTerminal F t → (n : ℕ) × (tab_spaces F t ≡ ok n)
  unfolding tab_spaces
  tab_spaces-ok t h = elim (Bool-cases (t.x_pos == 0)) [
    | inl e ↦ (4, rw e)
    | inr e ↦
        let cells : ℕ = t.x_pos / get_raster_width t.font_weight t.font_height in
        let some_width : (get_raster_width t.font_weight t.font_height == 0) ≡ false =
          ground (arith, h.some_width) in
        ((cells + 1 + 4 - 1) / 4 * 4 - cells, rw (e, some_width))
  ]

  tab-Drawn : (t : Writer) → IsTerminal F t → Returns (Drawn F t) (tab F t)
  unfolding tab
  tab-Drawn t h =
      let (n, spaces) = tab_spaces-ok t h in
      rw spaces (
        for_range-Returns (Drawn F t) (λ _ u. write_raw_char F b' ' u) n 0 n (omega arith)
          (λ j u l k d.
            let (v, run, e) = write_raw_char-Drawn b' ' u d.terminal in (v, run, Drawn-trans F d e))
          t (Drawn-refl t h))

  -- A carriage return moves the cursor only.
  carriage_return-Drawn : (t : Writer) → IsTerminal F t → Drawn F t (carriage_return t)
  unfolding carriage_return
  carriage_return-Drawn t h = record {
    terminal = at_line F t t.y_pos t.clear_color h h.y_in;
    info = refl;
    kept = λ q o. refl;
  }

  -- Whatever the character, writing it does not panic, leaves a terminal on the same window, and
  -- changes no byte outside the pixels of the window.
  write_char-Drawn : (c : ℕ) (t : Writer) → IsTerminal F t → Returns (Drawn F t) (write_char F c t)
  unfolding write_char
  write_char-Drawn c t h = elim (Bool-cases (c == 10)) [
    | inl e ↦ rw e (newline-Drawn F t h)
    | inr e ↦ rw e (elim (Bool-cases (c == 13)) [
      | inl f ↦ rw f (carriage_return t, refl, carriage_return-Drawn t h)
      | inr f ↦ rw f (elim (Bool-cases (c == 9)) [
        | inl g ↦ rw g (tab-Drawn t h)
        | inr g ↦ rw g (write_raw_char-Drawn c t h)
      ])
    ])
  ]

  -- Whatever the text, on a terminal printing it does not panic. It leaves a terminal on the same
  -- window (the cursor in the window, with room for the next line), and changes no byte of
  -- the frame buffer outside the pixels of that window.
  pub write_str-Drawn :
      (text : List ℕ) (t : Writer) → IsTerminal F t → Returns (Drawn F t) (write_str F text t)
  unfolding write_str
  write_str-Drawn [] t h = (t, refl, Drawn-refl t h)
  write_str-Drawn (c ∷ cs) t h =
      let (u, run, d) = write_char-Drawn c t h in
      let (v, rest, e) = write_str-Drawn cs u d.terminal in (v, rw run rest, Drawn-trans F d e)
