-- ===== src/Terminal/Pixels/Drawing.antt =====
-- A picture of some width is drawn in the window, and with enough fuel the loop ends.
use steelmind_os.Base.{
  ℕ, zero, suc, ◌+◌, ◌^◌, ◌<◌, ◌≡◌, refl, ap, sym, arith, ◌==◌, leb, if◌then◌else◌, Option, none,
  some, List, [], ◌∷◌, length, Checked, ok, ◌>>=◌, add64, add64-ok, Bool-cases, inl, inr, Returns,
}
use mathlib.Core.Path.{subst}
use steelmind_os.Terminal.Color.{Color}
use steelmind_os.Terminal.Writer.{Writer, Font, write_pixel}
use steelmind_os.Terminal.Writer.Paint.{
  IsBuffer, Painted, Painted-refl, Painted-trans, Painted-IsBuffer, write_pixel-Painted,
}
use steelmind_os.Terminal.Writer.Text.{
  IsTerminal, Drawn, Drawn-trans, Painted-Drawn, newline-Broken,
}
use steelmind_os.Terminal.Pixels.{print_line, next_row, last_row, print_rows, print_pixels}

-- A row takes one colour for each of its pixels, or all.
abbrev Left : (colors : List Color) (rounds : ℕ) → Option (List Color) → Type 0
Left colors rounds none = Unit {0}
Left colors rounds (some cs) = length cs + rounds ≡ length colors

record Line (rounds : ℕ) (colors : List Color) (t : Writer) (r : Option (List Color) × Writer)
    : Type 0 where
  painted : Painted t r.1
  left : Left colors rounds r.0

Left-cons :
    (c : Color) (cs : List Color) (rounds : ℕ) (o : Option (List Color))
    → Left cs rounds o
    → Left (c ∷ cs) (suc rounds) o
Left-cons c cs rounds none h = tt
Left-cons c cs rounds (some rest) h = omega (arith, h)

info_of : {t u : Writer} → Painted t u → u.info ≡ t.info
info_of p = ap (λ (w : Writer). w.info) p.same

y_of : {t u : Writer} → Painted t u → u.y_pos ≡ t.y_pos
y_of p = ap (λ (w : Writer). w.y_pos) p.same

-- One pixel: it is drawn, or skipped at the right of the window.
pixel-Painted :
    (column y_offset : ℕ) (c : Color) (t : Writer)
    → IsBuffer t
    → t.info.height < 2 ^ 32
    → t.y_pos + y_offset < t.info.height
    → Returns (Painted t) (
        if leb t.info.width column
        then ok t
        else (add64 t.y_pos y_offset >>= λ row. write_pixel column row c t))
pixel-Painted column y_offset c t b small room = elim (Bool-cases (leb t.info.width column)) [
  | inl skip ↦ rw skip (t, refl, Painted-refl t)
  | inr draw ↦
      rw (draw, add64-ok t.y_pos y_offset (omega (arith, small, room)))
        (write_pixel-Painted column (t.y_pos + y_offset) c t b (ground (arith, draw)) room)
]

print_line-Line :
    (rounds x x_offset y_offset : ℕ) (colors : List Color) (t : Writer)
    → IsBuffer t
    → t.info.height < 2 ^ 32
    → t.y_pos + y_offset < t.info.height
    → x_offset + x + rounds < 2 ^ 64
    → Returns (Line rounds colors t) (print_line rounds x x_offset y_offset colors t)
unfolding print_line
print_line-Line zero x x_offset y_offset colors t b small room fits =
    ((some colors, t), refl, record { painted = Painted-refl t; left = omega arith })
print_line-Line (suc rounds) x x_offset y_offset [] t b small room fits =
    ((none, t), refl, record { painted = Painted-refl t; left = tt })
print_line-Line (suc rounds) x x_offset y_offset (c ∷ cs) t b small room fits =
    let (u, run, p) = pixel-Painted (x + x_offset) y_offset c t b small room in
    let (r, rest, l) =
      print_line-Line rounds (x + 1) x_offset y_offset cs u (Painted-IsBuffer p b)
        (rw (info_of p) small) (rw (y_of p, info_of p) room) (omega (arith, fits)) in
    (
      r,
      rw (add64-ok x x_offset (omega (arith, fits))) (rw run rest),
      record { painted = Painted-trans p l.painted; left = Left-cons c cs rounds r.0 l.left },
    )

module _ (F : Font) where
  -- What a row leaves for the next one.
  record Next (t : Writer) (r : ℕ × Writer) : Type 0 where
    drawn : Drawn F t r.1
    room : r.0 < r.1.line_height
    some_height : 0 < r.1.font_height

  next_row-Next :
      (y : ℕ) (t : Writer)
      → IsTerminal F t
      → y < t.line_height
      → 0 < t.font_height
      → Returns (Next t) (next_row y t)
  unfolding next_row
  next_row-Next y t h lt pos = elim (Bool-cases (leb t.line_height (y + 1))) [
    | inl full ↦
        let (u, run, b) = newline-Broken F t h in
        rw (full, run)
          (
            (0, u),
            refl,
            record {
              drawn = b.drawn;
              room = omega (arith, b.drawn.terminal.glyph, b.height, pos);
              some_height = omega (arith, b.height, pos);
            },
          )
    | inr part ↦ rw part (
      (y + 1, t),
      refl,
      record {
        drawn = record { terminal = h; info = refl; kept = λ q o. refl };
        room = ground (arith, part);
        some_height = pos;
      },
    )
  ]

  last_row-Drawn : (y : ℕ) (t : Writer) → IsTerminal F t → Returns (Drawn F t) (last_row y t)
  unfolding last_row
  last_row-Drawn y t h = elim (Bool-cases (y == 0)) [
    | inl e ↦ rw e (t, refl, record { terminal = h; info = refl; kept = λ q o. refl })
    | inr e ↦ let (u, run, b) = newline-Broken F t h in rw e (u, run, b.drawn)
  ]

  -- The drawing is done, and nothing has panicked.
  abbrev Done : Writer → Option (Checked Writer) → Type 0
  Done t o = (u : Writer) × (o ≡ some (ok u)) × Drawn F t u

  -- The loop may go on from here.
  record Ready (y : ℕ) (t : Writer) : Type 0 where
    terminal : IsTerminal F t
    room : y < t.line_height
    some_height : 0 < t.font_height

  after_Painted : (t u : Writer) (y : ℕ) → Painted t u → Ready y t → Drawn F t u × Ready y u
  after_Painted t u y p r =
      let d = Painted-Drawn F {t = t} {u = t} {v = u} p r.terminal refl refl in
      (
        d,
        record {
          terminal = d.terminal;
          room = subst (λ (w : Writer). y < w.line_height) (sym p.same) r.room;
          some_height = subst (λ (w : Writer). 0 < w.font_height) (sym p.same) r.some_height;
        },
      )

  -- What follows a row, if the loop does what it should with less fuel.
  after_row :
      (fuel width x_offset y : ℕ) (colors : List Color) (t u : Writer) (left : Option (List Color))
      → 0 < width
      → ((cs : List Color) (z : ℕ) (v : Writer)
          → length cs < length colors
          → Ready z v
          → Done v (print_rows fuel width x_offset z cs v))
      → Ready y t
      → print_line width 0 x_offset y colors t ≡ ok (left, u)
      → Painted t u
      → Left colors width left
      → Done t (print_rows (suc fuel) width x_offset y colors t)
  unfolding print_rows
  after_row fuel width x_offset y colors t u none pos loop r run p l =
      let (d, q) = after_Painted t u y p r in
      let (v, last, e) = last_row-Drawn y u q.terminal in
      rw (print_rows, run) (v, ap some last, Drawn-trans F d e)
  after_row fuel width x_offset y colors t u (some cs) pos loop r run p l =
      let (d, q) = after_Painted t u y p r in
      let (n, next, e) = next_row-Next y u q.terminal q.room q.some_height in
      let (v, rest, f) =
        loop cs n.0 n.1 (omega (arith, pos, l))
          (record { terminal = e.drawn.terminal; room = e.room; some_height = e.some_height }) in
      rw (print_rows, run, next) (v, rest, Drawn-trans F d (Drawn-trans F e.drawn f))

  print_rows-Drawn :
      (fuel width x_offset y : ℕ) (colors : List Color) (t : Writer)
      → 0 < width
      → x_offset + width < 2 ^ 64
      → length colors < fuel
      → Ready y t
      → Done t (print_rows fuel width x_offset y colors t)
  print_rows-Drawn zero width x_offset y colors t pos fits enough r = absurd (omega (arith, enough))
  print_rows-Drawn (suc fuel) width x_offset y colors t pos fits enough r =
      let h = r.terminal in
      let (n, run, line) =
        print_line-Line width 0 x_offset y colors t h.buffer h.height_small
          (omega (arith, h.y_in, r.room)) (omega (arith, fits)) in
      after_row fuel width x_offset y colors t n.1 n.0 pos
        (λ cs z v less k.
          print_rows-Drawn fuel width x_offset z cs v pos fits (omega (arith, less, enough)) k)
        r run line.painted line.left

  -- On a terminal with a font of some height, a picture of some width below 2^32 is drawn without a
  -- panic, in the window only, and the loop ends: one round of fuel more than there are colours is
  -- enough.
  pub print_pixels-Drawn :
      (fuel width : ℕ) (colors : List Color) (t : Writer)
      → IsTerminal F t
      → 0 < t.font_height
      → 0 < width
      → width < 2 ^ 32
      → length colors < fuel
      → (u : Writer) × (print_pixels fuel width colors t ≡ some (ok u)) × Drawn F t u
  unfolding print_pixels
  print_pixels-Drawn fuel width colors t h tall pos small enough =
      print_rows-Drawn fuel width t.x_pos 0 colors t pos
        (omega (arith, h.x_in, h.width_small, small)) enough
        (record { terminal = h; room = omega (arith, h.glyph, tall); some_height = tall })
