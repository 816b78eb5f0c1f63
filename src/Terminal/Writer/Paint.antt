-- ===== src/Terminal/Writer/Paint.antt =====
-- Drawing stays in the window: what a pixel, and a rectangle of pixels, writes.
use steelmind_os.Base.{
  ℕ, ◌+◌, ◌*◌, ◌/◌, ◌^◌, ◌≤◌, ◌<◌, ◌≡◌, ◌⊎◌, refl, ap, sym, ◌∙◌, arith, ◌==◌, if◌then◌else◌,
  Checked, ok, ◌>>=◌, lt→ltb, add64-ok, mul64-ok, for_range, Returns, for_range-Returns,
}
use mathlib.Core.Path.{subst}
use steelmind_os.Terminal.Color.{Color}
use steelmind_os.Terminal.Window.{PixelFormat, rgb, bgr, WindowInfo}
use steelmind_os.Terminal.Writer.{Writer, store, put_pixel, write_pixel, fill}

-- The first byte of a pixel of the window.
abbrev pub pixel_at : WindowInfo → ℕ → ℕ → ℕ
pixel_at info x y = info.byte_offset + (y * info.stride + x) * info.bytes_per_pixel

-- The byte belongs to no pixel of the window.
abbrev pub OutsideWindow : WindowInfo → ℕ → Type 0
OutsideWindow info q =
    (x y : ℕ)
    → x < info.width
    → y < info.height
    → (q < pixel_at info x y) ⊎ (pixel_at info x y + info.bytes_per_pixel ≤ q)

abbrev pub Kept : WindowInfo → (ℕ → ℕ) → (ℕ → ℕ) → Type 0
Kept info m m' = (q : ℕ) → OutsideWindow info q → m' q ≡ m q

-- Only pixels of the window have changed.
pub record Painted (t u : Writer) : Type 0 where
  pub same : u ≡ record t { frame = u.frame }
  pub kept : Kept t.info t.frame u.frame

-- The buffer has room for every pixel of the window.
pub record IsBuffer (t : Writer) : Type 0 where
  pub sized : t.buffer_len ≡ t.info.stride * t.info.height * t.info.bytes_per_pixel
  pub small : t.buffer_len < 2 ^ 64
  pub wide : t.info.width ≤ t.info.stride
  pub depth : 3 ≤ t.info.bytes_per_pixel

pub Painted-refl : (t : Writer) → Painted t t
Painted-refl t = record { same = refl; kept = λ q o. refl }

pub Painted-IsBuffer : {t u : Writer} → Painted t u → IsBuffer t → IsBuffer u
Painted-IsBuffer {t} {u} p b =
    rw p.same (record { sized = b.sized; small = b.small; wide = b.wide; depth = b.depth })

pub Painted-trans : {t u v : Writer} → Painted t u → Painted u v → Painted t v
Painted-trans {t} {u} {v} p q =
    let e : u.info ≡ t.info = ap (λ (w : Writer). w.info) p.same in
    record {
      same = q.same ∙ ap (λ (w : Writer). record w { frame = v.frame }) p.same;
      kept = λ a o. q.kept a (subst (λ i. OutsideWindow i a) (sym e) o) ∙ p.kept a o;
    }

store-ok :
    (t : Writer) (i v : ℕ)
    → i < t.buffer_len
    → store t i v
      ≡ ok (record t { frame = λ q. if q == t.info.byte_offset + i then v else t.frame q })
unfolding store
store-ok t i v h = rw (lt→ltb i t.buffer_len h)

-- A pixel of the window ends within the buffer.
pixel_room :
    (x y stride width height depth : ℕ)
    → width ≤ stride
    → x < width
    → y < height
    → (y * stride + x) * depth + depth ≤ stride * height * depth
pixel_room x y stride width height depth h hx hy = grind arith

three_stores :
    (i r g b : ℕ) (t : Writer)
    → i + 2 < t.buffer_len
    → Returns
        (λ u.
          (u ≡ record t { frame = u.frame })
          × ((q : ℕ)
              → (q < t.info.byte_offset + i) ⊎ (t.info.byte_offset + i + 3 ≤ q)
              → u.frame q ≡ t.frame q))
        (do a ← store t i r; d ← store a (i + 1) g; store d (i + 2) b)
three_stores i r g b t h =
    let at : ℕ = t.info.byte_offset in
    let a : Writer = record t { frame = λ q. if q == at + i then r else t.frame q } in
    let d : Writer = record a { frame = λ q. if q == at + (i + 1) then g else a.frame q } in
    (
      record t {
        frame = λ q.
            if q == at + (i + 2)
            then b
            else (if q == at + (i + 1) then g else (if q == at + i then r else t.frame q));
      },
      rw (store-ok t i r (omega arith))
          (rw (store-ok a (i + 1) g (omega arith)) (store-ok d (i + 2) b (omega arith))),
      (refl, λ q out. ground arith),
    )

put_pixel-kept :
    (f : PixelFormat) (c : Color) (i : ℕ) (t : Writer)
    → i + 2 < t.buffer_len
    → Returns
        (λ u.
          (u ≡ record t { frame = u.frame })
          × ((q : ℕ)
              → (q < t.info.byte_offset + i) ⊎ (t.info.byte_offset + i + 3 ≤ q)
              → u.frame q ≡ t.frame q))
        (put_pixel f c i t)
unfolding put_pixel
put_pixel-kept rgb c i t h = three_stores i c.r c.g c.b t h
put_pixel-kept bgr c i t h = three_stores i c.b c.g c.r t h
put_pixel-kept _ c i t h = (
  record t {
    frame = λ q. if q == t.info.byte_offset + i then (c.r + c.g + c.b) / 3 else t.frame q;
  },
  store-ok t i ((c.r + c.g + c.b) / 3) (omega arith),
  (refl, λ q out. ground arith),
)

-- Writing a pixel of the window does not panic, and changes only bytes of that pixel.
pub write_pixel-Painted :
    (x y : ℕ) (c : Color) (t : Writer)
    → IsBuffer t
    → x < t.info.width
    → y < t.info.height
    → Returns (Painted t) (write_pixel x y c t)
unfolding write_pixel
write_pixel-Painted x y c t b hx hy =
    let start : ℕ = (y * t.info.stride + x) * t.info.bytes_per_pixel in
    let room =
      pixel_room x y t.info.stride t.info.width t.info.height t.info.bytes_per_pixel b.wide hx hy in
    let row : y * t.info.stride + x ≤ start = grind (arith, b.depth) in
    let (u, run, (same, kept)) =
      put_pixel-kept t.info.pixel_format c start t (omega (arith, b.sized, b.depth)) in
    (
      u,
      rw
          (
            mul64-ok y t.info.stride (omega (arith, b.sized, b.small)),
            add64-ok (y * t.info.stride) x (omega (arith, b.sized, b.small, b.depth)),
            mul64-ok (y * t.info.stride + x) t.info.bytes_per_pixel
                (omega (arith, b.sized, b.small, b.depth)),
          )
          run,
      record { same = same; kept = λ q out. kept q (ground (arith, out x y, b.depth)) },
    )

-- A loop whose rounds only paint.
paint_loop :
    (body : ℕ → Writer → Checked Writer) (rounds i end : ℕ) (t : Writer)
    → i + rounds ≡ end
    → ((j : ℕ) (u : Writer) → i ≤ j → j < end → Painted t u → Returns (Painted u) (body j u))
    → Returns (Painted t) (for_range rounds i body t)
paint_loop body rounds i end t e step =
    for_range-Returns (Painted t) body rounds i end e
      (λ j u l k p. let (v, run, q) = step j u l k p in (v, run, Painted-trans p q)) t
      (Painted-refl t)

-- Filling rows of the window does not panic, and paints the window only.
pub fill-Painted :
    (paint : ℕ → ℕ → Color) (top rounds : ℕ) (t : Writer)
    → IsBuffer t
    → top + rounds ≤ t.info.height
    → Returns (Painted t) (fill paint top rounds t)
unfolding fill
fill-Painted paint top rounds t b h = paint_loop _ rounds top (top + rounds) t refl λ y u l k p.
    let e : u.info ≡ t.info = ap (λ (w : Writer). w.info) p.same in
    paint_loop _ t.info.width 0 t.info.width u (omega arith) λ x v l' k' q.
      let e' : v.info ≡ u.info = ap (λ (w : Writer). w.info) q.same in
      write_pixel-Painted x y (paint x y) v (Painted-IsBuffer q (Painted-IsBuffer p b))
        (rw (e', e) k') (rw (e', e) (omega arith))
