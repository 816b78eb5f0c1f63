-- ===== src/Terminal/Window/Grid.antt =====
-- Where the windows of a grid lie.
use steelmind_os.Base.{
  ℕ, ◌+◌, ◌-◌, ◌*◌, ◌/◌, ◌%◌, ◌^◌, ◌<◌, ◌≤◌, ◌≡◌, ◌≢◌, ◌⊎◌, arith, leb, Bool-cases, inl, inr, ◌&&◌,
  if◌then◌else◌, ok, panic, ◌∙◌, add64-ok, sub64-ok, mul64-ok, le→leb,
}
use native.Mathlib.Nat.{div-le_self}
use steelmind_os.Terminal.Window.{FrameBufferInfo, WindowInfo, new, scale, get_window_info_for_core}

-- A mode that a screen can have: the products below fit 64 bits.
pub record IsScreen (fb : FrameBufferInfo) : Type 0 where
  pub wide : fb.width ≤ fb.stride
  pub width_small : fb.width < 2 ^ 20
  pub height_small : fb.height < 2 ^ 20
  pub stride_small : fb.stride < 2 ^ 20
  pub depth_small : fb.bytes_per_pixel < 2 ^ 8

-- The window whose first pixel is in column `x` and row `y`.
abbrev pub window_at : FrameBufferInfo → (x y width height : ℕ) → WindowInfo
window_at fb x y width height = record {
  byte_offset = (y * fb.stride + x) * fb.bytes_per_pixel;
  width = width;
  height = height;
  pixel_format = fb.pixel_format;
  bytes_per_pixel = fb.bytes_per_pixel;
  stride = fb.stride;
}

mul_bound : (a b m n : ℕ) → a < m → b < n → a * b < m * n
mul_bound a b m n h k = grind arith

module _ (fb : FrameBufferInfo) (s : IsScreen fb) where
  -- `new` makes the window exactly if it ends within the width on both axes; else it panics.
  new_lem :
      (x y width height : ℕ)
      → x < 2 ^ 32
      → y < 2 ^ 32
      → width < 2 ^ 32
      → height < 2 ^ 32
      → new fb x y width height ≡ (
          if leb (x + width) fb.width && leb (y + height) fb.width
          then ok (window_at fb x y width height)
          else panic)
  unfolding new
  new_lem x y width height hx hy hw hh =
      rw (add64-ok x width (omega arith), add64-ok y height (omega arith))
        (elim (Bool-cases (leb (y + height) fb.width)) [
          | inl e ↦
              let row : y * fb.stride < 2 ^ 21 * 2 ^ 20 =
                mul_bound y fb.stride (2 ^ 21) (2 ^ 20) (ground (arith, s.width_small))
                  s.stride_small in
              let bytes : (y * fb.stride + x) * fb.bytes_per_pixel < 2 ^ 42 * 2 ^ 8 =
                mul_bound (y * fb.stride + x) fb.bytes_per_pixel (2 ^ 42) (2 ^ 8) (omega arith)
                  s.depth_small in
              rw
                (
                  mul64-ok y fb.stride (omega arith),
                  add64-ok (y * fb.stride) x (omega arith),
                  mul64-ok (y * fb.stride + x) fb.bytes_per_pixel (omega arith),
                )
                (ground arith)
          | inr e ↦ ground arith
        ])

  scale_lem :
      (index extent div : ℕ)
      → index < 2 ^ 32
      → extent < 2 ^ 20
      → 0 < div
      → scale fb index extent div ≡ ok (index * extent / div)
  unfolding scale
  scale_lem index extent div hi he hd =
      let n : index * extent < 2 ^ 32 * 2 ^ 20 = mul_bound index extent (2 ^ 32) (2 ^ 20) hi he in
      rw (mul64-ok index extent (omega arith)) (ground arith)

div_mono : (a b n d : ℕ) → a ≤ b → a * n / d ≤ b * n / d
div_mono a b n d h = grind arith

div_self : (n d : ℕ) → 0 < d → d * n / d ≡ n
div_self n d h = grind arith

-- The grid has four columns; `rows count` is its number of rows.
abbrev pub rows : ℕ → ℕ
rows count = (count + 4 - 1) / 4

module _ (fb : FrameBufferInfo) where
  -- The first column and row of the window of a core, and the first ones behind it.
  abbrev pub left : ℕ → ℕ
  left id = id % 4 * fb.width / 4

  abbrev pub right : ℕ → ℕ
  right id = (id % 4 + 1) * fb.width / 4

  abbrev pub top : ℕ → ℕ → ℕ
  top id count = id / 4 * fb.height / rows count

  abbrev pub bottom : ℕ → ℕ → ℕ
  bottom id count = (id / 4 + 1) * fb.height / rows count

  abbrev pub core_window : ℕ → ℕ → WindowInfo
  core_window id count =
      window_at fb (left id) (top id count) (right id - left id) (bottom id count - top id count)

module _ (fb : FrameBufferInfo) (s : IsScreen fb) (id count : ℕ) (some_core : 0 < count)
    (count_small : count < 2 ^ 20) (id_small : id < 2 ^ 10) where
  pub bounds :
      (left fb id ≤ right fb id)
      × (right fb id ≤ fb.width)
      × (top fb id count ≤ bottom fb id count)
      × (bottom fb id count < 2 ^ 31)
      × (top fb id count < 2 ^ 31)
  bounds =
      let full : 4 * fb.width / 4 ≡ fb.width = div_self fb.width 4 (omega arith) in
      let rest : id % 4 + 1 ≤ 4 = omega arith in
      let big : (id / 4 + 1) * fb.height < 2 ^ 11 * 2 ^ 20 =
        mul_bound (id / 4 + 1) fb.height (2 ^ 11) (2 ^ 20) (omega arith) s.height_small in
      let mono_x = div_mono (id % 4) (id % 4 + 1) fb.width 4 (omega arith) in
      let mono_w = div_mono (id % 4 + 1) 4 fb.width 4 rest in
      let mono_y = div_mono (id / 4) (id / 4 + 1) fb.height (rows count) (omega arith) in
      let small = div-le_self ((id / 4 + 1) * fb.height) (rows count) in
      (mono_x, omega arith, mono_y, omega arith, omega arith)

  -- The window of a core, whichever of the two outcomes: the code panics where the window would
  -- end below as many rows as the screen is wide.
  pub get_window_info_for_core_lem :
      get_window_info_for_core fb id count
      ≡ (if leb (bottom fb id count) fb.width then ok (core_window fb id count) else panic)
  unfolding get_window_info_for_core
  get_window_info_for_core_lem =
      let (hx, hw, hy, hb, ht) = bounds in
      let e : left fb id + (right fb id - left fb id) ≡ right fb id = omega arith in
      let e' : top fb id count + (bottom fb id count - top fb id count) ≡ bottom fb id count =
        omega arith in
      rw
        (
          add64-ok count 4 (omega arith),
          sub64-ok (count + 4) 1 (omega arith),
          scale_lem fb s (id % 4) fb.width 4 (omega arith) s.width_small (omega arith),
          add64-ok (id % 4) 1 (omega arith),
          scale_lem fb s (id % 4 + 1) fb.width 4 (omega arith) s.width_small (omega arith),
          scale_lem fb s (id / 4) fb.height (rows count) (omega arith) s.height_small (omega arith),
          add64-ok (id / 4) 1 (omega arith),
          scale_lem fb s (id / 4 + 1) fb.height (rows count) (omega arith) s.height_small
              (omega arith),
        )
        (rw (
          sub64-ok (right fb id) (left fb id) hx,
          sub64-ok (bottom fb id count) (top fb id count) hy,
          new_lem fb s (left fb id) (top fb id count) (right fb id - left fb id)
              (bottom fb id count - top fb id count) (omega arith) (omega arith) (omega arith)
              (omega arith),
          e,
          e',
          le→leb (right fb id) fb.width hw,
        ))

  -- On a screen that is at least as wide as high, a core with a number below `count` gets a
  -- window, and it lies within the screen.
  pub get_window_info_for_core-inside :
      fb.height ≤ fb.width
      → id < count
      → (get_window_info_for_core fb id count ≡ ok (core_window fb id count))
        × (left fb id + (core_window fb id count).width ≤ fb.width)
        × (top fb id count + (core_window fb id count).height ≤ fb.height)
  get_window_info_for_core-inside landscape below =
      let (hx, hw, hy, hb, ht) = bounds in
      let last = div_mono (id / 4 + 1) (rows count) fb.height (rows count) (omega arith) in
      let full : rows count * fb.height / rows count ≡ fb.height =
        div_self fb.height (rows count) (omega arith) in
      let ends : bottom fb id count ≤ fb.width = omega arith in
      (
        get_window_info_for_core_lem ∙ rw (le→leb (bottom fb id count) fb.width ends),
        omega arith,
        omega arith,
      )

-- The windows of two cores share no pixel: one ends in a column or a row before the other begins.
pub core_window-disjoint :
    (fb : FrameBufferInfo) (id id' count : ℕ)
    → id ≢ id'
    → (left fb id + (core_window fb id count).width ≤ left fb id')
      ⊎ ((left fb id' + (core_window fb id' count).width ≤ left fb id)
          ⊎ ((top fb id count + (core_window fb id count).height ≤ top fb id' count)
              ⊎ (top fb id' count + (core_window fb id' count).height ≤ top fb id count)))
core_window-disjoint fb id id' count ne =
    let a = div_mono (id % 4) (id % 4 + 1) fb.width 4 (omega arith) in
    let a' = div_mono (id' % 4) (id' % 4 + 1) fb.width 4 (omega arith) in
    let c = div_mono (id / 4) (id / 4 + 1) fb.height (rows count) (omega arith) in
    let c' = div_mono (id' / 4) (id' / 4 + 1) fb.height (rows count) (omega arith) in
    let x = div_mono (id % 4 + 1) (id' % 4) fb.width 4 in
    let x' = div_mono (id' % 4 + 1) (id % 4) fb.width 4 in
    let y = div_mono (id / 4 + 1) (id' / 4) fb.height (rows count) in
    let y' = div_mono (id' / 4 + 1) (id / 4) fb.height (rows count) in ground arith

-- Where the number of application processors is a positive multiple of 4, the last of them (its
-- number is `count`) gets no window on the screen: the code panics, or the window begins
-- behind the last row of the frame buffer.
pub last_core-outside :
    (fb : FrameBufferInfo) (s : IsScreen fb) (count : ℕ)
    → 0 < count
    → count < 2 ^ 10
    → count % 4 ≡ 0
    → (get_window_info_for_core fb count count ≡ panic)
      ⊎ ((w : WindowInfo) × (get_window_info_for_core fb count count ≡ ok w)
          × (fb.height * fb.stride * fb.bytes_per_pixel ≤ w.byte_offset))
last_core-outside fb s count pos small m =
    let first : count / 4 ≡ rows count = omega arith in
    let start : top fb count count ≡ fb.height =
      rw first (div_self fb.height (rows count) (omega arith)) in
    let run = get_window_info_for_core_lem fb s count count pos (omega arith) small in
    elim (Bool-cases (leb (bottom fb count count) fb.width)) [
      | inl e ↦ inr (core_window fb count count, run ∙ rw e, rw start (grind arith))
      | inr e ↦ inl (run ∙ rw e)
    ]
