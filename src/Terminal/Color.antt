-- ===== src/Terminal/Color.antt =====
-- `Color` and its interpolation.
use steelmind_os.Base.{
  ℕ, ◌+◌, ◌-◌, ◌*◌, ◌/◌, ◌%◌, ◌^◌, ◌<◌, ◌≤◌, ◌≡◌, Bool-cases, inl, inr, arith, min, max, leb, ltb,
  if◌then◌else◌, Checked, ok, panic, ◌>>=◌,
}

pub record Color : Type 0 where
  pub r : ℕ
  pub g : ℕ
  pub b : ℕ

abbrev pub color : ℕ → ℕ → ℕ → Color
color r g b = record { r = r; g = g; b = b }

abbrev pub black : Color
black = color 0 0 0

abbrev pub white : Color
white = color 255 255 255

abbrev pub IsColor : Color → Type 0
IsColor c = (c.r < 256) × (c.g < 256) × (c.b < 256)

-- `(a as i32 + ((b as i32 - a as i32) * alpha as i32) / 1024) as u8` for a `u32` alpha. The
-- product is kept as its size and sign: it panics if it does not fit `i32`, `/` rounds towards 0,
-- and the cast keeps the low 8 bits. An alpha from 2 ^ 31 is negative as `i32`.
unfoldable pub lerp_channel : ℕ → ℕ → ℕ → Checked ℕ
lerp_channel a b alpha =
    let difference = if leb a b then b - a else a - b in
    let factor = if ltb alpha (2 ^ 31) then alpha else 2 ^ 32 - alpha in
    let up = if ltb alpha (2 ^ 31) then leb a b else ltb b a in
    let step = difference * factor / 1024 in
    if up
    then (if ltb (difference * factor) (2 ^ 31) then ok ((a + step) % 2 ^ 8) else panic)
    else (if leb (difference * factor) (2 ^ 31) then ok ((a + 2 ^ 22 - step) % 2 ^ 8) else panic)

unfoldable pub lerp : Color → Color → ℕ → Checked Color
lerp self other alpha_1024 = do
  r ← lerp_channel self.r other.r alpha_1024
  g ← lerp_channel self.g other.g alpha_1024
  b ← lerp_channel self.b other.b alpha_1024
  ok (color r g b)

abbrev pub Between : ℕ → ℕ → ℕ → Type 0
Between a b c = (min a b ≤ c) × (c ≤ max a b)

step-le : (d alpha : ℕ) → alpha ≤ 1024 → d * alpha ≤ d * 1024
step-le d alpha h = grind arith

lerp_channel-Between :
    (a b alpha : ℕ)
    → a < 256
    → b < 256
    → alpha ≤ 1024
    → (c : ℕ) × (lerp_channel a b alpha ≡ ok c) × Between a b c
unfolding lerp_channel
lerp_channel-Between a b alpha ha hb h = elim (Bool-cases (leb a b)) [
  | inl e ↦ (
    a + (b - a) * alpha / 1024,
    ground (arith, step-le (b - a) alpha),
    ground (arith, step-le (b - a) alpha),
  )
  | inr e ↦ (
    a - (a - b) * alpha / 1024,
    ground (arith, step-le (a - b) alpha),
    ground (arith, step-le (a - b) alpha),
  )
]

-- With an alpha of at most 1024, interpolating two colours does not panic, and each channel of the
-- result lies between the two.
pub lerp-Between :
    (self other : Color) (alpha : ℕ)
    → IsColor self
    → IsColor other
    → alpha ≤ 1024
    → (c : Color) × (lerp self other alpha ≡ ok c)
      × (Between self.r other.r c.r × Between self.g other.g c.g × Between self.b other.b c.b)
unfolding lerp
lerp-Between self other alpha hs ho h =
    let (r, er, br) = lerp_channel-Between self.r other.r alpha hs.0 ho.0 h in
    let (g, eg, bg) = lerp_channel-Between self.g other.g alpha hs.1 ho.1 h in
    let (b, eb, bb) = lerp_channel-Between self.b other.b alpha hs.2 ho.2 h in
    (color r g b, rw (er, eg, eb), (br, bg, bb))

lerp_channel-zero : (a b : ℕ) → a < 256 → b < 256 → lerp_channel a b 0 ≡ ok a
unfolding lerp_channel
lerp_channel-zero a b h k = ground arith

lerp_channel-full : (a b : ℕ) → a < 256 → b < 256 → lerp_channel a b 1024 ≡ ok b
unfolding lerp_channel
lerp_channel-full a b h k = ground arith

-- At alpha 0 the result is the first colour, at alpha 1024 the second.
lerp_ends :
    (self other : Color)
    → IsColor self
    → IsColor other
    → (lerp self other 0 ≡ ok self) × (lerp self other 1024 ≡ ok other)
unfolding lerp
lerp_ends self other hs ho = (
  rw (
    lerp_channel-zero self.r other.r hs.0 ho.0,
    lerp_channel-zero self.g other.g hs.1 ho.1,
    lerp_channel-zero self.b other.b hs.2 ho.2,
  ),
  rw (
    lerp_channel-full self.r other.r hs.0 ho.0,
    lerp_channel-full self.g other.g hs.1 ho.1,
    lerp_channel-full self.b other.b hs.2 ho.2,
  ),
)
