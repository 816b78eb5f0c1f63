-- ===== src/Terminal/Buffer/Push.antt =====
-- After a push the screen shows the back buffer.
use steelmind_os.Base.{
  ℕ, zero, suc, ◌+◌, ◌-◌, ◌*◌, ◌^◌, ◌≤◌, ◌<◌, ◌≡◌, ◌≢◌, ◌⊎◌, inl, inr, refl, ◌∙◌, arith, Bool,
  false, some, ok, mul64-ok, Returns,
}
use native.Mathlib.Nat.{mul_assoc, mul-le-mul_right}
use native.Mathlib.Decide.{ℕ_discrete}
use steelmind_os.Terminal.Window.{FrameBufferInfo}
use steelmind_os.Terminal.Isolation.{row_lt}
use steelmind_os.Terminal.Buffer.{Screen, copy_bytes, push_rows, panic_print, push_to_frame_buffer}

abbrev pub row_bytes : FrameBufferInfo → ℕ
row_bytes info = info.stride * info.bytes_per_pixel

abbrev pub visible_bytes : FrameBufferInfo → ℕ
visible_bytes info = info.width * info.bytes_per_pixel

-- After the rows from `y` up to `end`; `x` is a byte of row `z`.
record Pushed (info : FrameBufferInfo) (y end : ℕ) (a b : Screen) : Type 0 where
  back : b.back_buffer ≡ a.back_buffer
  shown :
      (z x : ℕ)
      → y ≤ z
      → z < end
      → x < visible_bytes info
      → b.front_buffer (z * row_bytes info + x) ≡ a.back_buffer (z * row_bytes info + x)
  padding :
      (z x : ℕ)
      → visible_bytes info ≤ x
      → x < row_bytes info
      → b.front_buffer (z * row_bytes info + x) ≡ a.front_buffer (z * row_bytes info + x)
  rest :
      (z x : ℕ)
      → (z < y) ⊎ (end ≤ z)
      → x < row_bytes info
      → b.front_buffer (z * row_bytes info + x) ≡ a.front_buffer (z * row_bytes info + x)

-- The bytes of one row.
copied_row :
    (s n y z x : ℕ) (db : Screen)
    → n ≤ s
    → x < s
    → (z ≢ y) ⊎ (n ≤ x)
    → (copy_bytes (y * s) n db).front_buffer (z * s + x) ≡ db.front_buffer (z * s + x)
copied_row s n y z x db le lt o = ground (arith, o, row_lt x z 0 y s, row_lt (n - 1) y x z s)

le_mul : (a b : ℕ) → 0 < b → (a ≤ a * b) × (a ≤ b * a)
le_mul a zero h = absurd (omega (arith, h))
le_mul a (suc b) h = (omega arith, omega arith)

-- The products of one row do not overflow.
row_fits :
    (info : FrameBufferInfo) (y rounds : ℕ)
    → 0 < info.bytes_per_pixel
    → visible_bytes info ≤ row_bytes info
    → (y + suc rounds) * row_bytes info < 2 ^ 64
    → (y * info.stride < 2 ^ 64)
      × (y * info.stride * info.bytes_per_pixel < 2 ^ 64)
      × (visible_bytes info < 2 ^ 64)
      × (y * info.stride * info.bytes_per_pixel ≡ y * row_bytes info)
row_fits info y rounds pos le top =
    let e : y * info.stride * info.bytes_per_pixel ≡ y * row_bytes info =
      mul_assoc y info.stride info.bytes_per_pixel in
    let split : (y + suc rounds) * row_bytes info
        ≡ y * row_bytes info + suc rounds * row_bytes info =
      omega arith in
    let one = (le_mul (row_bytes info) (suc rounds) (omega arith)).1 in
    let two = (le_mul (y * info.stride) info.bytes_per_pixel pos).0 in
    (
      omega (arith, e, split, one, two, top),
      omega (arith, e, split, one, two, top),
      omega (arith, le, split, one, top),
      e,
    )

push_rows-Pushed :
    (info : FrameBufferInfo) (rounds y end : ℕ) (s : Screen)
    → y + rounds ≡ end
    → 0 < info.bytes_per_pixel
    → visible_bytes info ≤ row_bytes info
    → end * row_bytes info < 2 ^ 64
    → Returns (Pushed info y end s) (push_rows rounds y info s)
unfolding push_rows
push_rows-Pushed info zero y end s e pos le top = (
  s,
  refl,
  record {
    back = refl;
    shown = λ z x lo hi k. absurd (omega (arith, lo, hi, e));
    padding = λ z x lo hi. refl;
    rest = λ z x o k. refl;
  },
)
push_rows-Pushed info (suc rounds) y end s e pos le top =
    let n = visible_bytes info in
    let size = row_bytes info in
    let s1 : Screen = copy_bytes (y * size) n s in
    let (t, run, p) = push_rows-Pushed info rounds (y + 1) end s1 (omega (arith, e)) pos le top in
    let (f1, f2, f3, same) = row_fits info y rounds pos le (rw e top) in
    rw (mul64-ok y info.stride f1) (
      rw (mul64-ok (y * info.stride) info.bytes_per_pixel f2) (
        rw (mul64-ok info.width info.bytes_per_pixel f3) (
          rw same (
            t,
            run,
            record {
              back = p.back;
              shown = λ z x lo hi k. elim (ℕ_discrete y z) [
                | yes here ↦
                    p.rest z x (inl (omega (arith, here))) (omega (arith, k, le))
                    ∙ ground (arith, here, k)
                | no later ↦ p.shown z x (omega (arith, lo, later)) hi k
              ];
              padding = λ z x lo hi. p.padding z x lo hi ∙ copied_row size n y z x s le hi (inr lo);
              rest = λ z x o k.
                  p.rest z x (ground (arith, o)) k
                  ∙ copied_row size n y z x s le k (inl (ground (arith, o, e)));
            },
          ))))

-- What a push has done: `x` is the number of a byte in row `y`.
pub record Shows (info : FrameBufferInfo) (s t : Screen) : Type 0 where
  pub back : t.back_buffer ≡ s.back_buffer
  pub visible :
      (y x : ℕ)
      → y < info.height
      → x < visible_bytes info
      → t.front_buffer (y * row_bytes info + x) ≡ s.back_buffer (y * row_bytes info + x)
  pub hidden :
      (y x : ℕ)
      → (info.height ≤ y) ⊎ (visible_bytes info ≤ x)
      → x < row_bytes info
      → t.front_buffer (y * row_bytes info + x) ≡ s.front_buffer (y * row_bytes info + x)

-- When there is a double buffer, no core has panicked, a pixel has at least one byte, the rows are
-- no shorter than what is visible of them, and the offsets fit in 64 bits: `push_to_frame_buffer`
-- returns, and has made every visible byte of the frame buffer that of the back buffer, and changed
-- no other byte of either.
pub push_to_frame_buffer-Shows :
    (info : FrameBufferInfo) (s : Screen) (length : ℕ)
    → s.panicked_stop_printing ≡ false
    → s.double_buffer ≡ some length
    → 0 < info.bytes_per_pixel
    → info.width ≤ info.stride
    → info.height * row_bytes info < 2 ^ 64
    → Returns (Shows info s) (push_to_frame_buffer info s)
unfolding push_to_frame_buffer
push_to_frame_buffer-Shows info s length calm db pos wide top =
    let le : visible_bytes info ≤ row_bytes info = mul-le-mul_right info.bytes_per_pixel wide in
    let (t, run, p) = push_rows-Pushed info info.height 0 info.height s (omega arith) pos le top in
    let live : push_to_frame_buffer info s ≡ push_rows info.height 0 info s = simp (calm, db) in
    rw live (
      t,
      run,
      record {
        back = p.back;
        visible = λ y x hi k. p.shown y x (omega arith) hi k;
        hidden = λ y x o k. elim o [
          | inl below ↦ p.rest y x (inr below) k
          | inr far ↦ p.padding y x far k
        ];
      },
    )

-- After a panic nothing is pushed over what the panic has printed.
pub panic_print-push :
    (info : FrameBufferInfo) (free : ℕ → Bool) (term_free : Bool) (s : Screen)
    → push_to_frame_buffer info (panic_print free term_free s).1
      ≡ ok (panic_print free term_free s).1
unfolding push_to_frame_buffer panic_print
panic_print-push info free term_free s = refl
