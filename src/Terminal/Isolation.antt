-- ===== src/Terminal/Isolation.antt =====
-- The windows of the cores do not disturb one another.
use steelmind_os.Base.{ℕ, ◌+◌, ◌-◌, ◌*◌, ◌^◌, ◌≤◌, ◌<◌, ◌≡◌, ◌≢◌, ◌⊎◌, inl, inr, arith, List, ok}
use steelmind_os.Terminal.Window.{FrameBufferInfo}
use steelmind_os.Terminal.Window.Grid.{
  IsScreen, window_at, core_window, left, right, top, bottom, core_window-disjoint, bounds,
}
use steelmind_os.Terminal.Writer.{Writer, Font, write_str}
use steelmind_os.Terminal.Writer.Paint.{pixel_at, OutsideWindow}
use steelmind_os.Terminal.Writer.Text.{IsTerminal, write_str-Drawn}

-- Two cells of a grid with rows of `stride` cells, as byte ranges of `depth` bytes.
apart_of_lt : (a b depth : ℕ) → a < b → a * depth + depth ≤ b * depth
apart_of_lt a b depth h = grind arith

pub row_lt : (x y x' y' stride : ℕ) → y < y' → x < stride → y * stride + x < y' * stride + x'
row_lt x y x' y' stride h k = grind arith

cells_apart :
    (x y x' y' stride depth base q : ℕ)
    → x < stride
    → x' < stride
    → (y ≢ y') ⊎ (x ≢ x')
    → base + (y' * stride + x') * depth ≤ q
    → q < base + (y' * stride + x') * depth + depth
    → (q < base + (y * stride + x) * depth) ⊎ (base + (y * stride + x) * depth + depth ≤ q)
cells_apart x y x' y' stride depth base q hx hx' ne lo hi =
    let cell : ℕ = y * stride + x in
    let cell' : ℕ = y' * stride + x' in
    let up = row_lt x y x' y' stride in
    let down = row_lt x' y' x y stride in
    let far : (cell < cell') ⊎ (cell' < cell) = ground arith in
    let after = apart_of_lt cell cell' depth in
    let before = apart_of_lt cell' cell depth in ground arith

pixel_at-window_at :
    (fb : FrameBufferInfo) (left top width height x y : ℕ)
    → pixel_at (window_at fb left top width height) x y
      ≡ 0 + ((top + y) * fb.stride + (left + x)) * fb.bytes_per_pixel
pixel_at-window_at fb left top width height x y = grind arith

module _ (fb : FrameBufferInfo) (s : IsScreen fb) (id id' count : ℕ) (pos : 0 < count)
    (small : count < 2 ^ 20) (id_small : id < 2 ^ 10) (id'_small : id' < 2 ^ 10)
    (ne : id ≢ id') where
  -- A byte of a pixel of one core's window is outside the other's.
  OutsideWindow-core_window :
      (x' y' k : ℕ)
      → x' < (core_window fb id' count).width
      → y' < (core_window fb id' count).height
      → k < fb.bytes_per_pixel
      → OutsideWindow (core_window fb id count) (pixel_at (core_window fb id' count) x' y' + k)
  OutsideWindow-core_window x' y' k hx' hy' hk x y hx hy =
      let (a, b, _, _, _) = bounds fb s id count pos small id_small in
      let (a', b', _, _, _) = bounds fb s id' count pos small id'_small in
      let here =
        pixel_at-window_at fb (left fb id) (top fb id count) (right fb id - left fb id)
          (bottom fb id count - top fb id count) x y in
      let there =
        pixel_at-window_at fb (left fb id') (top fb id' count) (right fb id' - left fb id')
          (bottom fb id' count - top fb id' count) x' y' in
      let cut : (top fb id count + y ≢ top fb id' count + y')
          ⊎ (left fb id + x ≢ left fb id' + x') =
        cut_of (core_window-disjoint fb id id' count ne) in
      rw here (
        cells_apart (left fb id + x) (top fb id count + y) (left fb id' + x')
          (top fb id' count + y') fb.stride fb.bytes_per_pixel 0 _ (omega (arith, s.wide))
          (omega (arith, s.wide)) cut (omega arith) (omega arith))
    where
      cut_of :
          (left fb id + (core_window fb id count).width ≤ left fb id')
            ⊎ ((left fb id' + (core_window fb id' count).width ≤ left fb id)
                ⊎ ((top fb id count + (core_window fb id count).height ≤ top fb id' count)
                    ⊎ (top fb id' count + (core_window fb id' count).height ≤ top fb id count)))
          → (top fb id count + y ≢ top fb id' count + y') ⊎ (left fb id + x ≢ left fb id' + x')
      cut_of (inl h) = inr (λ e. omega arith)
      cut_of (inr (inl h)) = inr (λ e. omega arith)
      cut_of (inr (inr (inl h))) = inl (λ e. omega arith)
      cut_of (inr (inr (inr h))) = inl (λ e. omega arith)

  -- Whatever the text, printing it on a terminal in one core's window does not panic and changes no
  -- byte of a pixel of another core's window.
  pub write_str-isolated :
      (F : Font) (text : List ℕ) (t : Writer)
      → IsTerminal F t
      → t.info ≡ core_window fb id count
      → (u : Writer) × (write_str F text t ≡ ok u)
        × IsTerminal F u
        × ((x y k : ℕ)
            → x < (core_window fb id' count).width
            → y < (core_window fb id' count).height
            → k < fb.bytes_per_pixel
            → u.frame (pixel_at (core_window fb id' count) x y + k)
              ≡ t.frame (pixel_at (core_window fb id' count) x y + k))
  write_str-isolated F text t h e =
      let (u, run, d) = write_str-Drawn F text t h in
      (
        u,
        run,
        d.terminal,
        λ x y k hx hy hk. d.kept _ (rw e (OutsideWindow-core_window x y k hx hy hk)),
      )
