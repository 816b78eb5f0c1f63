-- ===== src/Terminal/Window.antt =====
-- `WindowInfo` and `PlacementInfo`: a rectangle of the frame buffer, and the grid of windows that
-- kernel/src/common_main.rs gives the cores.
pub mod Grid
use steelmind_os.Base.{
  ℕ, ◌+◌, ◌-◌, ◌*◌, ◌/◌, ◌%◌, leb, ◌==◌, if◌then◌else◌, Checked, ok, panic, ◌>>=◌, ◌>>◌, ass, add64,
  sub64, mul64,
}

pub data PixelFormat : Type 0 where
  rgb bgr U8 unknown : PixelFormat

-- The part of the boot loader's `FrameBufferInfo` that is used.
pub record FrameBufferInfo : Type 0 where
  pub byte_len : ℕ
  pub width : ℕ
  pub height : ℕ
  pub pixel_format : PixelFormat
  pub bytes_per_pixel : ℕ
  pub stride : ℕ

pub record PlacementInfo : Type 0 where
  pub x_div : ℕ
  pub y_div : ℕ
  pub x_index : ℕ
  pub y_index : ℕ
  pub x_size : ℕ
  pub y_size : ℕ

abbrev pub full_screen_placement : PlacementInfo
full_screen_placement = record {
  x_div = 1;
  y_div = 1;
  x_index = 0;
  y_index = 0;
  x_size = 1;
  y_size = 1;
}

pub record WindowInfo : Type 0 where
  pub byte_offset : ℕ
  pub width : ℕ
  pub height : ℕ
  pub pixel_format : PixelFormat
  pub bytes_per_pixel : ℕ
  pub stride : ℕ

-- `usize` division panics at 0.
abbrev pub div64 : ℕ → ℕ → Checked ℕ
div64 a b = if b == 0 then panic else ok (a / b)

module _ (fb_info : FrameBufferInfo) where
  -- Both checks compare with the width of the frame buffer, as the source does.
  unfoldable pub new : (x y width height : ℕ) → Checked WindowInfo
  new x y width height = do
    right ← add64 x width
    ass (leb right fb_info.width)
    bottom ← add64 y height
    ass (leb bottom fb_info.width)
    row ← mul64 y fb_info.stride
    pixel_offset ← add64 row x
    byte_offset ← mul64 pixel_offset fb_info.bytes_per_pixel
    ok (record {
      byte_offset = byte_offset;
      width = width;
      height = height;
      pixel_format = fb_info.pixel_format;
      bytes_per_pixel = fb_info.bytes_per_pixel;
      stride = fb_info.stride;
    })

  -- `index * extent / div`
  unfoldable pub scale : ℕ → ℕ → ℕ → Checked ℕ
  scale index extent div = do n ← mul64 index extent; div64 n div

  unfoldable pub from_placement : PlacementInfo → Checked WindowInfo
  unfolding new scale
  from_placement p = do
    start_pixel_x ← scale p.x_index fb_info.width p.x_div
    x_stop ← add64 p.x_index p.x_size
    stop_pixel_x ← scale x_stop fb_info.width p.x_div
    start_pixel_y ← scale p.y_index fb_info.height p.y_div
    y_stop ← add64 p.y_index p.y_size
    stop_pixel_y ← scale y_stop fb_info.height p.y_div
    width ← sub64 stop_pixel_x start_pixel_x
    height ← sub64 stop_pixel_y start_pixel_y
    new start_pixel_x start_pixel_y width height

  -- `get_window_info_for_core` of kernel/src/common_main.rs; `main` passes the number of
  -- application processors as `count`.
  unfoldable pub get_window_info_for_core : (id count : ℕ) → Checked WindowInfo
  unfolding from_placement
  get_window_info_for_core id count = do
    a ← add64 count 4
    b ← sub64 a 1
    from_placement (record {
      x_div = 4;
      y_div = b / 4;
      x_index = id % 4;
      y_index = id / 4;
      x_size = 1;
      y_size = 1;
    })
