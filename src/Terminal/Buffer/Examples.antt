-- ===== src/Terminal/Buffer/Examples.antt =====
-- A screen of 3 by 2 pixels whose rows have room for 4.
use steelmind_os.Base.{refl, arith, false, some, Returns}
use steelmind_os.Terminal.Window.{FrameBufferInfo, bgr}
use steelmind_os.Terminal.Buffer.{Screen, back, push_to_frame_buffer}
use steelmind_os.Terminal.Buffer.Push.{Shows, push_to_frame_buffer-Shows}

abbrev info : FrameBufferInfo
info = record {
  byte_len = 32;
  width = 3;
  height = 2;
  pixel_format = bgr;
  bytes_per_pixel = 4;
  stride = 4;
}

abbrev screen : Screen
screen = record {
  panicked_stop_printing = false;
  double_buffer = some 32;
  back_buffer = λ i. i;
  front_buffer = λ i. 0;
  term_info = record {
    byte_offset = 0;
    width = 3;
    height = 2;
    pixel_format = bgr;
    bytes_per_pixel = 4;
    stride = 4;
  };
  term_base = back;
  term_len = 32;
}

push_to_frame_buffer-Shows_example : Returns (Shows info screen) (push_to_frame_buffer info screen)
push_to_frame_buffer-Shows_example =
    push_to_frame_buffer-Shows info screen 32 refl refl (omega arith) (omega arith) (omega arith)
