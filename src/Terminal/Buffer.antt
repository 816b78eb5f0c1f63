-- ===== src/Terminal/Buffer.antt =====
-- The two buffers of the screen: everything is drawn to the one in memory, and pushed to the frame buffer.
pub mod Push
mod Examples
use steelmind_os.Base.{
  ℕ, zero, suc, ◌+◌, ◌-◌, min, ltb, leb, ◌&&◌, Bool, true, if◌then◌else◌, Option, none, some,
  Checked, ok, ◌>>=◌, mul64, unwrap,
}
use steelmind_os.Terminal.Window.{FrameBufferInfo, WindowInfo}
use steelmind_os.Terminal.Writer.{construct_buffer}

-- Where a terminal's `buffer_base_ptr` points.
pub data Base : Type 0 where
  front back : Base

-- The statics of the module, and the bytes of the two buffers. `double_buffer` is the length of the static
-- `DOUBLE_BUFFER` once it is set; `term_base` and `term_len` are the base and the length of the slice of `TERM`.
pub record Screen : Type 0 where
  pub panicked_stop_printing : Bool
  pub double_buffer : Option ℕ
  pub back_buffer : ℕ → ℕ
  pub front_buffer : ℕ → ℕ
  pub term_info : WindowInfo
  pub term_base : Base
  pub term_len : ℕ

-- `call_once`: a second call changes nothing. `vec!` clears the new buffer.
unfoldable pub switch_to_double_buffer : FrameBufferInfo → Screen → Checked Screen
switch_to_double_buffer info s = elim s.double_buffer [
  | some length ↦ ok s
  | none ↦ do
    row ← mul64 info.stride info.bytes_per_pixel
    size ← mul64 row info.height
    len ← construct_buffer s.term_info
    ok (record s {
      double_buffer = some (min info.byte_len size);
      back_buffer = λ i. 0;
      term_base = back;
      term_len = len;
    })
]

-- `set_to_double_buffer` of `TERM`: it waits until there is one.
unfoldable pub set_to_double_buffer : Screen → Option (Checked Screen)
set_to_double_buffer s = elim s.double_buffer [
  | none ↦ none
  | some length ↦
      some
        (do len ← construct_buffer s.term_info; ok (record s { term_base = back; term_len = len }))
]

-- `copy_nonoverlapping`, of `n` bytes at `offset` of both buffers.
abbrev pub copy_bytes : (offset n : ℕ) → Screen → Screen
copy_bytes offset n s = record s {
  front_buffer =
      λ i. if leb offset i && ltb i (offset + n) then s.back_buffer i else s.front_buffer i;
}

-- The loop over the rows, from row `y` on.
unfoldable pub push_rows : (rounds y : ℕ) → FrameBufferInfo → Screen → Checked Screen
push_rows zero y info s = ok s
push_rows (suc rounds) y info s = do
  row ← mul64 y info.stride
  offset ← mul64 row info.bytes_per_pixel
  n ← mul64 info.width info.bytes_per_pixel
  push_rows rounds (y + 1) info (copy_bytes offset n s)

unfoldable pub push_to_frame_buffer : FrameBufferInfo → Screen → Checked Screen
push_to_frame_buffer info s =
    if s.panicked_stop_printing
    then ok s
    else (unwrap s.double_buffer >>= λ _. push_rows info.height 0 info s)

-- The loop on `SWAP_LOCK`: `free i` says whether the lock is free at the attempt `i`.
unfoldable pub try_swap : (free : ℕ → Bool) (time_out i : ℕ) → Bool
try_swap free zero i = free i
try_swap free (suc time_out) i =
    let rest = try_swap free time_out (i + 1) in (if free i then true else rest)

-- The terminal that `panic_print` hands to its callback.
pub data Target : Type 0 where
  term : Target
  emergency : Target
  emergency_on_front : (length : ℕ) (swap_locked : Bool) → Target

unfoldable pub panic_print : (free : ℕ → Bool) (term_free : Bool) → Screen → Target × Screen
unfolding try_swap
panic_print free term_free s = (
  elim s.double_buffer [
    | some length ↦ emergency_on_front length (try_swap free 1_000_000 0)
    | none ↦ if term_free then term else emergency
  ],
  record s { panicked_stop_printing = true },
)
