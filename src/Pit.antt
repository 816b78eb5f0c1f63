-- ===== src/Pit.antt =====
-- kernel/src/pit.rs: channel 2 of the programmable interval timer, through I/O ports.
pub mod Timer
use steelmind_os.Base.{
  ℕ, zero, suc, ◌+◌, ◌*◌, ◌/◌, ◌^◌, Bool, true, false, not, ◌&&◌, ltb, ◌==◌, if◌then◌else◌, bit_and,
  bit_or,
}
use steelmind_os.Base.Bitfield.{Bitfield, bool_bit}
use steelmind_os.Base.Ports.{Io, pure, ◌>>=◌, ◌>>◌, waiting, port_read, port_write}

pub data AccessMode : Type 0 where
  latch_count_value low_byte_only high_byte_only low_and_high_byte : AccessMode

abbrev pub access_code : AccessMode → ℕ
access_code latch_count_value = 0
access_code low_byte_only = 1
access_code high_byte_only = 2
access_code low_and_high_byte = 3

pub data OperatingMode : Type 0 where
  interrupt_on_terminal_count programmable_one_shot rate_generator : OperatingMode
  square_wave_generator software_triggered_strobe hardware_triggered_strobe : OperatingMode

abbrev pub operating_code : OperatingMode → ℕ
operating_code interrupt_on_terminal_count = 0
operating_code programmable_one_shot = 1
operating_code rate_generator = 2
operating_code square_wave_generator = 3
operating_code software_triggered_strobe = 4
operating_code hardware_triggered_strobe = 5

pub data TimerError : Type 0 where
  out_of_range not_active : TimerError

pub data TimerResult : Type 0 where
  fine : TimerResult
  err : TimerError → TimerResult

abbrev pub base_frequency : ℕ
base_frequency = 1_193_182

-- A `Mode` and a `Control` are the bytes that they wrap.
unfoldable pub set_data : (channel value : ℕ) → Io (Unit {0})
set_data channel value = port_write (0x40 + channel) value

unfoldable pub get_data : (channel : ℕ) → Io ℕ
get_data channel = port_read (0x40 + channel)

unfoldable pub control_read : Io ℕ
control_read = port_read 0x61

unfoldable pub control_write : ℕ → Io (Unit {0})
control_write c = port_write 0x61 c

unfoldable pub mode_write : ℕ → Io (Unit {0})
mode_write m = port_write 0x43 m

module _ (bf : Bitfield) where
  unfoldable pub mode_new : AccessMode → OperatingMode → Bool → ℕ
  mode_new access operating bcd_format =
      let m = bf.set 0 0 0 (bool_bit bcd_format) in
      let m' = bf.set m 5 4 (access_code access) in bf.set m' 3 1 (operating_code operating)

  -- The product is below 2^64 for every `u16`.
  unfoldable pub set : ℕ → Io TimerResult
  set us =
      let counter = base_frequency * us / 1_000_000 in
      if ltb 0xffff counter then pure (err out_of_range) else (do
        c ← control_read
        control_write (bf.set (bf.set c 1 1 (bool_bit false)) 0 0 (bool_bit true))
        mode_write (bf.set (mode_new low_and_high_byte interrupt_on_terminal_count false) 7 6 2)
        set_data 2 (bit_and counter 0xff)
        set_data 2 (bit_and (counter / 2 ^ 8) 0xff)
        pure fine)

  unfoldable pub get : Io ℕ
  get = do
    mode_write (bf.set 0 7 6 2)
    low ← get_data 2
    high ← get_data 2
    pure (bit_or low (high * 2 ^ 8))

  abbrev pub enable_timer_counter2 : ℕ → Bool
  enable_timer_counter2 c = bf.get c 0 0 == 1

  abbrev pub status_timer_counter2 : ℕ → Bool
  status_timer_counter2 c = bf.get c 5 5 == 1

  unfoldable pub is_active : Io Bool
  is_active = do c ← control_read; pure (enable_timer_counter2 c && not (status_timer_counter2 c))

  -- One round of the loop, on the control byte that it read.
  unfoldable pub poll : Io TimerResult → ℕ → Io TimerResult
  poll again c =
      if not (enable_timer_counter2 c)
      then pure (err not_active)
      else (if status_timer_counter2 c then pure fine else again)

  -- The loop on fuel: a round for each poll.
  unfoldable pub wait_for_timeout : ℕ → Io TimerResult
  wait_for_timeout zero = waiting
  wait_for_timeout (suc fuel) = do c ← control_read; poll (wait_for_timeout fuel) c

  unfoldable pub after_set : ℕ → TimerResult → Io TimerResult
  after_set fuel fine = wait_for_timeout fuel
  after_set fuel (err e) = pure (err e)

  -- `set(us)?` and the loop.
  unfoldable pub delay : ℕ → ℕ → Io TimerResult
  delay fuel us = do r ← set us; after_set fuel r

  unfoldable pub disable : Io (Unit {0})
  disable = control_write (bf.set (bf.set 0 1 1 (bool_bit false)) 0 0 (bool_bit false))
