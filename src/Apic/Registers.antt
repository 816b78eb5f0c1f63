-- ===== src/Apic/Registers.antt =====
-- kernel/src/apic.rs: the registers of the local APIC of a core. They lie in memory; an access to the
-- register at an address is logged as an access to a port is.
use steelmind_os.Base.{
  ℕ, ◌+◌, ◌-◌, ◌*◌, ◌/◌, ◌%◌, ◌^◌, ◌==◌, Bool, true, false, if◌then◌else◌, Checked, ok, panic,
  bit_or,
}
use steelmind_os.Base.Bitfield.{Bitfield, bool_bit}
use steelmind_os.Base.Ports.{Io, pure, ◌>>=◌, ◌>>◌, port_read, port_write}
use steelmind_os.Pit.{TimerResult, fine, err, delay}

-- The registers that the kernel uses.
pub data Offset : Type 0 where
  id task_priority end_of_interrupt spurious_interrupt_vector : Offset
  interrupt_command_low interrupt_command_high : Offset
  timer_local_vector_table_entry timer_initial_count timer_current_count : Offset
  timer_divide_configuration : Offset

abbrev pub offset_code : Offset → ℕ
offset_code id = 0x20
offset_code task_priority = 0x80
offset_code end_of_interrupt = 0xb0
offset_code spurious_interrupt_vector = 0xf0
offset_code interrupt_command_low = 0x300
offset_code interrupt_command_high = 0x310
offset_code timer_local_vector_table_entry = 0x320
offset_code timer_initial_count = 0x380
offset_code timer_current_count = 0x390
offset_code timer_divide_configuration = 0x3e0

-- `wrapping_add` on the pointer.
abbrev pub register : ℕ → Offset → ℕ
register local_apic_ptr offset = (local_apic_ptr + offset_code offset) % 2 ^ 64

unfoldable pub read : ℕ → Offset → Io ℕ
read apic offset = port_read (register apic offset)

unfoldable pub write : ℕ → Offset → ℕ → Io (Unit {0})
write apic offset value = port_write (register apic offset) value

unfoldable pub signal_end_of_interrupt : ℕ → Io (Unit {0})
signal_end_of_interrupt apic = write apic end_of_interrupt 0

unfoldable pub apic_id : ℕ → Io ℕ
unfolding read
apic_id apic = do v ← read apic id; pure (v / 2 ^ 24 % 256)

unfoldable pub stop_timer : ℕ → Io (Unit {0})
stop_timer apic = write apic timer_local_vector_table_entry (2 ^ 16)

abbrev pub timer_entry : Bool → ℕ
timer_entry periodic = bit_or 32 (if periodic then 0x20000 else 0x40000)

unfoldable pub program_timer : ℕ → Bool → ℕ → Io Bool
program_timer apic periodic ticks = do
  write apic timer_local_vector_table_entry (2 ^ 16)
  write apic timer_local_vector_table_entry (timer_entry periodic)
  write apic timer_divide_configuration 0x3
  write apic timer_initial_count ticks
  pure true

-- `NonZeroU64::new(..).expect(..)`.
abbrev pub nonzero : ℕ → Checked ℕ
nonzero t = if t == 0 then panic else ok t

-- After the delay of `init_timer`: the ticks per second, which go to the core local data.
unfoldable pub count_ticks : ℕ → TimerResult → Io (Checked ℕ)
count_ticks apic (err e) = pure panic
count_ticks apic fine = do
  write apic timer_local_vector_table_entry (2 ^ 16)
  current ← read apic timer_current_count
  pure (nonzero ((0xFFFF_FFFF - current) * 20))

module _ (bf : Bitfield) where
  unfoldable pub init_timer : (fuel apic : ℕ) → Io (Checked ℕ)
  init_timer fuel apic = do
    write apic timer_divide_configuration 0x3
    write apic timer_initial_count 0xFFFF_FFFF
    r ← delay bf fuel 50_000
    count_ticks apic r

  unfoldable pub init : (fuel apic : ℕ) → Io (Checked ℕ)
  init fuel apic = do
    write apic task_priority 0
    write apic spurious_interrupt_vector 0x11FF
    init_timer fuel apic

  -- The bits of the command that both commands share.
  abbrev command : (vector delivery_mode : ℕ) → ℕ
  command vector delivery_mode =
      let a = bf.set 0 7 0 vector in
      let b = bf.set a 10 8 delivery_mode in
      let c = bf.set b 11 11 (bool_bit false) in
      let d = bf.set c 15 15 (bool_bit false) in
      let e = bf.set d 14 14 (bool_bit true) in bf.set e 19 18 3

  unfoldable pub create_send_init_cmd : ℕ
  create_send_init_cmd = command 0 5

  unfoldable pub create_startup_cmd : ℕ → ℕ
  create_startup_cmd vector = command vector 6

  unfoldable pub write_interrupt_command : ℕ → ℕ → Io (Unit {0})
  write_interrupt_command apic cmd = do
    write apic interrupt_command_high (bf.get cmd 63 32)
    write apic interrupt_command_low (bf.get cmd 31 0)

  unfoldable pub read_interrupt_command : ℕ → Io ℕ
  read_interrupt_command apic = do
    high ← read apic interrupt_command_high
    low ← read apic interrupt_command_low
    pure (bf.set (bf.set 0 63 32 high) 31 0 low)
