-- ===== src/Serial.antt =====
-- kernel/src/serial.rs: a UART 16550 through I/O ports.
pub mod Reading
pub mod Writing
pub mod Setup
mod Examples
use steelmind_os.Base.{
  ℕ, zero, suc, ◌+◌, ◌/◌, List, [], ◌∷◌, Bool, true, false, ltb, ◌==◌, if◌then◌else◌, bit_and, ◌++◌,
}
use steelmind_os.Base.Ports.{Io, pure, ◌>>=◌, ◌>>◌, waiting, port_read, port_write, has}

pub data ComPort : Type 0 where
  com1 com2 com3 com4 : ComPort

abbrev pub base_port : ComPort → ℕ
base_port com1 = 0x3f8
base_port com2 = 0x2f8
base_port com3 = 0x3e8
base_port com4 = 0x2e8

pub data BaudRate : Type 0 where
  baud_300 baud_600 baud_1200 baud_2400 baud_4800 : BaudRate
  baud_9600 baud_19200 baud_38400 baud_57600 baud_115200 : BaudRate

abbrev pub divisor : BaudRate → ℕ
divisor baud_300 = 384
divisor baud_600 = 192
divisor baud_1200 = 96
divisor baud_2400 = 48
divisor baud_4800 = 24
divisor baud_9600 = 12
divisor baud_19200 = 6
divisor baud_38400 = 3
divisor baud_57600 = 2
divisor baud_115200 = 1

-- The module `ri`, as far as it is used.
abbrev pub data_register : ℕ
data_register = 0

abbrev pub interrupt_enable_register : ℕ
interrupt_enable_register = 1

abbrev pub line_control_register : ℕ
line_control_register = 3

abbrev pub modem_control_register : ℕ
modem_control_register = 4

abbrev pub line_status_register : ℕ
line_status_register = 5

-- The bits of the line status register, of the module `RegisterMask`.
abbrev pub data_ready : ℕ
data_ready = 1

abbrev pub overrun_error : ℕ
overrun_error = 2

abbrev pub parity_error : ℕ
parity_error = 4

abbrev pub framing_error : ℕ
framing_error = 8

abbrev pub transmitter_holding_register : ℕ
transmitter_holding_register = 32

abbrev pub transmitter_empty : ℕ
transmitter_empty = 64

pub data SerialError : Type 0 where
  busy overrun_error' parity_error' framing_error' : SerialError

pub data Result (A : Type 0) : Type 0 where
  ok : A → Result A
  err : SerialError → Result A

unfoldable pub rr : ComPort → ℕ → Io ℕ
rr port index = port_read (base_port port + index)

unfoldable pub wr : ComPort → ℕ → ℕ → Io (Unit {0})
wr port index value = port_write (base_port port + index) value

unfoldable pub init : ComPort → BaudRate → Io (Unit {0})
unfolding wr
init port baud = do
  wr port line_control_register 0b1000_0000
  wr port 0 (bit_and (divisor baud) 0xff)
  wr port 1 (divisor baud / 256)
  wr port line_control_register 0b0000_0011
  wr port interrupt_enable_register 0
  wr port modem_control_register 0

unfoldable pub try_read : ComPort → Io (Result ℕ)
unfolding rr
try_read port = do
  status ← rr port line_status_register
  if has status overrun_error
      then pure (err overrun_error')
      else (if has status parity_error
          then pure (err parity_error')
          else (if has status framing_error
              then pure (err framing_error')
              else (if has status data_ready
                  then (do v ← rr port data_register; pure (ok v))
                  else pure (err busy))))

-- The loops run on fuel: a round for each time that the status is polled.
-- The `match` in the loop of `read`: on `Busy` the loop goes on.
unfoldable pub retry : Io (Result ℕ) → Result ℕ → Io (Result ℕ)
retry again (ok v) = pure (ok v)
retry again (err busy) = again
retry again (err e) = pure (err e)

unfoldable pub read : ℕ → ComPort → Io (Result ℕ)
read zero port = waiting
read (suc fuel) port = do r ← try_read port; retry (read fuel port) r

-- The characters of the line so far are `s`. A single byte is UTF-8 if it is below 128.
unfoldable pub read_line_from : ℕ → ℕ → ComPort → List ℕ → Io (Result (List ℕ))
read_line_from zero polls port s = waiting
read_line_from (suc fuel) polls port s = do
  r ← read polls port
  elim r [
    | err e ↦ pure (err e)
    | ok c ↦
        if c == 13
        then pure (ok s)
        else read_line_from fuel polls port (if ltb c 128 then s ++ c ∷ [] else s)
  ]

unfoldable pub read_line : ℕ → ℕ → ComPort → Io (Result (List ℕ))
read_line fuel polls port = read_line_from fuel polls port []

unfoldable pub try_write : ComPort → ℕ → Io (Result (Unit {0}))
unfolding rr wr
try_write port value = do
  status ← rr port line_status_register
  if has status overrun_error
      then pure (err overrun_error')
      else (if has status parity_error
          then pure (err parity_error')
          else (if has status framing_error
              then pure (err framing_error')
              else (if has status transmitter_holding_register
                  then (do wr port data_register value; pure (ok tt))
                  else pure (err busy))))

-- Any error, not only `Busy`, is tried again.
unfoldable pub write : ℕ → ComPort → ℕ → Io (Unit {0})
write zero port value = waiting
write (suc fuel) port value = do
  r ← try_write port value
  elim r [ ok _ ↦ pure tt | err _ ↦ write fuel port value ]

unfoldable pub flush : ℕ → ComPort → Io (Unit {0})
unfolding rr
flush zero port = waiting
flush (suc fuel) port = do
  status ← rr port line_status_register
  elim (has status transmitter_empty) [ true ↦ pure tt | false ↦ flush fuel port ]

-- Characters that are not ASCII are left out.
unfoldable pub write_str : ℕ → ComPort → List ℕ → Io (Unit {0})
write_str polls port [] = pure tt
write_str polls port (c ∷ cs) =
    let rest = write_str polls port cs in if ltb c 128 then (do write polls port c; rest) else rest
