-- ===== src/Serial/Setup.antt =====
-- What `init` leaves in the UART, told by the meaning of the registers of a 16550.
use steelmind_os.Base.{
  ℕ, bit_and, ◌+◌, ◌-◌, ◌*◌, ◌/◌, ◌≡◌, refl, List, [], ◌∷◌, ◌==◌, if◌then◌else◌, leb, some, ◌&&◌,
}
use steelmind_os.Base.Ports.{Access, input, output, world, port_write, bit}
use steelmind_os.Serial.{
  ComPort, com1, com2, com3, com4, BaudRate, baud_300, base_port, divisor, wr, init,
}

pub record Uart : Type 0 where
  pub divisor_low : ℕ
  pub divisor_high : ℕ
  pub line_control : ℕ
  pub interrupt_enable : ℕ
  pub modem_control : ℕ

-- Bit 7 of the line control register switches the first two registers to the divisor latch.
unfoldable pub put : ℕ → ℕ → Uart → Uart
put register v u =
    let latch = bit 7 u.line_control in
    if register == 0 && latch
    then record u { divisor_low = v }
    else (if register == 1 && latch
        then record u { divisor_high = v }
        else (if register == 1
            then record u { interrupt_enable = v }
            else (if register == 3
                then record u { line_control = v }
                else (if register == 4 then record u { modem_control = v } else u))))

-- The UART behind `port` after the logged accesses.
unfoldable pub after : ComPort → List Access → Uart → Uart
after port [] u = u
after port (input r v ∷ log) u = after port log u
after port (output r v ∷ log) u =
    let v' = after port log u in
    if leb (base_port port) r && leb r (base_port port + 7)
    then put (r - base_port port) v v'
    else v'

abbrev setup_log : ComPort → BaudRate → List Access
setup_log port baud =
    output (base_port port + 4) 0
    ∷ output (base_port port + 1) 0
    ∷ output (base_port port + 3) 3
    ∷ output (base_port port + 1) (divisor baud / 256)
    ∷ output (base_port port + 0) (bit_and (divisor baud) 0xff)
    ∷ output (base_port port + 3) 0x80
    ∷ []

split_divisor :
    (baud : BaudRate) → bit_and (divisor baud) 0xff + 256 * (divisor baud / 256) ≡ divisor baud
split_divisor baud_300 = refl
split_divisor _ = refl

-- Whatever the UART held before, `init` leaves it with the divisor of the baud rate, 8 data bits, no
-- parity, one stop bit, the divisor latch closed, and interrupts and loopback off; it
-- reads nothing.
pub init-after :
    (port : ComPort) (baud : BaudRate) (u : Uart) (script : List ℕ)
    → (log : List Access) × (init port baud (world script []) ≡ some (tt, world script log))
      × (let v = after port log u in
          (v.divisor_low + 256 * v.divisor_high ≡ divisor baud)
          × (v.line_control ≡ 3)
          × (v.interrupt_enable ≡ 0)
          × (v.modem_control ≡ 0))
unfolding init wr port_write after put
init-after com1 baud u script = (setup_log com1 baud, refl, (split_divisor baud, refl, refl, refl))
init-after com2 baud u script = (setup_log com2 baud, refl, (split_divisor baud, refl, refl, refl))
init-after com3 baud u script = (setup_log com3 baud, refl, (split_divisor baud, refl, refl, refl))
init-after com4 baud u script = (setup_log com4 baud, refl, (split_divisor baud, refl, refl, refl))
