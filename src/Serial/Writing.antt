-- ===== src/Serial/Writing.antt =====
-- What writing to the UART does.
use steelmind_os.Base.{
  ℕ, zero, suc, ◌+◌, ◌<◌, ◌≡◌, refl, arith, List, [], ◌∷◌, ◌++◌, Bool, true, false, not, ◌&&◌, ltb,
  length, some, Bool-cases, inl, inr, if◌then◌else◌,
}
use steelmind_os.Base.Ports.{
  ◌>>=◌, Access, output, world, port_read, port_write, has, bit, all_below,
}
use steelmind_os.Serial.{
  ComPort, base_port, SerialError, busy, overrun_error', parity_error', framing_error', ok, err,
  try_write, write, write_str, flush, transmitter_empty, transmitter_holding_register,
}
use steelmind_os.Serial.Reading.{
  overrun_bit, parity_bit, framing_bit, mask_table, seen, polled, ascii,
}

holding_bit : (x : ℕ) → x < 256 → has x transmitter_holding_register ≡ bit 5 x
unfolding all_below
holding_bit = mask_table 5 32 refl

empty_bit : (x : ℕ) → x < 256 → has x transmitter_empty ≡ bit 6 x
unfolding all_below
empty_bit = mask_table 6 64 refl

-- The UART takes a byte: no error bit is set, and the holding register is free.
unfoldable pub takes : ℕ → Bool
takes x = not (bit 1 x) && (not (bit 2 x) && (not (bit 3 x) && bit 5 x))

try_write-takes :
    (port : ComPort) (v x : ℕ) (rest : List ℕ) (log : List Access)
    → x < 256
    → takes x ≡ true
    → try_write port v (world (x ∷ rest) log)
      ≡ some (ok tt, world rest (output (base_port port + 0) v ∷ seen port 5 x ∷ log))
unfolding try_write port_read port_write takes
try_write-takes port v x rest log h e =
    ground (arith, overrun_bit x h, parity_bit x h, framing_bit x h, holding_bit x h)

try_write-refuses :
    (port : ComPort) (v x : ℕ) (rest : List ℕ) (log : List Access)
    → x < 256
    → takes x ≡ false
    → (e : SerialError) × (try_write port v (world (x ∷ rest) log)
        ≡ some (err e, world rest (seen port 5 x ∷ log)))
unfolding try_write port_read port_write takes
try_write-refuses port v x rest log h e = (
  if bit 1 x
      then overrun_error'
      else (if bit 2 x then parity_error' else (if bit 3 x then framing_error' else busy)),
  ground (arith, overrun_bit x h, parity_bit x h, framing_bit x h, holding_bit x h),
)

-- Status bytes at which the UART takes nothing, for whatever reason.
abbrev pub AllRefuse : List ℕ → Type 0
AllRefuse [] = Unit {0}
AllRefuse (p ∷ ps) = (p < 256) × (takes p ≡ false) × AllRefuse ps

-- However often the UART refuses, be it busy or in error, `write` with more rounds than that tries
-- on, and writes the byte once, as soon as the UART takes it.
pub write-takes :
    (port : ComPort) (polls : List ℕ) (fuel v x : ℕ) (rest : List ℕ) (log : List Access)
    → AllRefuse polls
    → x < 256
    → takes x ≡ true
    → length polls < fuel
    → write fuel port v (world (polls ++ x ∷ rest) log)
      ≡ some
          (tt, world rest (output (base_port port + 0) v ∷ seen port 5 x ∷ polled port polls log))
unfolding write
write-takes port polls zero v x rest log r h e k = absurd (omega arith)
write-takes port [] (suc fuel) v x rest log r h e k =
    rw (try_write-takes port v x rest log h e, ◌>>=◌)
write-takes port (p ∷ ps) (suc fuel) v x rest log r h e k =
    let (error, refused) = try_write-refuses port v p (ps ++ x ∷ rest) log r.0 r.1 in
    rw (refused, ◌>>=◌) (write-takes port ps fuel v x rest _ r.2 h e (omega arith))

-- One status byte for each character.
abbrev pub statuses : ℕ → List ℕ → List ℕ → List ℕ
statuses x [] rest = rest
statuses x (c ∷ cs) rest = x ∷ statuses x cs rest

abbrev pub sent : ComPort → ℕ → List ℕ → List Access → List Access
sent port x [] log = log
sent port x (c ∷ cs) log = sent port x cs (output (base_port port + 0) c ∷ seen port 5 x ∷ log)

-- On a UART that always takes a byte, printing a text sends its ASCII characters in order, each
-- once, and nothing else.
pub write_str-ascii :
    (port : ComPort) (polls x : ℕ) (text rest : List ℕ) (log : List Access)
    → x < 256
    → takes x ≡ true
    → 0 < polls
    → write_str polls port text (world (statuses x (ascii text) rest) log)
      ≡ some (tt, world rest (sent port x (ascii text) log))
unfolding write_str ascii
write_str-ascii port polls x [] rest log h e k = refl
write_str-ascii port polls x (c ∷ cs) rest log h e k = elim (Bool-cases (ltb c 128)) [
  | inl a ↦
      rw (a, write-takes port [] polls c x (statuses x (ascii cs) rest) log tt h e k, ◌>>=◌)
        (write_str-ascii port polls x cs rest _ h e k)
  | inr a ↦ rw a (write_str-ascii port polls x cs rest log h e k)
]

-- Status bytes at which something is still to be sent.
abbrev pub AllSending : List ℕ → Type 0
AllSending [] = Unit {0}
AllSending (p ∷ ps) = (p < 256) × (bit 6 p ≡ false) × AllSending ps

-- `flush` with enough rounds ends at the first status that shows an empty transmitter, and only
-- reads the status.
pub flush-polled :
    (port : ComPort) (polls : List ℕ) (fuel x : ℕ) (rest : List ℕ) (log : List Access)
    → AllSending polls
    → x < 256
    → bit 6 x ≡ true
    → length polls < fuel
    → flush fuel port (world (polls ++ x ∷ rest) log)
      ≡ some (tt, world rest (seen port 5 x ∷ polled port polls log))
unfolding flush port_read
flush-polled port polls zero x rest log s h e k = absurd (omega arith)
flush-polled port [] (suc fuel) x rest log s h e k = ground (arith, empty_bit x h)
flush-polled port (p ∷ ps) (suc fuel) x rest log s h e k =
    ground (arith, empty_bit p s.0, s.1, flush-polled port ps fuel x rest (seen port 5 p ∷ log) s.2)
