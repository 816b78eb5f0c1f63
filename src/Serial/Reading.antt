-- ===== src/Serial/Reading.antt =====
-- What reading from the UART does, by the status bits that it finds.
use steelmind_os.Base.{
  ℕ, zero, suc, ◌+◌, ◌<◌, ◌≡◌, ◌≢◌, refl, arith, List, [], ◌∷◌, ◌++◌, true, false, ltb, ◌==◌,
  if◌then◌else◌, length, some, append_assoc, append-nil, ◌∙◌, Bool-cases, inl, inr,
}
use steelmind_os.Base.Ports.{
  Io, ◌>>=◌, Access, input, World, world, port_read, has, bit, all_below, all_below_sound, same,
  same_eq,
}
use steelmind_os.Serial.{
  ComPort, base_port, SerialError, busy, overrun_error', parity_error', framing_error', Result, ok,
  err, try_read, retry, read, read_line, read_line_from, data_ready, overrun_error, parity_error,
  framing_error,
}

pub mask_table :
    (k mask : ℕ)
    → all_below 256 (λ x. same (has x mask) (bit k x)) ≡ true
    → (x : ℕ) → x < 256
    → has x mask ≡ bit k x
mask_table k mask table x h =
    same_eq (has x mask) (bit k x)
      (all_below_sound 256 (λ x. same (has x mask) (bit k x)) x table h)

pub overrun_bit : (x : ℕ) → x < 256 → has x overrun_error ≡ bit 1 x
unfolding all_below
overrun_bit = mask_table 1 2 refl

pub parity_bit : (x : ℕ) → x < 256 → has x parity_error ≡ bit 2 x
unfolding all_below
parity_bit = mask_table 2 4 refl

pub framing_bit : (x : ℕ) → x < 256 → has x framing_error ≡ bit 3 x
unfolding all_below
framing_bit = mask_table 3 8 refl

pub ready_bit : (x : ℕ) → x < 256 → has x data_ready ≡ bit 0 x
unfolding all_below
ready_bit = mask_table 0 1 refl

-- What a status says of a read: an error, in the order of the bits, data, or nothing yet.
pub data Verdict : Type 0 where
  broken : SerialError → Verdict
  ready idle : Verdict

unfoldable pub verdict : ℕ → Verdict
verdict x =
    if bit 1 x
    then broken overrun_error'
    else (if bit 2 x
        then broken parity_error'
        else (if bit 3 x then broken framing_error' else (if bit 0 x then ready else idle)))

-- The log entry of reading a register.
abbrev pub seen : ComPort → (register value : ℕ) → Access
seen port register value = input (base_port port + register) value

-- On a status byte, `try_read` reads the data register exactly if the status is `ready`, and gives
-- what it holds; on an error bit it gives the error, the overrun first, and else `Busy`.
pub try_read-verdict :
    (port : ComPort) (x c : ℕ) (rest : List ℕ) (log : List Access)
    → x < 256
    → try_read port (world (x ∷ c ∷ rest) log) ≡ elim (verdict x) [
      | broken e ↦ some (err e, world (c ∷ rest) (seen port 5 x ∷ log))
      | ready ↦ some (ok c, world rest (seen port 0 c ∷ seen port 5 x ∷ log))
      | idle ↦ some (err busy, world (c ∷ rest) (seen port 5 x ∷ log))
    ]
unfolding try_read port_read verdict
try_read-verdict port x c rest log h =
    ground (arith, overrun_bit x h, parity_bit x h, framing_bit x h, ready_bit x h)

try_read-idle :
    (port : ComPort) (x : ℕ) (rest : List ℕ) (log : List Access)
    → x < 256
    → verdict x ≡ idle
    → try_read port (world (x ∷ rest) log) ≡ some (err busy, world rest (seen port 5 x ∷ log))
unfolding try_read port_read verdict
try_read-idle port x rest log h e =
    ground (arith, overrun_bit x h, parity_bit x h, framing_bit x h, ready_bit x h)

try_read-ready :
    (port : ComPort) (x c : ℕ) (rest : List ℕ) (log : List Access)
    → x < 256
    → verdict x ≡ ready
    → try_read port (world (x ∷ c ∷ rest) log)
      ≡ some (ok c, world rest (seen port 0 c ∷ seen port 5 x ∷ log))
unfolding try_read port_read verdict
try_read-ready port x c rest log h v =
    ground (arith, overrun_bit x h, parity_bit x h, framing_bit x h, ready_bit x h)

try_read-broken :
    (port : ComPort) (x : ℕ) (e : SerialError) (rest : List ℕ) (log : List Access)
    → x < 256
    → verdict x ≡ broken e
    → try_read port (world (x ∷ rest) log) ≡ some (err e, world rest (seen port 5 x ∷ log))
unfolding try_read port_read verdict
try_read-broken port x e rest log h v =
    ground (arith, overrun_bit x h, parity_bit x h, framing_bit x h, ready_bit x h)

not_busy : (x : ℕ) (e : SerialError) → verdict x ≡ broken e → e ≢ busy
unfolding verdict
not_busy x e h = ground arith

-- Status bytes at which there is nothing to read yet.
abbrev pub AllIdle : List ℕ → Type 0
AllIdle [] = Unit {0}
AllIdle (p ∷ ps) = (p < 256) × (verdict p ≡ idle) × AllIdle ps

-- The log after polling the status so often.
abbrev pub polled : ComPort → List ℕ → List Access → List Access
polled port [] log = log
polled port (p ∷ ps) log = polled port ps (seen port 5 p ∷ log)

retry-err :
    (again : Io (Result ℕ)) (e : SerialError) (w : World)
    → e ≢ busy
    → retry again (err e) w ≡ some (err e, w)
unfolding retry
retry-err again busy w ne = absurd (ne refl)
retry-err again _ w ne = refl

-- However often the UART has nothing, `read` with more rounds than that polls on, and then
-- returns the byte, or the error that the status shows; only the ready UART's data register is read.
read-polled :
    (port : ComPort) (polls : List ℕ) (fuel x c : ℕ) (rest : List ℕ) (log : List Access)
    → AllIdle polls
    → x < 256
    → length polls < fuel
    → ((verdict x ≡ ready)
        → read fuel port (world (polls ++ x ∷ c ∷ rest) log)
          ≡ some (ok c, world rest (seen port 0 c ∷ seen port 5 x ∷ polled port polls log)))
      × ((e : SerialError)
          → verdict x ≡ broken e
          → read fuel port (world (polls ++ x ∷ c ∷ rest) log)
            ≡ some (err e, world (c ∷ rest) (seen port 5 x ∷ polled port polls log)))
unfolding read retry
read-polled port polls zero x c rest log idle_polls h k = absurd (omega arith)
read-polled port [] (suc fuel) x c rest log idle_polls h k = (
  λ v. rw (try_read-ready port x c rest log h v, ◌>>=◌),
  λ e v.
      rw (try_read-broken port x e (c ∷ rest) log h v, ◌>>=◌)
        (retry-err (read fuel port) e _ (not_busy x e v)),
)
read-polled port (p ∷ ps) (suc fuel) x c rest log idle_polls h k =
    rw (try_read-idle port p (ps ++ x ∷ c ∷ rest) log idle_polls.0 idle_polls.1, ◌>>=◌)
      (read-polled port ps fuel x c rest (seen port 5 p ∷ log) idle_polls.2 h (omega arith))

-- While the status says that nothing is there, `read` polls again; at a status with a byte ready and
-- no error it returns the byte. Fuel for as many polls is enough.
pub read-byte :
    (port : ComPort) (polls : List ℕ) (fuel x c : ℕ) (rest : List ℕ) (log : List Access)
    → AllIdle polls
    → x < 256
    → length polls < fuel
    → verdict x ≡ ready
    → read fuel port (world (polls ++ x ∷ c ∷ rest) log)
      ≡ some (ok c, world rest (seen port 0 c ∷ seen port 5 x ∷ polled port polls log))
read-byte port polls fuel x c rest log a h k v =
    (read-polled port polls fuel x c rest log a h k).0 v

-- While the status says that nothing is there, `read` polls again; at a status with an error it
-- returns the error and leaves the byte unread. Fuel for as many polls is enough.
pub read-fails :
    (port : ComPort) (polls : List ℕ) (fuel x c : ℕ) (rest : List ℕ) (log : List Access)
    (e : SerialError)
    → AllIdle polls
    → x < 256
    → length polls < fuel
    → verdict x ≡ broken e
    → read fuel port (world (polls ++ x ∷ c ∷ rest) log)
      ≡ some (err e, world (c ∷ rest) (seen port 5 x ∷ polled port polls log))
read-fails port polls fuel x c rest log e a h k v =
    (read-polled port polls fuel x c rest log a h k).1 e v

-- A byte arrives: first the status says so often that there is nothing yet, then that a byte is ready.
pub record Arrival : Type 0 where
  pub idle_polls : List ℕ
  pub status : ℕ
  pub byte : ℕ

-- It comes without an error, after fewer polls than these.
pub record Clean (polls : ℕ) (a : Arrival) : Type 0 where
  pub all_idle : AllIdle a.idle_polls
  pub a_byte : a.status < 256
  pub is_ready : verdict a.status ≡ ready
  pub in_time : length a.idle_polls < polls

abbrev pub AllClean : (polls : ℕ) → List Arrival → Type 0
AllClean polls [] = Unit {0}
AllClean polls (a ∷ more) = Clean polls a × AllClean polls more

-- The script of a UART at which these bytes arrive.
abbrev pub sends : List Arrival → List ℕ → List ℕ
sends [] rest = rest
sends (a ∷ more) rest = a.idle_polls ++ a.status ∷ a.byte ∷ sends more rest

-- The log of reading them.
abbrev pub received : ComPort → List Arrival → List Access → List Access
received port [] log = log
received port (a ∷ more) log =
    received port more (seen port 0 a.byte ∷ seen port 5 a.status ∷ polled port a.idle_polls log)

-- The bytes.
abbrev pub bytes_of : List Arrival → List ℕ
bytes_of [] = []
bytes_of (a ∷ more) = a.byte ∷ bytes_of more

-- The ASCII characters of a text.
unfoldable pub ascii : List ℕ → List ℕ
ascii [] = []
ascii (c ∷ cs) = let rest = ascii cs in if ltb c 128 then c ∷ rest else rest

-- No carriage return.
abbrev pub OneLine : List ℕ → Type 0
OneLine [] = Unit {0}
OneLine (c ∷ cs) = ((c == 13) ≡ false) × OneLine cs

read_byte_at :
    (port : ComPort) (polls : ℕ) (a : Arrival) (rest : List ℕ) (log : List Access)
    → Clean polls a
    → read polls port (world (a.idle_polls ++ a.status ∷ a.byte ∷ rest) log)
      ≡ some (
        ok a.byte,
        world rest (seen port 0 a.byte ∷ seen port 5 a.status ∷ polled port a.idle_polls log),
      )
read_byte_at port polls a rest log c =
    read-byte port a.idle_polls polls a.status a.byte rest log c.all_idle c.a_byte c.in_time
      c.is_ready

read_line_from-ascii :
    (port : ComPort) (fuel polls : ℕ) (line : List Arrival) (end : Arrival) (rest s : List ℕ)
    (log : List Access)
    → AllClean polls line
    → Clean polls end
    → end.byte ≡ 13
    → OneLine (bytes_of line)
    → length line < fuel
    → read_line_from fuel polls port s (world (sends (line ++ end ∷ []) rest) log)
      ≡ some (ok (s ++ ascii (bytes_of line)), world rest (received port (line ++ end ∷ []) log))
unfolding read_line_from ascii
read_line_from-ascii port zero polls line end rest s log cs c is_return one f = absurd (omega arith)
read_line_from-ascii port (suc fuel) polls [] end rest s log cs c is_return one f =
    rw (read_byte_at port polls end rest log c, ◌>>=◌, is_return, append-nil s)
read_line_from-ascii port (suc fuel) polls (a ∷ line) end rest s log cs c is_return one f =
    rw (read_byte_at port polls a (sends (line ++ end ∷ []) rest) log cs.0, ◌>>=◌, one.0)
      (elim (Bool-cases (ltb a.byte 128)) [
        | inl e ↦ rw e (
            read_line_from-ascii port fuel polls line end rest (s ++ a.byte ∷ []) _ cs.1 c is_return
              one.1 (omega arith)
            ∙ rw (append_assoc s (a.byte ∷ []) (ascii (bytes_of line))))
        | inr e ↦ rw e (
            read_line_from-ascii port fuel polls line end rest s _ cs.1 c is_return one.1
              (omega arith))
      ])

-- If a line arrives without errors, each byte after fewer than `polls` polls that find nothing, and a carriage return
-- ends it, then `read_line` with a round for each byte, and so many polls in each, returns the ASCII characters of the line,
-- without the return, and leaves what follows.
pub read_line-ascii :
    (port : ComPort) (fuel polls : ℕ) (line : List Arrival) (end : Arrival) (rest : List ℕ)
    (log : List Access)
    → AllClean polls line
    → Clean polls end
    → end.byte ≡ 13
    → OneLine (bytes_of line)
    → length line < fuel
    → read_line fuel polls port (world (sends (line ++ end ∷ []) rest) log)
      ≡ some (ok (ascii (bytes_of line)), world rest (received port (line ++ end ∷ []) log))
unfolding read_line
read_line-ascii port fuel polls line end rest log cs c is_return one f =
    read_line_from-ascii port fuel polls line end rest [] log cs c is_return one f
