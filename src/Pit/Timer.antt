-- ===== src/Pit/Timer.antt =====
-- What the chip holds after the kernel's accesses, told by the meaning of its ports.
use mathlib.Core.Path.{subst}
use steelmind_os.Base.{
  ℕ, zero, suc, ◌+◌, ◌*◌, ◌/◌, ◌%◌, ◌^◌, ◌≤◌, ◌<◌, ◌≡◌, refl, ap, sym, arith, List, [], ◌∷◌, ◌++◌,
  length, ◌⊎◌, inl, inr, Option, none, some, false, ◌==◌, if◌then◌else◌, le→ltb, lt→ltb, and_mask,
  or_low,
}
use steelmind_os.Base.Bitfield.{Bitfield}
use steelmind_os.Base.Ports.{Io, Access, input, output, World, world, port_read, port_write}
use steelmind_os.Pit.{
  TimerResult, fine, err, out_of_range, not_active, set_data, get_data, control_read, control_write,
  mode_write, mode_new, low_and_high_byte, interrupt_on_terminal_count, set, get, poll,
  wait_for_timeout, after_set, delay,
}

-- Port 0x61, the command of channel 2, the low byte that waits for its high byte, and the count.
pub record Timer : Type 0 where
  pub control : ℕ
  pub command : ℕ
  pub low : Option ℕ
  pub count : Option ℕ

abbrev load : ℕ → Timer → Timer
load v t = elim t.low [
  | none ↦ record t { low = some v }
  | some l ↦ record t { low = none; count = some (l + 256 * v) }
]

unfoldable pub after : List Access → Timer → Timer
after [] t = t
after (input p v ∷ log) t = after log t
after (output p v ∷ log) t =
    let t' = after log t in
    if p == 0x61
    then record t' { control = v }
    else (if p == 0x43
        then (if v / 64 == 2 then record t' { command = v; low = none; count = none } else t')
        else (if p == 0x42 then load v t' else t'))

parity : (c : ℕ) → (c % 2 ≡ 0) ⊎ (c % 2 ≡ 1)
parity c = ground arith

module _ (bf : Bitfield) where
  mode_command :
      bf.set (mode_new bf low_and_high_byte interrupt_on_terminal_count false) 7 6 2 ≡ 0b1011_0000
  unfolding mode_new
  mode_command =
      let m1 = bf.set 0 0 0 0 in
      let m2 = bf.set m1 5 4 3 in
      let m3 = bf.set m2 3 1 0 in
      omega (arith, bf.set_is 0 0 0 0, bf.set_is m1 4 1 3, bf.set_is m2 1 2 0, bf.set_is m3 6 1 2)

  gate_on : (c : ℕ) → c < 256 → bf.set (bf.set c 1 1 0) 0 0 1 ≡ c / 4 * 4 + 1
  gate_on c h = omega (arith, bf.set_is c 1 0 0, bf.set_is (bf.set c 1 1 0) 0 0 1)

  -- A time of at most 54925 microseconds is set, whatever the timer held before: the accesses leave
  -- channel 2 with its count, in mode 0 with both bytes written, its gate on, the speaker off, and the
  -- other bits of port 0x61 as they were read.
  pub set-loads :
      (us c : ℕ) (script : List ℕ) (earlier : List Access) (t : Timer)
      → us ≤ 54925
      → c < 256
      → (log : List Access) × (set bf us (world (c ∷ script) earlier)
          ≡ some (fine, world script log))
        × (after log t ≡ record {
          control = c / 4 * 4 + 1;
          command = 0b1011_0000;
          low = none;
          count = some (1_193_182 * us / 1_000_000);
        })
  unfolding set control_read control_write mode_write set_data port_read port_write after
  set-loads us c script earlier t h k =
      let n = 1_193_182 * us / 1_000_000 in
      let small : n ≤ 0xffff = omega arith in
      rw (le→ltb 0xffff n small, gate_on c k, mode_command, and_mask 8 n, and_mask 8 (n / 2 ^ 8))
        (
          _,
          refl,
          ap
              (λ (v : ℕ). record {
                control = c / 4 * 4 + 1;
                command = 0b1011_0000;
                low = none;
                count = some v;
              })
              (omega arith),
        )

  -- A longer time is refused, and no port is touched.
  set-refuses : (us : ℕ) (w : World) → 54925 < us → set bf us w ≡ some (err out_of_range, w)
  unfolding set
  set-refuses us w h = rw (lt→ltb 0xffff (1_193_182 * us / 1_000_000) (omega arith)) refl

  -- `get` latches channel 2 and returns the two bytes that it reads as one number, the low one first.
  pub get-count :
      (l h : ℕ) (script : List ℕ)
      → l < 256
      → h < 256
      → get bf (world (l ∷ h ∷ script) [])
        ≡ some
            (l + 256 * h, world script (input 0x42 h ∷ input 0x42 l ∷ output 0x43 0b1000_0000 ∷ []))
  unfolding get mode_write get_data port_read port_write
  get-count l h script k m =
      rw (or_low 8 h l k, bf.set_is 0 6 1 2)
        (ap
          (λ (v : ℕ).
            some (v, world script (input 0x42 h ∷ input 0x42 l ∷ output 0x43 0b1000_0000 ∷ [])))
          (omega arith))

  -- The gate is on and the time is not over.
  abbrev pub Counting : ℕ → Type 0
  Counting c = (c % 2 ≡ 1) × (c / 32 % 2 ≡ 0)

  abbrev pub AllCounting : List ℕ → Type 0
  AllCounting [] = Unit
  AllCounting (c ∷ cs) = Counting c × AllCounting cs

  abbrev pub polls : List ℕ → List Access → List Access
  polls [] log = log
  polls (c ∷ cs) log = polls cs (input 0x61 c ∷ log)

  gate_bit : (c : ℕ) → bf.get c 0 0 ≡ c % 2
  gate_bit c = omega (arith, bf.get_is c 0 0)

  status_bit : (c : ℕ) → bf.get c 5 5 ≡ c / 32 % 2
  status_bit c = omega (arith, bf.get_is c 5 0)

  -- What the wait answers at the byte that ends it.
  unfoldable pub settled : ℕ → TimerResult
  settled c = if c % 2 == 0 then err not_active else fine

  poll-Counting : (again : Io TimerResult) (c : ℕ) → Counting c → poll bf again c ≡ again
  unfolding poll
  poll-Counting again c (g, s) = rw (gate_bit c, status_bit c, g, s) refl

  poll-settled :
      (again : Io TimerResult) (c : ℕ) (w : World)
      → (c % 2 ≡ 0) ⊎ (c / 32 % 2 ≡ 1)
      → poll bf again c w ≡ some (settled c, w)
  unfolding poll settled
  poll-settled again c w h =
      rw (gate_bit c, status_bit c)
        (elim h [
          | inl e ↦ rw e refl
          | inr e ↦ elim (parity c) [ inl z ↦ rw z refl | inr o ↦ rw (o, e) refl ]
        ])

  -- While port 0x61 says that channel 2 counts, `wait_for_timeout` polls it again, and at the first
  -- byte that says otherwise it returns: an error if the gate is off, else success. Fuel for as many polls
  -- is enough.
  wait_for_timeout-settled :
      (cs : List ℕ) (fuel c : ℕ) (script : List ℕ) (log : List Access)
      → AllCounting cs
      → (c % 2 ≡ 0) ⊎ (c / 32 % 2 ≡ 1)
      → length cs < fuel
      → wait_for_timeout bf fuel (world (cs ++ c ∷ script) log)
        ≡ some (settled c, world script (input 0x61 c ∷ polls cs log))
  unfolding wait_for_timeout control_read port_read
  wait_for_timeout-settled cs zero c script log a h k = absurd (omega arith)
  wait_for_timeout-settled [] (suc fuel) c script log a h k =
      poll-settled (wait_for_timeout bf fuel) c _ h
  wait_for_timeout-settled (d ∷ cs) (suc fuel) c script log (a, rest) h k =
      rw (poll-Counting (wait_for_timeout bf fuel) d a)
        (wait_for_timeout-settled cs fuel c script (input 0x61 d ∷ log) rest h (omega arith))

  -- `delay` of at most 54925 microseconds returns what the first byte says that is read after the
  -- timer was set and does not count.
  pub delay-settled :
      (us fuel b c : ℕ) (cs script : List ℕ) (earlier : List Access)
      → us ≤ 54925
      → b < 256
      → AllCounting cs
      → (c % 2 ≡ 0) ⊎ (c / 32 % 2 ≡ 1)
      → length cs < fuel
      → (log : List Access) × (delay bf fuel us (world (b ∷ cs ++ c ∷ script) earlier)
          ≡ some (settled c, world script log))
  unfolding delay after_set
  delay-settled us fuel b c cs script earlier h k a e f =
      let (log, run, held) =
        set-loads us b (cs ++ c ∷ script) earlier
          (record { control = 0; command = 0; low = none; count = none }) h k in
      (
        input 0x61 c ∷ polls cs log,
        subst
            (λ o.
              (elim o [ none ↦ none | some (r, w) ↦ after_set bf fuel r w ])
              ≡ some (settled c, world script (input 0x61 c ∷ polls cs log)))
            (sym run) (wait_for_timeout-settled cs fuel c script log a e f),
      )
