-- ===== src/Apic/Timing.antt =====
-- The timer: its calibration against the interval timer, and its start.
use steelmind_os.Base.{
  ℕ, ◌+◌, ◌-◌, ◌*◌, ◌/◌, ◌%◌, ◌^◌, ◌<◌, ◌≡◌, refl, sym, ap, ◌∙◌, arith, List, [], ◌∷◌, ◌++◌, length,
  inr, Bool, true, false, Option, none, some, if◌then◌else◌, ltb, lt→ltb, ok, ◌==◌, ==_refl, not,
  ◌||◌, ass,
}
use mathlib.Core.Path.{subst}
use steelmind_os.Base.Bitfield.{Bitfield}
use steelmind_os.Base.Ports.{Access, input, output, World, world, port_read, port_write}
use steelmind_os.Pit.Timer.{AllCounting, settled, delay-settled}
use steelmind_os.Apic.Registers.{
  register, timer_local_vector_table_entry, timer_initial_count, timer_current_count,
  timer_divide_configuration, read, write, timer_entry, program_timer, nonzero, count_ticks,
  init_timer,
}
use steelmind_os.Apic.Start.{CoreLocalData, ticks_in_interval, start_timer}

module _ (bf : Bitfield) where
  -- When the interval timer elapses with its gate on, after `cs` of polls, and the APIC timer has come
  -- down to `current`, `init_timer` returns twenty times the ticks that passed, and panics if none
  -- did.
  pub init_timer-ticks :
      (apic fuel b c current : ℕ) (cs script : List ℕ) (log : List Access)
      → b < 256
      → AllCounting bf cs
      → c % 2 ≡ 1
      → c / 32 % 2 ≡ 1
      → length cs < fuel
      → (log' : List Access) × (init_timer bf fuel apic (world (b ∷ cs ++ c ∷ current ∷ script) log)
          ≡ some (nonzero ((0xFFFF_FFFF - current) * 20), world script log'))
  unfolding init_timer count_ticks read write port_read port_write settled
  init_timer-ticks apic fuel b c current cs script log h a o e f =
      let (log', run) =
        delay-settled bf 50_000 fuel b c cs (current ∷ script)
          (output (register apic timer_initial_count) 0xFFFF_FFFF
            ∷ output (register apic timer_divide_configuration) 3
            ∷ log)
          (omega arith) h a (inr e) f in
      (
        input (register apic timer_current_count) current
            ∷ output (register apic timer_local_vector_table_entry) 65536
            ∷ log',
        subst
            (λ o.
              (elim o [ none ↦ none | some (r, w) ↦ count_ticks apic r w ])
              ≡ some (
                nonzero ((0xFFFF_FFFF - current) * 20),
                world script (
                    input (register apic timer_current_count) current
                    ∷ output (register apic timer_local_vector_table_entry) 65536
                    ∷ log'),
              ))
            (sym run) (rw o refl),
      )

-- What the registers of the timer hold after the accesses.
pub record TimerRegisters : Type 0 where
  pub entry : ℕ
  pub divide : ℕ
  pub initial_count : ℕ

unfoldable pub after : ℕ → List Access → TimerRegisters → TimerRegisters
after apic [] t = t
after apic (input r v ∷ log) t = after apic log t
after apic (output r v ∷ log) t =
    let t' = after apic log t in
    if r == register apic timer_local_vector_table_entry
    then record t' { entry = v }
    else (if r == register apic timer_divide_configuration
        then record t' { divide = v }
        else (if r == register apic timer_initial_count
            then record t' { initial_count = v }
            else t'))

apart : (x a b : ℕ) → a < b → b < 2 ^ 64 → ((x + a) % 2 ^ 64 == (x + b) % 2 ^ 64) ≡ false
apart x a b h k = ground arith

apart' : (x a b : ℕ) → a < b → b < 2 ^ 64 → ((x + b) % 2 ^ 64 == (x + a) % 2 ^ 64) ≡ false
apart' x a b h k = ground arith

entry_sum : (periodic : Bool) → timer_entry periodic ≡ 32 + (if periodic then 0x20000 else 0x40000)
entry_sum true = refl
entry_sum false = refl

program_timer-after :
    (apic ticks : ℕ) (periodic : Bool) (w : World) (t : TimerRegisters)
    → (log : List Access) × (program_timer apic periodic ticks w ≡ some (true, world w.script log))
      × (after apic log t ≡ record {
        entry = 32 + (if periodic then 0x20000 else 0x40000);
        divide = 3;
        initial_count = ticks;
      })
unfolding program_timer write port_write after
program_timer-after apic ticks periodic w t = (
  _,
  refl,
  rw
      (
        apart' apic 0x320 0x380 (omega arith) (omega arith),
        apart apic 0x380 0x3e0 (omega arith) (omega arith),
        apart' apic 0x320 0x3e0 (omega arith) (omega arith),
        ==_refl ((apic + 0x320) % 2 ^ 64),
        ==_refl ((apic + 0x380) % 2 ^ 64),
        ==_refl ((apic + 0x3e0) % 2 ^ 64),
        entry_sum periodic,
      )
      refl,
)

may_start : (periodic : Bool) (n : ℕ) → 0 < n → ass (not periodic || ltb 0 n) ≡ ok tt
may_start true n h = rw (lt→ltb 0 n h) refl
may_start false n h = refl

-- The modes of the timer, by the bits 17 and 18 of its entry, from the documentation of the processor.
pub data TimerMode : Type 0 where
  one_shot periodically tsc_deadline reserved : TimerMode

abbrev mode_of : (entry : ℕ) → TimerMode
mode_of entry =
    if entry / 2 ^ 18 % 2 == 1
    then (if entry / 2 ^ 17 % 2 == 1 then reserved else tsc_deadline)
    else (if entry / 2 ^ 17 % 2 == 1 then periodically else one_shot)

-- When the timer interrupts after a write of its initial count: so many ticks later, once or again and again, with a
-- vector; or never, when the entry is masked (bit 16), the count is 0, or the mode does not count ticks. `divided` says whether
-- the clock is divided by 16.
pub data Interrupts : Type 0 where
  never : Interrupts
  once repeats : (vector ticks : ℕ) (divided : Bool) → Interrupts

abbrev counting : TimerMode → (vector ticks : ℕ) (divided : Bool) → Interrupts
counting one_shot vector ticks divided = once vector ticks divided
counting periodically vector ticks divided = repeats vector ticks divided
counting tsc_deadline vector ticks divided = never
counting reserved vector ticks divided = never

abbrev pub interrupts : TimerRegisters → Interrupts
interrupts t =
    if (t.entry / 2 ^ 16 % 2 == 1) || (t.initial_count == 0)
    then never
    else counting (mode_of t.entry) (t.entry % 256) t.initial_count (t.divide == 3)

interrupts-programmed :
    (periodic : Bool) (n : ℕ)
    → 0 < n
    → interrupts (record {
      entry = 32 + (if periodic then 0x20000 else 0x40000);
      divide = 3;
      initial_count = n;
    })
      ≡ (if periodic then repeats 32 n true else never)
interrupts-programmed true n h = let e : (n == 0) ≡ false = ground (arith, h) in rw e refl
interrupts-programmed false n h = let e : (n == 0) ≡ false = ground (arith, h) in rw e refl

module _ {F : Type 0} where
  -- With the ticks per second known and below 2^32, and an interval of at least one and below 2^32 ticks,
  -- `start_timer` does not panic, answers `Ok` and stores the interrupt function. A periodic timer then
  -- interrupts with vector 32 whenever the ticks of the interval have passed, at a clock divided by 16. One that is not periodic
  -- never interrupts: it is left in the mode that waits for a deadline and does not count.
  pub start_timer-starts :
      (apic tps interval_us : ℕ) (periodic : Bool) (cld : CoreLocalData F) (f : F)
      → cld.apic_timer_ticks_per_second ≡ some tps
      → tps < 2 ^ 32
      → interval_us < 2 ^ 32
      → 0 < tps * interval_us / 1_000_000
      → tps * interval_us / 1_000_000 < 2 ^ 32
      → (io : World → Option (Bool × World)) × (start_timer apic cld interval_us periodic f
          ≡ ok (
            record {
              apic_timer_ticks_per_second = some tps;
              apic_timer_interrupt_function = some f;
            },
            io,
          ))
        × ((w : World) (t : TimerRegisters)
            → (log : List Access) × (io w ≡ some (true, world w.script log))
              × (interrupts (after apic log t)
                  ≡ (if periodic then repeats 32 (tps * interval_us / 1_000_000) true else never)))
  unfolding start_timer ticks_in_interval
  start_timer-starts apic tps us periodic cld f known h k some_ticks few =
      let n = tps * us / 1_000_000 in
      let fits : tps * us < 2 ^ 64 = grind arith in
      (
        program_timer apic periodic n,
        rw
            (
              known,
              lt→ltb (tps * us) (2 ^ 64) fits,
              lt→ltb n (2 ^ 32) few,
              may_start periodic n some_ticks,
            )
            refl,
        λ w t.
            let (log, run, e) = program_timer-after apic n periodic w t in
            (log, run, ap interrupts e ∙ interrupts-programmed periodic n some_ticks),
      )
