-- ===== src/Apic/Examples.antt =====
-- The theorems on the APIC at its usual address.
use steelmind_os.Base.{◌≡◌, refl, arith, List, Bool, true, false, Option, none, some, ok}
use steelmind_os.Base.Ports.{Access, World, world}
use steelmind_os.Apic.Start.{CoreLocalData, start_timer}
use steelmind_os.Apic.Timing.{TimerRegisters, after, repeats, interrupts, start_timer-starts}

abbrev local_data : CoreLocalData Bool
local_data = record {
  apic_timer_ticks_per_second = some 62_500_000;
  apic_timer_interrupt_function = none;
}

start_timer-starts_example :
    (io : World → Option (Bool × World)) × (start_timer 0xfee0_0000 local_data 10_000 true false
      ≡ ok (
        record {
          apic_timer_ticks_per_second = some 62_500_000;
          apic_timer_interrupt_function = some false;
        },
        io,
      ))
    × ((w : World) (t : TimerRegisters)
        → (log : List Access) × (io w ≡ some (true, world w.script log))
          × (interrupts (after 0xfee0_0000 log t) ≡ repeats 32 625_000 true))
start_timer-starts_example =
    start_timer-starts 0xfee0_0000 62_500_000 10_000 true local_data false refl (omega arith)
      (omega arith) (omega arith) (omega arith)
