-- ===== src/Apic/Start.antt =====
-- kernel/src/apic.rs: `start_timer`, which may panic before it touches the registers.
use steelmind_os.Base.{
  ℕ, ◌/◌, ◌^◌, ltb, Bool, false, not, ◌||◌, Option, none, some, if◌then◌else◌, Checked, ok, ◌>>=◌,
  ◌>>◌, ass, unwrap, mul64,
}
use steelmind_os.Base.Ports.{Io, pure}
use steelmind_os.Apic.Registers.{program_timer}

-- The part of the core local data that the timer uses.
pub record CoreLocalData (F : Type 0) : Type 0 where
  pub apic_timer_ticks_per_second : Option ℕ
  pub apic_timer_interrupt_function : Option F

-- `None` is the error of the conversion to `u32`.
unfoldable pub ticks_in_interval : (ticks_per_second interval_us : ℕ) → Checked (Option ℕ)
ticks_in_interval ticks_per_second interval_us = do
  product ← mul64 ticks_per_second interval_us
  ok (if ltb (product / 1_000_000) (2 ^ 32) then some (product / 1_000_000) else none)

module _ {F : Type 0} where
  -- With the ticks at hand: the local data, and the accesses, which answer whether it is `Ok`.
  abbrev programmed : ℕ → CoreLocalData F → Bool → Option ℕ → Checked (CoreLocalData F × Io Bool)
  programmed apic cld periodic none = ok (cld, pure false)
  programmed apic cld periodic (some ticks) = do
    ass (not periodic || ltb 0 ticks)
    ok (cld, program_timer apic periodic ticks)

  unfoldable pub start_timer :
      (apic : ℕ)
      → CoreLocalData F
      → (interval_us : ℕ) → (periodic : Bool) → F
      → Checked (CoreLocalData F × Io Bool)
  start_timer apic cld interval_us periodic interrupt = do
    let cld' = record cld { apic_timer_interrupt_function = some interrupt }
    ticks_per_second ← unwrap cld.apic_timer_ticks_per_second
    ticks ← ticks_in_interval ticks_per_second interval_us
    programmed apic cld' periodic ticks
