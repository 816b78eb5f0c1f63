-- ===== src/Smp/Local.antt =====
-- kernel/src/smp.rs: the data that each core keeps for itself, found by the core's APIC id.
use steelmind_os.Base.{
  ℕ, ltb, if◌then◌else◌, Option, none, some, Checked, ok, panic, ◌>>=◌, unwrap, put,
}
use steelmind_os.Constants.{max_cores}

-- `A`, `F` and `S` stand for the data of a running application, a callback, and the values in `stuff`.
pub record CoreLocalData (A F S : Type 0) : Type 0 where
  pub running_application_data : Option A
  pub cpu_index : ℕ
  pub apic_timer_ticks_per_second : Option ℕ
  pub apic_timer_interrupt_function : Option F
  pub stuff : Option S

-- `CORE_LOCAL`: the cells, one for each APIC id below `max_cores`; an empty cell is `none`.
abbrev pub Cells : Type 0 → Type 0 → Type 0 → Type 0
Cells A F S = ℕ → Option (CoreLocalData A F S)

module _ {A F S : Type 0} where
  abbrev pub default_data : CoreLocalData A F S
  default_data = record {
    running_application_data = none;
    cpu_index = 0;
    apic_timer_ticks_per_second = none;
    apic_timer_interrupt_function = none;
    stuff = none;
  }

  -- `CORE_LOCAL[i]`
  unfoldable pub cell : ℕ → Cells A F S → Checked (Option (CoreLocalData A F S))
  cell i cells = if ltb i max_cores then ok (cells i) else panic

  -- `get_or_init`: a cell that is set keeps its value.
  unfoldable pub initialize_own_core_local_data :
      (apic_id : ℕ) → CoreLocalData A F S → Cells A F S → Checked (Cells A F S)
  unfolding cell
  initialize_own_core_local_data apic_id core_local_data cells = do
    c ← cell apic_id cells
    ok (elim c [ some d ↦ cells | none ↦ put cells apic_id (some core_local_data) ])

  unfoldable pub get_cld : (apic_id : ℕ) → Cells A F S → Checked (CoreLocalData A F S)
  unfolding cell
  get_cld apic_id cells = do c ← cell apic_id cells; unwrap c

  unfoldable pub cpu_index : (apic_id : ℕ) → Cells A F S → Checked ℕ
  unfolding get_cld
  cpu_index apic_id cells = do d ← get_cld apic_id cells; ok d.cpu_index

  -- For exception handlers: the APIC may not have been found yet.
  unfoldable pub try_get_cld :
      (try_get_apic : Option ℕ) → Cells A F S → Checked (Option (CoreLocalData A F S))
  unfolding cell
  try_get_cld none cells = ok none
  try_get_cld (some apic_id) cells = cell apic_id cells
