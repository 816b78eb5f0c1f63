-- ===== src/Smp/Startup.antt =====
-- kernel/src/smp.rs, with the end of kernel/smp_trampoline/ap.asm: the bootstrap core starts the other cores,
-- and all of them run at the same time. A step is one access of shared memory.
pub mod Order
pub mod Trampoline
pub mod Apart
pub mod Own
pub mod Progress
mod Examples
use steelmind_os.Base.{
  ℕ, suc, ◌+◌, ◌-◌, ◌*◌, ◌%◌, ◌^◌, ◌≤◌, ◌<◌, ◌≡◌, Bool, true, false, Option, none, some, ok, panic,
  put,
}
use steelmind_os.Base.Address.{Align}
use steelmind_os.Smp.{calc_stack_stride, stack_base}
use steelmind_os.Smp.Local.{CoreLocalData, default_data, Cells, initialize_own_core_local_data}
use steelmind_os.Interrupts.{init_gdt_and_exceptions_ap}

-- What `init_smp` writes for the trampoline, at 0x0A00, 0x0B10 and 0x0B20. The other two words are the addresses
-- of the counter `AP_CORE_COUNTER` and of `ap_entry_fn`.
pub record Words : Type 0 where
  pub l4_page_table : ℕ
  pub stack_stride : ℕ
  pub base : ℕ

-- What the cores share. `page` is the page at address 0: the trampoline with its words, or not mapped. `sent`
-- says that a startup command has been sent.
pub record Shared (A F S : Type 0) : Type 0 where
  pub core_counter : ℕ
  pub done_counter : ℕ
  pub page : Option Words
  pub sent : Bool
  pub cells : Cells A F S

-- How far a core has come in `ap_entry_fn`: at its start, counted, with its tables loaded, and with its data set.
pub data Stage : Type 0 where
  entering counted guarded initialized : Stage

-- Another core: in the trampoline, `numbered` after its `lock xadd`. `stack` is the stack pointer that it enters
-- the kernel with. It is `lost` when it runs on in the trampoline after the page is gone.
pub data Ap : Type 0 where
  asleep : Ap
  trampoline : Ap
  numbered : (ap_index : ℕ) → Ap
  inside : Stage → (ap_index stack : ℕ) → Ap
  lost : Option ℕ → Ap
  panicked : (ap_index : ℕ) → Ap

-- The core that runs `init_smp`.
pub data Boot : Type 0 where
  preparing : Boot
  commanding : Boot  -- before the first startup command
  repeating : Boot  -- before the second
  waiting : (time_out : ℕ) → Boot  -- the `while`
  unmapping : (time_out : ℕ) → Boot
  started : Boot
  timed_out : Boot
  refused : Boot  -- the table lies too high

abbrev pub patience : ℕ
patience = 1000000

abbrev pub trampoline_words : Align → ℕ → Words
trampoline_words al l4_page_table = record {
  l4_page_table = l4_page_table;
  stack_stride = calc_stack_stride al;
  base = stack_base al;
}

module _ {A F S : Type 0} (al : Align) where
  -- One step of `init_smp`, with `ap_count` from ACPI and the address of its level 4 table.
  pub data BootMove (ap_count l4 : ℕ) (s : Shared A F S) : Boot → Shared A F S → Boot → Type 0 where
    prepare :
        l4 < 0xffff_ffff
        → BootMove ap_count l4 s preparing
            (record s { page = some (trampoline_words al l4) })
            commanding
    refuse : 0xffff_ffff ≤ l4 → BootMove ap_count l4 s preparing s refused
    startup : BootMove ap_count l4 s commanding (record s { sent = true }) repeating
    startup_again : BootMove ap_count l4 s repeating (record s { sent = true }) (waiting patience)
    spin :
        {time_out : ℕ}
        → s.done_counter < ap_count
        → BootMove ap_count l4 s (waiting (suc time_out)) s (waiting time_out)
    all_done :
        {time_out : ℕ}
        → ap_count ≤ s.done_counter
        → BootMove ap_count l4 s (waiting time_out) s (unmapping time_out)
    give_up : BootMove ap_count l4 s (waiting 0) s (unmapping 0)
    unmap_fail : BootMove ap_count l4 s (unmapping 0) (record s { page = none }) timed_out
    unmap_last :
        {time_out : ℕ}
        → BootMove ap_count l4 s (unmapping (suc time_out)) (record s { page = none }) started

abbrev pub stack_of : Words → (ap_index : ℕ) → ℕ
stack_of w i = (i * w.stack_stride % 2 ^ 64 + w.base) % 2 ^ 64

module _ {A F S : Type 0} where
  abbrev pub own_data : (ap_index : ℕ) → CoreLocalData A F S
  own_data ap_index = record default_data { cpu_index = ap_index + 1 }

  -- One step of the core with the given APIC id.
  pub data ApMove (apic_id : ℕ) (s : Shared A F S) : Ap → Shared A F S → Ap → Type 0 where
    wake : s.sent ≡ true → ApMove apic_id s asleep s trampoline
    take_index :
        {w : Words}
        → s.page ≡ some w
        → ApMove apic_id s trampoline
            (record s { core_counter = (s.core_counter + 1) % 2 ^ 64 })
            (numbered s.core_counter)
    lose_first : s.page ≡ none → ApMove apic_id s trampoline s (lost none)
    enter :
        {w : Words} {i : ℕ}
        → s.page ≡ some w
        → ApMove apic_id s (numbered i) s (inside entering i (stack_of w i))
    lose : {i : ℕ} → s.page ≡ none → ApMove apic_id s (numbered i) s (lost (some i))
    count :
        {i sp : ℕ}
        → ApMove apic_id s
            (inside entering i sp)
            (record s { done_counter = (s.done_counter + 1) % 2 ^ 64 })
            (inside counted i sp)
    guard :
        {i sp : ℕ}
        → init_gdt_and_exceptions_ap i ≡ ok i
        → ApMove apic_id s (inside counted i sp) s (inside guarded i sp)
    guard_panic :
        {i sp : ℕ}
        → init_gdt_and_exceptions_ap i ≡ panic
        → ApMove apic_id s (inside counted i sp) s (panicked i)
    initialize :
        {i sp : ℕ} {cells : Cells A F S}
        → initialize_own_core_local_data apic_id (own_data i) s.cells ≡ ok cells
        → ApMove apic_id s
            (inside guarded i sp)
            (record s { cells = cells })
            (inside initialized i sp)
    initialize_panic :
        {i sp : ℕ}
        → initialize_own_core_local_data apic_id (own_data i) s.cells ≡ panic
        → ApMove apic_id s (inside guarded i sp) s (panicked i)

pub record Machine (A F S : Type 0) : Type 0 where
  pub shared : Shared A F S
  pub aps : ℕ → Ap
  pub boot : Boot

module _ {A F S : Type 0} (al : Align) (n ap_count l4 : ℕ) (apic_id : ℕ → ℕ) where
  -- `n` cores besides the one that runs `init_smp`; any of them may move.
  pub data Step (m : Machine A F S) : Machine A F S → Type 0 where
    ap_moves :
        (i : ℕ) {s : Shared A F S} {p : Ap}
        → i < n
        → ApMove (apic_id i) m.shared (m.aps i) s p
        → Step m (record m { shared = s; aps = put m.aps i p })
    boot_moves :
        {s : Shared A F S} {b : Boot}
        → BootMove al ap_count l4 m.shared m.boot s b
        → Step m (record m { shared = s; boot = b })

  -- Any number of steps.
  pub data Steps (m : Machine A F S) : Machine A F S → Type 0 where
    stay : Steps m m
    go : {m' m'' : Machine A F S} → Steps m m' → Step m' m'' → Steps m m''

  -- Before `init_smp`: only the first core has set its data, in the cell of its APIC id.
  abbrev pub begin : (bsp_id : ℕ) → Machine A F S
  begin bsp_id = record {
    shared = record {
      core_counter = 0;
      done_counter = 0;
      page = none;
      sent = false;
      cells = put (λ _. none) bsp_id (some default_data);
    };
    aps = λ _. asleep;
    boot = preparing;
  }

  pub data Reach (bsp_id : ℕ) : Machine A F S → Type 0 where
    start : Reach bsp_id (begin bsp_id)
    later : {m m' : Machine A F S} → Reach bsp_id m → Step m m' → Reach bsp_id m'
