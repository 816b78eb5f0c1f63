-- ===== src/Smp/Startup/Examples.antt =====
-- Two other cores: one has set its data while the other is still in the trampoline.
use steelmind_os.Base.{ℕ, ◌+◌, ◌≤◌, ◌<◌, ◌≡◌, ◌⊎◌, refl, arith, false, ok}
use steelmind_os.Base.Address.Concrete.{concrete}
use steelmind_os.Interrupts.{init_gdt_and_exceptions_ap}
use steelmind_os.Smp.{calc_stack_stride}
use steelmind_os.Smp.Local.{get_cld, cell, initialize_own_core_local_data}
use steelmind_os.Smp.Startup.{
  Shared, Boot, started, Ap, entering, own_data, Machine, BootMove, prepare, startup, startup_again,
  ApMove, wake, take_index, enter, count, guard, initialize, stack_of, trampoline_words, Steps,
  ap_moves, boot_moves, Reach, start, later, begin,
}
use steelmind_os.Smp.Startup.Order.{is_counted, is_lost}
use steelmind_os.Smp.Startup.Trampoline.{Reach-is_lost}
use steelmind_os.Smp.Startup.Apart.{Reach-apart}
use steelmind_os.Smp.Startup.Own.{Ids, Reach-get_cld}
use steelmind_os.Smp.Startup.Progress.{Reach-started}

abbrev one_more : ℕ → ℕ
one_more i = i + 1

abbrev Small : Type 0
Small = Machine ℕ ℕ ℕ

abbrev Run : Type 0
Run = (m : Small) × Reach concrete 2 2 0x1000 one_more 0 m

abbrev by_ap :
    (r : Run) (i : ℕ) {s : Shared ℕ ℕ ℕ} {p : Ap}
    → i < 2
    → ApMove (one_more i) r.0.shared (r.0.aps i) s p
    → Run
by_ap r i lt mv = (_, later r.1 (ap_moves i lt mv))

abbrev by_boot :
    (r : Run) {s : Shared ℕ ℕ ℕ} {b : Boot}
    → BootMove concrete 2 0x1000 r.0.shared r.0.boot s b
    → Run
by_boot r mv = (_, later r.1 (boot_moves mv))

abbrev sent : Run
sent =
    by_boot
      (by_boot (by_boot (begin concrete 2 2 0x1000 one_more 0, start) (prepare (omega arith)))
        startup)
      startup_again

-- Core 0 comes first.
abbrev numbers : Run
numbers =
    by_ap
      (by_ap (by_ap (by_ap sent 0 (omega arith) (wake refl)) 1 (omega arith) (wake refl)) 0
        (omega arith) (take_index refl))
      1 (omega arith) (take_index refl)

abbrev entered : Run
entered = by_ap (by_ap numbers 1 (omega arith) (enter refl)) 0 (omega arith) (enter refl)

abbrev both_counted : Run
both_counted = by_ap (by_ap entered 0 (omega arith) count) 1 (omega arith) count

-- The tables of core 0, and its data.
own : Run
unfolding init_gdt_and_exceptions_ap initialize_own_core_local_data cell
own = by_ap (by_ap both_counted 0 (omega arith) (guard refl)) 0 (omega arith) (initialize refl)

abbrev stack : ℕ → ℕ
stack = stack_of (trampoline_words concrete 0x1000)

ids : Ids 2 one_more 0
ids = record {
  range = λ i l. omega (arith, l);
  distinct = λ i j l h e. omega (arith, e);
  other = λ i l e. omega (arith, e);
}

Reach-is_lost_example : is_lost (numbers.0.aps 1) ≡ false
Reach-is_lost_example = Reach-is_lost (omega arith) (omega arith) numbers.1 (λ e. ground arith) 1

Reach-apart_example :
    (stack 0 + calc_stack_stride concrete ≤ stack 1)
    ⊎ (stack 1 + calc_stack_stride concrete ≤ stack 0)
Reach-apart_example =
    Reach-apart (omega arith) entered.1 0 1 0 1 (stack 0) (stack 1) {s = entering} {t = entering}
      (λ e. omega (arith, e)) refl refl

Reach-get_cld_example : get_cld 1 own.0.shared.cells ≡ ok (own_data 0)
unfolding own
Reach-get_cld_example = Reach-get_cld (omega arith) ids own.1 0 (omega arith) 0 (stack 0) refl

Reach-started_example :
    (m : Small) × Steps concrete 2 2 0x1000 one_more numbers.0 m
    × (m.boot ≡ started)
    × ((i : ℕ) → i < 2 → is_counted (m.aps i) ≡ 1)
Reach-started_example = Reach-started (omega arith) numbers.1 999999 refl
