-- ===== src/Smp/Startup/Trampoline.antt =====
-- When the startup has succeeded, and that no core runs in the trampoline after its page is gone.
use steelmind_os.Base.{ℕ, ◌^◌, ◌≤◌, ◌<◌, ◌≡◌, ◌≢◌, refl, arith, Bool, false, Option, none, sum-full}
use steelmind_os.Base.Address.{Align}
use steelmind_os.Smp.Startup.{
  Words, Shared, Ap, asleep, Boot, preparing, commanding, started, timed_out, refused, BootMove,
  ApMove, Machine, Step, Reach, trampoline_words, wake, lose_first, lose, prepare, ap_moves,
  boot_moves, start, later,
}
use steelmind_os.Smp.Startup.Order.{is_counted, is_lost, Linked, Inv, is_counted-le}
use steelmind_os.Smp.Startup.Order.Reached.{Reach-Inv}

Linked-started :
    (k : ℕ) (w : Words) (b : Boot) (page : Option Words) (sent : Bool) (done : ℕ)
    → b ≡ started
    → Linked k w b page sent done
    → k ≤ done
Linked-started k w started page sent done e l = l.1
Linked-started k w b page sent done e l = ground arith

ApMove-is_lost :
    {A F S : Type 0} {s s' : Shared A F S} {p p' : Ap} {id : ℕ}
    → ApMove id s p s' p'
    → (p ≢ asleep → is_counted p ≡ 0 → s.page ≢ none)
    → is_lost p ≡ false
    → is_lost p' ≡ false
ApMove-is_lost (wake _) h e = refl
ApMove-is_lost (lose_first g) h e = absurd (h (λ a. ground arith) refl g)
ApMove-is_lost (lose g) h e = absurd (h (λ a. ground arith) refl g)
ApMove-is_lost mv h e = ground arith

module _ {A F S : Type 0} {n k : ℕ} {w : Words} {s : Shared A F S} {aps : ℕ → Ap} where
  counted_when_started :
      {b : Boot}
      → Inv n k w s aps b
      → n ≤ k
      → k ≤ s.done_counter
      → (i : ℕ) → i < n
      → is_counted (aps i) ≡ 1
  counted_when_started inv h d i lt =
      sum-full is_counted is_counted-le n aps i (omega (arith, inv.done)) lt

  -- A core that runs in the trampoline finds the page.
  page_present :
      (b : Boot)
      → Inv n k w s aps b
      → n ≤ k
      → b ≢ timed_out
      → (i : ℕ) → i < n
      → aps i ≢ asleep
      → is_counted (aps i) ≡ 0
      → s.page ≢ none
  page_present preparing inv h t i lt a c e = a (inv.quiet inv.linked.1 i)
  page_present refused inv h t i lt a c e = a (inv.quiet inv.linked.1 i)
  page_present started inv h t i lt a c e =
      omega (arith, c, counted_when_started inv h inv.linked.1 i lt)
  page_present timed_out inv h t i lt a c e = t refl
  page_present commanding inv h t i lt a c e = ground (arith, inv.linked)
  page_present b inv h t i lt a c e = ground (arith, inv.linked)

BootMove-timed_out :
    {A F S : Type 0} {al : Align} {k l4 : ℕ} {s s' : Shared A F S} {b b' : Boot}
    → BootMove al k l4 s b s' b'
    → b' ≢ timed_out
    → b ≢ timed_out
BootMove-timed_out (prepare _) h e = ground arith
BootMove-timed_out mv h e = ground arith

module _ {A F S : Type 0} {al : Align} {n k l4 : ℕ} where
  module _ {apic_id : ℕ → ℕ} where
    Step-timed_out :
        {m m' : Machine A F S}
        → Step al n k l4 apic_id m m'
        → m'.boot ≢ timed_out
        → m.boot ≢ timed_out
    Step-timed_out (ap_moves i lt mv) h = h
    Step-timed_out (boot_moves mv) h = BootMove-timed_out mv h

    Step-is_lost :
        {m m' : Machine A F S}
        → Step al n k l4 apic_id m m'
        → Inv n k (trampoline_words al l4) m.shared m.aps m.boot
        → n ≤ k
        → m.boot ≢ timed_out
        → ((i : ℕ) → is_lost (m.aps i) ≡ false)
        → (j : ℕ) → is_lost (m'.aps j) ≡ false
    Step-is_lost {m} (ap_moves i {p} lt mv) inv h t a j =
        let mover = ApMove-is_lost mv (page_present m.boot inv h t i lt) (a i) in
        ground (arith, mover, a j)
    Step-is_lost (boot_moves mv) inv h t a j = a j

    -- Where ACPI counts at least as many other cores as there are, and these are fewer than 2^64: in
    -- any interleaving, until `init_smp` panics because of its time-out, no core executes the
    -- trampoline, or reads its words, when the page is not mapped.
    pub Reach-is_lost :
        {bsp_id : ℕ} {m : Machine A F S}
        → n < 2 ^ 64
        → n ≤ k
        → Reach al n k l4 apic_id bsp_id m
        → m.boot ≢ timed_out
        → (i : ℕ) → is_lost (m.aps i) ≡ false
    Reach-is_lost h le start t i = refl
    Reach-is_lost h le (later r step) t i =
        let before = Step-timed_out step t in
        Step-is_lost step (Reach-Inv h r) le before (Reach-is_lost h le r before) i

    -- Where ACPI counts at least as many other cores as there are, and these are fewer than 2^64:
    -- when `init_smp` has returned, every other core has left the trampoline and has counted itself.
    pub Reach-counted :
        {bsp_id : ℕ} {m : Machine A F S}
        → n < 2 ^ 64
        → n ≤ k
        → Reach al n k l4 apic_id bsp_id m
        → m.boot ≡ started
        → (i : ℕ) → i < n
        → is_counted (m.aps i) ≡ 1
    Reach-counted {m} h le r e i lt =
        let inv = Reach-Inv h r in
        counted_when_started inv le
          (Linked-started k (trampoline_words al l4) m.boot m.shared.page m.shared.sent
            m.shared.done_counter e inv.linked)
          i lt
