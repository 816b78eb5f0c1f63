-- ===== src/Smp/Startup/Order/Reached.antt =====
-- Every reachable state of the startup satisfies the invariant.
use steelmind_os.Base.{ℕ, zero, suc, ◌^◌, ◌<◌, ◌≡◌, refl, sym, ◌∙◌, arith, false, sum-zero}
use steelmind_os.Base.Address.{Align}
use steelmind_os.Smp.Startup.{
  Shared, Ap, asleep, Boot, BootMove, Machine, Step, Reach, trampoline_words, prepare, all_done,
  ap_moves, boot_moves, start, later,
}
use steelmind_os.Smp.Startup.Order.{has_index, is_counted, Linked, Inv}
use steelmind_os.Smp.Startup.Order.Cores.{ApMove-Inv}

module _ {A F S : Type 0} {al : Align} {k l4 : ℕ} where
  BootMove-Linked :
      {s s' : Shared A F S} {b b' : Boot}
      → BootMove al k l4 s b s' b'
      → Linked k (trampoline_words al l4) b s.page s.sent s.done_counter
      → Linked k (trampoline_words al l4) b' s'.page s'.sent s'.done_counter
  BootMove-Linked (prepare _) h = ground arith
  BootMove-Linked (all_done {time_out = zero} g) h = ground arith
  BootMove-Linked (all_done {time_out = suc _} g) h = ground arith
  BootMove-Linked mv h = ground arith

  BootMove-same :
      {s s' : Shared A F S} {b b' : Boot}
      → BootMove al k l4 s b s' b'
      → (s'.core_counter ≡ s.core_counter)
        × (s'.done_counter ≡ s.done_counter)
        × (s'.sent ≡ false → s.sent ≡ false)
  BootMove-same (prepare _) = ground arith
  BootMove-same mv = ground arith

  -- `init_smp` leaves the counters and the cores alone.
  BootMove-Inv :
      {n : ℕ} {aps : ℕ → Ap} {s s' : Shared A F S} {b b' : Boot}
      → BootMove al k l4 s b s' b'
      → Inv n k (trampoline_words al l4) s aps b
      → Inv n k (trampoline_words al l4) s' aps b'
  BootMove-Inv mv inv =
      let (cores, dones, silent) = BootMove-same mv in
      record {
        small = inv.small;
        numbers = cores ∙ inv.numbers;
        done = dones ∙ inv.done;
        range = λ i a q. rw cores (inv.range i a q);
        unique = inv.unique;
        quiet = λ h. inv.quiet (silent h);
        stacks = inv.stacks;
        linked = BootMove-Linked mv inv.linked;
      }

module _ {A F S : Type 0} {al : Align} {n k l4 : ℕ} {apic_id : ℕ → ℕ} where
  pub Step-Inv :
      {m m' : Machine A F S}
      → Step al n k l4 apic_id m m'
      → Inv n k (trampoline_words al l4) m.shared m.aps m.boot
      → Inv n k (trampoline_words al l4) m'.shared m'.aps m'.boot
  Step-Inv (ap_moves i lt mv) inv = ApMove-Inv inv i lt mv
  Step-Inv (boot_moves mv) inv = BootMove-Inv mv inv

  -- In a reachable state the counters count the cores, no two cores have the same index, no core runs before
  -- the first startup command, and the page at address 0 is there until `init_smp` has left its loop.
  pub Reach-Inv :
      {bsp_id : ℕ} {m : Machine A F S}
      → n < 2 ^ 64
      → Reach al n k l4 apic_id bsp_id m
      → Inv n k (trampoline_words al l4) m.shared m.aps m.boot
  Reach-Inv h start = record {
    small = h;
    numbers = sym (sum-zero has_index n (λ _. asleep) (λ _. refl));
    done = sym (sum-zero is_counted n (λ _. asleep) (λ _. refl));
    range = λ i a q. ground arith;
    unique = λ i j a q r. ground arith;
    quiet = λ h i. refl;
    stacks = λ i. tt;
    linked = (refl, refl);
  }
  Reach-Inv h (later r step) = Step-Inv step (Reach-Inv h r)
