-- ===== src/Smp/Startup/Progress.antt =====
-- As long as the time-out has not run down, the startup can still succeed.
use steelmind_os.Base.{
  ℕ, zero, suc, ◌^◌, ◌≤◌, ◌<◌, ◌≡◌, refl, sym, arith, Bool, true, false, Option, some, put,
  put_same, sum-all,
}
use mathlib.Core.Path.{subst}
use native.Mathlib.Decide.{dec_lt}
use steelmind_os.Base.Address.{Align}
use steelmind_os.Smp.Startup.{
  Words, Shared, entering, counted, Ap, asleep, trampoline, numbered, inside, lost, Boot, waiting,
  unmapping, started, Machine, BootMove, ApMove, Steps, stay, go, ap_moves, boot_moves, Reach,
  later, trampoline_words, wake, take_index, enter, count, all_done, unmap_last, stack_of,
}
use steelmind_os.Smp.Startup.Order.{is_counted, is_lost, Linked}
use steelmind_os.Smp.Startup.Order.Reached.{Reach-Inv}
use steelmind_os.Smp.Startup.Trampoline.{Reach-is_lost}

module _ {A F S : Type 0} (al : Align) (n k l4 : ℕ) (apic_id : ℕ → ℕ) where
  steps_append :
      {m m' m'' : Machine A F S}
      → Steps al n k l4 apic_id m m'
      → Steps al n k l4 apic_id m' m''
      → Steps al n k l4 apic_id m m''
  steps_append a stay = a
  steps_append a (go b s) = go (steps_append a b) s

  Reach-Steps :
      {bsp_id : ℕ} {m m' : Machine A F S}
      → Reach al n k l4 apic_id bsp_id m
      → Steps al n k l4 apic_id m m'
      → Reach al n k l4 apic_id bsp_id m'
  Reach-Steps r stay = r
  Reach-Steps r (go b s) = later (Reach-Steps r b) s

  -- `init_smp` waits, with the page mapped and a startup command sent, and no core is lost.
  record Open (w : Words) (b : Boot) (m : Machine A F S) : Type 0 where
    page : m.shared.page ≡ some w
    sent : m.shared.sent ≡ true
    boot : m.boot ≡ b
    safe : (i : ℕ) → is_lost (m.aps i) ≡ false

  -- Some steps after which core `i` is counted, and those that were before are still.
  record Counts (w : Words) (b : Boot) (i : ℕ) (m : Machine A F S) : Type 0 where
    last : Machine A F S
    steps : Steps al n k l4 apic_id m last
    open_still : Open w b last
    here : is_counted (last.aps i) ≡ 1
    kept : (j : ℕ) → is_counted (m.aps j) ≡ 1 → is_counted (last.aps j) ≡ 1

  module _ {w : Words} {b : Boot} {i : ℕ} (lt : i < n) where
    -- One move of core `i`, and then the rest.
    first :
        {m : Machine A F S} (s : Shared A F S) (q p : Ap)
        → Open w b m
        → m.aps i ≡ q
        → ApMove (apic_id i) m.shared q s p
        → is_counted q ≡ 0
        → (Open w b (record m { shared = s; aps = put m.aps i p })
            → Counts w b i (record m { shared = s; aps = put m.aps i p }))
        → s.page ≡ some w
        → s.sent ≡ true
        → is_lost p ≡ false
        → Counts w b i m
    first {m} s q p o h mv c rest page sent e =
        let r = rest (record {
          page = page;
          sent = sent;
          boot = o.boot;
          safe = λ j. ground (arith, e, o.safe j);
        }) in
        let step =
          ap_moves i {s = s} {p = p} lt
            (subst (λ x. ApMove (apic_id i) m.shared x s p) (sym h) mv) in
        record {
          last = r.last;
          steps = steps_append (go stay step) r.steps;
          open_still = r.open_still;
          here = r.here;
          kept = λ j k. r.kept j (ground (arith, c, k));
        }

    already : {m : Machine A F S} → Open w b m → is_counted (m.aps i) ≡ 1 → Counts w b i m
    already {m} o h = record { last = m; steps = stay; open_still = o; here = h; kept = λ j k. k }

    from_entering :
        (a sp : ℕ) (m : Machine A F S)
        → Open w b m
        → m.aps i ≡ inside entering a sp
        → Counts w b i m
    from_entering a sp m o h =
        first _ _ (inside counted a sp) o h count refl
          (λ o'. already o' (rw (put_same m.aps i (inside counted a sp)) refl)) o.page o.sent refl

    from_numbered : (a : ℕ) (m : Machine A F S) → Open w b m → m.aps i ≡ numbered a → Counts w b i m
    from_numbered a m o h =
        first m.shared _ (inside entering a (stack_of w a)) o h (enter o.page) refl
          (λ o'.
            from_entering a (stack_of w a) _ o'
              (put_same m.aps i (inside entering a (stack_of w a))))
          o.page o.sent refl

    from_trampoline : (m : Machine A F S) → Open w b m → m.aps i ≡ trampoline → Counts w b i m
    from_trampoline m o h =
        first _ _ (numbered m.shared.core_counter) o h (take_index o.page) refl
          (λ o'.
            from_numbered m.shared.core_counter _ o'
              (put_same m.aps i (numbered m.shared.core_counter)))
          o.page o.sent refl

    from_asleep : (m : Machine A F S) → Open w b m → m.aps i ≡ asleep → Counts w b i m
    from_asleep m o h =
        first m.shared _ trampoline o h (wake o.sent) refl
          (λ o'. from_trampoline _ o' (put_same m.aps i trampoline)) o.page o.sent refl

    counts : (m : Machine A F S) → Open w b m → (p : Ap) → m.aps i ≡ p → Counts w b i m
    counts m o asleep h = from_asleep m o h
    counts m o trampoline h = from_trampoline m o h
    counts m o (numbered a) h = from_numbered a m o h
    counts m o (inside entering a sp) h = from_entering a sp m o h
    counts m o (lost a) h = absurd (ground (arith, h, o.safe i))
    counts m o p h = already o (rw h refl)

  -- The cores below `j` one after the other.
  record Many (w : Words) (b : Boot) (j : ℕ) (m : Machine A F S) : Type 0 where
    last : Machine A F S
    steps : Steps al n k l4 apic_id m last
    open_still : Open w b last
    all : (i : ℕ) → i < j → is_counted (last.aps i) ≡ 1

  many : {w : Words} {b : Boot} (j : ℕ) (m : Machine A F S) → j ≤ n → Open w b m → Many w b j m
  many zero m le o = record {
    last = m;
    steps = stay;
    open_still = o;
    all = λ i l. absurd (omega (arith, l));
  }
  many (suc j) m le o =
      let r = many j m (omega (arith, le)) o in
      let c = counts {i = j} (omega (arith, le)) r.last r.open_still (r.last.aps j) refl in
      record {
        last = c.last;
        steps = steps_append r.steps c.steps;
        open_still = c.open_still;
        all = λ i l. elim (dec_lt i j) [
          | yes below ↦ c.kept i (r.all i below)
          | no above ↦ ground (arith, c.here, l)
        ];
      }

Linked-waiting :
    (k : ℕ) (w : Words) (b : Boot) (page : Option Words) (sent : Bool) (done t : ℕ)
    → b ≡ waiting t
    → Linked k w b page sent done
    → (page ≡ some w) × (sent ≡ true)
Linked-waiting k w (waiting _) page sent done t e l = l
Linked-waiting k w b page sent done t e l = ground arith

module _ {A F S : Type 0} {al : Align} {n l4 : ℕ} {apic_id : ℕ → ℕ} where
  finish :
      (m : Machine A F S) (t : ℕ)
      → m.boot ≡ waiting (suc t)
      → n ≤ m.shared.done_counter
      → (m' : Machine A F S) × Steps al n n l4 apic_id m m' × (m'.boot ≡ started) × (m'.aps ≡ m.aps)
  finish m t e h = (
    _,
    go
        (go stay (
          boot_moves (
            subst (λ x. BootMove al n l4 m.shared x m.shared (unmapping (suc t))) (sym e)
              (all_done h))))
        (boot_moves unmap_last),
    refl,
    refl,
  )

  -- Where ACPI counts the other cores, fewer than 2^64, right: in each reachable state in which `init_smp` waits and
  -- its time-out has not run down, the cores can go on so that all of them count themselves and `init_smp`
  -- returns.
  pub Reach-started :
      {bsp_id : ℕ} {m : Machine A F S}
      → n < 2 ^ 64
      → Reach al n n l4 apic_id bsp_id m
      → (t : ℕ) → m.boot ≡ waiting (suc t)
      → (m' : Machine A F S) × Steps al n n l4 apic_id m m'
        × (m'.boot ≡ started)
        × ((i : ℕ) → i < n → is_counted (m'.aps i) ≡ 1)
  Reach-started {m = m} h r t e =
      let (page, sent) =
        Linked-waiting n (trampoline_words al l4) m.boot m.shared.page m.shared.sent
          m.shared.done_counter (suc t) e (Reach-Inv h r).linked in
      let o = many al n n l4 apic_id n m (omega arith) (record {
        page = page;
        sent = sent;
        boot = e;
        safe = Reach-is_lost h (omega arith) r (λ f. ground arith);
      }) in
      let inv = Reach-Inv h (Reach-Steps al n n l4 apic_id r o.steps) in
      let (m', steps, end, same) =
        finish o.last t o.open_still.boot
          (omega (arith, inv.done, sum-all is_counted n o.last.aps o.all)) in
      (m', steps_append al n n l4 apic_id o.steps steps, end, λ i l. rw same (o.all i l))
