-- ===== src/Smp/Startup/Own.antt =====
-- Each core gets core local data of its own, and none of them panics on the way.
use steelmind_os.Base.{
  ℕ, ◌+◌, ◌<◌, ◌≡◌, ◌≢◌, refl, sym, ◌∙◌, ap, arith, Option, none, some, ok, put_same, put_other,
  sum-bound,
}
use native.Mathlib.Decide.{ℕ_discrete}
use steelmind_os.Base.Address.{Align}
use steelmind_os.Constants.{max_cores}
use steelmind_os.Interrupts.{init_gdt_and_exceptions_ap}
use steelmind_os.Smp.Local.{CoreLocalData, cell, initialize_own_core_local_data, get_cld}
use steelmind_os.Smp.Startup.{
  Words, Shared, Ap, inside, panicked, initialized, own_data, wake, guard_panic, initialize,
  initialize_panic, prepare, Boot, BootMove, ApMove, Machine, Step, ap_moves, boot_moves, Reach,
  start, later, trampoline_words,
}
use steelmind_os.Smp.Startup.Order.{Inv, has_index, has_index-le, index_of}
use steelmind_os.Smp.Startup.Order.Reached.{Reach-Inv}

-- The APIC ids of the cores, the first one's included, differ; an id indexes an array of `max_cores` cells.
pub record Ids (n : ℕ) (apic_id : ℕ → ℕ) (bsp_id : ℕ) : Type 0 where
  pub range : (i : ℕ) → i < n → apic_id i < max_cores
  pub distinct : (i j : ℕ) → i < n → j < n → apic_id i ≡ apic_id j → i ≡ j
  pub other : (i : ℕ) → i < n → apic_id i ≢ bsp_id

module _ {A F S : Type 0} where
  -- What a core's cell holds.
  abbrev HasCell : Ap → Option (CoreLocalData A F S) → Type 0
  HasCell (inside initialized a _) c = c ≡ some (own_data a)
  HasCell (panicked _) c = ⊥
  HasCell _ c = c ≡ none

  module _ {id : ℕ} (range : id < max_cores) where
    ApMove-HasCell :
        {s s' : Shared A F S} {p p' : Ap}
        → ApMove id s p s' p'
        → ((a : ℕ) → index_of p ≡ some a → a + 1 < max_cores)
        → HasCell p (s.cells id)
        → HasCell p' (s'.cells id)
    unfolding init_gdt_and_exceptions_ap initialize_own_core_local_data cell
    ApMove-HasCell (wake _) small h = h
    ApMove-HasCell (guard_panic {i} g) small h = ground (arith, small i)
    ApMove-HasCell (initialize g) small h = ground arith
    ApMove-HasCell (initialize_panic g) small h = ground arith
    ApMove-HasCell mv small h = ground arith

    -- A core writes no cell but its own.
    ApMove-others :
        {s s' : Shared A F S} {p p' : Ap}
        → ApMove id s p s' p'
        → (j : ℕ) → id ≢ j
        → s'.cells j ≡ s.cells j
    unfolding initialize_own_core_local_data cell
    ApMove-others (wake _) j ne = refl
    ApMove-others (initialize g) j ne = ground arith
    ApMove-others mv j ne = refl

HasCell-initialized :
    {A F S : Type 0} (p : Ap) (c : Option (CoreLocalData A F S)) (a sp : ℕ)
    → p ≡ inside initialized a sp
    → HasCell p c
    → c ≡ some (own_data a)
HasCell-initialized (inside initialized b _) c a sp e h =
    h ∙ ap (λ i. some (own_data i)) (ground arith)
HasCell-initialized p c a sp e h = ground arith

HasCell-panicked :
    {A F S : Type 0} (p : Ap) (c : Option (CoreLocalData A F S)) (a : ℕ)
    → HasCell p c
    → p ≢ panicked a
HasCell-panicked (panicked _) c a h e = h
HasCell-panicked p c a h e = ground arith

below :
    {A F S : Type 0} {n k : ℕ} {w : Words} {s : Shared A F S} {aps : ℕ → Ap} {b : Boot}
    → n < max_cores
    → Inv n k w s aps b
    → (i a : ℕ) → index_of (aps i) ≡ some a
    → a + 1 < max_cores
below {n = n} {aps = aps} few inv i a q =
    omega (arith, few, inv.range i a q, inv.numbers, sum-bound has_index has_index-le n aps)

module _ {A F S : Type 0} {al : Align} {n k l4 : ℕ} {apic_id : ℕ → ℕ} {bsp_id : ℕ}
    (few : n < max_cores) (ids : Ids n apic_id bsp_id) where
  BootMove-cells :
      {s s' : Shared A F S} {b b' : Boot}
      → BootMove al k l4 s b s' b'
      → (j : ℕ) → s'.cells j ≡ s.cells j
  BootMove-cells (prepare _) j = refl
  BootMove-cells mv j = refl

  Step-HasCell :
      {m m' : Machine A F S}
      → Step al n k l4 apic_id m m'
      → Inv n k (trampoline_words al l4) m.shared m.aps m.boot
      → ((j : ℕ) → j < n → HasCell (m.aps j) (m.shared.cells (apic_id j)))
      → (j : ℕ) → j < n
      → HasCell (m'.aps j) (m'.shared.cells (apic_id j))
  Step-HasCell (boot_moves mv) inv h j jt = rw (BootMove-cells mv (apic_id j)) (h j jt)
  Step-HasCell {m} (ap_moves i {p} lt mv) inv h j jt = elim (ℕ_discrete i j) [
    | yes e ↦ rw (sym e) (
        rw (put_same m.aps i p)
          (ApMove-HasCell (ids.range i lt) mv (λ a q. below few inv i a q) (h i lt)))
    | no ne ↦ rw (put_other m.aps i j p ne) (
        rw (ApMove-others (ids.range i lt) mv (apic_id j) (λ q. ne (ids.distinct i j lt jt q)))
          (h j jt))
  ]

  Reach-HasCell :
      {m : Machine A F S}
      → Reach al n k l4 apic_id bsp_id m
      → (i : ℕ) → i < n
      → HasCell (m.aps i) (m.shared.cells (apic_id i))
  Reach-HasCell start i lt =
      put_other (λ _. none) bsp_id (apic_id i) _ (λ e. ids.other i lt (sym e))
  Reach-HasCell (later r step) i lt =
      Step-HasCell step (Reach-Inv (omega (arith, few)) r) (Reach-HasCell r) i lt

  module _ {m : Machine A F S} where
    -- With fewer than 256 other cores, whose APIC ids are below 256 and differ from each other and from that
    -- of the first core: a core that has set its data finds them again, with its own index, whatever the
    -- other cores did.
    pub Reach-get_cld :
        Reach al n k l4 apic_id bsp_id m
        → (i : ℕ) → i < n
        → (a sp : ℕ) → m.aps i ≡ inside initialized a sp
        → get_cld (apic_id i) m.shared.cells ≡ ok (own_data a)
    unfolding get_cld cell
    Reach-get_cld r i lt a sp e =
        let c =
          HasCell-initialized (m.aps i) (m.shared.cells (apic_id i)) a sp e
            (Reach-HasCell r i lt) in
        ground (arith, ids.range i lt, c)

    -- With fewer than 256 other cores, whose APIC ids are below 256 and differ from each other and
    -- from that of the first core: no core panics on its way, since the index of its tables and that
    -- of its cell are in range.
    pub Reach-panicked :
        Reach al n k l4 apic_id bsp_id m → (i : ℕ) → i < n → (a : ℕ) → m.aps i ≢ panicked a
    Reach-panicked r i lt a =
        HasCell-panicked (m.aps i) (m.shared.cells (apic_id i)) a (Reach-HasCell r i lt)
