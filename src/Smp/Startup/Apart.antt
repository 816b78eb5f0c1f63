-- ===== src/Smp/Startup/Apart.antt =====
-- Each core enters the kernel on a stack of its own.
use steelmind_os.Base.{
  ℕ, ◌+◌, ◌*◌, ◌≤◌, ◌<◌, ◌≡◌, ◌≢◌, ◌⊎◌, inl, inr, sym, ◌∙◌, ap, arith, some, sum-bound,
}
use native.Mathlib.Decide.{dec_lt}
use steelmind_os.Base.Address.{Align}
use steelmind_os.Constants.{max_cores, kernel_ap_stacks}
use steelmind_os.Smp.{calc_stack_stride, stack_base, stack_pointer}
use steelmind_os.Smp.Stacks.{pages_per_core-eq}
use steelmind_os.Smp.Startup.{Words, Ap, inside, Stage, Machine, Reach, trampoline_words, stack_of}
use steelmind_os.Smp.Startup.Order.{HasStack, has_index, has_index-le, index_of}
use steelmind_os.Smp.Startup.Order.Reached.{Reach-Inv}

calc_stack_stride-eq : (al : Align) → calc_stack_stride al ≡ 1025 * 4096
unfolding calc_stack_stride
calc_stack_stride-eq al = omega (arith, pages_per_core-eq al)

-- The sum of the trampoline does not overflow.
stack_of-exact :
    (al : Align) (l4 a : ℕ)
    → a < max_cores
    → stack_of (trampoline_words al l4) a ≡ stack_pointer al a
unfolding stack_pointer stack_base kernel_ap_stacks
stack_of-exact al l4 a h = let e = calc_stack_stride-eq al in rw e (omega arith)

stack_pointer-apart :
    (al : Align) (a b : ℕ)
    → a ≢ b
    → (stack_pointer al a + calc_stack_stride al ≤ stack_pointer al b)
      ⊎ (stack_pointer al b + calc_stack_stride al ≤ stack_pointer al a)
unfolding stack_pointer
stack_pointer-apart al a b ne =
    rw (calc_stack_stride-eq al)
      (elim (dec_lt a b) [ yes below ↦ inl (omega arith) | no above ↦ inr (omega (arith, ne)) ])

stack_of_inside :
    (w : Words) (p : Ap) {s : Stage} {a sp : ℕ}
    → p ≡ inside s a sp
    → HasStack w p
    → sp ≡ stack_of w a
stack_of_inside w (inside s a sp) e h = ground arith
stack_of_inside w p e h = ground arith

module _ {A F S : Type 0} {al : Align} {n k l4 : ℕ} {apic_id : ℕ → ℕ} {bsp_id : ℕ}
    {m : Machine A F S} where
  -- With fewer than 256 other cores: a core that is in the kernel has an index below the number of these cores, and
  -- its stack pointer was the one that is computed for this index.
  pub Reach-stack_pointer :
      n < max_cores
      → Reach al n k l4 apic_id bsp_id m
      → (i a sp : ℕ) {s : Stage} → m.aps i ≡ inside s a sp
      → (a < n) × (sp ≡ stack_pointer al a)
  Reach-stack_pointer h r i a sp e =
      let inv = Reach-Inv (omega arith) r in
      let below : a < n = omega (
        arith,
        inv.range i a (ap index_of e),
        inv.numbers,
        sum-bound has_index has_index-le n m.aps,
      ) in
      (
        below,
        stack_of_inside (trampoline_words al l4) (m.aps i) e (inv.stacks i)
            ∙ stack_of-exact al l4 a (omega (arith, below)),
      )

  -- With fewer than 256 other cores: two of them that are in the kernel entered it with stack pointers that lie
  -- at least a stack and its guard page apart.
  pub Reach-apart :
      n < max_cores
      → Reach al n k l4 apic_id bsp_id m
      → (i j a b sp sp' : ℕ) {s t : Stage} → i ≢ j
      → m.aps i ≡ inside s a sp
      → m.aps j ≡ inside t b sp'
      → (sp + calc_stack_stride al ≤ sp') ⊎ (sp' + calc_stack_stride al ≤ sp)
  Reach-apart h r i j a b sp sp' ne e f =
      let inv = Reach-Inv (omega arith) r in
      let one = Reach-stack_pointer h r i a sp e in
      let two = Reach-stack_pointer h r j b sp' f in
      let differ : a ≢ b =
        λ same. ne (inv.unique i j a (ap index_of e) (ap index_of f ∙ ap some (sym same))) in
      ground (arith, one.1, two.1, stack_pointer-apart al a b differ)
