-- ===== src/Interrupts/Vectors.antt =====
-- Which interrupts the kernel can take.
use steelmind_os.Base.{
  ℕ, ◌%◌, ◌≤◌, ◌≡◌, ◌≢◌, arith, Bool, true, false, none, some, mem, List, [], ◌∷◌,
}
use steelmind_os.Apic.Registers.{timer_entry}
use steelmind_os.Interrupts.{
  Handler, interrupt_handler_ec, page_fault_handler, timer_interrupt, double_fault_handler, idt,
}

-- The exceptions of the processor: for these it pushes an error code.
abbrev pub with_code : List ℕ
with_code = 8 ∷ 10 ∷ 11 ∷ 12 ∷ 13 ∷ 14 ∷ 17 ∷ 21 ∷ 29 ∷ 30 ∷ []

abbrev pub takes_code : Handler → Bool
takes_code interrupt_handler_ec = true
takes_code page_fault_handler = true
takes_code (double_fault_handler _) = true
takes_code _ = false

-- A handler takes an error code exactly if the processor pushes one for its vector.
pub idt-takes_code :
    (vector : ℕ) (h : Handler) → idt vector ≡ some h → takes_code h ≡ mem vector with_code
unfolding idt
idt-takes_code vector h e = ground arith

-- The vector with which the local APIC's timer is programmed, periodic or not, has the handler of the timer; no other
-- vector beyond the processor's own 32 has a handler.
pub idt-timer :
    (periodic : Bool) (vector : ℕ)
    → 32 ≤ vector
    → (idt (timer_entry periodic % 256) ≡ some timer_interrupt)
      × (vector ≢ timer_entry periodic % 256 → idt vector ≡ none)
unfolding idt
idt-timer periodic vector h = ground arith
