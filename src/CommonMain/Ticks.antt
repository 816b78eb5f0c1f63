-- ===== src/CommonMain/Ticks.antt =====
-- The test of the timer in kernel/src/common_main.rs.
use steelmind_os.Base.{
  ℕ, ◌+◌, ◌≤◌, ◌<◌, ◌≡◌, refl, ◌∙◌, arith, ltb, lt→leb, le→leb, lt→ltb, inl, inr, Bool-cases, some,
  List, [], ◌∷◌, ◌++◌, append_assoc, length,
}
use steelmind_os.CommonMain.{timer_loop, timer_test}

-- None of these counts ends the test.
abbrev pub AllBelow : ℕ → List ℕ → Type 0
AllBelow n [] = Unit {0}
AllBelow n (c ∷ cs) = (c < n) × AllBelow n cs

timer_loop-ends :
    (early : List ℕ) (count : ℕ) (late : List ℕ) (last : ℕ) (logged : List ℕ)
    → AllBelow 5 early
    → 5 ≤ count
    → last ≤ 4
    → (lines : List ℕ) × (timer_loop (early ++ (count ∷ late)) last logged
        ≡ some (logged ++ (lines ++ count ∷ [])))
      × (length lines + last ≤ 4)
unfolding timer_loop
timer_loop-ends [] count late last logged h five small =
    ([], rw (le→leb 5 count five, lt→ltb last count (omega arith)) refl, omega arith)
timer_loop-ends (c ∷ early) count late last logged (h, hs) five small =
    elim (Bool-cases (ltb last c)) [
      | inl e ↦
          let (lines, run, few) =
            timer_loop-ends early count late (last + 1) (logged ++ c ∷ []) hs five
              (ground (arith, e, h)) in
          (c ∷ lines, rw (lt→leb 5 c h, e) (run ∙ rw append_assoc refl), omega (arith, few))
      | inr e ↦
          let (lines, run, few) = timer_loop-ends early count late last logged hs five small in
          (lines, rw (lt→leb 5 c h, e) run, few)
    ]

-- Once the counter is read with 5 or more, the test ends, whatever it read before and would read later. It has then
-- logged from one line to five, and the last shows that count.
pub timer_test-ends :
    (early : List ℕ) (count : ℕ) (late : List ℕ)
    → AllBelow 5 early
    → 5 ≤ count
    → (lines : List ℕ) × (timer_test (early ++ (count ∷ late)) ≡ some (lines ++ count ∷ []))
      × (length lines ≤ 4)
unfolding timer_test
timer_test-ends early count late h five =
    let (lines, run, few) = timer_loop-ends early count late 0 [] h five (omega arith) in
    (lines, run, omega (arith, few))
