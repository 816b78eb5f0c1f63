-- ===== src/Tester/Verdicts.antt =====
-- What the exit code of the emulator says of the tests of kernel/src/tester.rs.
use steelmind_os.Base.{
  ℕ, ◌+◌, ◌<◌, ◌^◌, ◌%◌, ◌≡◌, ◌≢◌, ◌↔◌, refl, sym, ◌∙◌, arith, Bool, true, false, ◌&&◌, ◌==◌,
  lt→ltb, List, [], ◌∷◌, ◌++◌, append_assoc, append-nil, length, ok,
}
use mathlib.Core.List.{reverse, reverse_aux}
use steelmind_os.Tester.{
  success, Tester, start_test, Verdict, passes, panics, hangs, Test, Halt, exits, silent, Log,
  after_block, run_each, run_tests,
}

abbrev pub passed : Verdict → Bool
passed passes = true
passed panics = false
passed hangs = false

abbrev pub all_pass : List Test → Bool
all_pass [] = true
all_pass (t ∷ ts) = passed t.verdict && all_pass ts

-- The tests with their numbers.
abbrev pub numbered : ℕ → List Test → Log
numbered n [] = []
numbered n (t ∷ ts) = (n, t.name) ∷ numbered (n + 1) ts

length-reverse_aux : (xs ys : List Test) → length (reverse_aux xs ys) ≡ length xs + length ys
length-reverse_aux [] ys = omega arith
length-reverse_aux (x ∷ xs) ys = omega (arith, length-reverse_aux xs (x ∷ ys))

all_pass-reverse_aux :
    (xs ys : List Test) → all_pass (reverse_aux xs ys) ≡ (all_pass xs && all_pass ys)
all_pass-reverse_aux [] ys = refl
all_pass-reverse_aux (x ∷ xs) ys = ground (arith, all_pass-reverse_aux xs (x ∷ ys))

start_test-ok :
    (t : Tester) → t.counter + 1 < 2 ^ 32 → start_test t ≡ ok (record t { counter = t.counter + 1 })
unfolding start_test
start_test-ok t h = rw (lt→ltb (t.counter + 1) (2 ^ 32) h) refl

abbrev Right : Bool → Log → Halt × Log → Type 0
Right all log r = ((r.0 ≡ exits success) ↔ (all ≡ true)) × (all ≡ true → r.1 ≡ log)

after_block-Right :
    (v : Verdict) (rest : Halt × Log) (all : Bool) (now full : Log)
    → Right all full rest
    → Right (passed v && all) full (after_block rest now v)
unfolding after_block
after_block-Right passes rest all now full h = h
after_block-Right panics rest all now full h = (
  (λ e. absurd (ground (arith, e)), λ e. absurd (ground (arith, e))),
  λ e. absurd (ground (arith, e)),
)
after_block-Right hangs rest all now full h = (
  (λ e. absurd (ground (arith, e)), λ e. absurd (ground (arith, e))),
  λ e. absurd (ground (arith, e)),
)

-- The loop writes `Success` exactly when every test that is left passes; then all are started, in order.
run_each-Right :
    (tests : List Test) (t : Tester) (log : Log)
    → t.counter + length tests < 2 ^ 32
    → Right (all_pass tests) (log ++ numbered (t.counter + 1) tests) (run_each tests t log)
unfolding run_each
run_each-Right [] t log h = ((λ e. refl, λ e. refl), λ e. rw append-nil refl)
run_each-Right (test ∷ tests) t log h =
    let next : Tester = record t { counter = t.counter + 1 } in
    let log' = log ++ (t.counter + 1, test.name) ∷ [] in
    rw (start_test-ok t (omega (arith, h))) (
      after_block-Right test.verdict (run_each tests next log') (all_pass tests) log'
        (log ++ (t.counter + 1, test.name) ∷ numbered (t.counter + 1 + 1) tests)
        (rw
          (← append_assoc log ((t.counter + 1, test.name) ∷ [])
            (numbered (t.counter + 1 + 1) tests))
          (run_each-Right tests next log' (omega (arith, h)))))

-- With fewer than 2^32 tests: the kernel tells the emulator of success exactly when there is a test and all of them pass.
-- Then every test has been started, from the last to the first, under the numbers from 1 on. Without a test it
-- tells the emulator nothing.
pub run_tests-success :
    (tests : List Test)
    → length tests < 2 ^ 32
    → (((run_tests tests).0 ≡ exits success) ↔ ((tests ≢ []) × (all_pass tests ≡ true)))
      × (all_pass tests ≡ true → (run_tests tests).1 ≡ numbered 1 (reverse tests))
      × ((run_tests []).0 ≡ silent)
unfolding run_tests
run_tests-success [] h =
    ((λ e. absurd (ground (arith, e)), λ k. absurd (k.0 refl)), (λ e. refl), refl)
run_tests-success (t ∷ ts) h =
    let n = length (t ∷ ts) in
    let some_tests : (n % 2 ^ 32 == 0) ≡ false = ground (arith, h) in
    let same : all_pass (reverse (t ∷ ts)) ≡ all_pass (t ∷ ts) =
      all_pass-reverse_aux (t ∷ ts) [] ∙ ground arith in
    let right =
      run_each-Right (reverse (t ∷ ts)) (record { number_of_tests = n % 2 ^ 32; counter = 0 }) []
        (omega (arith, h, length-reverse_aux (t ∷ ts) [])) in
    rw some_tests (
      (
        (λ e. (λ k. absurd (ground (arith, k)), sym same ∙ right.0.0 e)),
        λ k. right.0.1 (same ∙ k.1),
      ),
      (λ e. right.1 (same ∙ e)),
      refl,
    )
