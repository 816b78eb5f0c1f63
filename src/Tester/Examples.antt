-- ===== src/Tester/Examples.antt =====
-- Two tests that pass, and one that fails between them.
use steelmind_os.Base.{◌≡◌, refl, [], ◌∷◌}
use steelmind_os.Tester.{success, failed, passes, panics, Test, exits, run_tests}

abbrev first : Test
first = record { name = 7; verdict = passes }

abbrev second : Test
second = record { name = 8; verdict = passes }

both_pass : run_tests (first ∷ second ∷ []) ≡ (exits success, (1, 8) ∷ (2, 7) ∷ [])
unfolding run_tests
both_pass = refl

one_fails :
    run_tests (first ∷ record first { verdict = panics } ∷ second ∷ [])
    ≡ (exits failed, (1, 8) ∷ (2, 7) ∷ [])
unfolding run_tests
one_fails = refl
