-- ===== src/CommonMain/Examples.antt =====
-- Four cores, a timer that ticks, and the screen.
use steelmind_os.Base.{
  ℕ, suc, ◌+◌, ◌≤◌, ◌<◌, ◌≡◌, refl, arith, true, some, List, [], ◌∷◌, ◌++◌, length, ok, replicate,
}
use steelmind_os.Terminal.Color.{color}
use steelmind_os.CommonMain.{Screen, start, fires, goes, after, clear_color, timer_test}
use steelmind_os.CommonMain.Frames.{refreshes-bounded, request_waits}
use steelmind_os.CommonMain.Ticks.{timer_test-ends}

-- The colour of core 2 of four.
third_color : clear_color 2 3 ≡ ok (color 10 50 50)
unfolding clear_color
third_color = refl

timer_test-ends_example :
    (lines : List ℕ) × (timer_test (0 ∷ 2 ∷ 2 ∷ 6 ∷ 7 ∷ []) ≡ some (lines ++ 6 ∷ []))
    × (length lines ≤ 4)
timer_test-ends_example = timer_test-ends (0 ∷ 2 ∷ 2 ∷ []) 6 (7 ∷ []) (omega arith) (omega arith)

refreshes-bounded_example :
    (after (goes ∷ goes ∷ fires ∷ fires ∷ goes ∷ goes ∷ []) start).refreshes
    ≤ (after (goes ∷ goes ∷ fires ∷ fires ∷ goes ∷ goes ∷ []) start).interrupts + 1
refreshes-bounded_example = refreshes-bounded (goes ∷ goes ∷ fires ∷ fires ∷ goes ∷ goes ∷ [])

abbrev first_frame : Screen
first_frame = after (goes ∷ goes ∷ goes ∷ []) start

request_waits_example :
    ((after (fires ∷ replicate (suc 4) goes) first_frame).refreshes ≡ first_frame.refreshes)
    × ((after (fires ∷ replicate (suc 4) goes) first_frame).requested ≡ true)
    × (first_frame.refreshes
        < (after
            (fires ∷ goes ∷ goes ∷ [])
            (after (fires ∷ replicate (suc 4) goes) first_frame)).refreshes)
unfolding after start
request_waits_example = request_waits 4 first_frame refl
