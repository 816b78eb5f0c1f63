-- ===== src/CommonMain/Frames.antt =====
-- The loop of core 0 in kernel/src/common_main.rs, with the timer firing at any time.
use steelmind_os.Base.{
  ℕ, zero, suc, ◌+◌, ◌≤◌, ◌<◌, ◌≡◌, ◌≢◌, refl, ap, ◌∙◌, arith, Bool, true, false, List, [], ◌∷◌,
  replicate,
}
use steelmind_os.CommonMain.{
  Place, testing, settling, halted, pushing, Screen, start, interrupt, advance, Event, fires, goes,
  step, after,
}

abbrev as_number : Bool → ℕ
as_number true = 1
as_number false = 0

abbrev is_pushing : Place → ℕ
is_pushing testing = 0
is_pushing settling = 0
is_pushing halted = 0
is_pushing pushing = 1

-- Every frame, pushed or on its way, has a request of its own: the first, or an interrupt.
abbrev pub IsCovered : Screen → Type 0
IsCovered s = s.refreshes + is_pushing s.place + as_number s.requested ≤ s.interrupts + 1

step-IsCovered : (e : Event) (s : Screen) → IsCovered s → IsCovered (step e s)
unfolding step interrupt advance
step-IsCovered fires s h = ground (arith, h)
step-IsCovered goes s h = ground (arith, h)

after-IsCovered : (es : List Event) (s : Screen) → IsCovered s → IsCovered (after es s)
unfolding after
after-IsCovered [] s h = h
after-IsCovered (e ∷ es) s h = after-IsCovered es (step e s) (step-IsCovered e s h)

-- Whenever the timer fires, the screen is pushed to the frame buffer at most once for each time it has fired, and once
-- at the start.
pub refreshes-bounded :
    (es : List Event) → (after es start).refreshes ≤ (after es start).interrupts + 1
unfolding start
refreshes-bounded es = omega (arith, after-IsCovered es start (omega arith))

by_place :
    (s : Screen) (p : Place)
    → s.place ≡ p
    → s.place ≢ settling
    → s.refreshes < (after (fires ∷ goes ∷ goes ∷ []) s).refreshes
unfolding after step interrupt advance
by_place s testing e ne = rw e (omega arith)
by_place s settling e ne = absurd (ne e)
by_place s halted e ne = rw e (omega arith)
by_place s pushing e ne = rw e (omega arith)

-- A request that comes while the core is not between its test and `hlt` is served by its next steps, without another
-- interrupt.
pub request_served :
    (s : Screen) → s.place ≢ settling → s.refreshes < (after (fires ∷ goes ∷ goes ∷ []) s).refreshes
request_served s ne = by_place s s.place refl ne

halted_idle : (s : Screen) → s.place ≡ halted → step goes s ≡ s
unfolding step advance
halted_idle s h = ground (arith, h)

halted_stays : (n : ℕ) (s : Screen) → s.place ≡ halted → after (replicate n goes) s ≡ s
unfolding after
halted_stays zero s h = refl
halted_stays (suc n) s h =
    ap (λ t. after (replicate n goes) t) (halted_idle s h) ∙ halted_stays n s h

abbrev asleep : Screen → Screen
asleep s = record {
  requested = true;
  refreshes = s.refreshes;
  interrupts = s.interrupts + 1;
  place = halted;
}

falls_asleep : (s : Screen) → s.place ≡ settling → step goes (step fires s) ≡ asleep s
unfolding step interrupt advance
falls_asleep s h = simp h refl

-- One that comes between the test, which found none, and `hlt` is not: however long the core goes on, it sleeps on the request until the
-- timer fires again, and serves it then.
pub request_waits :
    (n : ℕ) (s : Screen)
    → s.place ≡ settling
    → ((after (fires ∷ replicate (suc n) goes) s).refreshes ≡ s.refreshes)
      × ((after (fires ∷ replicate (suc n) goes) s).requested ≡ true)
      × (s.refreshes
          < (after (fires ∷ goes ∷ goes ∷ []) (after (fires ∷ replicate (suc n) goes) s)).refreshes)
unfolding after
request_waits n s h =
    let e : after (fires ∷ replicate (suc n) goes) s ≡ asleep s =
      ap (λ t. after (replicate n goes) t) (falls_asleep s h) ∙ halted_stays n (asleep s) refl in
    rw e (refl, refl, by_place (asleep s) halted refl (λ k. ground (arith, k)))
