-- ===== src/UserApp/Sessions.antt =====
-- What the application of user_app/src/test.rs prints, and its exit codes from run to run.
use steelmind_os.Base.{
  ℕ, zero, suc, ◌+◌, ◌%◌, ◌^◌, ◌<◌, ◌≡◌, ◌≢◌, refl, ap, ◌∙◌, arith, ◌==◌, false, some, List, [],
  ◌∷◌, ◌++◌, append-nil, append_assoc, replicate,
}
use mathlib.Core.List.{map}
use steelmind_os.UserApp.{Process, returned, aborted, ◌>>=◌, text, panic, _print_fmt_contiguous}
use steelmind_os.UserApp.Primes.{first_primes}
use steelmind_os.UserApp.Printing.{Calm, Prints-append, Printing, contiguous-Printing, panic-aborts}
use steelmind_os.UserApp.Program.{Texts, print_line, print_vec, rec, act, main, runs}

-- The line for two pieces, the lines that count down, and the line for each prime.
abbrev pub line : List ℕ → List ℕ → List ℕ
line a b = a ++ b ++ 10 ∷ []

abbrev pub countdown : Texts → ℕ → List (List ℕ)
countdown t zero = line t.count (t.show 0) ∷ []
countdown t (suc n) = line t.count (t.show (suc n)) ∷ countdown t n

abbrev pub listing : Texts → List (ℕ × ℕ) → List (List ℕ)
listing t v = map (λ e. t.debug e ++ 10 ∷ []) v

module _ (t : Texts) where
  line-Printing :
      (a b : List ℕ) (p : Process)
      → Calm p
      → Printing (line a b ∷ []) (print_line t (text a ∷ text b ∷ [])) p
  unfolding _print_fmt_contiguous
  line-Printing a b p calm =
      let (q, run, prints) =
        contiguous-Printing t.strings (panic t.strings t.user_panic) (a ∷ b ∷ (10 ∷ []) ∷ []) p
          calm in
      (q, run, rw (append_assoc a b (10 ∷ [])) prints)

  print_vec-Printing :
      (v : List (ℕ × ℕ)) (p : Process) → Calm p → Printing (listing t v) (print_vec t v) p
  unfolding print_vec _print_fmt_contiguous
  print_vec-Printing [] p calm =
      (p, refl, record { calm = calm; counter = refl; printed = rw append-nil refl })
  print_vec-Printing (e ∷ v) p calm =
      let (q, run, prints) =
        contiguous-Printing t.strings (panic t.strings t.user_panic) (t.debug e ∷ (10 ∷ []) ∷ []) p
          calm in
      let (r, run', prints') = print_vec-Printing v q prints.calm in
      (r, rw (◌>>=◌, run) run', Prints-append _ (listing t v) p q r prints prints')

  rec-Printing :
      (n : ℕ) (p : Process)
      → Calm p
      → Printing (countdown t n ++ listing t (first_primes 10)) (rec t n) p
  unfolding rec
  rec-Printing zero p calm =
      let (q, run, prints) = line-Printing t.count (t.show 0) p calm in
      let (r, run', prints') = print_vec-Printing (first_primes 10) q prints.calm in
      (r, rw (◌>>=◌, run) run', Prints-append _ _ p q r prints prints')
  rec-Printing (suc n) p calm =
      let (q, run, prints) = line-Printing t.count (t.show (suc n)) p calm in
      let (r, run', prints') = rec-Printing n q prints.calm in
      (r, rw (◌>>=◌, run) run', Prints-append _ _ p q r prints prints')

  act_first : (c : ℕ) → c ≡ 0 → act t c ≡ rec t 10
  unfolding act
  act_first c h = rw h refl

  act_again : (c : ℕ) → c ≢ 0 → act t c ≡ panic t.strings t.user_panic t.info
  unfolding act
  act_again c h = let e : (c == 0) ≡ false = ground (arith, h) in rw e refl

  -- The first run of a process that is not in the middle of a print returns 0. It has printed the greeting, the
  -- numbers from 10 down to 0 and the first ten primes, each on a line by one call, and has counted one run.
  pub main_first :
      (p : Process)
      → Calm p
      → p.counter ≡ 0
      → (q : Process) × (main t p ≡ returned 0 q)
        × Calm q
        × (q.counter ≡ 1)
        × (q.printed
            ≡ p.printed ++ (line t.fmt t.hello ∷ (countdown t 10 ++ listing t (first_primes 10))))
  unfolding main
  main_first p calm zeroth =
      let (q, run, prints) = line-Printing t.fmt t.hello p calm in
      let zeroth' : q.counter ≡ 0 = prints.counter ∙ zeroth in
      let q1 : Process = record q { counter = (q.counter + 1) % 2 ^ 64 } in
      let calm1 : Calm q1 = record { unlocked = prints.calm.unlocked; empty = prints.calm.empty } in
      let (r, run', prints') = rec-Printing 10 q1 calm1 in
      (
        r,
        rw (◌>>=◌, run, act_first q.counter zeroth', run') (ap (λ c. returned c r) zeroth'),
        prints'.calm,
        omega (arith, prints'.counter, zeroth'),
        prints'.printed ∙ rw prints.printed (append_assoc p.printed _ _),
      )

  -- Any later run, with a counter that is not 0, prints the greeting and the message of its panic and ends with the code 42; it
  -- too counts, up to the wrap-around of 64 bits.
  pub main_again :
      (p : Process)
      → Calm p
      → p.counter ≢ 0
      → (q : Process) × (main t p ≡ aborted 42 q)
        × Calm q
        × (q.counter ≡ (p.counter + 1) % 2 ^ 64)
        × (q.printed ≡ p.printed ++ (line t.fmt t.hello ∷ line t.user_panic t.info ∷ []))
  unfolding main
  main_again p calm later =
      let (q, run, prints) = line-Printing t.fmt t.hello p calm in
      let q1 : Process = record q { counter = (q.counter + 1) % 2 ^ 64 } in
      let calm1 : Calm q1 = record { unlocked = prints.calm.unlocked; empty = prints.calm.empty } in
      let (r, run', prints') = panic-aborts t.strings {A = Unit {0}} t.user_panic t.info q1 calm1 in
      (
        r,
        rw (◌>>=◌, run, act_again q.counter (λ e. later (omega (arith, e, prints.counter))), run')
            refl,
        prints'.calm,
        prints'.counter ∙ rw prints.counter refl,
        prints'.printed ∙ rw prints.printed (append_assoc p.printed _ _),
      )

  runs_later :
      (n : ℕ) (p : Process)
      → Calm p
      → 0 < p.counter
      → p.counter + n < 2 ^ 64
      → runs t n p ≡ some (replicate n 42)
  unfolding runs
  runs_later zero p calm pos small = refl
  runs_later (suc n) p calm pos small =
      let (q, run, calm', counted, _) = main_again p calm (omega (arith, pos)) in
      let rest : runs t n q ≡ some (replicate n 42) =
        runs_later n q calm' (omega (arith, counted, small)) (omega (arith, counted, small)) in
      rw (runs, run, runs, rest) refl

  -- A process that has not run yet and is not in the middle of a print, run again and again, fewer than 2^64 times: every run ends, the
  -- first with 0 and all others with 42.
  pub runs-codes :
      (n : ℕ) (p : Process)
      → Calm p
      → p.counter ≡ 0
      → suc n < 2 ^ 64
      → runs t (suc n) p ≡ some (0 ∷ replicate n 42)
  unfolding runs
  runs-codes n p calm fresh small =
      let (q, run, calm', counted, _) = main_first p calm fresh in
      let rest : runs t n q ≡ some (replicate n 42) =
        runs_later n q calm' (omega (arith, counted)) (omega (arith, counted, small)) in
      rw (runs, run, runs, rest) refl
