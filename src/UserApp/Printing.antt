-- ===== src/UserApp/Printing.antt =====
-- The two ways to print of user_app/src/os_functions.rs.
use steelmind_os.Base.{
  ℕ, ◌≡◌, refl, ap, arith, true, false, List, [], ◌∷◌, ◌++◌, append_assoc, append-nil, length, ◌∙◌,
}
use steelmind_os.UserApp.{
  Piece, text, panics, Process, Ended, returned, aborted, stuck, App, ◌>>=◌, _print, Strings,
  write_fmt, lock, write_buffer, contiguous, panic, _print_fmt_contiguous, _print_fmt,
  wait_for_ever,
}

-- All that is written, where no value panics; and the bytes that reached the kernel.
abbrev pub written : List (List ℕ) → List Piece
written [] = []
written (s ∷ args) = text s ∷ written args

abbrev pub concat : List (List ℕ) → List ℕ
concat [] = []
concat (s ∷ args) = s ++ concat args

concat-append : (a b : List (List ℕ)) → concat (a ++ b) ≡ concat a ++ concat b
concat-append [] b = refl
concat-append (s ∷ a) b = rw (concat-append a b, append_assoc) refl

-- The mutex is free and the string empty.
pub record Calm (p : Process) : Type 0 where
  pub unlocked : p.locked ≡ false
  pub empty : p.buffer ≡ []

-- From `p` to `q` the process has called the kernel's `print` with these texts, and nothing else of note.
pub record Prints (calls : List (List ℕ)) (p q : Process) : Type 0 where
  pub calm : Calm q
  pub counter : q.counter ≡ p.counter
  pub printed : q.printed ≡ p.printed ++ calls

pub Prints-append :
    (a b : List (List ℕ)) (p q r : Process) → Prints a p q → Prints b q r → Prints (a ++ b) p r
Prints-append a b p q r m n = record {
  calm = n.calm;
  counter = n.counter ∙ m.counter;
  printed = n.printed ∙ ap (λ l. l ++ b) m.printed ∙ append_assoc p.printed a b;
}

-- A run that returns, with what it prints.
abbrev pub Printing : List (List ℕ) → (Process → Ended (Unit {0})) → Process → Type 0
Printing calls run p = (q : Process) × (run p ≡ returned tt q) × Prints calls p q

lock-free : (p : Process) → p.locked ≡ false → lock p ≡ returned tt (record p { locked = true })
unfolding lock
lock-free p h = ground (arith, h)

lock-taken : (p : Process) → p.locked ≡ true → lock p ≡ stuck p
unfolding lock
lock-taken p h = ground (arith, h)

module _ (strings : Strings) where
  write_fmt-buffer :
      (on_panic : List ℕ → App (Unit {0})) (args : List (List ℕ)) (p : Process)
      → (c : ℕ) × (write_fmt (write_buffer strings) on_panic (written args) p
          ≡ returned tt (record p { buffer = p.buffer ++ concat args; capacity = c }))
  unfolding write_fmt
  write_fmt-buffer on_panic [] p = (p.capacity, rw append-nil refl)
  write_fmt-buffer on_panic (s ∷ args) p =
      let buffer = p.buffer ++ s in
      let p1 : Process = record p {
        buffer = buffer;
        capacity = strings.grown p.capacity (length buffer);
      } in
      let (c, run) = write_fmt-buffer on_panic args p1 in
      (c, rw (run, append_assoc p.buffer s (concat args)) refl)

  pub contiguous-Printing :
      (on_panic : List ℕ → App (Unit {0})) (args : List (List ℕ)) (p : Process)
      → Calm p
      → Printing (concat args ∷ []) (contiguous strings on_panic (written args)) p
  unfolding contiguous
  contiguous-Printing on_panic args p calm =
      let (c, run) = write_fmt-buffer on_panic args (record p { locked = true }) in
      rw (◌>>=◌, lock-free p calm.unlocked, run)
        (
          _,
          refl,
          record {
            calm = record { unlocked = refl; empty = refl };
            counter = refl;
            printed = rw calm.empty refl;
          },
        )

  write_fmt-calls :
      (on_panic : List ℕ → App (Unit {0})) (args : List (List ℕ)) (p : Process)
      → Calm p
      → Printing args (write_fmt _print on_panic (written args)) p
  unfolding write_fmt
  write_fmt-calls on_panic [] p calm =
      (p, refl, record { calm = calm; counter = refl; printed = rw append-nil refl })
  write_fmt-calls on_panic (s ∷ args) p calm =
      let p1 : Process = record p { printed = p.printed ++ s ∷ [] } in
      let calm1 : Calm p1 = record { unlocked = calm.unlocked; empty = calm.empty } in
      let (q, run, prints) = write_fmt-calls on_panic args p1 calm1 in
      (
        q,
        run,
        record {
          calm = prints.calm;
          counter = prints.counter;
          printed = prints.printed ∙ append_assoc p.printed (s ∷ []) args;
        },
      )

  -- Where no value panics and the process is not in the middle of a print: to print by pieces and to print
  -- at once give the kernel the same bytes; at once makes one call, whatever the pieces, and leaves the mutex free, the
  -- string empty and the counter as it was.
  pub print_fmt-contiguous :
      (user_panic : List ℕ) (args : List (List ℕ)) (p : Process)
      → Calm p
      → (q : Process) × (r : Process) × (_print_fmt strings user_panic (written args) p
          ≡ returned tt q)
        × (_print_fmt_contiguous strings user_panic (written args) p ≡ returned tt r)
        × (concat q.printed ≡ concat r.printed)
        × Prints (concat args ∷ []) p r
  unfolding _print_fmt _print_fmt_contiguous
  print_fmt-contiguous user_panic args p calm =
      let (q, run, prints) = write_fmt-calls (panic strings user_panic) args p calm in
      let (r, run', prints') = contiguous-Printing (panic strings user_panic) args p calm in
      (
        q,
        r,
        run,
        run',
        rw
            (
              prints.printed,
              prints'.printed,
              concat-append p.printed args,
              concat-append p.printed (concat args ∷ []),
              append-nil (concat args),
            )
            refl,
        prints',
      )

  -- A process that is not in the middle of a print and panics prints the message on a line and ends with the code 42.
  pub panic-aborts :
      {A : Type 0} (user_panic info : List ℕ) (p : Process)
      → Calm p
      → (q : Process) × (panic strings {A = A} user_panic info p ≡ aborted 42 q)
        × Prints ((user_panic ++ info ++ 10 ∷ []) ∷ []) p q
  unfolding panic
  panic-aborts user_panic info p calm =
      let args = user_panic ∷ info ∷ (10 ∷ []) ∷ [] in
      let (q, run, prints) = contiguous-Printing (λ _. wait_for_ever) args p calm in
      (q, rw (◌>>=◌, run) refl, rw (append_assoc user_panic info (10 ∷ [])) prints)

  write_fmt-buffer_panics :
      (on_panic : List ℕ → App (Unit {0})) (info : List ℕ) (before : List (List ℕ))
      (after : List Piece) (p : Process)
      → (q : Process) × (write_fmt
            (write_buffer strings)
            on_panic
            (written before ++ panics info ∷ after)
            p
          ≡ on_panic info q)
        × (q.locked ≡ p.locked)
  unfolding write_fmt
  write_fmt-buffer_panics on_panic info [] after p = (p, refl, refl)
  write_fmt-buffer_panics on_panic info (s ∷ before) after p =
      let buffer = p.buffer ++ s in
      let p1 : Process = record p {
        buffer = buffer;
        capacity = strings.grown p.capacity (length buffer);
      } in
      write_fmt-buffer_panics on_panic info before after p1

  write_fmt-calls_panics :
      (on_panic : List ℕ → App (Unit {0})) (info : List ℕ) (before : List (List ℕ))
      (after : List Piece) (p : Process)
      → Calm p
      → (q : Process) × (write_fmt _print on_panic (written before ++ panics info ∷ after) p
          ≡ on_panic info q)
        × Calm q
  unfolding write_fmt
  write_fmt-calls_panics on_panic info [] after p calm = (p, refl, calm)
  write_fmt-calls_panics on_panic info (s ∷ before) after p calm =
      write_fmt-calls_panics on_panic info before after (record p { printed = p.printed ++ s ∷ [] })
        (record { unlocked = calm.unlocked; empty = calm.empty })

  panic_locked :
      {A : Type 0} (user_panic info : List ℕ) (p : Process)
      → p.locked ≡ true
      → panic strings {A = A} user_panic info p ≡ stuck p
  unfolding panic contiguous
  panic_locked user_panic info p h = rw (◌>>=◌, lock-taken p h) refl

  -- A value that panics while it is printed at once makes the process wait for ever for its own mutex: it does not get
  -- to its exit code 42, though by pieces it would.
  pub contiguous-panics :
      (user_panic info : List ℕ) (before : List (List ℕ)) (after : List Piece) (p : Process)
      → Calm p
      → ((q : Process) × (_print_fmt_contiguous strings user_panic
              (written before ++ panics info ∷ after)
              p
            ≡ stuck q))
        × ((q : Process) × (_print_fmt strings user_panic (written before ++ panics info ∷ after) p
              ≡ aborted 42 q))
  unfolding _print_fmt _print_fmt_contiguous contiguous
  contiguous-panics user_panic info before after p calm =
      let (q, run, same) =
        write_fmt-buffer_panics (panic strings user_panic) info before after
          (record p { locked = true }) in
      let (r, run', calm') =
        write_fmt-calls_panics (panic strings user_panic) info before after p calm in
      let (r', ends, _) = panic-aborts user_panic info r calm' in
      (
        (
          q,
          rw
              (
                ◌>>=◌,
                lock-free p calm.unlocked,
                run,
                panic_locked {A = Unit {0}} user_panic info q same,
              )
              refl,
        ),
        (r', run' ∙ ends),
      )
