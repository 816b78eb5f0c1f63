-- ===== src/UserApp/Program.antt =====
-- user_app/src/main.rs and user_app/src/test.rs: the two applications on the RAM disk.
use steelmind_os.Base.{
  ℕ, zero, suc, ◌+◌, ◌%◌, ◌^◌, List, [], ◌∷◌, ◌==◌, if◌then◌else◌, Option, none, some,
}
use steelmind_os.UserApp.{
  Piece, text, Process, Ended, returned, aborted, stuck, App, ◌>>=◌, ◌>>◌, pure, Strings, panic,
  println,
}
use steelmind_os.UserApp.Primes.{first_primes}

-- The crate `core`: how a number and a pair are formatted; and the texts of the source, in bytes: of a panic
-- before its message, the message of `panic!("PANIC")` with its place, of the `format_args!`, and `HELLO`.
pub record Texts : Type 0 where
  pub strings : Strings
  pub user_panic : List ℕ
  pub info : List ℕ
  pub fmt : List ℕ
  pub count : List ℕ
  pub hello : List ℕ
  pub show : ℕ → List ℕ
  pub debug : ℕ × ℕ → List ℕ

-- What the kernel sees of a run: the exit code, with the process as it stays in memory; `none` if it never ends.
abbrev pub exit : Ended ℕ → Option (ℕ × Process)
exit (returned ret p) = some (ret, p)
exit (aborted exit_code p) = some (exit_code, p)
exit (stuck p) = none

module _ (t : Texts) where
  abbrev pub print_line : List Piece → App (Unit {0})
  print_line args = println t.strings t.user_panic args

  -- `main` of main.rs
  unfoldable pub hello_main : App ℕ
  hello_main = do print_line (text t.fmt ∷ text t.hello ∷ []); pure 666

  -- `COUNTER.fetch_add(1, ..)`, of 64 bits
  abbrev pub fetch_add : App ℕ
  fetch_add p = returned p.counter (record p { counter = (p.counter + 1) % 2 ^ 64 })

  unfoldable pub print_vec : List (ℕ × ℕ) → App (Unit {0})
  print_vec [] = pure tt
  print_vec (e ∷ v) = do print_line (text (t.debug e) ∷ []); print_vec v

  unfoldable pub rec : (count : ℕ) → App (Unit {0})
  rec zero = do print_line (text t.count ∷ text (t.show 0) ∷ []); print_vec (first_primes 10)
  rec (suc count) = do print_line (text t.count ∷ text (t.show (suc count)) ∷ []); rec count

  -- The two branches of `main`.
  unfoldable pub act : (ret : ℕ) → App (Unit {0})
  act ret = if ret == 0 then rec 10 else panic t.strings t.user_panic t.info

  -- `main` of test.rs
  unfoldable pub main : App ℕ
  main = do print_line (text t.fmt ∷ text t.hello ∷ []); ret ← fetch_add; act ret; pure ret

  -- Runs of one process, one after the other: the statics stay as they are.
  unfoldable pub runs : ℕ → Process → Option (List ℕ)
  runs zero p = some []
  runs (suc n) p = elim (exit (main p)) [
    | none ↦ none
    | some (exit_code, q) ↦ elim (runs n q) [ none ↦ none | some codes ↦ some (exit_code ∷ codes) ]
  ]
