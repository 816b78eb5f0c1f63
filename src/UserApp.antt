-- ===== src/UserApp.antt =====
-- user_app/src/os_functions.rs: what an application is linked with. It reaches the kernel through four
-- function pointers; here those are the calls of `print` that it has made, and how it ends.
pub mod Printing
pub mod Program
pub mod Primes
pub mod Sessions
mod Examples
use steelmind_os.Base.{ℕ, ltb, Bool, true, false, if◌then◌else◌, List, [], ◌∷◌, ◌++◌, length}

-- The bytes of `core::fmt::Arguments`: what the values to be printed write, one after the other. A `Display`
-- of the application may panic, with a message.
pub data Piece : Type 0 where
  text : List ℕ → Piece
  panics : (info : List ℕ) → Piece

-- The statics of a process: the mutex `OUT_CONTIGUOUS` with the string in it, the `COUNTER` of test.rs; and the
-- calls of the kernel's `print` so far, the latest last.
pub record Process : Type 0 where
  pub locked : Bool
  pub buffer : List ℕ
  pub capacity : ℕ
  pub counter : ℕ
  pub printed : List (List ℕ)

-- A call returns, or the process calls the kernel's `abort`, or it waits for a lock for ever.
pub data Ended (A : Type 0) : Type 0 where
  returned : A → Process → Ended A
  aborted : (exit_code : ℕ) → Process → Ended A
  stuck : Process → Ended A

abbrev pub App : Type 0 → Type 0
App A = Process → Ended A

infixl 5 ◌>>=◌ ◌>>◌
abbrev pub ◌>>=◌ : {A B : Type 0} → App A → (A → App B) → App B
◌>>=◌ m f p = elim (m p) [
  | returned a q ↦ f a q
  | aborted exit_code q ↦ aborted exit_code q
  | stuck q ↦ stuck q
]

abbrev pub ◌>>◌ : {B : Type 0} → App (Unit {0}) → App B → App B
m >> k = m >>= λ _. k

abbrev pub pure : {A : Type 0} → A → App A
pure a p = returned a p

abbrev pub abort : {A : Type 0} → ℕ → App A
abort exit_code p = aborted exit_code p

-- A spin lock that the process itself holds.
abbrev pub wait_for_ever : {A : Type 0} → App A
wait_for_ever p = stuck p

abbrev pub _print : List ℕ → App (Unit {0})
_print string p = returned tt (record p { printed = p.printed ++ string ∷ [] })

-- The crate `alloc`: the capacity of a string that grows to a length, and of one that is shrunk to a capacity.
pub record Strings : Type 0 where
  pub grown : (capacity length : ℕ) → ℕ
  pub shrunk : (capacity length min_capacity : ℕ) → ℕ

-- `write_fmt`: each piece in turn, with what to do in place of the rest when one panics.
unfoldable pub write_fmt :
    (write_str : List ℕ → App (Unit {0})) (on_panic : List ℕ → App (Unit {0}))
    → List Piece
    → App (Unit {0})
write_fmt write_str on_panic [] = pure tt
write_fmt write_str on_panic (panics info ∷ args) = on_panic info
write_fmt write_str on_panic (text string ∷ args) =
    write_str string >> write_fmt write_str on_panic args

-- `OUT_CONTIGUOUS.lock()`
unfoldable pub lock : App (Unit {0})
lock p = if p.locked then stuck p else returned tt (record p { locked = true })

module _ (strings : Strings) where
  abbrev pub write_buffer : List ℕ → App (Unit {0})
  write_buffer string p =
      let buffer = p.buffer ++ string in
      returned tt
        (record p { buffer = buffer; capacity = strings.grown p.capacity (length buffer) })

  -- The end of `_print_fmt_contiguous`, with the guard dropped.
  abbrev pub flush : App (Unit {0})
  flush p = returned tt (record p {
    printed = p.printed ++ p.buffer ∷ [];
    buffer = [];
    capacity = if ltb 4096 p.capacity then strings.shrunk p.capacity 0 4096 else p.capacity;
    locked = false;
  })

  unfoldable pub contiguous : (on_panic : List ℕ → App (Unit {0})) → List Piece → App (Unit {0})
  contiguous on_panic args = do lock; write_fmt write_buffer on_panic args; flush

  -- The handler of panics prints by the macro, and calls abort. While it formats the message the mutex is its own,
  -- so that a panic in there waits for ever.
  unfoldable pub panic : {A : Type 0} (user_panic info : List ℕ) → App A
  panic user_panic info =
      contiguous (λ _. wait_for_ever) (text user_panic ∷ text info ∷ text (10 ∷ []) ∷ [])
      >> abort 42

  module _ (user_panic : List ℕ) where
    unfoldable pub _print_fmt_contiguous : List Piece → App (Unit {0})
    _print_fmt_contiguous args = contiguous (panic user_panic) args

    unfoldable pub _print_fmt : List Piece → App (Unit {0})
    _print_fmt args = write_fmt _print (panic user_panic) args

    -- The macros `print!` and `println!`.
    abbrev pub print : List Piece → App (Unit {0})
    print args = _print_fmt_contiguous args

    abbrev pub println : List Piece → App (Unit {0})
    println args = print (args ++ text (10 ∷ []) ∷ [])
