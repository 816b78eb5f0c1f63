-- ===== src/UserApp/Examples.antt =====
-- The application of user_app/src/test.rs with short texts, and a print whose second value panics.
use steelmind_os.Base.{◌≡◌, refl, arith, false, some, [], ◌∷◌, ◌++◌, take}
use mathlib.Core.List.{filter}
use steelmind_os.UserApp.{
  Process, Strings, panics, returned, aborted, stuck, _print_fmt, _print_fmt_contiguous,
}
use steelmind_os.UserApp.Primes.{Prime_dec, collect, first_primes, range, enumerate, collect-Prime}
use steelmind_os.UserApp.Printing.{Calm, written, print_fmt-contiguous, contiguous-panics}
use steelmind_os.UserApp.Program.{Texts, runs}
use steelmind_os.UserApp.Sessions.{runs-codes}

abbrev exact : Strings
exact = record { grown = λ capacity length. length; shrunk = λ capacity length least. least }

abbrev fresh : Process
fresh = record { locked = false; buffer = []; capacity = 0; counter = 0; printed = [] }

fresh-Calm : Calm fresh
fresh-Calm = record { unlocked = refl; empty = refl }

abbrev texts : Texts
texts = record {
  strings = exact;
  user_panic = 80 ∷ [];
  info = 33 ∷ [];
  fmt = 70 ∷ [];
  count = 67 ∷ [];
  hello = 72 ∷ [];
  show = λ n. n ∷ [];
  debug = λ e. e.0 ∷ e.1 ∷ [];
}

-- The primes as the application finds them.
ten_primes :
    first_primes 10
    ≡ (0, 2)
      ∷ (1, 3)
      ∷ (2, 5)
      ∷ (3, 7)
      ∷ (4, 11)
      ∷ (5, 13)
      ∷ (6, 17)
      ∷ (7, 19)
      ∷ (8, 23)
      ∷ (9, 29)
      ∷ []
unfolding first_primes
ten_primes = refl

print_fmt-contiguous_example :
    _print_fmt_contiguous exact (80 ∷ []) (written ((1 ∷ []) ∷ (2 ∷ []) ∷ [])) fresh
    ≡ returned tt
        (print_fmt-contiguous exact (80 ∷ []) ((1 ∷ []) ∷ (2 ∷ []) ∷ []) fresh fresh-Calm).1
print_fmt-contiguous_example =
    (print_fmt-contiguous exact (80 ∷ []) ((1 ∷ []) ∷ (2 ∷ []) ∷ []) fresh fresh-Calm).3

runs-codes_example : runs texts 3 fresh ≡ some (0 ∷ 42 ∷ 42 ∷ [])
runs-codes_example = runs-codes texts 2 fresh fresh-Calm refl (omega arith)

collect-Prime_example : collect 20 4 1 3 ≡ enumerate 1 (take 3 (filter Prime_dec (range 20 4)))
collect-Prime_example = collect-Prime 20 4 1 3 (omega arith)

contiguous-panics_example :
    ((q : Process) × (_print_fmt_contiguous exact
          (80 ∷ [])
          (written ((1 ∷ []) ∷ []) ++ panics (9 ∷ []) ∷ [])
          fresh
        ≡ stuck q))
    × ((q : Process) × (_print_fmt exact
            (80 ∷ [])
            (written ((1 ∷ []) ∷ []) ++ panics (9 ∷ []) ∷ [])
            fresh
          ≡ aborted 42 q))
contiguous-panics_example =
    contiguous-panics exact (80 ∷ []) (9 ∷ []) ((1 ∷ []) ∷ []) [] fresh fresh-Calm
