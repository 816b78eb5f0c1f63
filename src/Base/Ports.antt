-- ===== src/Base/Ports.antt =====
-- Programs that talk to hardware through I/O ports. What the hardware will answer is a script, one
-- value for each read; every access is logged, the latest first. `none` means that the program
-- still waits when the script, or the fuel of a loop, is used up.
use Prim.Native.Nat.{ℕ, zero, suc, ◌/◌, ◌%◌, ◌^◌, ◌<◌, bit_and}
use mathlib.Core.Path.{◌≡◌, refl}
use mathlib.Core.Bool.{Bool, true, false, not, ◌&&◌}
use mathlib.Core.Option.{Option, none, some}
use mathlib.Core.List.{List, [], ◌∷◌}
use native.Mathlib.Omega.{arith}
use steelmind_os.Base.Tests.{◌==◌}

pub data Access : Type 0 where
  input : (port value : ℕ) → Access
  output : (port value : ℕ) → Access

pub record World : Type 0 where
  pub script : List ℕ
  pub log : List Access

abbrev pub world : List ℕ → List Access → World
world script log = record { script = script; log = log }

abbrev pub Io : Type 0 → Type 0
Io A = World → Option (A × World)

abbrev pub pure : {A : Type 0} → A → Io A
pure a w = some (a, w)

infixl 5 ◌>>=◌ ◌>>◌
abbrev pub ◌>>=◌ : {A B : Type 0} → Io A → (A → Io B) → Io B
◌>>=◌ m f w = elim (m w) [ none ↦ none | some (a, w') ↦ f a w' ]

abbrev pub ◌>>◌ : {B : Type 0} → Io (Unit {0}) → Io B → Io B
m >> k = m >>= λ _. k

abbrev pub waiting : {A : Type 0} → Io A
waiting w = none

read_from : ℕ → List ℕ → List Access → Option (ℕ × World)
read_from port [] log = none
read_from port (v ∷ vs) log = some (v, world vs (input port v ∷ log))

unfoldable pub port_read : ℕ → Io ℕ
unfolding read_from
port_read port w = read_from port w.script w.log

unfoldable pub port_write : (port value : ℕ) → Io (Unit {0})
port_write port value w = some (tt, world w.script (output port value ∷ w.log))

-- `x & mask != 0`
abbrev pub has : (x mask : ℕ) → Bool
has x mask = not (bit_and x mask == 0)

-- Bit `k` of a number.
abbrev pub bit : (k x : ℕ) → Bool
bit k x = x / 2 ^ k % 2 == 1

-- Over a small range, every value is checked by evaluation.
unfoldable pub all_below : ℕ → (ℕ → Bool) → Bool
all_below zero p = true
all_below (suc n) p = p n && all_below n p

pub all_below_sound : (n : ℕ) (p : ℕ → Bool) (x : ℕ) → all_below n p ≡ true → x < n → p x ≡ true
unfolding all_below
all_below_sound zero p x h k = absurd (omega arith)
all_below_sound (suc n) p x h k = ground (arith, all_below_sound n p x)

abbrev pub same : Bool → Bool → Bool
same true b = b
same false b = not b

pub same_eq : (a b : Bool) → same a b ≡ true → a ≡ b
same_eq true true h = refl
same_eq true false h = absurd (ground arith)
same_eq false true h = absurd (ground arith)
same_eq false false h = refl
