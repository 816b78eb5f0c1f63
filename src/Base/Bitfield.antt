-- ===== src/Base/Bitfield.antt =====
-- What the kernel relies on of the crate `bitfield`: the accessors that `bitfield!` generates.
pub mod Masks
use Prim.Native.Nat.{ℕ, suc, ◌+◌, ◌*◌, ◌/◌, ◌%◌, ◌^◌, ◌-◌}
use mathlib.Core.Path.{◌≡◌}
use mathlib.Core.Bool.{Bool, true, false}

abbrev pub bool_bit : Bool → ℕ
bool_bit true = 1
bool_bit false = 0

-- `set x msb lsb v` replaces the bits `lsb` to `msb` of `x`; `get x msb lsb` reads them.
pub record Bitfield : Type 0 where
  pub get : (x msb lsb : ℕ) → ℕ
  pub set : (x msb lsb v : ℕ) → ℕ
  pub get_is : (x lsb width : ℕ) → get x (lsb + width) lsb ≡ x / 2 ^ lsb % 2 ^ suc width
  pub set_is :
      (x lsb width v : ℕ)
      → set x (lsb + width) lsb v
        ≡ x % 2 ^ lsb
          + v % 2 ^ suc width * 2 ^ lsb
          + x / 2 ^ (lsb + suc width) * 2 ^ (lsb + suc width)
