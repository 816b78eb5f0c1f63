-- ===== src/Base/Bitfield/Masks.antt =====
-- Bit fields as they can be computed: the interface can be met.
use Prim.Native.Nat.{ℕ, suc, ◌+◌, ◌*◌, ◌/◌, ◌%◌, ◌^◌, ◌-◌}
use mathlib.Core.Path.{◌≡◌, ap, ap₂}
use native.Mathlib.Omega.{arith}
use steelmind_os.Base.Bitfield.{Bitfield}

unfoldable pub get_bits : (x msb lsb : ℕ) → ℕ
get_bits x msb lsb = x / 2 ^ lsb % 2 ^ suc (msb - lsb)

unfoldable pub set_bits : (x msb lsb v : ℕ) → ℕ
set_bits x msb lsb v =
    x % 2 ^ lsb + v % 2 ^ suc (msb - lsb) * 2 ^ lsb + x / 2 ^ suc msb * 2 ^ suc msb

width_back : (lsb width : ℕ) → lsb + width - lsb ≡ width
width_back lsb width = omega arith

end_of : (lsb width : ℕ) → suc (lsb + width) ≡ lsb + suc width
end_of lsb width = omega arith

pub get_lem : (x lsb width : ℕ) → get_bits x (lsb + width) lsb ≡ x / 2 ^ lsb % 2 ^ suc width
unfolding get_bits
get_lem x lsb width = ap (λ (t : ℕ). x / 2 ^ lsb % 2 ^ suc t) (width_back lsb width)

pub set_lem :
    (x lsb width v : ℕ)
    → set_bits x (lsb + width) lsb v
      ≡ x % 2 ^ lsb
        + v % 2 ^ suc width * 2 ^ lsb
        + x / 2 ^ (lsb + suc width) * 2 ^ (lsb + suc width)
unfolding set_bits
set_lem x lsb width v =
    ap₂ (λ (t u : ℕ). x % 2 ^ lsb + v % 2 ^ suc t * 2 ^ lsb + x / 2 ^ u * 2 ^ u)
      (width_back lsb width) (end_of lsb width)

abbrev pub masks : Bitfield
masks = record { get = get_bits; set = set_bits; get_is = get_lem; set_is = set_lem }
