-- ===== src/Base/Address/Concrete.antt =====
-- Alignment as it can be computed: the interface can be met.
use Prim.Native.Nat.{ℕ, ◌+◌, ◌-◌, ◌*◌, ◌/◌, ◌%◌, ◌^◌, ◌≤◌, ◌<◌}
use mathlib.Core.Path.{◌≡◌}
use native.Mathlib.Omega.{arith}
use native.Mathlib.Nat.{one-le-pow, div-add-mod', mul-mod_left}
use steelmind_os.Base.Tests.{ltb, lt→ltb}
use steelmind_os.Base.Address.{Align, PhysicalMemory, Reachable}

unfoldable pub up : ℕ → ℕ → ℕ
up x a = (x + a - 1) / a * a

unfoldable pub down : ℕ → ℕ → ℕ
down x a = x / a * a

pub up_ge_lem : (x a : ℕ) → 0 < a → x ≤ up x a
unfolding up
up_ge_lem x a h = grind arith

pub up_least_lem : (x a y : ℕ) → 0 < a → x ≤ y → y % a ≡ 0 → up x a ≤ y
unfolding up
up_least_lem x a y h k m = let q : y / a * a ≡ y = omega (arith, div-add-mod' y a) in grind arith

pub down_le_lem : (x a : ℕ) → down x a ≤ x
unfolding down
down_le_lem x a = omega (arith, div-add-mod' x a)

pub down_greatest_lem : (x a y : ℕ) → 0 < a → y ≤ x → y % a ≡ 0 → y ≤ down x a
unfolding down
down_greatest_lem x a y h k m =
    let q : y / a * a ≡ y = omega (arith, div-add-mod' y a) in grind arith

pub up_multiple_lem : (x a : ℕ) → up x a % a ≡ 0
unfolding up
up_multiple_lem x a = mul-mod_left ((x + a - 1) / a) a

pub down_multiple_lem : (x a : ℕ) → down x a % a ≡ 0
unfolding down
down_multiple_lem x a = mul-mod_left (x / a) a

pub pos : (k : ℕ) → 0 < 2 ^ k
pos k = omega (arith, one-le-pow k 2)

abbrev pub concrete : Align
concrete = record {
  align_up = up;
  align_down = down;
  up_ge = λ x k. up_ge_lem x (2 ^ k) (pos k);
  up_multiple = λ x k. up_multiple_lem x (2 ^ k);
  up_least = λ x k y. up_least_lem x (2 ^ k) y (pos k);
  down_le = λ x k. down_le_lem x (2 ^ k);
  down_multiple = λ x k. down_multiple_lem x (2 ^ k);
  down_greatest = λ x k y. down_greatest_lem x (2 ^ k) y (pos k);
}

-- The physical memory at an offset, where the addresses are those of the lower half.
abbrev pub mapped_at : ℕ → PhysicalMemory
mapped_at offset = record {
  offset = offset;
  is_canonical = λ a. ltb a (2 ^ 47);
  is_physical = λ a. ltb a (2 ^ 52);
  low_canonical = λ a h. lt→ltb a (2 ^ 47) h;
  low_physical = λ a h. lt→ltb a (2 ^ 52) h;
}

pub mapped_at-Reachable : (offset f : ℕ) → offset + f < 2 ^ 47 → Reachable (mapped_at offset) f
mapped_at-Reachable offset f h = record {
  physical = lt→ltb f (2 ^ 52) (omega (arith, h));
  fits = omega (arith, h);
  canonical = lt→ltb (offset + f) (2 ^ 47) h;
}
