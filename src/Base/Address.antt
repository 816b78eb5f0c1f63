-- ===== src/Base/Address.antt =====
-- What the kernel relies on of the crate `x86_64`: alignment of addresses, at powers of two, and which
-- numbers are addresses.
pub mod Concrete
use Prim.Native.Nat.{ℕ, ◌+◌, ◌%◌, ◌^◌, ◌≤◌, ◌<◌}
use mathlib.Core.Path.{◌≡◌, refl}
use mathlib.Core.Bool.{Bool, true}
use steelmind_os.Base.Tests.{if◌then◌else◌}
use steelmind_os.Base.Panics.{Checked, ok, panic, ◌>>=◌, add64, add64-ok}

-- `align_up` gives the least multiple at or above an address, `align_down` the greatest at or below.
pub record Align : Type 0 where
  pub align_up : ℕ → ℕ → ℕ
  pub align_down : ℕ → ℕ → ℕ
  pub up_ge : (x k : ℕ) → x ≤ align_up x (2 ^ k)
  pub up_multiple : (x k : ℕ) → align_up x (2 ^ k) % 2 ^ k ≡ 0
  pub up_least : (x k y : ℕ) → x ≤ y → y % 2 ^ k ≡ 0 → align_up x (2 ^ k) ≤ y
  pub down_le : (x k : ℕ) → align_down x (2 ^ k) ≤ x
  pub down_multiple : (x k : ℕ) → align_down x (2 ^ k) % 2 ^ k ≡ 0
  pub down_greatest : (x k y : ℕ) → y ≤ x → y % 2 ^ k ≡ 0 → y ≤ align_down x (2 ^ k)

-- All physical memory is mapped at `offset`. A virtual address must be canonical, as those of the lower half are, and
-- a physical one has at most 52 bits.
pub record PhysicalMemory : Type 0 where
  pub offset : ℕ
  pub is_canonical : ℕ → Bool
  pub is_physical : ℕ → Bool
  pub low_canonical : (a : ℕ) → a < 2 ^ 47 → is_canonical a ≡ true
  pub low_physical : (a : ℕ) → a < 2 ^ 52 → is_physical a ≡ true

module _ (phys : PhysicalMemory) where
  -- `VirtAddr::new` and `PhysAddr::new` panic on other numbers, and so does the sum of an address and a number.
  abbrev pub virt_addr : ℕ → Checked ℕ
  virt_addr a = if phys.is_canonical a then ok a else panic

  abbrev pub phys_addr : ℕ → Checked ℕ
  phys_addr a = if phys.is_physical a then ok a else panic

  abbrev pub virt_add : (a n : ℕ) → Checked ℕ
  virt_add a n = add64 a n >>= virt_addr

  -- A physical address that the mapping reaches.
  pub record Reachable (a : ℕ) : Type 0 where
    pub physical : phys.is_physical a ≡ true
    pub fits : phys.offset + a < 2 ^ 64
    pub canonical : phys.is_canonical (phys.offset + a) ≡ true

  pub virt_add-ok : (a : ℕ) → Reachable a → virt_add phys.offset a ≡ ok (phys.offset + a)
  virt_add-ok a r = rw (add64-ok phys.offset a r.fits, r.canonical) refl
