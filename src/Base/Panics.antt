-- ===== src/Base/Panics.antt =====
-- Code that may panic. In the profiles `dev` and `opt-dev` an overflow of `+`, `-` or `*` is a panic too
-- (in `release-lto` it wraps); an out-of-bounds index, an `unwrap` of `None` and a failed `ass!` always are.
use Prim.Native.Nat.{ℕ, ◌+◌, ◌-◌, ◌*◌, ◌^◌, ◌≤◌, ◌<◌}
use mathlib.Core.Path.{◌≡◌, refl, ap, fun_ext}
use mathlib.Core.Bool.{Bool, true, false}
use mathlib.Core.Option.{Option, none, some}
use mathlib.Core.List.{List}
use native.Mathlib.Omega.{arith}
use steelmind_os.Base.Tests.{ltb, leb, if◌then◌else◌, le→leb}
use steelmind_os.Base.Lists.{length, take, drop, get_elem?}

pub data Checked {ℓ} (A : Type ℓ) : Type ℓ where
  ok : A → Checked A
  panic : Checked A

infixl 5 ◌>>=◌ ◌>>◌
abbrev pub ◌>>=◌ {ℓ κ} : {A : Type ℓ} {B : Type κ} → Checked A → (A → Checked B) → Checked B
ok a >>= f = f a
panic >>= f = panic

abbrev pub ◌>>◌ {ℓ} : {B : Type ℓ} → Checked (Unit {0}) → Checked B → Checked B
m >> k = m >>= λ _. k

pub bind_assoc {ℓ} :
    {A B C : Type ℓ} (m : Checked A) (f : A → Checked B) (g : B → Checked C)
    → ((m >>= f) >>= g) ≡ (m >>= λ a. f a >>= g)
bind_assoc (ok a) f g = refl
bind_assoc panic f g = refl

pub bind_same {ℓ} :
    {A B : Type ℓ} (m : Checked A) (f g : A → Checked B)
    → ((a : A) → f a ≡ g a)
    → (m >>= f) ≡ (m >>= g)
bind_same m f g h = ap (λ k. m >>= k) (fun_ext h)

pub bind_panic {ℓ} :
    {A B : Type ℓ} (m : Checked A) (f : A → Checked B) → ((a : A) → f a ≡ panic) → (m >>= f) ≡ panic
bind_panic (ok a) f h = h a
bind_panic panic f h = refl

-- What a result without a panic says of the steps.
pub bind_inv {ℓ} :
    {A B : Type ℓ} (m : Checked A) (f : A → Checked B) (b : B)
    → (m >>= f) ≡ ok b
    → (a : A) × (m ≡ ok a) × (f a ≡ ok b)
bind_inv (ok a) f b h = (a, refl, h)
bind_inv panic f b h = absurd (ground arith)

pub ok_injective {ℓ} : {A : Type ℓ} (a b : A) → ok a ≡ ok b → a ≡ b
ok_injective a b h = ap (λ (c : Checked _). elim c [ ok r ↦ r | panic ↦ a ]) h

-- The macro `ass!`: a false condition panics.
abbrev pub ass : Bool → Checked (Unit {0})
ass true = ok tt
ass false = panic

pub ass-false {ℓ} :
    {B : Type ℓ} (b : Bool) (k : Unit {0} → Checked B) → b ≡ false → (ass b >>= k) ≡ panic
ass-false false k h = refl
ass-false true k h = absurd (ground arith)

abbrev pub unwrap {ℓ} : {A : Type ℓ} → Option A → Checked A
unwrap (some a) = ok a
unwrap none = panic

-- What a result without a panic says of a test, and of an option.
pub ass_inv {ℓ} :
    {B : Type ℓ} (c : Bool) (k : Unit {0} → Checked B) (r : B)
    → (ass c >>= k) ≡ ok r
    → (c ≡ true) × (k tt ≡ ok r)
ass_inv true k r h = (refl, h)
ass_inv false k r h = absurd (ground (arith, h))

pub unwrap_inv {ℓ} :
    {A B : Type ℓ} (o : Option A) (k : A → Checked B) (r : B)
    → (unwrap o >>= k) ≡ ok r
    → (a : A) × (o ≡ some a) × (k a ≡ ok r)
unwrap_inv none k r h = absurd (ground (arith, h))
unwrap_inv (some a) k r h = (a, refl, h)

abbrev pub two_pow_64 : ℕ
two_pow_64 = 2 ^ 64

-- The operators of `u64` and `usize`.
abbrev pub add64 : ℕ → ℕ → Checked ℕ
add64 a b = if ltb (a + b) two_pow_64 then ok (a + b) else panic

abbrev pub sub64 : ℕ → ℕ → Checked ℕ
sub64 a b = if leb b a then ok (a - b) else panic

abbrev pub mul64 : ℕ → ℕ → Checked ℕ
mul64 a b = if ltb (a * b) two_pow_64 then ok (a * b) else panic

abbrev pub index {ℓ} : {A : Type ℓ} → List A → ℕ → Checked A
index xs i = unwrap (get_elem? xs i)

-- `&xs[start..]` and `&xs[start..end]`.
abbrev pub slice_from {ℓ} : {A : Type ℓ} → List A → ℕ → Checked (List A)
slice_from xs start = if leb start (length xs) then ok (drop start xs) else panic

abbrev pub slice {ℓ} : {A : Type ℓ} → List A → ℕ → ℕ → Checked (List A)
slice xs start end =
    if leb start end
    then (if leb end (length xs) then ok (take (end - start) (drop start xs)) else panic)
    else panic

pub add64-ok : (a b : ℕ) → a + b < 2 ^ 64 → add64 a b ≡ ok (a + b)
add64-ok a b h = ground arith

pub sub64-ok : (a b : ℕ) → b ≤ a → sub64 a b ≡ ok (a - b)
sub64-ok a b h = ground arith

pub mul64-ok : (a b : ℕ) → a * b < 2 ^ 64 → mul64 a b ≡ ok (a * b)
mul64-ok a b h = ground arith

pub slice-ok {ℓ} :
    {A : Type ℓ} (xs : List A) (start end : ℕ)
    → start ≤ end
    → end ≤ length xs
    → slice xs start end ≡ ok (take (end - start) (drop start xs))
slice-ok xs start end h k = rw (le→leb _ _ h, le→leb _ _ k)

pub slice_from-ok {ℓ} :
    {A : Type ℓ} (xs : List A) (start : ℕ)
    → start ≤ length xs
    → slice_from xs start ≡ ok (drop start xs)
slice_from-ok xs start h = rw (le→leb _ _ h)
