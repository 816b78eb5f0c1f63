-- ===== src/Base/Family.antt =====
-- Families `ℕ → A`, for example one value for each core: replacement at one index, and sums of weights.
use Prim.Native.Nat.{ℕ, zero, suc, ◌+◌, ◌≤◌, ◌<◌}
use mathlib.Core.Path.{◌≡◌, refl}
use mathlib.Core.Logic.{◌≢◌}
use native.Mathlib.Decide.{dec_lt}
use native.Mathlib.Omega.{arith}
use steelmind_os.Base.Tests.{◌==◌, ==_refl, if◌then◌else◌}

abbrev pub put {ℓ} : {A : Type ℓ} → (ℕ → A) → ℕ → A → ℕ → A
put f i a j = if i == j then a else f j

pub put_same {ℓ} : {A : Type ℓ} (f : ℕ → A) (i : ℕ) (a : A) → put f i a i ≡ a
put_same f i a = rw (==_refl i) refl

pub put_other {ℓ} : {A : Type ℓ} (f : ℕ → A) (i j : ℕ) (a : A) → i ≢ j → put f i a j ≡ f j
put_other f i j a ne = ground (arith, ne)

module _ {ℓ} {A : Type ℓ} (w : A → ℕ) where
  pub sum : ℕ → (ℕ → A) → ℕ
  sum zero f = 0
  sum (suc n) f = sum n f + w (f n)

  put_outside : (n : ℕ) (f : ℕ → A) (i : ℕ) (a : A) → n ≤ i → sum n (put f i a) ≡ sum n f
  unfolding sum
  put_outside zero f i a h = refl
  put_outside (suc n) f i a h = ground (arith, put_outside n f i a)

  pub sum-put :
      (n : ℕ) (f : ℕ → A) (i : ℕ) (a : A) → i < n → sum n (put f i a) + w (f i) ≡ sum n f + w a
  unfolding sum
  sum-put zero f i a h = absurd (omega arith)
  sum-put (suc n) f i a h = elim (dec_lt i n) [
    | yes below ↦ ground (arith, sum-put n f i a below)
    | no last ↦ ground (arith, put_outside n f i a)
  ]

  -- Weights of at most 1 add up to `n` only if each of them is 1.
  pub sum-bound : ((a : A) → w a ≤ 1) → (n : ℕ) (f : ℕ → A) → sum n f ≤ n
  unfolding sum
  sum-bound h zero f = omega arith
  sum-bound h (suc n) f = omega (arith, h (f n), sum-bound h n f)

  pub sum-full :
      ((a : A) → w a ≤ 1) → (n : ℕ) (f : ℕ → A) (i : ℕ) → n ≤ sum n f → i < n → w (f i) ≡ 1
  unfolding sum
  sum-full h zero f i full lt = absurd (omega arith)
  sum-full h (suc n) f i full lt = elim (dec_lt i n) [
    | yes below ↦ sum-full h n f i (omega (arith, h (f n), sum-bound h n f)) below
    | no last ↦ ground (arith, h (f n), sum-bound h n f)
  ]

  pub sum-zero : (n : ℕ) (f : ℕ → A) → ((i : ℕ) → w (f i) ≡ 0) → sum n f ≡ 0
  unfolding sum
  sum-zero zero f h = refl
  sum-zero (suc n) f h = omega (arith, sum-zero n f h, h n)

  pub sum-all : (n : ℕ) (f : ℕ → A) → ((i : ℕ) → i < n → w (f i) ≡ 1) → sum n f ≡ n
  unfolding sum
  sum-all zero f h = refl
  sum-all (suc n) f h =
      omega (arith, sum-all n f (λ i l. h i (omega (arith, l))), h n (omega arith))
