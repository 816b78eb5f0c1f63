-- ===== src/Allocator/Power.antt =====
-- `next_power_of_two` finds the least power of two, for every number up to 2^63.
use steelmind_os.Base.{
  ℕ, zero, suc, ◌+◌, ◌*◌, ◌^◌, ◌≤◌, ◌<◌, ◌≡◌, refl, arith, leb, le→leb, leb→le, Bool-cases, false,
  ap, Returns, ◌⊎◌, inl, inr,
}
use steelmind_os.Allocator.{power_from, next_power_of_two}
use native.Mathlib.Nat.{pow-suc}

zero_right : (k : ℕ) → k + 0 ≡ k
zero_right k = omega arith

suc_right : (k t : ℕ) → k + suc t ≡ suc k + t
suc_right k t = omega arith

leb→lt : (a b : ℕ) → leb a b ≡ false → b < a
leb→lt a b h = ground arith

abbrev pub IsPower : ℕ → Type 0
IsPower p = (k : ℕ) × (p ≡ 2 ^ k)

-- From the power `p`, which is 1 or below twice `n`.
powers :
    (tries k p n : ℕ)
    → p ≡ 2 ^ k
    → n ≤ 2 ^ (k + tries)
    → (p ≡ 1) ⊎ (p < 2 * n)
    → Returns (λ q. IsPower q × (n ≤ q) × ((q ≡ 1) ⊎ (q < 2 * n))) (power_from (suc tries) p n)
unfolding power_from
powers zero k p n e h b =
    let fits : n ≤ p = omega (arith, ap (λ j. 2 ^ j) (zero_right k)) in
    rw (le→leb n p fits) (p, refl, ((k, e), fits, b))
powers (suc tries) k p n e h b = elim (Bool-cases (leb n p)) [
  | inl t ↦ rw t (p, refl, ((k, e), leb→le n p t, b))
  | inr f ↦ rw f (
      powers tries (suc k) (2 * p) n (omega (arith, pow-suc 2 k, e))
        (omega (arith, ap (λ j. 2 ^ j) (suc_right k tries))) (inr (omega (arith, leb→lt n p f))))
]

-- The result is a power of two, not below the argument, and 1 or below its double.
pub next_power_of_two-Returns :
    (n : ℕ)
    → n ≤ 2 ^ 63
    → Returns (λ p. IsPower p × (n ≤ p) × ((p ≡ 1) ⊎ (p < 2 * n))) (next_power_of_two n)
unfolding next_power_of_two
next_power_of_two-Returns n h = powers 63 0 1 n refl h (inl refl)
