-- ===== src/UserApp/Primes.antt =====
-- The search for primes in user_app/src/test.rs: the lazy chain of adapters, next to lists.
use native.Mathlib.Nat.{div-add-mod', mul-mod_left}
use steelmind_os.Base.{
  ◌<◌, ℕ, zero, suc, ◌+◌, ◌-◌, ◌*◌, ◌/◌, ◌%◌, ◌≤◌, ◌≡◌, ◌⊎◌, ◌↔◌, inl, inr, refl, ap, arith, Bool,
  true, false, not, ◌||◌, ◌==◌, List, [], ◌∷◌, take, Bool-cases,
}
use mathlib.Core.List.{filter}
use mathlib.Core.Logic.{if_pos, if_neg}
use native.Mathlib.Decide.{dec_lt}

-- `(i..i + rounds).any(|i| n % i == 0)`
unfoldable pub any_divides : (n rounds i : ℕ) → Bool
any_divides n zero i = false
any_divides n (suc rounds) i = (n % i == 0) || any_divides n rounds (i + 1)

-- `|n| !(2..*n).any(|i| n % i == 0)`
unfoldable pub has_no_divisor : ℕ → Bool
unfolding any_divides
has_no_divisor n = not (any_divides n (n - 2) 2)

-- `by_ref().take(left).collect()` of `(n..n + rest).filter(has_no_divisor).enumerate()`, at index `i`.
unfoldable pub collect : (rest n i left : ℕ) → List (ℕ × ℕ)
collect zero n i left = []
collect (suc rest) n i zero = []
collect (suc rest) n i (suc left) = elim (has_no_divisor n) [
  | true ↦ (i, n) ∷ collect rest (n + 1) (i + 1) left
  | false ↦ collect rest (n + 1) i (suc left)
]

-- `2..u64::MAX`
unfoldable pub first_primes : (left : ℕ) → List (ℕ × ℕ)
unfolding collect has_no_divisor
first_primes left = collect 18446744073709551613 2 0 left

pub record Prime (n : ℕ) : Type 0 where
  pub above : 2 ≤ n
  pub only : (d m : ℕ) → d * m ≡ n → (d ≡ 1) ⊎ (m ≡ 1)

any_divides_sound :
    (n rounds i : ℕ)
    → any_divides n rounds i ≡ true
    → (j : ℕ) × (i ≤ j) × (j < i + rounds) × (n % j ≡ 0)
unfolding any_divides
any_divides_sound n zero i h = absurd (ground arith)
any_divides_sound n (suc rounds) i h = elim (Bool-cases (n % i == 0)) [
  | inl e ↦ (i, omega arith, omega arith, ground (arith, e))
  | inr e ↦
      let (j, lo, hi, d) = any_divides_sound n rounds (i + 1) (ground (arith, e, h)) in
      (j, omega arith, omega arith, d)
]

any_divides_complete :
    (n rounds i j : ℕ) → i ≤ j → j < i + rounds → n % j ≡ 0 → any_divides n rounds i ≡ true
unfolding any_divides
any_divides_complete n zero i j lo hi d = absurd (omega arith)
any_divides_complete n (suc rounds) i j lo hi d =
    ground (arith, any_divides_complete n rounds (i + 1) j)

no_proper_divisor :
    (n d m : ℕ) → 2 ≤ n → any_divides n (n - 2) 2 ≡ false → d * m ≡ n → (d ≡ 1) ⊎ (m ≡ 1)
no_proper_divisor n zero m two none_divides e = absurd (omega arith)
no_proper_divisor n (suc zero) m two none_divides e = inl refl
no_proper_divisor n (suc (suc d)) zero two none_divides e = absurd (omega arith)
no_proper_divisor n (suc (suc d)) (suc zero) two none_divides e = inr refl
no_proper_divisor n (suc (suc d)) (suc (suc m)) two none_divides e =
    let k : ℕ = suc (suc d) in
    let product : suc (suc m) * k ≡ n = omega arith in
    let below : k < n = grind (arith, product) in
    let zero_rest : n % k ≡ 0 = rw (← product) (mul-mod_left (suc (suc m)) k) in
    absurd
      (ground (arith, any_divides_complete n (n - 2) 2 k (omega arith) (omega arith) zero_rest))

-- A number from 2 on passes the filter exactly when it is prime: it is no product but of 1 and itself.
pub has_no_divisor-Prime : (n : ℕ) → 2 ≤ n → (has_no_divisor n ≡ true) ↔ Prime n
unfolding has_no_divisor
has_no_divisor-Prime n two = (
  (λ h. record { above = two; only = λ d m e. no_proper_divisor n d m two (ground (arith, h)) e }),
  λ p. elim (Bool-cases (any_divides n (n - 2) 2)) [
    | inl e ↦
        let (j, lo, hi, z) = any_divides_sound n (n - 2) 2 e in
        let whole : j * (n / j) ≡ n = omega (arith, div-add-mod' n j) in
        let n_div : (j ≡ 1) ⊎ (n / j ≡ 1) = p.only j (n / j) whole in
        absurd (grind (arith, n_div, whole))
    | inr e ↦ rw e refl
  ],
)

-- A decision of primality.
pub Prime_dec : (n : ℕ) → Dec (Prime n)
Prime_dec n = elim (dec_lt 1 n) [
  | yes two ↦ elim (Bool-cases (has_no_divisor n)) [
    | inl e ↦ yes ((has_no_divisor-Prime n (omega arith)).0 e)
    | inr e ↦ no (λ p. absurd (ground (arith, (has_no_divisor-Prime n (omega arith)).1 p)))
  ]
  | no below ↦ no (λ p. below (omega (arith, p.above)))
]

-- The numbers of a range, and a list with its indices.
abbrev pub range : (rest n : ℕ) → List ℕ
range zero n = []
range (suc rest) n = n ∷ range rest (n + 1)

abbrev pub enumerate : ℕ → List ℕ → List (ℕ × ℕ)
enumerate i [] = []
enumerate i (x ∷ xs) = (i, x) ∷ enumerate (i + 1) xs

-- From 2 on the lazy chain, which looks at no number behind the last that it takes, gives the first `left` primes
-- of the whole range, each with its index: as many as are asked for, or all where the range has fewer.
pub collect-Prime :
    (rest n i left : ℕ)
    → 2 ≤ n
    → collect rest n i left ≡ enumerate i (take left (filter Prime_dec (range rest n)))
unfolding collect
collect-Prime zero n i zero two = refl
collect-Prime zero n i (suc left) two = refl
collect-Prime (suc rest) n i zero two = refl
collect-Prime (suc rest) n i (suc left) two = elim (Bool-cases (has_no_divisor n)) [
  | inl e ↦
      let p = (has_no_divisor-Prime n two).0 e in
      rw (collect, e, if_pos (Prime_dec n) p)
        (ap (λ ps. (i, n) ∷ ps) (collect-Prime rest (n + 1) (i + 1) left (omega (arith, two))))
  | inr e ↦
      let np : ¬ Prime n = λ p. ground (arith, e, (has_no_divisor-Prime n two).1 p) in
      rw (collect, e, if_neg (Prime_dec n) np)
        (collect-Prime rest (n + 1) i (suc left) (omega (arith, two)))
]
