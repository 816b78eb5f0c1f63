-- ===== src/Base/Sets.antt =====
-- Lists of numbers as finite sets: a Boolean membership test, lists without duplicates, removal.
use Prim.Native.Nat.{ℕ, ◌+◌}
use mathlib.Core.Path.{◌≡◌, refl}
use mathlib.Core.Bool.{Bool, true, false, ◌||◌}
use mathlib.Core.List.{List, [], ◌∷◌, ◌++◌}
use native.Mathlib.Omega.{arith}
use steelmind_os.Base.Tests.{◌==◌, if◌then◌else◌}
use steelmind_os.Base.Lists.{length}

abbrev pub mem : ℕ → List ℕ → Bool
mem a [] = false
mem a (x ∷ xs) = a == x || mem a xs

abbrev pub Distinct : List ℕ → Type 0
Distinct [] = Unit {0}
Distinct (x ∷ xs) = (mem x xs ≡ false) × Distinct xs

abbrev pub Disjoint : List ℕ → List ℕ → Type 0
Disjoint xs ys = (a : ℕ) → mem a xs ≡ true → mem a ys ≡ false

-- Drops the first occurrence.
unfoldable pub erase : ℕ → List ℕ → List ℕ
erase a [] = []
erase a (x ∷ xs) = if a == x then xs else x ∷ erase a xs

pub mem-append : (a : ℕ) (xs ys : List ℕ) → mem a (xs ++ ys) ≡ (mem a xs || mem a ys)
mem-append a [] ys = refl
mem-append a (x ∷ xs) ys = ground (arith, mem-append a xs ys)

pub mem-erase : (a b : ℕ) (xs : List ℕ) → mem b xs ≡ false → mem b (erase a xs) ≡ false
unfolding erase
mem-erase a b [] h = refl
mem-erase a b (x ∷ xs) h = ground (arith, mem-erase a b xs)

pub mem-erase_self : (a : ℕ) (xs : List ℕ) → Distinct xs → mem a (erase a xs) ≡ false
unfolding erase
mem-erase_self a [] h = refl
mem-erase_self a (x ∷ xs) h = ground (arith, mem-erase_self a xs)

pub mem-erase_ne : (a b : ℕ) (xs : List ℕ) → (b == a) ≡ false → mem b (erase a xs) ≡ mem b xs
unfolding erase
mem-erase_ne a b [] h = refl
mem-erase_ne a b (x ∷ xs) h = ground (arith, mem-erase_ne a b xs)

pub Distinct-erase : (a : ℕ) (xs : List ℕ) → Distinct xs → Distinct (erase a xs)
unfolding erase
Distinct-erase a [] h = tt
Distinct-erase a (x ∷ xs) h = ground (arith, Distinct-erase a xs, mem-erase a x xs)

pub length-erase : (a : ℕ) (xs : List ℕ) → mem a xs ≡ true → length (erase a xs) + 1 ≡ length xs
unfolding erase
length-erase a [] h = absurd (ground arith)
length-erase a (x ∷ xs) h = ground (arith, length-erase a xs)

pub Distinct-append :
    (xs ys : List ℕ) → Distinct xs → Distinct ys → Disjoint xs ys → Distinct (xs ++ ys)
Distinct-append [] ys h k apart = k
Distinct-append (x ∷ xs) ys h k apart = (
  ground (arith, mem-append x xs ys, apart x),
  Distinct-append xs ys h.1 k (λ a i. apart a (ground arith)),
)
