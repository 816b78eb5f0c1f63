-- ===== src/Base/Loops.antt =====
-- `for i in a..b` over code that may panic: `rounds` are left, `i` is the index.
use Prim.Native.Nat.{ℕ, zero, suc, ◌+◌, ◌<◌, ◌≤◌}
use mathlib.Core.Path.{◌≡◌, refl}
use native.Mathlib.Omega.{arith}
use steelmind_os.Base.Panics.{Checked, ok, ◌>>=◌}

module _ {ℓ} {S : Type ℓ} where
  unfoldable pub for_range : ℕ → ℕ → (ℕ → S → Checked S) → S → Checked S
  for_range zero i body s = ok s
  for_range (suc rounds) i body s = body i s >>= λ t. for_range rounds (i + 1) body t

-- The code does not panic, and its result is as said.
abbrev pub Returns {ℓ κ} : {S : Type ℓ} → (S → Type κ) → Checked S → Type (ℓ ⊔ κ)
Returns {S} P c = (s : S) × (c ≡ ok s) × P s

module _ {ℓ κ} {S : Type ℓ} where
  pub for_range-Returns :
      (P : S → Type κ) (body : ℕ → S → Checked S) (rounds i end : ℕ)
      → i + rounds ≡ end
      → ((j : ℕ) (s : S) → i ≤ j → j < end → P s → Returns P (body j s))
      → (s : S) → P s
      → Returns P (for_range rounds i body s)
  unfolding for_range
  for_range-Returns P body zero i end e step s p = (s, refl, p)
  for_range-Returns P body (suc rounds) i end e step s p =
      let (t, run, q) = step i s (omega arith) (omega arith) p in
      rw run (
        for_range-Returns P body rounds (i + 1) end (omega arith)
          (λ j u k l. step j u (omega arith) l) t q)
