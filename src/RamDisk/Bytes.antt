-- ===== src/RamDisk/Bytes.antt =====
-- Bytes and little-endian 64-bit words: `u64::to_le_bytes`, and a byte region read as `*const u64`.

use steelmind_os.Base.{
  ℕ, zero, suc, ◌+◌, ◌*◌, ◌/◌, ◌%◌, ◌^◌, ◌<◌, ◌≡◌, refl, ap, arith, List, [], ◌∷◌, ◌++◌, length,
  length-append, take, drop, take-append, drop-append, append_assoc,
}

abbrev pub Bytes : Type 0
Bytes = List ℕ

unfoldable pub le_bytes : ℕ → ℕ → Bytes
le_bytes zero x = []
le_bytes (suc n) x = x % 256 ∷ le_bytes n (x / 256)

unfoldable pub to_le_bytes : ℕ → Bytes
unfolding le_bytes
to_le_bytes x = le_bytes 8 x

unfoldable pub from_le_bytes : Bytes → ℕ
from_le_bytes [] = 0
from_le_bytes (b ∷ bs) = b + 256 * from_le_bytes bs

-- The first `n` words of a region, as a slice of `u64` shows them.
unfoldable pub words : ℕ → Bytes → List ℕ
words zero bs = []
words (suc n) bs = from_le_bytes (take 8 bs) ∷ words n (drop 8 bs)

unfoldable pub all_le_bytes : List ℕ → Bytes
all_le_bytes [] = []
all_le_bytes (w ∷ ws) = to_le_bytes w ++ all_le_bytes ws

-- Every number of the list fits 64 bits.
abbrev pub AllU64 : List ℕ → Type 0
AllU64 [] = Unit {0}
AllU64 (w ∷ ws) = (w < 2 ^ 64) × AllU64 ws

pub length-to_le_bytes : (x : ℕ) → 8 ≡ length (to_le_bytes x)
unfolding to_le_bytes
length-to_le_bytes x = refl

from-to_le_bytes : (x : ℕ) → x < 2 ^ 64 → from_le_bytes (to_le_bytes x) ≡ x
unfolding to_le_bytes from_le_bytes
from-to_le_bytes x h = omega arith

pub length-all_le_bytes : (ws : List ℕ) → length (all_le_bytes ws) ≡ 8 * length ws
unfolding all_le_bytes
length-all_le_bytes [] = refl
length-all_le_bytes (w ∷ ws) = omega (
  arith,
  length-append (to_le_bytes w) (all_le_bytes ws),
  length-to_le_bytes w,
  length-all_le_bytes ws,
)

words-to_le_bytes :
    (w n : ℕ) (rest : Bytes) → w < 2 ^ 64 → words (suc n) (to_le_bytes w ++ rest) ≡ w ∷ words n rest
unfolding words
words-to_le_bytes w n rest h = rw (
  take-append 8 (to_le_bytes w) rest (length-to_le_bytes w),
  drop-append 8 (to_le_bytes w) rest (length-to_le_bytes w),
  from-to_le_bytes w h,
)

-- Words that were written are read back, and reading goes on behind them.
pub words-all_le_bytes :
    (ws : List ℕ) (m : ℕ) (rest : Bytes)
    → AllU64 ws
    → words (length ws + m) (all_le_bytes ws ++ rest) ≡ ws ++ words m rest
unfolding all_le_bytes
words-all_le_bytes [] m rest h = let e : 0 + m ≡ m = omega arith in rw e
words-all_le_bytes (w ∷ ws) m rest h =
    let e : suc (length ws) + m ≡ suc (length ws + m) = omega arith in
    rw
      (
        e,
        append_assoc (to_le_bytes w) (all_le_bytes ws) rest,
        words-to_le_bytes w (length ws + m) (all_le_bytes ws ++ rest) h.0,
      )
      (ap (λ l. w ∷ l) (words-all_le_bytes ws m rest h.1))
