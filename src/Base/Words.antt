-- ===== src/Base/Words.antt =====
-- Little-endian words in a memory of bytes.
use Prim.Native.Nat.{ℕ, zero, suc, ◌+◌, ◌*◌, ◌/◌, ◌%◌, ◌^◌, ◌<◌}
use mathlib.Core.Path.{◌≡◌, refl, ap, ◌∙◌}
use native.Mathlib.Omega.{arith}
use native.Mathlib.Nat.{pow-suc}
use steelmind_os.Base.Family.{put, put_same, put_other}

unfoldable pub load_word : (bytes : ℕ) → (memory : ℕ → ℕ) → (address : ℕ) → ℕ
load_word zero m a = 0
load_word (suc n) m a = m a + 256 * load_word n m (a + 1)

unfoldable pub store_word : (bytes : ℕ) → (memory : ℕ → ℕ) → (address value : ℕ) → ℕ → ℕ
store_word zero m a v = m
store_word (suc n) m a v = put (store_word n m (a + 1) (v / 256)) a (v % 256)

load_word-put :
    (n : ℕ) (m : ℕ → ℕ) (a b x : ℕ) → b < a → load_word n (put m b x) a ≡ load_word n m a
unfolding load_word
load_word-put zero m a b x h = refl
load_word-put (suc n) m a b x h =
    rw (load_word-put n m (a + 1) b x (omega arith), put_other m b a x (λ e. omega arith)) refl

pub load_word-store_word :
    (n : ℕ) (m : ℕ → ℕ) (a v : ℕ) → v < 256 ^ n → load_word n (store_word n m a v) a ≡ v
unfolding load_word store_word
load_word-store_word zero m a v h = omega arith
load_word-store_word (suc n) m a v h =
    let rest = store_word n m (a + 1) (v / 256) in
    let below : v / 256 < 256 ^ n = omega (arith, pow-suc 256 n, h) in
    rw
      (
        put_same rest a (v % 256),
        load_word-put n rest (a + 1) a (v % 256) (omega arith),
        load_word-store_word n m (a + 1) (v / 256) below,
      )
      (omega arith)

pub load_word-zeros :
    (n : ℕ) (m : ℕ → ℕ) (a : ℕ) → ((i : ℕ) → i < n → m (a + i) ≡ 0) → load_word n m a ≡ 0
unfolding load_word
load_word-zeros zero m a h = refl
load_word-zeros (suc n) m a h =
    let here : m a ≡ 0 = ap m (omega arith) ∙ h 0 (omega arith) in
    let rest : load_word n m (a + 1) ≡ 0 =
      load_word-zeros n m (a + 1) (λ i l. ap m (omega arith) ∙ h (i + 1) (omega (arith, l))) in
    omega arith
