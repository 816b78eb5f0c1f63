-- ===== src/CommonMain/Colors.antt =====
-- The colours of the cores in kernel/src/common_main.rs.
use native.Mathlib.Nat.{div-add-mod', mod-lt}
use native.Mathlib.Decide.{dec_lt}
use steelmind_os.Base.{
  ℕ, ◌+◌, ◌-◌, ◌*◌, ◌/◌, ◌%◌, ◌^◌, ◌≤◌, ◌<◌, ◌≡◌, refl, arith, le→leb, ok, add64-ok, mul64-ok,
}
use steelmind_os.Terminal.Color.{color}
use steelmind_os.CommonMain.{clear_color}

-- The share of a core, in hundredths.
abbrev pub share : (id ap_count : ℕ) → ℕ
share id ap_count = 100 * id / (ap_count + 1)

share-lt : (id ap_count : ℕ) → id ≤ ap_count → share id ap_count < 100
share-lt id ap_count h = grind (arith, div-add-mod' (100 * id) (ap_count + 1))

-- For a core of a machine with fewer than 2^32 other cores, no arithmetic overflows: the colour has red 10, and blue and
-- green, which are below or at 100, share 100 by the number of the core.
pub clear_color-ok :
    (id ap_count : ℕ)
    → id ≤ ap_count
    → ap_count < 2 ^ 32
    → (share id ap_count < 100)
      × (clear_color id ap_count ≡ ok (color 10 (100 - share id ap_count) (share id ap_count)))
unfolding clear_color
clear_color-ok id ap_count h small =
    let below = share-lt id ap_count h in
    let byte : share id ap_count % 256 ≡ share id ap_count = ground arith in
    (
      below,
      rw
          (
            mul64-ok 100 id (omega arith),
            add64-ok ap_count 1 (omega arith),
            byte,
            le→leb (share id ap_count) 100 (omega arith),
          )
          refl,
    )

-- While there are at most 100 cores, a core with a higher number has a higher share of blue.
pub share_mono :
    (i j ap_count : ℕ) → i < j → j ≤ ap_count → ap_count < 100 → share i ap_count < share j ap_count
share_mono i j ap_count h k small = elim (dec_lt (share i ap_count) (share j ap_count)) [
  | yes less ↦ less
  | no not_less ↦
      let n = ap_count + 1 in
      let le : share j ap_count ≤ share i ap_count = omega (arith, not_less) in
      let scaled : share j ap_count * n ≤ share i ap_count * n = grind (arith, le) in
      absurd (
        omega (
          arith,
          scaled,
          div-add-mod' (100 * i) n,
          div-add-mod' (100 * j) n,
          mod-lt (100 * j) {m = n} (omega arith),
        ))
]
