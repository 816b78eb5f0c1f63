-- ===== src/Allocator/Growth.antt =====
-- The invariant of a heap that grows: its pages are mapped once each, one after the other.
use steelmind_os.Base.{
  ℕ, zero, suc, ◌+◌, ◌-◌, ◌*◌, ◌/◌, ◌%◌, ◌^◌, ◌≤◌, ◌<◌, max, ◌≡◌, refl, ap, ap₂, List, ◌∷◌, ◌++◌,
  arith, add64-ok, sub64-ok, mul64-ok, Returns,
}
use native.Mathlib.Nat.{one-le-pow, div-add-mod', mul-mod_left}
use steelmind_os.Base.Address.{Align}
use steelmind_os.Allocator.{Buddy, pages_from, added_size, Grown, grow}
use steelmind_os.Allocator.Power.{next_power_of_two-Returns}

-- `m` pages from `p` on and `n` more.
pages_from-add :
    (m n p c q : ℕ)
    → c ≡ m + n
    → q ≡ p + m * 4096
    → pages_from c p ≡ pages_from m p ++ pages_from n q
unfolding pages_from
pages_from-add zero n p c q e k = ap₂ (λ (t u : ℕ). pages_from t u) (omega arith) (omega arith)
pages_from-add (suc m) n p zero q e k = absurd (omega arith)
pages_from-add (suc m) n p (suc c) q e k =
    ap (λ (ps : List ℕ). p ∷ ps) (pages_from-add m n (p + 4096) c q (omega arith) (omega arith))

module _ (al : Align) where
  align_up-near : (old k : ℕ) → al.align_up old (2 ^ k) ≤ old + 2 ^ k
  align_up-near old k =
      let y = (old / 2 ^ k + 1) * 2 ^ k in
      let above : old ≤ y = grind (arith, div-add-mod' old (2 ^ k), one-le-pow k 2) in
      let near : y ≤ old + 2 ^ k = grind (arith, div-add-mod' old (2 ^ k)) in
      let least : al.align_up old (2 ^ k) ≤ y =
        al.up_least old k y above (mul-mod_left (old / 2 ^ k + 1) (2 ^ k)) in
      omega arith

  -- The bytes added hold the padding and the block.
  pub added_size-enough :
      (old k size : ℕ)
      → old ≤ 2 ^ 38
      → size ≤ 2 ^ 38
      → 2 ^ k ≤ 2 ^ 38
      → Returns
          (λ added. (al.align_up old (2 ^ k) + size ≤ old + added) × (0 < added) × (added < 2 ^ 43))
          (added_size al old (record { size = size; align = 2 ^ k }))
  unfolding added_size
  added_size-enough old k size h hs hk =
      let up = al.align_up old (2 ^ k) in
      let ge = al.up_ge old k in
      let near = align_up-near old k in
      let (p, run, (pow, fits, small)) =
        next_power_of_two-Returns (up - old + size) (omega arith) in
      let p_small : p ≤ 2 ^ 41 = ground arith in
      let p_pos : 0 < p = omega (arith, one-le-pow (pow.0) 2, pow.1) in
      let (q, run', (pow', fits', small')) = next_power_of_two-Returns (p + old) (omega arith) in
      let q_small : q < 2 ^ 43 = ground arith in
      rw
        (
          sub64-ok up old ge,
          add64-ok (up - old) size (omega arith),
          run,
          add64-ok p old (omega arith),
          run',
          mul64-ok p 2 (omega arith),
          sub64-ok (max q (p * 2)) old (omega arith),
        )
        (max q (p * 2) - old, refl, (omega arith, omega arith, omega arith))

  down_near : (x : ℕ) → x < al.align_down x 4096 + 4096
  down_near x =
      ground (arith, al.down_greatest x 12 (al.align_down x 4096 + 4096), al.down_multiple x 12)

  module _ (buddy : Buddy) where
    -- As many bytes as the pages hold, and the pages from the base on, in order.
    abbrev pub IsHeap : ℕ → Grown al buddy → Type 0
    IsHeap base g =
        (buddy.stats_total_bytes g.heap % 4096 ≡ 0)
        × (g.mapped ≡ pages_from (buddy.stats_total_bytes g.heap / 4096) base)

    -- A heap of at most 2^38 bytes at a page's address below 2^48 grows for a layout of at most 2^38
    -- bytes and an alignment of at most 2^38 without an overflow. It stays a heap, so the pages that
    -- were mapped for it are the pages from its base on, in order, as many as its bytes fill; they begin
    -- with the ones mapped before; and the heap now reaches past the block at its alignment.
    pub grow-IsHeap :
        (base k size : ℕ) (g : Grown al buddy)
        → IsHeap base g
        → base % 4096 ≡ 0
        → base < 2 ^ 48
        → buddy.stats_total_bytes g.heap ≤ 2 ^ 38
        → size ≤ 2 ^ 38
        → 2 ^ k ≤ 2 ^ 38
        → Returns
            (λ g'.
              IsHeap base g'
              × (al.align_up (buddy.stats_total_bytes g.heap) (2 ^ k) + size
                  ≤ buddy.stats_total_bytes g'.heap)
              × ((new : List ℕ) × (g'.mapped ≡ g.mapped ++ new)))
            (grow al buddy base (record { size = size; align = 2 ^ k }) g)
    unfolding grow
    grow-IsHeap base k size g (whole, pages) b b48 h hs hk =
        let old = buddy.stats_total_bytes g.heap in
        let (added, run, (room, some_added, added_small)) = added_size-enough old k size h hs hk in
        let start = base + old in
        let first = al.align_down start 4096 in
        let first_eq : first ≡ start = omega (
          arith,
          al.down_le start 12,
          al.down_greatest start 12 start (omega arith) (omega arith),
        ) in
        let x = start + added - 1 in
        let last = al.align_down x 4096 in
        let last_le : last ≤ x = al.down_le x 12 in
        let last_whole : last % 4096 ≡ 0 = al.down_multiple x 12 in
        let last_first : first ≤ last = al.down_greatest x 12 first (omega arith) (omega arith) in
        let above : x < last + 4096 = down_near x in
        let count = (last - first) / 4096 + 1 in
        let total : buddy.stats_total_bytes (buddy.add_to_heap first (last + 4096) g.heap)
            ≡ old + (last + 4096 - first) =
          buddy.total_of_added first (last + 4096) g.heap (omega arith) in
        let joined : g.mapped ++ pages_from count first
            ≡ pages_from
                (buddy.stats_total_bytes (buddy.add_to_heap first (last + 4096) g.heap) / 4096)
                base =
          rw
            (
              pages,
              pages_from-add (old / 4096) count base
                  (buddy.stats_total_bytes (buddy.add_to_heap first (last + 4096) g.heap) / 4096)
                  first (omega (arith, total)) (omega arith),
            )
            refl in
        rw
          (
            run,
            add64-ok base old (omega arith),
            add64-ok start added (omega arith),
            sub64-ok (start + added) 1 (omega arith),
            add64-ok last 4096 (omega arith),
          )
          (
            _,
            refl,
            ((omega (arith, total), joined), omega (arith, total), (pages_from count first, refl)),
          )
