-- ===== src/Smp/Startup/Order/Cores.antt =====
-- A step of one of the other cores keeps the invariant of the startup.
use steelmind_os.Base.{
  ℕ, ◌+◌, ◌≤◌, ◌<◌, ◌≡◌, refl, arith, false, some, put, sum, sum-put, sum-bound,
}
use steelmind_os.Smp.Startup.{Words, Shared, Ap, asleep, Boot, ApMove, wake, enter}
use steelmind_os.Smp.Startup.Order.{
  index_of, has_index, is_counted, HasStack, Linked, Inv, page_words, has_index-le, is_counted-le,
}

module _ {A F S : Type 0} {n k : ℕ} {w : Words} {s : Shared A F S} {aps : ℕ → Ap} {b : Boot}
    (inv : Inv n k w s aps b) (i : ℕ) where
  open inv use {small, numbers, done, range, unique, quiet, stacks, linked}

  -- Core `i` goes from `p` to `p'`. A match on a move needs the variable `p` for `aps i`.
  record Mover (p p' : Ap) : Type 0 where
    here : aps i ≡ p
    indices : sum has_index n (put aps i p') + has_index p ≡ sum has_index n aps + has_index p'
    counts : sum is_counted n (put aps i p') + is_counted p ≡ sum is_counted n aps + is_counted p'
    room : (sum has_index n (put aps i p') ≤ n) × (sum is_counted n (put aps i p') ≤ n)

  mover : i < n → (p' : Ap) → Mover (aps i) p'
  mover lt p' = record {
    here = refl;
    indices = sum-put has_index n aps i p' lt;
    counts = sum-put is_counted n aps i p' lt;
    room = (sum-bound has_index has_index-le n _, sum-bound is_counted is_counted-le n _);
  }

  module _ {id : ℕ} where
    ApMove-numbers :
        {p p' : Ap} {s' : Shared A F S}
        → ApMove id s p s' p'
        → Mover p p'
        → s'.core_counter ≡ sum has_index n (put aps i p')
    ApMove-numbers (wake _) f = ground arith
    ApMove-numbers mv f = ground arith

    ApMove-done :
        {p p' : Ap} {s' : Shared A F S}
        → ApMove id s p s' p'
        → Mover p p'
        → s'.done_counter ≡ sum is_counted n (put aps i p')
    ApMove-done (wake _) f = ground arith
    ApMove-done mv f = ground arith

    ApMove-range :
        {p p' : Ap} {s' : Shared A F S}
        → ApMove id s p s' p'
        → Mover p p'
        → (j a : ℕ) → index_of (put aps i p' j) ≡ some a
        → a < s'.core_counter
    ApMove-range (wake _) f j a q = ground (arith, range j a, range i a)
    ApMove-range mv f j a q = ground (arith, range j a, range i a)

    ApMove-unique :
        {p p' : Ap} {s' : Shared A F S}
        → ApMove id s p s' p'
        → Mover p p'
        → (j l a : ℕ) → index_of (put aps i p' j) ≡ some a
        → index_of (put aps i p' l) ≡ some a
        → j ≡ l
    ApMove-unique (wake _) f j l a q r =
        ground (arith, range j a, range l a, unique j l a, unique i j a, unique i l a)
    ApMove-unique mv f j l a q r =
        ground (arith, range j a, range l a, unique j l a, unique i j a, unique i l a)

    -- Without a startup command no core can move.
    ApMove-quiet :
        {p p' : Ap} {s' : Shared A F S}
        → ApMove id s p s' p'
        → aps i ≡ p
        → s'.sent ≡ false
        → (j : ℕ) → put aps i p' j ≡ asleep
    ApMove-quiet (wake g) e h j = ground arith
    ApMove-quiet mv e h j = ground (arith, quiet h j, quiet h i)

    ApMove-HasStack :
        {p p' : Ap} {s' : Shared A F S}
        → ApMove id s p s' p'
        → aps i ≡ p
        → (j : ℕ) → HasStack w (put aps i p' j)
    ApMove-HasStack (enter {w = v} g) e j =
        ground (arith, stacks j, page_words k s.done_counter w s.sent b v s.page linked g)
    ApMove-HasStack mv e j = ground (arith, stacks j, stacks i)

    ApMove-Linked :
        {p p' : Ap} {s' : Shared A F S}
        → ApMove id s p s' p'
        → Mover p p'
        → Linked k w b s'.page s'.sent s'.done_counter
    ApMove-Linked (wake _) f = linked
    ApMove-Linked mv f = ground arith

    pub ApMove-Inv :
        {p' : Ap} {s' : Shared A F S}
        → i < n
        → ApMove id s (aps i) s' p'
        → Inv n k w s' (put aps i p') b
    ApMove-Inv {p'} lt mv = record {
      small = small;
      numbers = ApMove-numbers mv (mover lt p');
      done = ApMove-done mv (mover lt p');
      range = ApMove-range mv (mover lt p');
      unique = ApMove-unique mv (mover lt p');
      quiet = ApMove-quiet mv refl;
      stacks = ApMove-HasStack mv refl;
      linked = ApMove-Linked mv (mover lt p');
    }
