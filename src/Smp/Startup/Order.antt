-- ===== src/Smp/Startup/Order.antt =====
-- The numbers of the cores, their counters, and the page of the trampoline, in every reachable state.
pub mod Cores
pub mod Reached
use steelmind_os.Base.{
  ℕ, zero, suc, ◌-◌, ◌^◌, ◌≤◌, ◌<◌, ◌≡◌, arith, Bool, true, false, Option, none, some, sum,
}
use steelmind_os.Smp.Startup.{
  Words, Shared, entering, counted, Ap, asleep, trampoline, numbered, inside, lost, panicked, Boot,
  preparing, commanding, repeating, waiting, unmapping, started, timed_out, refused, stack_of,
}

abbrev pub index_of : Ap → Option ℕ
index_of asleep = none
index_of trampoline = none
index_of (numbered i) = some i
index_of (inside _ i _) = some i
index_of (lost i) = i
index_of (panicked i) = some i

abbrev pub has_index : Ap → ℕ
has_index asleep = 0
has_index trampoline = 0
has_index (lost none) = 0
has_index _ = 1

-- A core that has counted itself in `AP_STARTUP_DONE_COUNTER`.
abbrev pub is_counted : Ap → ℕ
is_counted (inside entering _ _) = 0
is_counted (inside _ _ _) = 1
is_counted (panicked _) = 1
is_counted _ = 0

-- The stack pointer that a core has been given.
abbrev pub HasStack : Words → Ap → Type 0
HasStack w (inside _ i sp) = sp ≡ stack_of w i
HasStack w _ = Unit {0}

abbrev pub is_lost : Ap → Bool
is_lost (lost _) = true
is_lost _ = false

-- Where `init_smp` is, seen from the shared memory.
abbrev pub Linked :
    (ap_count : ℕ) → Words → Boot → Option Words → Bool → (done_counter : ℕ) → Type 0
Linked k w preparing page sent done = (page ≡ none) × (sent ≡ false)
Linked k w commanding page sent done = (page ≡ some w) × (sent ≡ false)
Linked k w repeating page sent done = (page ≡ some w) × (sent ≡ true)
Linked k w (waiting _) page sent done = (page ≡ some w) × (sent ≡ true)
Linked k w (unmapping zero) page sent done = (page ≡ some w) × (sent ≡ true)
Linked k w (unmapping (suc _)) page sent done = (page ≡ some w) × (sent ≡ true) × (k ≤ done)
Linked k w started page sent done = (page ≡ none) × (k ≤ done)
Linked k w timed_out page sent done = page ≡ none
Linked k w refused page sent done = (page ≡ none) × (sent ≡ false)

-- True in every reachable state.
pub record Inv {A F S : Type 0} (n k : ℕ) (w : Words) (s : Shared A F S) (aps : ℕ → Ap) (b : Boot)
    : Type 0 where
  pub small : n < 2 ^ 64
  pub numbers : s.core_counter ≡ sum has_index n aps
  pub done : s.done_counter ≡ sum is_counted n aps
  pub range : (i a : ℕ) → index_of (aps i) ≡ some a → a < s.core_counter
  pub unique : (i j a : ℕ) → index_of (aps i) ≡ some a → index_of (aps j) ≡ some a → i ≡ j
  pub quiet : s.sent ≡ false → (i : ℕ) → aps i ≡ asleep
  pub stacks : (i : ℕ) → HasStack w (aps i)
  pub linked : Linked k w b s.page s.sent s.done_counter

pub has_index-le : (p : Ap) → has_index p ≤ 1
has_index-le p = ground arith

pub is_counted-le : (p : Ap) → is_counted p ≤ 1
is_counted-le p = ground arith

pub page_words :
    (k done : ℕ) (w : Words) (sent : Bool) (b : Boot) (v : Words) (page : Option Words)
    → Linked k w b page sent done
    → page ≡ some v
    → v ≡ w
page_words k done w sent preparing v page h e = ground arith
page_words k done w sent b v page h e = ground arith
