-- ===== src/CommonMain.antt =====
-- kernel/src/common_main.rs: what each core does once the kernel has started.
pub mod Frames
pub mod Colors
pub mod Ticks
mod Examples
use steelmind_os.Base.{
  ℕ, zero, suc, ◌+◌, ◌-◌, ◌/◌, ◌%◌, ltb, leb, if◌then◌else◌, Bool, true, false, Option, none, some,
  List, [], ◌∷◌, ◌++◌, Checked, ok, panic, ◌>>=◌, add64, mul64,
}
use steelmind_os.Terminal.Color.{Color, color}

-- `100 - (..) as u8`: an overflow panics.
abbrev pub sub8 : ℕ → ℕ → Checked ℕ
sub8 a b = if leb b a then ok (a - b) else panic

-- The colour that a core clears its window to.
unfoldable pub clear_color : (id ap_count : ℕ) → Checked Color
clear_color id ap_count = do
  scaled ← mul64 100 id
  cores ← add64 ap_count 1
  let share = scaled / cores % 256
  rest ← sub8 100 share
  ok (color 10 rest share)

-- The loop of `timer_test`: `counts` is what it will read from the counter, and the result the lines that it logs, with
-- the count each shows; `none` while it still waits.
unfoldable pub timer_loop : (counts : List ℕ) → (last_count : ℕ) → List ℕ → Option (List ℕ)
timer_loop [] last_count logged = none
timer_loop (count ∷ counts) last_count logged =
    let more = ltb last_count count in
    let logged' = if more then logged ++ count ∷ [] else logged in
    let rest = timer_loop counts (if more then last_count + 1 else last_count) logged' in
    if leb 5 count then some logged' else rest

unfoldable pub timer_test : (counts : List ℕ) → Option (List ℕ)
unfolding timer_loop
timer_test counts = timer_loop counts 0 []

-- Where core 0 is in its loop: about to test for a request, between a test that found none and `hlt`, halted, and about
-- to count and push a frame.
pub data Place : Type 0 where
  testing settling halted pushing : Place

-- `NEW_FRAME_REQUESTED`, `REFRESH_COUNTER` (without its wrap-around at 2^64), and how many times the timer has fired.
pub record Screen : Type 0 where
  pub requested : Bool
  pub refreshes : ℕ
  pub interrupts : ℕ
  pub place : Place

unfoldable pub start : Screen
start = record { requested = true; refreshes = 0; interrupts = 0; place = testing }

-- The end of an interrupt wakes a halted core.
abbrev pub woken : Place → Place
woken testing = testing
woken settling = settling
woken halted = testing
woken pushing = pushing

-- The timer fires: the closure `int`.
unfoldable pub interrupt : Screen → Screen
interrupt s = record s { requested = true; interrupts = s.interrupts + 1; place = woken s.place }

-- What the core does next; a halted core does nothing.
unfoldable pub advance : Screen → Screen
advance s = elim s.place [
  | testing ↦ record s { requested = false; place = if s.requested then pushing else settling }
  | settling ↦ record s { place = halted }
  | halted ↦ s
  | pushing ↦ record s { refreshes = s.refreshes + 1; place = testing }
]

pub data Event : Type 0 where
  fires goes : Event

unfoldable pub step : Event → Screen → Screen
unfolding interrupt advance
step fires s = interrupt s
step goes s = advance s

unfoldable pub after : List Event → Screen → Screen
unfolding step
after [] s = s
after (e ∷ es) s = after es (step e s)
