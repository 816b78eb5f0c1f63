-- ===== src/Terminal/Stdout.antt =====
-- `Stdout`: the terminal of the first core behind a guard, and what it still does after a panic. `stopped` is the
-- flag `PANICKED_STOP_PRINTING` when it is read, `text` what the arguments are formatted to.
use steelmind_os.Base.{ℕ, ◌≡◌, refl, Bool, true, if◌then◌else◌, Option, some, List, Checked, ok}
use steelmind_os.Terminal.Color.{Color}
use steelmind_os.Terminal.Writer.{Writer, Font, FontWeight, write_str, clear}
use steelmind_os.Terminal.Pixels.{print_pixels}

-- The guard's target.
pub record Stdout : Type 0 where
  pub inner : Writer

unfoldable pub print : Font → (stopped : Bool) → (text : List ℕ) → Stdout → Checked Writer
print F stopped text s = if stopped then ok s.inner else write_str F text s.inner

-- With the fuel of `print_pixels`.
unfoldable pub print_picture :
    (fuel : ℕ) (stopped : Bool) (width : ℕ) → List Color → Stdout → Option (Checked Writer)
print_picture fuel stopped width colors s =
    if stopped then some (ok s.inner) else print_pixels fuel width colors s.inner

unfoldable pub clear_screen : (stopped : Bool) → (font_height : Option ℕ) → Stdout → Checked Writer
clear_screen stopped font_height s = if stopped then ok s.inner else clear font_height s.inner

unfoldable pub set_font_weight : FontWeight → Stdout → Stdout
set_font_weight weight s = record s { inner = record s.inner { font_weight = weight } }

unfoldable pub set_foreground : Color → Stdout → Stdout
set_foreground c s = record s { inner = record s.inner { foreground = c } }

unfoldable pub set_background : Color → Stdout → Stdout
set_background c s = record s { inner = record s.inner { background = c } }

unfoldable pub set_clear_color : Color → Stdout → Stdout
set_clear_color c s = record s { inner = record s.inner { clear_color = c } }

-- After a panic nothing is drawn: no text, no picture and no cleared screen, whatever they are.
quiet_after_panic :
    (F : Font) (text : List ℕ) (fuel width : ℕ) (colors : List Color) (size : Option ℕ) (s : Stdout)
    → (print F true text s ≡ ok s.inner)
      × (print_picture fuel true width colors s ≡ some (ok s.inner))
      × (clear_screen true size s ≡ ok s.inner)
unfolding print print_picture clear_screen
quiet_after_panic F text fuel width colors size s = (refl, refl, refl)
