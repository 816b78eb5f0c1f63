-- ===== src/Loader/Protection.antt =====
-- No page of an application is both writable and executable.
use steelmind_os.Base.{
  ℕ, ◌≡◌, refl, arith, Bool, true, false, not, ◌&&◌, ◌||◌, Checked, ok, panic, ◌>>◌, ass,
}
use mathlib.Core.Path.{subst}
use steelmind_os.Base.Ports.{has}
use steelmind_os.Memory.Mapping.{Flags}
use steelmind_os.Loader.{pf_x, pf_w, pf_r, segment_flags, final_flags}

abbrev exclusive : Checked Flags → Bool
exclusive (ok f) = not (f.writable && not f.no_execute)
exclusive panic = true

abbrev flags_for : (read exec write : Bool) → Checked Flags
flags_for read exec write =
    ass (read || exec)
    >> ok (record {
      present = false;
      writable = write;
      user_accessible = false;
      no_execute = not exec || write;
    })

flags_for-exclusive : (r x w : Bool) → exclusive (flags_for r x w) ≡ true
flags_for-exclusive true true true = refl
flags_for-exclusive true true false = refl
flags_for-exclusive true false true = refl
flags_for-exclusive true false false = refl
flags_for-exclusive false true true = refl
flags_for-exclusive false true false = refl
flags_for-exclusive false false w = refl

not-true : (b : Bool) → not b ≡ true → b ≡ false
not-true false h = refl
not-true true h = absurd (ground arith)

-- No flags that `load` gives to the pages of a segment let them be written and executed.
pub segment_flags-exclusive :
    (raw : ℕ) (flags : Flags)
    → segment_flags raw ≡ ok flags
    → ((final_flags flags).writable && not (final_flags flags).no_execute) ≡ false
unfolding segment_flags
segment_flags-exclusive raw flags h = not-true (flags.writable && not flags.no_execute) (
    subst (λ (c : Checked Flags). exclusive c ≡ true) h
      (flags_for-exclusive (has raw pf_r) (has raw pf_x) (has raw pf_w)))
