-- ===== src/Interrupts/Controllers.antt =====
-- What the two old interrupt controllers (8259) make of the accesses of `remap_and_disable_pic`.
use steelmind_os.Base.{
  ℕ, ◌*◌, ◌/◌, ◌%◌, ◌≡◌, refl, ap₂, arith, Bool, true, false, ◌==◌, if◌then◌else◌, List, [], ◌∷◌,
  some,
}
use steelmind_os.Base.Ports.{Access, input, output, World, world, port_write}
use steelmind_os.Interrupts.{remap_and_disable_pic}

-- What a controller takes a word for: a mask, or one of the three words of its initialization.
pub data Expects : Type 0 where
  mask_word vector_word cascade_word mode_word : Expects

pub record Pic : Type 0 where
  pub expects : Expects
  pub level : Bool
  pub single : Bool
  pub takes_mode : Bool
  pub vector_offset : ℕ
  pub cascade : ℕ
  pub mode : ℕ
  pub mask : ℕ

-- A command with bit 4 starts the initialization, which clears the mask. Its bit 0 says that there will be a word for the
-- mode, which is 0 without one; bit 1 that the controller is the only one, and gets no word for its cascade; bit 3
-- that its lines are triggered by level in place of edge.
abbrev command : ℕ → Pic → Pic
command v p =
    if v / 16 % 2 == 1
    then record {
      expects = vector_word;
      level = v / 8 % 2 == 1;
      single = v / 2 % 2 == 1;
      takes_mode = v % 2 == 1;
      vector_offset = p.vector_offset;
      cascade = p.cascade;
      mode = if v % 2 == 1 then p.mode else 0;
      mask = 0;
    }
    else p

abbrev after_cascade : Pic → Expects
after_cascade p = if p.takes_mode then mode_word else mask_word

abbrev word : Expects → ℕ → Pic → Pic
word vector_word v p = record p {
  expects = if p.single then after_cascade p else cascade_word;
  vector_offset = v / 8 * 8;
}
word cascade_word v p = record p { expects = after_cascade p; cascade = v }
word mode_word v p = record p { expects = mask_word; mode = v }
word mask_word v p = record p { mask = v }

pub record Pics : Type 0 where
  pub first : Pic
  pub second : Pic

-- What one access does to the two controllers, at their four ports.
abbrev access : Access → Pics → Pics
access (input port v) p = p
access (output port v) p =
    if port == 0x20
    then record p { first = command v p.first }
    else (if port == 0x21
        then record p { first = word p.first.expects v p.first }
        else (if port == 0xA0
            then record p { second = command v p.second }
            else (if port == 0xA1
                then record p { second = word p.second.expects v p.second }
                else p)))

-- After a log, the latest access first.
abbrev pub after : List Access → Pics → Pics
after [] p = p
after (a ∷ log) p = access a (after log p)

abbrev pub disabled : (vector_offset cascade : ℕ) → Pic
disabled vector_offset cascade = record {
  expects = mask_word;
  level = false;
  single = false;
  takes_mode = true;
  vector_offset = vector_offset;
  cascade = cascade;
  mode = 1;
  mask = 0xff;
}

-- Whatever was done to the controllers before: they are left initialized as two that are cascaded, the second one at the
-- third line of the first, with the two offsets, at multiples of 8, in the 8086 mode, triggered by edges, and with all
-- interrupts masked.
pub remap_and_disable_pic-disabled :
    (i j : ℕ) (w : World) (p : Pics)
    → (log : List Access) × (remap_and_disable_pic (i * 8) (j * 8) w
        ≡ some (tt, world w.script log))
      × (after log p ≡ record { first = disabled (i * 8) 4; second = disabled (j * 8) 2 })
unfolding remap_and_disable_pic port_write
remap_and_disable_pic-disabled i j w p = (
  _,
  refl,
  ap₂ (λ x y. record { first = disabled x 4; second = disabled y 2 }) (omega arith) (omega arith),
)
