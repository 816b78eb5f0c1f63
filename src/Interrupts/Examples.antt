-- ===== src/Interrupts/Examples.antt =====
-- The two controllers and the vectors at concrete values.
use steelmind_os.Base.{true, false, ◌≡◌, some, List, []}
use steelmind_os.Base.Ports.{Access, world}
use steelmind_os.Interrupts.{remap_and_disable_pic}
use steelmind_os.Interrupts.Controllers.{
  Pic, mask_word, disabled, after, remap_and_disable_pic-disabled,
}

abbrev reset : Pic
reset = record {
  expects = mask_word;
  level = true;
  single = true;
  takes_mode = false;
  vector_offset = 0;
  cascade = 0;
  mode = 0;
  mask = 0;
}

remap_and_disable_pic-disabled_example :
    (log : List Access) × (remap_and_disable_pic 32 40 (world [] []) ≡ some (tt, world [] log))
    × (after log (record { first = reset; second = reset })
        ≡ record { first = disabled 32 4; second = disabled 40 2 })
remap_and_disable_pic-disabled_example =
    remap_and_disable_pic-disabled 4 5 (world [] []) (record { first = reset; second = reset })
