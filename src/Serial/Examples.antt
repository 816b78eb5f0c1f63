-- ===== src/Serial/Examples.antt =====
-- The theorems at small scripts on COM1.
use steelmind_os.Base.{List, ℕ, ◌≡◌, refl, arith, [], ◌∷◌, ◌++◌, some}
use steelmind_os.Base.Ports.{world}
use steelmind_os.Serial.{com1, ok, read_line}
use steelmind_os.Serial.Reading.{verdict, Arrival, sends, received, ascii, read_line-ascii}

abbrev arrival : List ℕ → ℕ → Arrival
arrival idle_polls byte = record { idle_polls = idle_polls; status = 1; byte = byte }

abbrev line : List Arrival
line = arrival (0 ∷ 0x60 ∷ []) 72 ∷ arrival [] 200 ∷ arrival (0 ∷ []) 105 ∷ []

read_line-ascii_example :
    read_line 4 3 com1 (world (sends (line ++ arrival (0 ∷ []) 13 ∷ []) []) [])
    ≡ some (ok (72 ∷ 105 ∷ []), world [] (received com1 (line ++ arrival (0 ∷ []) 13 ∷ []) []))
unfolding verdict ascii
read_line-ascii_example =
    read_line-ascii com1 4 3 line (arrival (0 ∷ []) 13) [] []
      (
        record {
          all_idle = (omega arith, refl, (omega arith, refl, tt));
          a_byte = omega arith;
          is_ready = refl;
          in_time = omega arith;
        },
        (
          record { all_idle = tt; a_byte = omega arith; is_ready = refl; in_time = omega arith },
          (
            record {
              all_idle = (omega arith, refl, tt);
              a_byte = omega arith;
              is_ready = refl;
              in_time = omega arith;
            },
            tt,
          ),
        ),
      )
      (record {
        all_idle = (omega arith, refl, tt);
        a_byte = omega arith;
        is_ready = refl;
        in_time = omega arith;
      })
      refl (refl, (refl, (refl, tt))) (omega arith)
