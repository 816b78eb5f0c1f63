-- ===== src/Loader/Segments/Sample.antt =====
-- A mapper whose tables are functions, for concrete runs of kernel/src/loader.rs.
use steelmind_os.Base.{
  ℕ, ◌^◌, ◌≡◌, ◌≢◌, refl, sym, ap, ltb, lt→ltb, Option, none, some, put, put_same, put_other,
}
use steelmind_os.Memory.Mapping.{Flags, Memory}
use steelmind_os.Loader.Segments.{Mapper}

abbrev pub Table : Type 0
Table = ℕ → Option Flags

abbrev with_page : (page : ℕ) → Flags → Memory Table → Memory Table
with_page page flags m = record m { table = put m.table page (some flags) }

-- It never fails.
abbrev map_new : (page : ℕ) → Flags → (frame : ℕ) → Memory Table → Option (Memory Table)
map_new page flags frame m = some (with_page page flags m)

pub map_new-sets :
    (page : ℕ) (flags : Flags) (frame : ℕ) (m m' : Memory Table)
    → map_new page flags frame m ≡ some m'
    → (m'.table page ≡ some flags) × ((q : ℕ) → page ≢ q → m'.table q ≡ m.table q)
map_new-sets page flags frame m m' h =
    let same : with_page page flags m ≡ m' =
      ap (λ (o : Option (Memory Table)). elim o [ some r ↦ r | none ↦ m' ]) h in
    rw (sym same)
      (put_same m.table page (some flags), λ q ne. put_other m.table page q (some flags) ne)

unfoldable pub mapper : Mapper Table
mapper = record {
  is_canonical = λ a. ltb a (2 ^ 47);
  flags_of = λ t. t;
  map_to = map_new;
  update_flags = λ page flags t. some (put t page (some flags));
  low_canonical = λ a h. lt→ltb a (2 ^ 47) h;
  map_sets = λ page flags frame m m' h. (map_new-sets page flags frame m m' h).0;
  map_keeps = λ page flags frame m m' q h. (map_new-sets page flags frame m m' h).1 q;
  update_sets = λ page flags f t h. (
    put t page (some flags),
    refl,
    put_same t page (some flags),
    λ q ne. put_other t page q (some flags) ne,
  );
}
