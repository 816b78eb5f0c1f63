-- ===== src/Memory/Examples.antt =====
-- Page tables that are functions, and a frame buffer on two pages.
use steelmind_os.Base.{
  ℕ, ◌+◌, ◌%◌, ◌≤◌, ◌<◌, ◌≡◌, ◌⊎◌, refl, arith, ltb, lt→ltb, ◌^◌, true, false, Option, some, put,
  put_same, put_other, Returns,
}
use steelmind_os.Memory.FrameBuffer.{
  CacheFlags, Updater, combining, page_of, set_frame_buffer_cache_to_write_combining,
  set_frame_buffer-covers,
}

abbrev plain : CacheFlags
plain = record {
  present = true;
  writable = true;
  no_execute = false;
  write_through = false;
  no_cache = false;
}

abbrev tables : Updater (ℕ → Option CacheFlags)
tables = record {
  is_canonical = λ a. ltb a (2 ^ 47);
  low_canonical = λ a h. lt→ltb a (2 ^ 47) h;
  flags_of = λ t. t;
  update_flags = λ page flags t. some (put t page (some flags));
  update_sets = λ page flags f t h. (
    put t page (some flags),
    refl,
    put_same t page (some flags),
    λ q ne. put_other t page q (some flags) ne,
  );
}

abbrev all_plain : ℕ → Option CacheFlags
all_plain page = some plain

set_frame_buffer-covers_example :
    Returns
      (λ t'.
        ((a : ℕ) → 0x5ff0 ≤ a → a < 0x5ff0 + 64 → t' (page_of a) ≡ some combining)
        × ((q : ℕ) → q % 4096 ≡ 0 → (q < page_of 0x5ff0) ⊎ (0x5ff0 + 64 ≤ q) → t' q ≡ some plain))
      (set_frame_buffer_cache_to_write_combining tables 0x5ff0 64 all_plain)
set_frame_buffer-covers_example =
    set_frame_buffer-covers tables 0x5ff0 64 all_plain (omega arith) (omega arith)
      (λ a lo hi. (plain, refl))
