-- ===== src/Loader/Segments/Examples.antt =====
-- A mapper whose tables are functions; one segment across two pages, and two segments together.
use steelmind_os.Base.{
  List, ◌+◌, ◌*◌, inl, ℕ, ◌≡◌, refl, arith, ◌==◌, if◌then◌else◌, true, false, none, some, [], ◌∷◌,
  ok, Returns,
}
use steelmind_os.Constants.{user_start, user_end}
use steelmind_os.Memory.Frames.{allocate_frame}
use steelmind_os.Memory.Mapping.{Flags, map_ram_user, map_frame}
use steelmind_os.Loader.{segment_flags}
use steelmind_os.Loader.Segments.{
  Space, Segment, page_count, map_page, map_pages, map_segment, load_segments, fill, copy, store,
  change_pages, change_flags,
}
use steelmind_os.Loader.Segments.Sample.{Table, mapper}
use steelmind_os.Loader.Segments.Whole.{AllPlaced, AllInMemory, load_segments-AllInMemory}
use steelmind_os.Loader.Segments.Loading.{Loaded, pages_of, map_segment-Loaded}

abbrev read_write : Flags
read_write = record { present = false; writable = true; user_accessible = false; no_execute = true }

abbrev zeroed : (frame offset : ℕ) → ℕ
zeroed frame offset = 0

-- Two free frames, at 0x3000 and 0x5000.
abbrev space : Space Table
space = record {
  memory = record {
    table = λ page. none;
    frames = record {
      alloc = record { free_memory_head = some 0x3000; total_frames = 2; free_frames = 2 };
      ram = λ a. record { next = if a == 0x3000 then some 0x5000 else none; frame = a };
    };
  };
  bytes = λ a. 0xff;
}

mapped_one :
    (m : Space Table) × (map_pages mapper zeroed (pages_of 0x20_0ff0 32) 0x20_0000 read_write space
      ≡ ok m)
unfolding mapper map_pages map_page map_ram_user map_frame allocate_frame page_count user_start
    user_end
mapped_one = (_, refl)

map_segment-Loaded_example :
    Returns
      (Loaded mapper zeroed 0x20_0ff0 32 read_write (7 ∷ 8 ∷ 9 ∷ []) space)
      (map_segment mapper zeroed 0x20_0ff0 32 read_write (7 ∷ 8 ∷ 9 ∷ []) space)
unfolding user_end
map_segment-Loaded_example =
    map_segment-Loaded mapper zeroed 0x20_0ff0 32 read_write (7 ∷ 8 ∷ 9 ∷ []) space mapped_one.0
      (omega arith) (omega arith) (omega arith) mapped_one.1

abbrev text_segment : Segment
text_segment = record {
  p_type = 1;
  p_vaddr = 0x20_0000;
  p_memsz = 4;
  p_flags = 5;
  segment_data = some (1 ∷ 2 ∷ 3 ∷ 4 ∷ []);
}

abbrev data_segment : Segment
data_segment = record {
  p_type = 1;
  p_vaddr = 0x20_1ffe;
  p_memsz = 4;
  p_flags = 6;
  segment_data = some (7 ∷ []);
}

abbrev both : List Segment
both = text_segment ∷ data_segment ∷ []

-- Three free frames, for three pages.
abbrev roomy : Space Table
roomy = record {
  memory = record {
    table = λ page. none;
    frames = record {
      alloc = record { free_memory_head = some 1; total_frames = 3; free_frames = 3 };
      ram = λ a. record { next = some (a + 1); frame = a * 4096 };
    };
  };
  bytes = λ a. 0xff;
}

loaded_both : (s : Space Table) × (load_segments mapper zeroed both roomy ≡ ok s)
unfolding mapper load_segments map_segment map_pages map_page map_ram_user map_frame allocate_frame
    page_count fill copy store change_pages change_flags segment_flags user_start user_end
loaded_both = (_, refl)

both-AllPlaced : AllPlaced both
unfolding page_count user_end
both-AllPlaced = (
  refl,
  (omega arith, omega arith),
  (inl (omega arith), tt),
  (refl, (omega arith, omega arith), tt, tt),
)

load_segments-AllInMemory_example : AllInMemory mapper both loaded_both.0
load_segments-AllInMemory_example =
    load_segments-AllInMemory mapper zeroed both roomy loaded_both.0 both-AllPlaced loaded_both.1
