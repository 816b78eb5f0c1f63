-- ===== src/Memory/Frames/Examples.antt =====
-- A small machine, and the theorems at it.
use steelmind_os.Base.{
  ℕ, ◌≡◌, refl, ◌&&◌, not, Option, none, some, List, [], ◌∷◌, arith, mem, ok, ◌<◌,
}
use steelmind_os.Base.Address.Concrete.{up, down, concrete, mapped_at, mapped_at-Reachable}
use steelmind_os.Base.Address.{PhysicalMemory, Reachable}
use steelmind_os.Memory.Frames.{Ram, write, State, allocate_frame}
use steelmind_os.Memory.Frames.Pool.{IsPool}
use steelmind_os.Memory.Frames.History.{
  System, allocate, Reach, here, next, Holds, Reach-Holds, allocate_frame-Fresh, Fresh,
}
use steelmind_os.Memory.Frames.Init.{usable, BootInfo, contains, ramdisk_frames, scan_ramdisk, new}
use steelmind_os.Memory.Frames.Ranges.{in_regions}
use steelmind_os.Memory.Frames.Startup.{new-Holds}

abbrev phys : PhysicalMemory
phys = mapped_at 1_000_000

reached : (f : ℕ) → f < 1_000_000 → Reachable phys f
reached f h = mapped_at-Reachable 1_000_000 f (omega (arith, h))

abbrev blank : Ram
blank = λ _. record { next = none; frame = 0 }

-- Frame 8192 is free, frame 4096 is in use.
abbrev s : State
s = record {
  alloc = record { free_memory_head = some 1_008_192; total_frames = 2; free_frames = 1 };
  ram = write blank 1_008_192 (record { next = none; frame = 8192 });
}

s-IsPool : IsPool phys s (8192 ∷ []) (4096 ∷ [])
s-IsPool = record {
  chain = (refl, refl, refl);
  counted = refl;
  total = refl;
  bounded = omega arith;
  free_once = (refl, tt);
  used_once = (refl, tt);
  apart = λ a i. ground arith;
}

abbrev frames : List ℕ
frames = 4096 ∷ 8192 ∷ []

abbrev start : System
start = record { state = s; used = 4096 ∷ [] }

start-Holds : Holds phys frames start
start-Holds = record {
  free = 8192 ∷ [];
  pool = s-IsPool;
  aligned = λ f i. ground arith;
  reachable = λ f i. reached f (ground (arith, i));
  same = λ f. ground arith;
}

abbrev emptied : System
emptied = record {
  state = record s {
    alloc = record { free_memory_head = none; total_frames = 2; free_frames = 0 };
  };
  used = 8192 ∷ 4096 ∷ [];
}

to_emptied : Reach phys start emptied
unfolding allocate_frame
to_emptied = next here (allocate 8192 refl)

Reach-Holds_example : Holds phys frames emptied
Reach-Holds_example = Reach-Holds phys start-Holds to_emptied

allocate_frame-Fresh_example :
    (out : Option ℕ) × (u : State) × (allocate_frame emptied.state ≡ ok (out, u))
    × Fresh phys frames emptied out
allocate_frame-Fresh_example = allocate_frame-Fresh phys start-Holds to_emptied

-- Memory from 4096 to 20480, of which the RAM disk has the frame 8192.
abbrev machine : BootInfo
machine = record {
  ramdisk_addr = some 40960;
  ramdisk_len = 100;
  memory_regions = record { start = 4096; end = 20480; kind = usable } ∷ [];
}

abbrev page_table : ℕ → Option ℕ
page_table _ = some 8192

machine_scan : ramdisk_frames concrete page_table machine ≡ ok (8192, 8192)
unfolding ramdisk_frames scan_ramdisk up down
machine_scan = refl

new-Holds_example :
    (s : State) × (frames : List ℕ) × (new concrete phys page_table machine blank ≡ ok s)
    × Holds phys frames (record { state = s; used = [] })
    × ((f : ℕ)
        → mem f frames ≡ (in_regions f machine.memory_regions && not (contains (8192, 8192) f)))
unfolding up
new-Holds_example =
    new-Holds concrete phys page_table machine blank machine_scan (tt, tt) (omega arith) refl
      (λ f h. reached f (ground (arith, h)))
