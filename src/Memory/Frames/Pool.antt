-- ===== src/Memory/Frames/Pool.antt =====
-- The allocator as a pool: which frames are free, in the order of the list, and which are in use.
use steelmind_os.Base.Address.{PhysicalMemory, Reachable}
use steelmind_os.Base.{
  ℕ, ◌+◌, ◌-◌, ◌<◌, ◌^◌, ◌≡◌, refl, ap, true, false, Option, none, some, List, [], ◌∷◌, arith,
  length, mem, Distinct, Disjoint, erase, mem-erase, mem-erase_self, Distinct-erase, length-erase,
  ok, ==_refl, ◌≢◌, add64-ok,
}
use steelmind_os.Memory.Frames.{
  FreeNode, Ram, write, FrameAllocator, State, allocate_frame, deallocate_frame, node_ref-ok,
  get_memory_utilization,
}

module _ (phys : PhysicalMemory) where
  -- From `head` the nodes lead through exactly these frames.
  abbrev pub Chain : Ram → Option ℕ → List ℕ → Type 0
  Chain m head [] = head ≡ none
  Chain m head (f ∷ fs) =
      (head ≡ some (phys.offset + f))
      × ((m (phys.offset + f)).frame ≡ f)
      × Chain m (m (phys.offset + f)).next fs

  pub record IsPool (s : State) (free used : List ℕ) : Type 0 where
    pub chain : Chain s.ram s.alloc.free_memory_head free
    pub counted : s.alloc.free_frames ≡ length free
    pub total : s.alloc.total_frames ≡ length free + length used
    pub bounded : length free + length used < 2 ^ 64
    pub free_once : Distinct free
    pub used_once : Distinct used
    pub apart : Disjoint free used

  -- A chain does not see writes outside its frames.
  pub Chain-frame :
      (m m' : Ram) (head : Option ℕ) (fs : List ℕ)
      → ((f : ℕ) → mem f fs ≡ true → m' (phys.offset + f) ≡ m (phys.offset + f))
      → Chain m head fs
      → Chain m' head fs
  Chain-frame m m' head [] same c = c
  Chain-frame m m' head (f ∷ fs) same c =
      let e : m' (phys.offset + f) ≡ m (phys.offset + f) = same f (ground arith) in
      rw e (
        c.0,
        c.1,
        Chain-frame m m' (m (phys.offset + f)).next fs (λ g i. same g (ground arith)) c.2,
      )

  -- What `allocate_frame` must do on a pool: hand out the first free frame, which nobody uses, or
  -- say that there is none and change nothing.
  abbrev pub Allocated : State → List ℕ → List ℕ → Option ℕ → State → Type 0
  Allocated s [] used out s' = (out ≡ none) × (s' ≡ s)
  Allocated s (f ∷ rest) used out s' =
      (out ≡ some f) × (mem f used ≡ false) × IsPool s' rest (f ∷ used) × (s'.ram ≡ s.ram)

  -- On a pool `allocate_frame` does not panic. With a free frame it hands out the first one, which
  -- nobody uses, moves it to the used frames and writes no memory; with none it returns `None` and
  -- changes nothing.
  pub allocate_frame-Allocated :
      (s : State) (free used : List ℕ)
      → IsPool s free used
      → (out : Option ℕ) × (s' : State) × (allocate_frame s ≡ ok (out, s'))
        × Allocated s free used out s'
  unfolding allocate_frame
  allocate_frame-Allocated s [] used p = (none, s, rw p.chain, (refl, refl))
  allocate_frame-Allocated s (f ∷ rest) used p =
      let fresh : mem f used ≡ false = p.apart f (ground arith) in
      let a : FrameAllocator = record {
        free_memory_head = (s.ram (phys.offset + f)).next;
        total_frames = s.alloc.total_frames;
        free_frames = s.alloc.free_frames - 1;
      } in
      (
        some f,
        record { alloc = a; ram = s.ram },
        ground (arith, p.chain.0, p.chain.1, p.counted),
        (
          refl,
          fresh,
          record {
            chain = p.chain.2;
            counted = omega (arith, p.counted);
            total = omega (arith, p.total);
            bounded = omega (arith, p.bounded);
            free_once = p.free_once.1;
            used_once = (fresh, p.used_once);
            apart = λ g i. ground (arith, p.apart g, p.free_once.0);
          },
          refl,
        ),
      )

  -- On a pool, giving back a frame that is in use and that the mapping reaches does not panic. The frame becomes the first
  -- free one, and memory changes only in the node at that frame.
  pub deallocate_frame-IsPool :
      (s : State) (free used : List ℕ) (f : ℕ)
      → IsPool s free used
      → mem f used ≡ true
      → Reachable phys f
      → (s' : State) × (deallocate_frame phys s f ≡ ok s')
        × IsPool s' (f ∷ free) (erase f used)
        × ((q : ℕ) → q ≢ phys.offset + f → s'.ram q ≡ s.ram q)
  unfolding deallocate_frame
  deallocate_frame-IsPool s free used f p busy reach =
      let n : FreeNode = record { next = s.alloc.free_memory_head; frame = f } in
      let m : Ram = write s.ram (phys.offset + f) n in
      let a : FrameAllocator = record {
        free_memory_head = some (phys.offset + f);
        total_frames = s.alloc.total_frames;
        free_frames = s.alloc.free_frames + 1;
      } in
      let here : m (phys.offset + f) ≡ n = rw (==_refl (phys.offset + f)) in
      let not_free : mem f free ≡ false = ground (arith, p.apart f) in
      let size : length (erase f used) + 1 ≡ length used = length-erase f used busy in
      (
        record { alloc = a; ram = m },
        rw
            (
              node_ref-ok phys f reach,
              add64-ok s.alloc.free_frames 1 (omega (arith, p.counted, p.bounded, size)),
            )
            refl,
        record {
          chain = (
            refl,
            ap (λ (k : FreeNode). k.frame) here,
            rw here
                (Chain-frame s.ram m s.alloc.free_memory_head free (λ g i. ground arith) p.chain),
          );
          counted = omega (arith, p.counted);
          total = omega (arith, p.total, size);
          bounded = omega (arith, p.bounded, size);
          free_once = (not_free, p.free_once);
          used_once = Distinct-erase f used p.used_once;
          apart = λ g i.
              ground (arith, p.apart g, mem-erase f g used, mem-erase_self f used p.used_once);
        },
        λ q ne. ground arith,
      )

  -- On a pool the utilization is the number of used frames and the number of all frames.
  pub get_memory_utilization-IsPool :
      (s : State) (free used : List ℕ)
      → IsPool s free used
      → get_memory_utilization s.alloc ≡ ok (length used, length free + length used)
  unfolding get_memory_utilization
  get_memory_utilization-IsPool s free used p = ground (arith, p.counted, p.total)
