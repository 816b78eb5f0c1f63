-- ===== src/Memory/Frames/History.antt =====
-- Any history of the frame allocator: allocations, returns of frames in use, and writes of their
-- owners into frames in use, in any order.
use mathlib.Core.Path.{subst}
use steelmind_os.Base.Address.{PhysicalMemory, Reachable}
use steelmind_os.Base.{
  sym, ℕ, ◌+◌, ◌%◌, ◌<◌, ◌≤◌, ◌⊎◌, ◌≡◌, true, false, ◌||◌, Option, none, some, List, [], ◌∷◌, arith,
  mem, erase, mem-erase_ne, ok,
}
use steelmind_os.Memory.Frames.{Ram, State, allocate_frame, deallocate_frame}
use steelmind_os.Memory.Frames.Pool.{
  IsPool, allocate_frame-Allocated, deallocate_frame-IsPool, Chain-frame,
}

-- The allocator with the memory, and the frames that were handed out and not given back.
pub record System : Type 0 where
  pub state : State
  pub used : List ℕ

module _ (phys : PhysicalMemory) where
  -- The address lies in none of these frames.
  abbrev pub Outside : List ℕ → ℕ → Type 0
  Outside used q =
      (f : ℕ) → mem f used ≡ true → (q < phys.offset + f) ⊎ (phys.offset + f + 4096 ≤ q)

  pub data Step : System → System → Type 0 where
    allocate :
        {s s' : State} {used : List ℕ} (f : ℕ)
        → allocate_frame s ≡ ok (some f, s')
        → Step (record { state = s; used = used }) (record { state = s'; used = f ∷ used })
    out_of_memory :
        {s s' : State} {used : List ℕ}
        → allocate_frame s ≡ ok (none, s')
        → Step (record { state = s; used = used }) (record { state = s'; used = used })
    deallocate :
        {s s' : State} {used : List ℕ} (f : ℕ)
        → mem f used ≡ true
        → deallocate_frame phys s f ≡ ok s'
        → Step (record { state = s; used = used }) (record { state = s'; used = erase f used })
    owner_write :
        {s : State} {used : List ℕ} (m : Ram)
        → ((q : ℕ) → Outside used q → m q ≡ s.ram q)
        → Step
            (record { state = s; used = used })
            (record { state = record s { ram = m }; used = used })

  pub data Reach (s : System) : System → Type 0 where
    here : Reach s s
    next : {t u : System} → Reach s t → Step t u → Reach s u

  -- The pool that `frames` has become, all of which the mapping reaches: some free list makes the state a pool, and the free and the
  -- used frames together are `frames`.
  pub record Holds (frames : List ℕ) (s : System) : Type 0 where
    pub free : List ℕ
    pub pool : IsPool phys s.state free s.used
    pub aligned : (f : ℕ) → mem f frames ≡ true → f % 4096 ≡ 0
    pub reachable : (f : ℕ) → mem f frames ≡ true → Reachable phys f
    pub same : (f : ℕ) → (mem f free || mem f s.used) ≡ mem f frames

  allocate-Holds :
      {frames : List ℕ} (s s' : State) (free used : List ℕ) (f : ℕ)
      → IsPool phys s free used
      → ((g : ℕ) → (mem g free || mem g used) ≡ mem g frames)
      → ((g : ℕ) → mem g frames ≡ true → g % 4096 ≡ 0)
      → ((g : ℕ) → mem g frames ≡ true → Reachable phys g)
      → allocate_frame s ≡ ok (some f, s')
      → Holds frames (record { state = s'; used = f ∷ used })
  allocate-Holds s s' [] used f p same al re e =
      let (out, s'', run, none_left) = allocate_frame-Allocated phys s [] used p in
      absurd (ground (arith, none_left.0))
  allocate-Holds s s' (g ∷ rest) used f p same al re e =
      let (out, s'', run, got) = allocate_frame-Allocated phys s (g ∷ rest) used p in
      let is_f : g ≡ f = ground (arith, got.0) in
      let is_s : s'' ≡ s' = cc in
      record {
        free = rest;
        aligned = al;
        reachable = re;
        pool = rw (← is_s, ← is_f) (got.2);
        same = λ h. ground (arith, same h);
      }

  exhausted-Holds :
      (s s' : State) (free used : List ℕ)
      → IsPool phys s free used
      → allocate_frame s ≡ ok (none, s')
      → s' ≡ s
  exhausted-Holds s s' [] used p e =
      let (out, s'', run, got) = allocate_frame-Allocated phys s [] used p in
      let is_s : s'' ≡ s' = cc in cc (got.1)
  exhausted-Holds s s' (g ∷ rest) used p e =
      let (out, s'', run, got) = allocate_frame-Allocated phys s (g ∷ rest) used p in
      absurd (ground (arith, got.0))

  -- A free frame lies outside the used ones.
  free-Outside :
      (frames free used : List ℕ) (g : ℕ)
      → ((f : ℕ) → mem f frames ≡ true → f % 4096 ≡ 0)
      → ((f : ℕ) → (mem f free || mem f used) ≡ mem f frames)
      → mem g free ≡ true
      → mem g used ≡ false
      → Outside used (phys.offset + g)
  free-Outside frames free used g al same is_free not_used f busy =
      ground (arith, al f, al g, same f, same g)

  -- Every step keeps the pool.
  Step-Holds : {frames : List ℕ} {s t : System} → Step s t → Holds frames s → Holds frames t
  Step-Holds (allocate {s} {s'} {used} f e) h =
      allocate-Holds s s' h.free used f h.pool h.same h.aligned h.reachable e
  Step-Holds (out_of_memory {s} {s'} {used} e) h = rw (exhausted-Holds s s' h.free used h.pool e) h
  Step-Holds (deallocate {s} {s'} {used} f busy e) h =
      let (s'', run, pool, _) =
        deallocate_frame-IsPool phys s h.free used f h.pool busy
          (h.reachable f (ground (arith, busy, h.same f))) in
      let is_s : s'' ≡ s' = cc in
      record {
        free = f ∷ h.free;
        aligned = h.aligned;
        reachable = h.reachable;
        pool = rw (← is_s) pool;
        same = λ g. ground (arith, h.same g, mem-erase_ne f g used);
      }
  Step-Holds {frames} (owner_write {s} {used} m kept) h = record {
    free = h.free;
    aligned = h.aligned;
    reachable = h.reachable;
    same = h.same;
    pool = record {
      chain =
          Chain-frame phys s.ram m s.alloc.free_memory_head h.free
            (λ g i.
              kept (phys.offset + g)
                (free-Outside frames h.free used g h.aligned h.same i (h.pool.apart g i)))
            h.pool.chain;
      counted = h.pool.counted;
      total = h.pool.total;
      bounded = h.pool.bounded;
      free_once = h.pool.free_once;
      used_once = h.pool.used_once;
      apart = h.pool.apart;
    };
  }

  -- What a call of `allocate_frame` may answer.
  abbrev pub Fresh : List ℕ → System → Option ℕ → Type 0
  Fresh frames t none = (f : ℕ) → mem f t.used ≡ mem f frames
  Fresh frames t (some f) = (mem f t.used ≡ false) × (mem f frames ≡ true)

  handed :
      (frames : List ℕ) (t : System) (free : List ℕ)
      → IsPool phys t.state free t.used
      → ((f : ℕ) → (mem f free || mem f t.used) ≡ mem f frames)
      → (out : Option ℕ) × (u : State) × (allocate_frame t.state ≡ ok (out, u)) × Fresh frames t out
  handed frames t [] p same =
      let (out, u, run, got) = allocate_frame-Allocated phys t.state [] t.used p in
      (out, u, run, subst (Fresh frames t) (sym got.0) same)
  handed frames t (g ∷ rest) p same =
      let (out, u, run, got) = allocate_frame-Allocated phys t.state (g ∷ rest) t.used p in
      (out, u, run, subst (Fresh frames t) (sym got.0) (ground (arith, got.1, same g)))

  -- Whatever the history, if the allocator began as the pool of `frames`, all of which the mapping
  -- of the memory reaches, then
  -- it is still a pool of exactly these frames: none is lost, none invented, none both free and used.
  pub Reach-Holds : {frames : List ℕ} {s t : System} → Holds frames s → Reach s t → Holds frames t
  Reach-Holds h here = h
  Reach-Holds h (next r step) = Step-Holds step (Reach-Holds h r)

  -- If the allocator began as the pool of `frames`, all of which the mapping of
  -- the memory reaches, then, whatever the history, the next call of
  -- `allocate_frame` does not panic. A frame that it hands out is one of `frames` that nobody holds; it
  -- answers `None` only when all of them are held.
  pub allocate_frame-Fresh :
      {frames : List ℕ} {s t : System}
      → Holds frames s
      → Reach s t
      → (out : Option ℕ) × (u : State) × (allocate_frame t.state ≡ ok (out, u)) × Fresh frames t out
  allocate_frame-Fresh {frames} {t} h r =
      let k = Reach-Holds h r in handed frames t k.free k.pool k.same
