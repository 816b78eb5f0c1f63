-- ===== src/Loader/Application/Spaces.antt =====
-- What each operation of kernel/src/loader.rs does to the address spaces.
use steelmind_os.Base.Address.{PhysicalMemory, virt_add}
use steelmind_os.Base.{
  ℕ, ◌-◌, ◌≤◌, ◌≡◌, ◌≢◌, refl, arith, sym, ap, ◌∙◌, Option, some, unwrap_inv, ◌+◌, Checked, ok,
  bind_inv, ok_injective, put, put_same, put_other,
}
use mathlib.Core.Path.{subst}
use steelmind_os.Memory.Mapping.{Memory}
use steelmind_os.Memory.Tables.{
  Paging, create_new_l4_page_table, active_level_4_table, page_table_from_frame,
  switch_l4_page_table, frame_from_page_table,
}
use steelmind_os.Constants.{user_stack_start}
use steelmind_os.Memory.Frames.{State, allocate_frame}
use steelmind_os.Loader.{allocate_stack}
use steelmind_os.Loader.Application.Stack.{StackMapped, allocate_stack-StackMapped}
use steelmind_os.Loader.Segments.{Mapper, Space, Elf, load}
use steelmind_os.Loader.Application.{
  User, Machine, ApplicationResources, active, with_active, create_user_page_table,
  switch_to_user_page_table, switch_to_kernel_page_table, prepare_application, run,
}

abbrev pub at_frame : {T : Type 0} → ℕ → Machine T → Machine T
at_frame frame m = record m { paging = record m.paging { cr3 = frame } }

-- A table's frame lies at its address less the offset.
pub frame_of :
    (phys : PhysicalMemory) (table frame : ℕ)
    → frame_from_page_table phys table ≡ ok frame
    → (table - phys.offset ≡ frame) × (phys.offset ≤ table)
unfolding frame_from_page_table
frame_of phys table frame h = ground arith

virt_add_inv :
    (phys : PhysicalMemory) (f table : ℕ)
    → virt_add phys phys.offset f ≡ ok table
    → table ≡ phys.offset + f
virt_add_inv phys f table h = ground (arith, h)

module _ {T : Type 0} (phys : PhysicalMemory) where
  -- Only the register of the active table changes, to the table's frame.
  pub switch_inv :
      (table : ℕ) (m m' : Machine T)
      → switch_to_user_page_table phys table m ≡ ok m'
      → (frame : ℕ) × (frame_from_page_table phys table ≡ ok frame) × (at_frame frame m ≡ m')
  unfolding switch_to_user_page_table switch_l4_page_table
  switch_inv table m m' h =
      let (paging, run1, rest) = bind_inv (switch_l4_page_table phys table m.paging) _ _ h in
      let (frame, run2, rest2) = bind_inv (frame_from_page_table phys table) _ _ run1 in
      (
        frame,
        run2,
        ap (λ (p : Paging). record m { paging = p }) (ok_injective _ _ rest2)
            ∙ ok_injective _ _ rest,
      )

  switch-ok :
      (table frame : ℕ) (m : Machine T)
      → frame_from_page_table phys table ≡ ok frame
      → switch_to_user_page_table phys table m ≡ ok (at_frame frame m)
  unfolding switch_to_user_page_table switch_l4_page_table
  switch-ok table frame m h = rw h refl

  kernel-ok :
      (frame : ℕ) (m : Machine T)
      → frame_from_page_table phys m.kernel_page_table ≡ ok frame
      → switch_to_kernel_page_table phys m ≡ ok (at_frame frame m)
  unfolding switch_to_kernel_page_table switch_to_user_page_table
  kernel-ok frame m h = switch-ok m.kernel_page_table frame m h

  kernel_inv :
      (m m' : Machine T)
      → switch_to_kernel_page_table phys m ≡ ok m'
      → (frame : ℕ) × (frame_from_page_table phys m.kernel_page_table ≡ ok frame)
        × (at_frame frame m ≡ m')
  unfolding switch_to_kernel_page_table switch_to_user_page_table
  kernel_inv m m' h = switch_inv m.kernel_page_table m m' h

  create_inv :
      (unused : User T) (m : Machine T) (r : ℕ × Machine T)
      → create_user_page_table phys unused m ≡ ok r
      → (r.1.spaces ≡ put m.spaces (r.0 - phys.offset) unused)
        × (r.1.kernel_page_table ≡ m.kernel_page_table)
  unfolding create_user_page_table
  create_inv unused m r h =
      let (made, run, rest) = bind_inv (create_new_l4_page_table phys m.paging) _ _ h in
      let e = ok_injective _ _ rest in
      let table : made.0 ≡ r.0 = ap (λ (x : ℕ × Machine T). x.0) e in
      (
        sym (ap (λ (x : ℕ × Machine T). x.1.spaces) e) ∙ rw table refl,
        sym (ap (λ (x : ℕ × Machine T). x.1.kernel_page_table) e),
      )

  -- The table of a new address space lies in the frame that the allocator hands out.
  made_inv :
      (unused : User T) (m : Machine T) (made : ℕ × Machine T) (frame : ℕ)
      → create_user_page_table phys unused m ≡ ok made
      → frame_from_page_table phys made.0 ≡ ok frame
      → (frames : State) × (allocate_frame m.paging.frames ≡ ok (some frame, frames))
  unfolding create_user_page_table create_new_l4_page_table page_table_from_frame
  made_inv unused m made frame h frame_ok =
      let (new, run, rest) = bind_inv (create_new_l4_page_table phys m.paging) _ _ h in
      let (active, run1, rest1) = bind_inv (active_level_4_table phys m.paging) _ _ run in
      let (allocated, run2, rest2) = bind_inv (allocate_frame m.paging.frames) _ _ rest1 in
      let (f, got, rest3) = unwrap_inv allocated.0 _ _ rest2 in
      let (table, run4, rest4) = bind_inv (page_table_from_frame phys f) _ _ rest3 in
      let at : table ≡ phys.offset + f = virt_add_inv phys f table run4 in
      let e1 : table ≡ new.0 = ap (λ (x : ℕ × Paging). x.0) (ok_injective _ _ rest4) in
      let e2 : new.0 ≡ made.0 = ap (λ (x : ℕ × Machine T). x.0) (ok_injective _ _ rest) in
      let (diff, low) = frame_of phys made.0 frame frame_ok in
      let same : f ≡ frame = omega (arith, at, e1, e2, diff, low) in
      (allocated.1, run2 ∙ ap (λ (o : Option ℕ). ok (o, allocated.1)) (got ∙ ap some same))

  -- From `m` to `m'` the space with its table in `frame` has become `user`, the others are as they were, and the
  -- kernel's table is the active one.
  pub record Changed (frame : ℕ) (user : User T) (m m' : Machine T) : Type 0 where
    pub mine : m'.spaces frame ≡ user
    pub others : (f : ℕ) → frame ≢ f → m'.spaces f ≡ m.spaces f
    pub kernel : frame_from_page_table phys m.kernel_page_table ≡ ok m'.paging.cr3
    pub kernel_table : m'.kernel_page_table ≡ m.kernel_page_table

  -- Work on the active space, and back to the kernel's table.
  back-Changed :
      (frame : ℕ) (s : Space T) (m m' : Machine T)
      → switch_to_kernel_page_table phys (with_active s (at_frame frame m)) ≡ ok m'
      → Changed frame (record { table = s.memory.table; bytes = s.bytes }) m m'
  back-Changed frame s m m' h =
      let (k, kernel, e) = kernel_inv (with_active s (at_frame frame m)) m' h in
      let user : User T = record { table = s.memory.table; bytes = s.bytes } in
      subst (Changed frame user m) e (record {
        mine = put_same m.spaces frame user;
        others = λ f ne. put_other m.spaces frame f user ne;
        kernel = kernel;
        kernel_table = refl;
      })

module _ {T H : Type 0} (M : Mapper T) (held : (frame offset : ℕ) → ℕ) (phys : PhysicalMemory)
    (unused : User T) (new_heap : H) where
  -- What `prepare_application` has done when it returns.
  pub record Prepared (file : Option Elf) (m : Machine T) (r : ApplicationResources H × Machine T)
      : Type 0 where
    pub frame : ℕ
    pub given : (frames : State) × (allocate_frame m.paging.frames ≡ ok (some frame, frames))
    pub frame_ok : frame_from_page_table phys r.0.l4_page_table ≡ ok frame
    pub before : Space T
    pub loaded : Space T
    pub tables : before.memory.table ≡ unused.table
    pub empty : before.bytes ≡ unused.bytes
    pub loading : load M held file before ≡ ok (r.0.entry_point_virt_addr, loaded)
    pub user : User T
    pub bytes : user.bytes ≡ loaded.bytes
    pub stack : StackMapped M 4095 0 (user_stack_start + 4096) loaded.memory.table user.table
    pub changed : Changed phys frame user m r.1

  assemble :
      (file : Option Elf) (m : Machine T) (made : ℕ × Machine T) (frame entry : ℕ)
      (loaded : Space T) (memory : Memory T) (kernel : Machine T)
      → create_user_page_table phys unused m ≡ ok made
      → frame_from_page_table phys made.0 ≡ ok frame
      → load M held file (active (at_frame frame made.1)) ≡ ok (entry, loaded)
      → allocate_stack M.map_to loaded.memory ≡ ok memory
      → switch_to_kernel_page_table phys
          (with_active (record loaded { memory = memory }) (at_frame frame made.1))
        ≡ ok kernel
      → Prepared file m (
        record { l4_page_table = made.0; entry_point_virt_addr = entry; heap = new_heap },
        kernel,
      )
  assemble file m made frame entry loaded memory kernel run1 frame_ok run3 run4 run5 =
      let (spaces, kernel_table) = create_inv phys unused m made run1 in
      let here : made.0 - phys.offset ≡ frame = (frame_of phys made.0 frame frame_ok).0 in
      let spaces' : made.1.spaces ≡ put m.spaces frame unused = spaces ∙ rw here refl in
      let c = back-Changed phys frame (record loaded { memory = memory }) made.1 kernel run5 in
      record {
        frame = frame;
        given = made_inv phys unused m made frame run1 frame_ok;
        frame_ok = frame_ok;
        before = active (at_frame frame made.1);
        loaded = loaded;
        tables = rw (spaces', put_same m.spaces frame unused) refl;
        empty = rw (spaces', put_same m.spaces frame unused) refl;
        loading = run3;
        user = record { table = memory.table; bytes = loaded.bytes };
        bytes = refl;
        stack = allocate_stack-StackMapped M loaded.memory memory run4;
        changed = record {
          mine = c.mine;
          others = λ f ne. c.others f ne ∙ rw spaces' (put_other m.spaces frame f unused ne);
          kernel = rw (← kernel_table) c.kernel;
          kernel_table = c.kernel_table ∙ kernel_table;
        };
      }

  -- When an application has been prepared, there is a new address space, with its table in the frame that the allocator
  -- handed out: the segments of the file were loaded into it, from nothing; then the 4095 pages of the stack, above one page
  -- for a guard, were mapped for the user, to be written and not executed, and no other page changed. All
  -- other address spaces are as they were, and the kernel's table is active again.
  pub prepare_application-Prepared :
      (file : Option Elf) (m : Machine T) (r : ApplicationResources H × Machine T)
      → prepare_application M held phys unused new_heap file m ≡ ok r
      → Prepared file m r
  unfolding prepare_application
  prepare_application-Prepared file m r h =
      let (made, run1, h1) = bind_inv (create_user_page_table phys unused m) _ _ h in
      let (user, run2, h2) = bind_inv (switch_to_user_page_table phys made.0 made.1) _ _ h1 in
      let (result, run3, h3) = bind_inv (load M held file (active user)) _ _ h2 in
      let (memory, run4, h4) = bind_inv (allocate_stack M.map_to result.1.memory) _ _ h3 in
      let s : Space T = record result.1 { memory = memory } in
      let (kernel, run5, h5) =
        bind_inv (switch_to_kernel_page_table phys (with_active s user)) _ _ h4 in
      let (frame, frame_ok, at) = switch_inv phys made.0 made.1 user run2 in
      let (run3', run5') =
        subst
          (λ u.
            (load M held file (active u) ≡ ok result)
            × (switch_to_kernel_page_table phys (with_active s u) ≡ ok kernel))
          (sym at) (run3, run5) in
      subst (Prepared file m) (ok_injective _ _ h5)
        (assemble file m made frame result.0 result.1 memory kernel run1 frame_ok run3' run4 run5')

  module _ (execute : (entry_point : ℕ) → Space T → Checked (ℕ × Space T)) where
    -- When a run has returned: the application was executed from its entry in the address space of its
    -- table, which has become what it left; all others are as they were, and the kernel's table is active again.
    pub run-Changed :
        (resources : ApplicationResources H) (m : Machine T) (r : ℕ × Machine T)
        → run M held phys unused new_heap execute resources m ≡ ok r
        → (frame : ℕ) × (after : Space T) × (frame_from_page_table phys resources.l4_page_table
            ≡ ok frame)
          × (execute resources.entry_point_virt_addr (active (at_frame frame m)) ≡ ok (r.0, after))
          × Changed phys frame (record { table = after.memory.table; bytes = after.bytes }) m r.1
    unfolding run
    run-Changed resources m r h =
        let (user, run1, h1) =
          bind_inv (switch_to_user_page_table phys resources.l4_page_table m) _ _ h in
        let (result, run2, h2) =
          bind_inv (execute resources.entry_point_virt_addr (active user)) _ _ h1 in
        let (kernel, run3, h3) =
          bind_inv (switch_to_kernel_page_table phys (with_active result.1 user)) _ _ h2 in
        let (frame, frame_ok, at) = switch_inv phys resources.l4_page_table m user run1 in
        let (run2', run3') =
          subst
            (λ u.
              (execute resources.entry_point_virt_addr (active u) ≡ ok result)
              × (switch_to_kernel_page_table phys (with_active result.1 u) ≡ ok kernel))
            (sym at) (run2, run3) in
        let c = back-Changed phys frame result.1 m kernel run3' in
        let e : (result.0, kernel) ≡ r = ok_injective _ _ h3 in
        (
          frame,
          result.1,
          frame_ok,
          run2' ∙ ap (λ (x : ℕ × Machine T). ok (x.0, result.1)) e,
          subst
              (λ (x : ℕ × Machine T).
                Changed phys frame
                  (record { table = result.1.memory.table; bytes = result.1.bytes }) m x.1)
              e c,
        )

    -- A run returns when the tables have frames and the application returns.
    pub run-Returns :
        (resources : ApplicationResources H) (m : Machine T) (frame kernel code : ℕ)
        (after : Space T)
        → frame_from_page_table phys resources.l4_page_table ≡ ok frame
        → frame_from_page_table phys m.kernel_page_table ≡ ok kernel
        → execute resources.entry_point_virt_addr (active (at_frame frame m)) ≡ ok (code, after)
        → (m' : Machine T) × (run M held phys unused new_heap execute resources m ≡ ok (code, m'))
          × Changed phys frame (record { table = after.memory.table; bytes = after.bytes }) m m'
    unfolding run
    run-Returns resources m frame kernel code after frame_ok kernel_ok done =
        let back : switch_to_kernel_page_table phys (with_active after (at_frame frame m))
            ≡ ok (at_frame kernel (with_active after (at_frame frame m))) =
          kernel-ok phys kernel (with_active after (at_frame frame m)) kernel_ok in
        (
          at_frame kernel (with_active after (at_frame frame m)),
          rw (switch-ok phys resources.l4_page_table frame m frame_ok, done, back) refl,
          back-Changed phys frame after m _ back,
        )
