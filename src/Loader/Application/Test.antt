-- ===== src/Loader/Application/Test.antt =====
-- `app_test` of kernel/src/common_main.rs with the application of user_app/src/test.rs. The processor that runs the
-- loaded code is a parameter, with what it and the compiler make of that file as a hypothesis.
use steelmind_os.Base.{
  ℕ, ◌+◌, ◌-◌, ◌≡◌, ◌≢◌, refl, sym, ap, ◌∙◌, arith, false, Option, some, [], Checked, ok, bind_inv,
  unwrap_inv, ok_injective, Returns,
}
use mathlib.Core.Path.{subst}
use steelmind_os.Base.Address.{PhysicalMemory}
use steelmind_os.Constants.{user_stack_start}
use steelmind_os.UserApp.{Process}
use steelmind_os.UserApp.Printing.{Calm}
use steelmind_os.UserApp.Program.{Texts, main, exit}
use steelmind_os.UserApp.Sessions.{main_first, main_again}
use steelmind_os.Memory.Tables.{frame_from_page_table}
use steelmind_os.Loader.Segments.{Mapper, Space, Elf, load, load_segments}
use steelmind_os.Loader.Application.{
  User, Machine, ApplicationResources, active, prepare_application, run, app_test,
}
use steelmind_os.Loader.Application.Stack.{StackMapped}
use steelmind_os.Loader.Application.Spaces.{
  at_frame, frame_of, Prepared, prepare_application-Prepared, run-Returns,
}

-- What an address space keeps when it is not the active one.
abbrev pub user_of : {T : Type 0} → Space T → User T
user_of s = record { table = s.memory.table; bytes = s.bytes }

-- The statics as the file has them.
abbrev pub fresh : Process
fresh = record { locked = false; buffer = []; capacity = 0; counter = 0; printed = [] }

module _ {T H : Type 0} (M : Mapper T) (held : (frame offset : ℕ) → ℕ) (phys : PhysicalMemory)
    (unused : User T) (new_heap : H) (t : Texts)
    (execute : (entry_point : ℕ) → Space T → Checked (ℕ × Space T))
    (InSpace : Process → User T → Type 0) where
  -- The file is test.rs, compiled. `InSpace` says that the statics of a process lie in an address space: they do, as
  -- the file has them, once its segments are loaded and the stack is mapped. When the processor runs from the entry
  -- of the file, the process does what `main` does, and leaves its statics, all of them, as `main` leaves them. Its heap may
  -- change tables and frames on the way, and finds the memory that it needs.
  pub record IsTest (elf : Elf) : Type 0 where
    pub starts :
        (before loaded : Space T) (user : User T)
        → before.memory.table ≡ unused.table
        → before.bytes ≡ unused.bytes
        → load M held (some elf) before ≡ ok (elf.e_entry, loaded)
        → user.bytes ≡ loaded.bytes
        → StackMapped M 4095 0 (user_stack_start + 4096) loaded.memory.table user.table
        → InSpace fresh user
    pub runs :
        (p q : Process) (exit_code : ℕ) (s : Space T)
        → InSpace p (user_of s)
        → exit (main t p) ≡ some (exit_code, q)
        → (after : Space T) × (execute elf.e_entry s ≡ ok (exit_code, after))
          × InSpace q (user_of after)

  load-entry :
      (elf : Elf) (entry : ℕ) (s s' : Space T)
      → load M held (some elf) s ≡ ok (entry, s')
      → elf.e_entry ≡ entry
  unfolding load
  load-entry elf entry s s' h =
      let (segments, there, h1) = unwrap_inv elf.segments _ (entry, s') h in
      let (after, run, h2) = bind_inv (load_segments M held segments s) _ (entry, s') h1 in
      ap (λ (x : ℕ × Space T). x.0) (ok_injective _ _ h2)

  -- An application that has been prepared from the file is a fresh process.
  prepared-fresh :
      (elf : Elf) (m : Machine T) (r : ApplicationResources H × Machine T)
      → IsTest elf
      → (p : Prepared M held phys unused new_heap (some elf) m r)
      → (elf.e_entry ≡ r.0.entry_point_virt_addr) × InSpace fresh (r.1.spaces p.frame)
  prepared-fresh elf m r test p =
      let entry = load-entry elf r.0.entry_point_virt_addr p.before p.loaded p.loading in
      let loading : load M held (some elf) p.before ≡ ok (elf.e_entry, p.loaded) =
        p.loading ∙ ap (λ e. ok (e, p.loaded)) (sym entry) in
      (
        entry,
        rw p.changed.mine
            (test.starts p.before p.loaded p.user p.tables p.empty loading p.bytes p.stack),
      )

  -- A run in the address space whose table is in `frame` takes its process as far as `main` does, and touches no other.
  step :
      (elf : Elf) (p q : Process) (exit_code frame kernel : ℕ) (resources : ApplicationResources H)
      (m : Machine T)
      → IsTest elf
      → elf.e_entry ≡ resources.entry_point_virt_addr
      → frame_from_page_table phys resources.l4_page_table ≡ ok frame
      → frame_from_page_table phys m.kernel_page_table ≡ ok kernel
      → InSpace p (m.spaces frame)
      → exit (main t p) ≡ some (exit_code, q)
      → (m' : Machine T) × (run M held phys unused new_heap execute resources m
          ≡ ok (exit_code, m'))
        × InSpace q (m'.spaces frame)
        × ((f : ℕ) → frame ≢ f → m'.spaces f ≡ m.spaces f)
        × (m'.kernel_page_table ≡ m.kernel_page_table)
  step elf p q exit_code frame kernel resources m test entry frame_ok kernel_ok inside ends =
      let (after, done, left) = test.runs p q exit_code (active (at_frame frame m)) inside ends in
      let (m', run_ok, c) =
        run-Returns M held phys unused new_heap execute resources m frame kernel exit_code after
          frame_ok kernel_ok (ap (λ e. execute e (active (at_frame frame m))) (sym entry) ∙ done) in
      (m', run_ok, rw c.mine left, c.others, c.kernel_table)

  -- A process of which so many runs have been counted, and that is not in the middle of a print.
  abbrev pub Counted : (runs_so_far : ℕ) → User T → Type 0
  Counted runs_so_far user = (p : Process) × InSpace p user × Calm p × (p.counter ≡ runs_so_far)

  first :
      (elf : Elf) (frame kernel : ℕ) (resources : ApplicationResources H) (m : Machine T)
      → IsTest elf
      → elf.e_entry ≡ resources.entry_point_virt_addr
      → frame_from_page_table phys resources.l4_page_table ≡ ok frame
      → frame_from_page_table phys m.kernel_page_table ≡ ok kernel
      → Counted 0 (m.spaces frame)
      → (m' : Machine T) × (run M held phys unused new_heap execute resources m ≡ ok (0, m'))
        × Counted 1 (m'.spaces frame)
        × ((f : ℕ) → frame ≢ f → m'.spaces f ≡ m.spaces f)
        × (m'.kernel_page_table ≡ m.kernel_page_table)
  first elf frame kernel resources m test entry frame_ok kernel_ok (p, inside, calm, zeroth) =
      let (q, ran, calm', one, _) = main_first t p calm zeroth in
      let (m', run_ok, left, others, table) =
        step elf p q 0 frame kernel resources m test entry frame_ok kernel_ok inside
          (ap exit ran) in
      (m', run_ok, (q, left, calm', one), others, table)

  second :
      (elf : Elf) (frame kernel : ℕ) (resources : ApplicationResources H) (m : Machine T)
      → IsTest elf
      → elf.e_entry ≡ resources.entry_point_virt_addr
      → frame_from_page_table phys resources.l4_page_table ≡ ok frame
      → frame_from_page_table phys m.kernel_page_table ≡ ok kernel
      → Counted 1 (m.spaces frame)
      → (m' : Machine T) × (run M held phys unused new_heap execute resources m ≡ ok (42, m'))
        × Counted 2 (m'.spaces frame)
        × ((f : ℕ) → frame ≢ f → m'.spaces f ≡ m.spaces f)
        × (m'.kernel_page_table ≡ m.kernel_page_table)
  second elf frame kernel resources m test entry frame_ok kernel_ok (p, inside, calm, once) =
      let (q, ran, calm', more, _) = main_again t p calm (λ e. omega (arith, e, once)) in
      let (m', run_ok, left, others, table) =
        step elf p q 42 frame kernel resources m test entry frame_ok kernel_ok inside
          (ap exit ran) in
      (m', run_ok, (q, left, calm', omega (arith, more, once)), others, table)

  -- The three runs, in the address spaces of two tables.
  three_runs :
      (elf : Elf) (f g kernel : ℕ) (a b : ApplicationResources H) (m2 : Machine T)
      → IsTest elf
      → elf.e_entry ≡ a.entry_point_virt_addr
      → elf.e_entry ≡ b.entry_point_virt_addr
      → frame_from_page_table phys a.l4_page_table ≡ ok f
      → frame_from_page_table phys b.l4_page_table ≡ ok g
      → frame_from_page_table phys m2.kernel_page_table ≡ ok kernel
      → f ≢ g
      → Counted 0 (m2.spaces f)
      → Counted 0 (m2.spaces g)
      → (m3 m4 m5 : Machine T) × (run M held phys unused new_heap execute a m2 ≡ ok (0, m3))
        × (run M held phys unused new_heap execute b m3 ≡ ok (0, m4))
        × (run M held phys unused new_heap execute a m4 ≡ ok (42, m5))
        × Counted 2 (m5.spaces f)
        × Counted 1 (m5.spaces g)
  three_runs elf f g kernel a b m2 test entry_a entry_b a_ok b_ok k_ok apart a0 b0 =
      let (m3, run3, a3, o3, t3) = first elf f kernel a m2 test entry_a a_ok k_ok a0 in
      let b3 : Counted 0 (m3.spaces g) = subst (Counted 0) (sym (o3 g apart)) b0 in
      let (m4, run4, b4, o4, t4) =
        first elf g kernel b m3 test entry_b b_ok (ap (frame_from_page_table phys) t3 ∙ k_ok) b3 in
      let a4 : Counted 1 (m4.spaces f) = subst (Counted 1) (sym (o4 f (λ e. apart (sym e)))) a3 in
      let (m5, run5, a5, o5, t5) =
        second elf f kernel a m4 test entry_a a_ok
          (ap (frame_from_page_table phys) (t4 ∙ t3) ∙ k_ok) a4 in
      (m3, m4, m5, run3, run4, run5, a5, subst (Counted 1) (sym (o5 g apart)) b4)

  -- `app_test` passes, if the file is the compiled test.rs, whose heap finds its memory, and both applications have
  -- been prepared, with tables at different addresses. The first run of each returns 0 and the second of the first
  -- aborts with 42, so that no assertion fails: each process finds its statics as its own last run has left them, and
  -- its printer free again. Then the first has counted two runs, the second one.
  pub app_test-Returns :
      (elf : Elf) (m m1 m2 : Machine T) (a b : ApplicationResources H)
      → IsTest elf
      → prepare_application M held phys unused new_heap (some elf) m ≡ ok (a, m1)
      → prepare_application M held phys unused new_heap (some elf) m1 ≡ ok (b, m2)
      → a.l4_page_table ≢ b.l4_page_table
      → Returns
          (λ m5.
            Counted 2 (m5.spaces (a.l4_page_table - phys.offset))
            × Counted 1 (m5.spaces (b.l4_page_table - phys.offset)))
          (app_test M held phys unused new_heap execute (some elf) m)
  unfolding app_test
  app_test-Returns elf m m1 m2 a b test run1 run2 ne =
      let file : Option Elf = some elf in
      let p = prepare_application-Prepared M held phys unused new_heap file m (a, m1) run1 in
      let q = prepare_application-Prepared M held phys unused new_heap file m1 (b, m2) run2 in
      let (af, a_low) = frame_of phys a.l4_page_table p.frame p.frame_ok in
      let (bf, b_low) = frame_of phys b.l4_page_table q.frame q.frame_ok in
      let apart : p.frame ≢ q.frame = λ e. ne (omega (arith, e, af, bf, a_low, b_low)) in
      let apart' : q.frame ≢ p.frame = λ e. apart (sym e) in
      let (entry_a, fresh_a) = prepared-fresh elf m (a, m1) test p in
      let (entry_b, fresh_b) = prepared-fresh elf m1 (b, m2) test q in
      let calm : Calm fresh = record { unlocked = refl; empty = refl } in
      let a0 : Counted 0 (m2.spaces p.frame) =
        subst (Counted 0) (sym (q.changed.others p.frame apart')) (fresh, fresh_a, calm, refl) in
      let k2 : frame_from_page_table phys m2.kernel_page_table ≡ ok m2.paging.cr3 =
        ap (frame_from_page_table phys) q.changed.kernel_table ∙ q.changed.kernel in
      let (m3, m4, m5, run3, run4, run5, a5, b5) =
        three_runs elf p.frame q.frame m2.paging.cr3 a b m2 test entry_a entry_b p.frame_ok
          q.frame_ok k2 apart a0 (fresh, fresh_b, calm, refl) in
      rw (run1, run2, run3, run4, run5)
        (
          m5,
          refl,
          (
            subst (λ f. Counted 2 (m5.spaces f)) (sym af) a5,
            subst (λ f. Counted 1 (m5.spaces f)) (sym bf) b5,
          ),
        )
