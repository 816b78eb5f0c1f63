-- ===== src/Loader/Application/Examples.antt =====
-- The application of user_app/src/test.rs as a file of two segments, on a machine with frames for all its pages.
use steelmind_os.Base.{
  ℕ, ◌+◌, ◌-◌, ◌*◌, ◌^◌, ◌<◌, ◌≡◌, ◌≢◌, ◌==◌, if◌then◌else◌, refl, sym, ap, ◌∙◌, arith, none, some,
  [], ◌∷◌, ok, Option, Checked, panic, Bool, true, false, Returns, bind_inv, ok_injective,
}
use steelmind_os.Constants.{user_start, user_end, user_stack_start}
use steelmind_os.Memory.Frames.{allocate_frame}
use steelmind_os.Memory.Mapping.{map_ram_user, map_frame}
use steelmind_os.Memory.Tables.{
  create_new_l4_page_table, switch_l4_page_table, copy_entries, active_level_4_table,
  page_table_from_frame, frame_from_page_table,
}
use steelmind_os.Loader.{segment_flags, allocate_stack, map_stack}
use steelmind_os.Loader.Segments.{
  Space, Segment, Elf, load, load_segments, page_count, map_page, map_pages, map_segment, fill,
  copy, store, change_pages, change_flags,
}
use steelmind_os.Loader.Segments.Sample.{Table, mapper}
use steelmind_os.UserApp.{Process}
use steelmind_os.UserApp.Printing.{Calm}
use steelmind_os.UserApp.Sessions.{main_first, main_again}
use steelmind_os.UserApp.Program.{Texts, main, exit}
use mathlib.Core.Path.{subst}
use native.Mathlib.Decide.{ℕ_discrete}
use steelmind_os.Base.Address.Concrete.{mapped_at}
use steelmind_os.Base.Words.{load_word, store_word, load_word-store_word, load_word-zeros}
use steelmind_os.Loader.Segments.Whole.{AllPlaced, AllInMemory, load_segments-AllInMemory}
use steelmind_os.Loader.Application.Spaces.{Prepared, prepare_application-Prepared}
use steelmind_os.Loader.Application.Test.{user_of, fresh, IsTest, Counted, app_test-Returns}
use steelmind_os.Loader.Application.{
  User, Machine, ApplicationResources, create_user_page_table, switch_to_user_page_table,
  switch_to_kernel_page_table, prepare_application, app_test,
}

abbrev texts : Texts
texts = record {
  strings = record { grown = λ capacity length. length; shrunk = λ capacity length least. least };
  user_panic = 80 ∷ [];
  info = 33 ∷ [];
  fmt = 70 ∷ [];
  count = 67 ∷ [];
  hello = 72 ∷ [];
  show = λ n. n ∷ [];
  debug = λ e. e.0 ∷ e.1 ∷ [];
}

abbrev code : Segment
code = record {
  p_type = 1;
  p_vaddr = 0x20_0000;
  p_memsz = 2;
  p_flags = 5;
  segment_data = some (1 ∷ 2 ∷ []);
}

abbrev bss : Segment
bss = record { p_type = 1; p_vaddr = 0x20_1000; p_memsz = 8; p_flags = 6; segment_data = some [] }

abbrev elf : Elf
elf = record { e_entry = 0x20_0000; segments = some (code ∷ bss ∷ []) }

abbrev file : Option Elf
file = some elf

abbrev unused : User Table
unused = record { table = λ page. none; bytes = λ a. 0xff }

abbrev machine : Machine Table
machine = record {
  paging = record {
    entries = λ t i. 0;
    cr3 = 0x1000;
    frames = record {
      alloc = record { free_memory_head = some 2; total_frames = 10000; free_frames = 10000 };
      ram = λ a. record { next = some (a + 1); frame = a * 4096 };
    };
  };
  spaces = λ f. unused;
  kernel_page_table = 0x1000;
}

abbrev prepare : Machine Table → Checked (ApplicationResources (Unit {0}) × Machine Table)
prepare m = prepare_application mapper (λ frame i. 0) (mapped_at 0) unused tt file m

-- A call that returns, by a run of it; the state it returns stays a call.
is_ok : {A : Type 0} → Checked A → Bool
is_ok (ok a) = true
is_ok panic = false

result : {A : Type 0} (c : Checked A) → is_ok c ≡ true → (a : A) × (c ≡ ok a)
unfolding is_ok
result (ok a) h = (a, refl)
result panic h = absurd (ground (arith, h))

prepared_a : (r : ApplicationResources (Unit {0}) × Machine Table) × (prepare machine ≡ ok r)
unfolding is_ok prepare_application create_user_page_table create_new_l4_page_table
    active_level_4_table page_table_from_frame frame_from_page_table copy_entries
    switch_to_user_page_table switch_to_kernel_page_table switch_l4_page_table load load_segments
    mapper map_segment map_pages map_page map_ram_user map_frame allocate_frame page_count
    user_start user_end segment_flags fill copy store change_pages change_flags allocate_stack
    map_stack user_stack_start
prepared_a = result (prepare machine) refl

prepared_b : (r : ApplicationResources (Unit {0}) × Machine Table) × (prepare prepared_a.0.1 ≡ ok r)
unfolding is_ok result prepared_a
prepared_b = result (prepare prepared_a.0.1) refl

table_a : prepared_a.0.0.l4_page_table ≡ 8192
unfolding result prepared_a
table_a = refl

table_b : prepared_b.0.0.l4_page_table ≡ 16793600
unfolding result prepared_a prepared_b
table_b = refl

tables_differ : prepared_a.0.0.l4_page_table ≢ prepared_b.0.0.l4_page_table
tables_differ = λ e. omega (arith, e, table_a, table_b)

-- A processor that knows this file: it runs `main` on the counter in memory, at this address.
abbrev counter : ℕ
counter = 0x20_1000

abbrev process : (ℕ → ℕ) → Process
process bytes = record fresh { counter = load_word 8 bytes counter }

abbrev left : Space Table → Option (ℕ × Process) → Checked (ℕ × Space Table)
left s none = panic
left s (some (exit_code, q)) =
    ok (exit_code, record s { bytes = store_word 8 s.bytes counter q.counter })

unfoldable execute : (entry_point : ℕ) → Space Table → Checked (ℕ × Space Table)
execute entry_point s =
    if entry_point == 0x20_0000 then left s (exit (main texts (process s.bytes))) else panic

abbrev InSpace : Process → User Table → Type 0
InSpace p user = Calm p × (load_word 8 user.bytes counter ≡ p.counter)

-- Two processes with the same count end alike.
same_end :
    (p r : Process)
    → Calm p
    → Calm r
    → p.counter ≡ r.counter
    → (code : ℕ) × (q u : Process) × (exit (main texts p) ≡ some (code, q))
      × (exit (main texts r) ≡ some (code, u))
      × Calm q
      × (q.counter ≡ u.counter)
      × (u.counter < 2 ^ 64)
same_end p r calm calm' same = elim (ℕ_discrete p.counter 0) [
  | yes e ↦
      let (q, run, qc, one, _) = main_first texts p calm e in
      let (u, run', uc, one', _) = main_first texts r calm' (sym same ∙ e) in
      (0, q, u, ap exit run, ap exit run', qc, one ∙ sym one', omega (arith, one'))
  | no ne ↦
      let (q, run, qc, more, _) = main_again texts p calm ne in
      let (u, run', uc, more', _) = main_again texts r calm' (λ e. ne (same ∙ e)) in
      (
        42,
        q,
        u,
        ap exit run,
        ap exit run',
        qc,
        omega (arith, more, more', same),
        omega (arith, more'),
      )
]

runs_alike :
    (p q : Process) (exit_code : ℕ) (s : Space Table)
    → InSpace p (user_of s)
    → exit (main texts p) ≡ some (exit_code, q)
    → (after : Space Table) × (execute 0x20_0000 s ≡ ok (exit_code, after))
      × InSpace q (user_of after)
unfolding execute
runs_alike p q exit_code s (calm, at) ends =
    let (code, q', u, mine, its, calm', counts, small) =
      same_end p (process s.bytes) calm (record { unlocked = refl; empty = refl }) (sym at) in
    let e : (code, q') ≡ (exit_code, q) =
      ap (λ (o : Option (ℕ × Process)). elim o [ some x ↦ x | none ↦ (0, q) ]) (sym mine ∙ ends) in
    let after : Space Table = record s { bytes = store_word 8 s.bytes counter u.counter } in
    let stored = load_word-store_word 8 s.bytes counter u.counter small ∙ sym counts in
    (
      after,
      rw its (ap (λ (x : ℕ × Process). ok (x.0, after)) e),
      subst (λ (x : ℕ × Process). InSpace x.1 (user_of after)) e (calm', stored),
    )

both_placed : AllPlaced (code ∷ bss ∷ [])
unfolding user_end page_count
both_placed = omega arith

-- The counter lies in the second segment, which has no content.
zeroth :
    (s : Space Table) → AllInMemory mapper (code ∷ bss ∷ []) s → load_word 8 s.bytes counter ≡ 0
zeroth s (in_code, (in_bss, _)) = load_word-zeros 8 s.bytes counter (λ i l.
    let none_there : [] ≡ in_bss.content = ground (arith, in_bss.content_ok) in
    in_bss.zeros (counter + i) (rw (← none_there) (omega arith)) (omega (arith, l)))

loaded_zeroth :
    (before loaded : Space Table)
    → load mapper (λ frame i. 0) file before ≡ ok (0x20_0000, loaded)
    → load_word 8 loaded.bytes counter ≡ 0
unfolding load
loaded_zeroth before loaded h =
    let (s, run, e) =
      bind_inv (load_segments mapper (λ frame i. 0) (code ∷ bss ∷ []) before) _ _ h in
    let all =
      load_segments-AllInMemory mapper (λ frame i. 0) (code ∷ bss ∷ []) before s both_placed run in
    let same : s.bytes ≡ loaded.bytes =
      ap (λ (x : ℕ × Space Table). x.1.bytes) (ok_injective _ _ e) in
    ap (λ b. load_word 8 b counter) (sym same) ∙ zeroth s all

is_test : IsTest mapper (λ frame i. 0) (mapped_at 0) unused tt texts execute InSpace elf
is_test = record {
  starts = λ before loaded user tables empty loading bytes stack. (
    record { unlocked = refl; empty = refl },
    ap (λ b. load_word 8 b counter) bytes ∙ loaded_zeroth before loaded loading,
  );
  runs = runs_alike;
}

prepare_application-Prepared_example :
    Prepared mapper (λ frame i. 0) (mapped_at 0) unused tt file machine prepared_a.0
prepare_application-Prepared_example =
    prepare_application-Prepared mapper (λ frame i. 0) (mapped_at 0) unused tt file machine
      prepared_a.0 prepared_a.1

app_test-Returns_example :
    Returns
      (λ m5.
        Counted mapper
          (λ frame i. 0)
          (mapped_at 0)
          unused
          tt
          texts
          execute
          InSpace
          2
          (m5.spaces (prepared_a.0.0.l4_page_table - 0))
        × Counted mapper
            (λ frame i. 0)
            (mapped_at 0)
            unused
            tt
            texts
            execute
            InSpace
            1
            (m5.spaces (prepared_b.0.0.l4_page_table - 0)))
      (app_test mapper (λ frame i. 0) (mapped_at 0) unused tt execute file machine)
app_test-Returns_example =
    app_test-Returns mapper (λ frame i. 0) (mapped_at 0) unused tt texts execute InSpace elf machine
      prepared_a.0.1 prepared_b.0.1 prepared_a.0.0 prepared_b.0.0 is_test prepared_a.1 prepared_b.1
      tables_differ
