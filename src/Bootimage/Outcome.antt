-- ===== src/Bootimage/Outcome.antt =====
-- When `main` of bootimage/src/main.rs returns.
use steelmind_os.Base.{
  ℕ, ◌+◌, ◌*◌, ◌<◌, ◌^◌, ◌≡◌, ◌≢◌, ◌↔◌, inl, inr, refl, sym, ◌∙◌, arith, Bool, true, false, ◌==◌,
  Bool-cases, List, [], ◌∷◌, ◌++◌, length,
}
use steelmind_os.Tester.{value, success, failed, Halt, exits, silent, Test, run_tests}
use steelmind_os.Tester.Verdicts.{all_pass, run_tests-success}
use Prim.Native.String.{String}
use steelmind_os.Bootimage.{
  Tool, log, last_log, removes, renames, Args, Command, Action, runs, Host, Run, goes, panics,
  waits, Ending, ended, forever, nasm, kernel_build, user_build, emulator, run_command, act,
  attempt, ◌>>=◌,
}
use steelmind_os.Bootimage.Steps.{
  assemble, build_with, make_images, rotate_logs, emulate, finish, main,
}

-- The machine does all that is asked of it up to the emulator: the assembler can be run, both builds end with 0,
-- and files can be made, removed and renamed.
pub record Builds (host : Host) (test_mode : Bool) (args : Args) : Type 0 where
  pub assembler : (code : ℕ) × (host.ending nasm ≡ ended code)
  pub kernel : host.ending (kernel_build test_mode args.kernel_profile).1 ≡ ended 0
  pub user : host.ending (user_build args.user_app_profile).1 ≡ ended 0
  pub files : (a : Action) → host.succeeds a ≡ true

-- A part that goes on, whatever was done before.
abbrev Goes : {A : Type 0} → A → (List Action → Run A) → Type 0
Goes a m = (done : List Action) → (done' : List Action) × (m done ≡ goes a done')

-- The first of two parts goes on.
bind-goes :
    {A B : Type 0} (m : Tool A) (f : A → Tool B) (a : A) (done done' : List Action)
    → m done ≡ goes a done'
    → (m >>= f) done ≡ f a done'
bind-goes m f a done done' h = rw (◌>>=◌, h) refl

module _ (host : Host) (test_mode : Bool) (args : Args) (b : Builds host test_mode args) where
  act-Goes : (a : Action) → Goes tt (act host a)
  unfolding act
  act-Goes a done = rw (b.files a) (_, refl)

  assemble-Goes : Goes tt (assemble host args)
  unfolding assemble run_command
  assemble-Goes done = elim (Bool-cases args.assemble_smp_trampoline) [
    | inl e ↦ rw (e, run_command, b.assembler.1) (_, refl)
    | inr e ↦ rw e (_, refl)
  ]

  build-Goes : (c : String × Command) → host.ending c.1 ≡ ended 0 → Goes c.0 (build_with host c)
  unfolding build_with run_command
  build-Goes c h done = rw (run_command, h) (_, refl)

  then-Goes :
      {A B : Type 0} (a : A) (c : B) (m : Tool A) (f : A → Tool B)
      → Goes a m
      → Goes c (f a)
      → Goes c (m >>= f)
  then-Goes a c m f h k done =
      let (done1, run1) = h done in let (done2, run2) = k done1 in (done2, rw (◌>>=◌, run1) run2)

  attempt-Goes : (a : Action) → Goes tt (attempt host a)
  unfolding attempt
  attempt-Goes a done = (_, refl)

  rotate-Goes : Goes tt (rotate_logs host)
  unfolding rotate_logs
  rotate-Goes done = elim (Bool-cases (host.exists log)) [
    | inl e ↦ elim (Bool-cases (host.exists last_log)) [
      | inl e' ↦
          let m : Tool (Unit {0}) =
            act host (removes last_log) >>= λ _. act host (renames log last_log) in
          rw (e, e')
            (then-Goes tt tt (act host (removes last_log)) (λ _. act host (renames log last_log))
              (act-Goes _) (act-Goes _) done)
      | inr e' ↦ rw (e, e') (act-Goes (renames log last_log) done)
    ]
    | inr e ↦ rw e (_, refl)
  ]

  make_images-Goes : (k u : String) → Goes tt (make_images host k u)
  unfolding make_images
  make_images-Goes k u = then-Goes _ _ _ _ (attempt-Goes _) (
      then-Goes _ _ _ _ (act-Goes _)
        (then-Goes _ _ _ _ (act-Goes _) (then-Goes _ _ _ _ (act-Goes _) (act-Goes _))))

  finish-full :
      (build_only : Bool) (done done' : List Action)
      → build_only ≡ false
      → rotate_logs host done ≡ goes tt done'
      → finish host build_only test_mode args done ≡ emulate host test_mode args done'
  unfolding finish
  finish-full build_only done done' h r =
      rw h (bind-goes (rotate_logs host) (λ _. emulate host test_mode args) tt done done' r)

  -- So `main` ends as its last part does.
  main_last :
      args.build_only ≡ false
      → (done : List Action) × (main host test_mode args [] ≡ emulate host test_mode args done)
  unfolding main
  main_last h =
      let (d1, r1) = assemble-Goes [] in
      let (d2, r2) = build-Goes (kernel_build test_mode args.kernel_profile) b.kernel d1 in
      let (d3, r3) = build-Goes (user_build args.user_app_profile) b.user d2 in
      let (d4, r4) =
        make_images-Goes (kernel_build test_mode args.kernel_profile).0
          (user_build args.user_app_profile).0 d3 in
      let (d5, r5) = rotate-Goes d4 in
      (
        d5,
        bind-goes (assemble host args) _ tt [] d1 r1
            ∙ bind-goes (build_with host (kernel_build test_mode args.kernel_profile)) _
                (kernel_build test_mode args.kernel_profile).0 d1 d2 r2
            ∙ bind-goes (build_with host (user_build args.user_app_profile)) _
                (user_build args.user_app_profile).0 d2 d3 r3
            ∙ bind-goes (make_images host _ _) _ tt d3 d4 r4
            ∙ finish-full args.build_only d4 d5 h r5,
      )

-- The emulator's debug device, from its documentation: a value written to its port ends the emulator with the code that is
-- twice the value and one.
abbrev pub emulator_ending : (debug_exit : ℕ → ℕ) → Halt → Ending
emulator_ending debug_exit (exits exit_code) = ended (debug_exit (value exit_code))
emulator_ending debug_exit silent = forever

not_panics : (d d' : List Action) → panics d ≡ goes tt d' → ⊥
not_panics d d' h = ground (arith, h)

not_waits : (d d' : List Action) → waits d ≡ goes tt d' → ⊥
not_waits d d' h = ground (arith, h)

emulate_lem :
    (host : Host) (args : Args) (done : List Action) (debug_exit : ℕ → ℕ) (halt : Halt)
    → ((v : ℕ) → debug_exit v ≡ 2 * v + 1)
    → host.ending (emulator host args) ≡ emulator_ending debug_exit halt
    → ((done' : List Action) × (emulate host true args done ≡ goes tt done'))
      ↔ (halt ≡ exits success)
unfolding emulate run_command
emulate_lem host args done debug_exit (exits success) device e = (
  (λ h. refl),
  (λ h.
      let right : (debug_exit 16 == 33) ≡ true = ground (arith, device 16) in
      rw (run_command, e, right) (_, refl)),
)
emulate_lem host args done debug_exit (exits failed) device e = (
  (λ (done', h).
      let wrong : (debug_exit 17 == 33) ≡ false = ground (arith, device 17) in
      let ends : emulate host true args done ≡ panics (done ++ runs (emulator host args) ∷ []) =
        rw (run_command, e, wrong) refl in
      absurd (not_panics _ _ (sym ends ∙ h))),
  (λ h. absurd (ground (arith, h))),
)
emulate_lem host args done debug_exit silent device e = (
  (λ (done', h).
      let ends : emulate host true args done ≡ waits (done ++ runs (emulator host args) ∷ []) =
        rw (run_command, e) refl in
      absurd (not_waits _ _ (sym ends ∙ h))),
  (λ h. absurd (ground (arith, h))),
)

-- In test mode, without `build_only`, on a machine that does all that is asked up to the emulator, whose emulator runs
-- the kernel's fewer than 2^32 tests and has the debug device: `main` returns exactly when the kernel has a test and all tests
-- pass. Otherwise it panics, or waits for the emulator.
pub main-tests :
    (host : Host) (args : Args) (tests : List Test) (debug_exit : ℕ → ℕ)
    → Builds host true args
    → args.build_only ≡ false
    → length tests < 2 ^ 32
    → ((v : ℕ) → debug_exit v ≡ 2 * v + 1)
    → host.ending (emulator host args) ≡ emulator_ending debug_exit (run_tests tests).0
    → ((done : List Action) × (main host true args [] ≡ goes tt done))
      ↔ ((tests ≢ []) × (all_pass tests ≡ true))
main-tests host args tests debug_exit b full small device e =
    let (done, last) = main_last host true args b full in
    let as_halt = emulate_lem host args done debug_exit (run_tests tests).0 device e in
    let as_tests = (run_tests-success tests small).0 in
    (
      (λ (done', h). as_tests.0 (as_halt.0 (done', sym last ∙ h))),
      (λ k. let (done', h) = as_halt.1 (as_tests.1 k) in (done', last ∙ h)),
    )
