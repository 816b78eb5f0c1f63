-- ===== src/Bootimage/Commands.antt =====
-- Which commands `main` of bootimage/src/main.rs depends on: a build that fails is the end.
use Prim.Native.String.{String}
use steelmind_os.Base.{
  ◌≡◌, ◌≢◌, ◌⊎◌, inl, inr, refl, ap, arith, Bool, true, false, ◌==◌, ==_iff, List, [], ◌∷◌, ◌++◌,
  Bool-cases,
}
use steelmind_os.Bootimage.{
  Args, Command, Action, runs, creates_dir, makes_ram_disk, makes_image, removes, renames, Host,
  Ending, refused, killed, ended, forever, Run, goes, panics, waits, Tool, ◌>>=◌, pure, nasm,
  kernel_build, user_build, run_command,
}
use steelmind_os.Bootimage.Steps.{assemble, build_with, main}

-- Nothing but commands has been run: no directory, RAM disk, image or file has been made, removed or renamed.
abbrev pub only_runs : List Action → Bool
only_runs [] = true
only_runs (runs cmd ∷ done) = only_runs done
only_runs (creates_dir path ∷ done) = false
only_runs (makes_ram_disk name ∷ done) = false
only_runs (makes_image loader kernel path ∷ done) = false
only_runs (removes path ∷ done) = false
only_runs (renames old new ∷ done) = false

only_runs-runs :
    (done : List Action) (c : Command)
    → only_runs done ≡ true
    → only_runs (done ++ runs c ∷ []) ≡ true
only_runs-runs [] c h = refl
only_runs-runs (runs cmd ∷ done) c h = only_runs-runs done c h
only_runs-runs (creates_dir path ∷ done) c h = absurd (ground (arith, h))
only_runs-runs (makes_ram_disk name ∷ done) c h = absurd (ground (arith, h))
only_runs-runs (makes_image loader kernel path ∷ done) c h = absurd (ground (arith, h))
only_runs-runs (removes path ∷ done) c h = absurd (ground (arith, h))
only_runs-runs (renames old new ∷ done) c h = absurd (ground (arith, h))

-- Only commands so far, and where the tool goes on, as said.
abbrev Guarded : {A : Type 0} → Type 0 → Run A → Type 0
Guarded P (goes a done) = P × (only_runs done ≡ true)
Guarded P (panics done) = only_runs done ≡ true
Guarded P (waits done) = only_runs done ≡ true

-- The tool does not go on, and only commands have been run.
abbrev pub Stops : {A : Type 0} → Run A → Type 0
Stops (goes a done) = ⊥
Stops (panics done) = only_runs done ≡ true
Stops (waits done) = only_runs done ≡ true

abbrev continue : {A B : Type 0} → (A → Tool B) → Run A → Run B
continue f (goes a done) = f a done
continue f (panics done) = panics done
continue f (waits done) = waits done

continue-Stops :
    {A B : Type 0} (P : Type 0) (f : A → Tool B) (r : Run A)
    → Guarded P r
    → ((a : A) (d : List Action) → P → only_runs d ≡ true → Stops (f a d))
    → Stops (continue f r)
continue-Stops P f (goes a d) (p, o) k = k a d p o
continue-Stops P f (panics d) o k = o
continue-Stops P f (waits d) o k = o

module _ (host : Host) where
  by_ending :
      (c : String × Command) (done : List Action) (e : Ending)
      → host.ending c.1 ≡ e
      → only_runs done ≡ true
      → Guarded (host.ending c.1 ≡ ended 0) (build_with host c done)
  unfolding build_with run_command
  by_ending c done refused h o = rw (run_command, h) o
  by_ending c done killed h o = rw (run_command, h) (only_runs-runs done c.1 o)
  by_ending c done (ended code) h o = elim (Bool-cases (code == 0)) [
    | inl z ↦ rw (run_command, h, z) (ap ended ((==_iff code 0).0 z), only_runs-runs done c.1 o)
    | inr z ↦ rw (run_command, h, z) (only_runs-runs done c.1 o)
  ]
  by_ending c done forever h o = rw (run_command, h) (only_runs-runs done c.1 o)

  nasm-Guarded :
      (e : Ending)
      → host.ending nasm ≡ e
      → Guarded (Unit {0}) ((run_command host nasm >>= λ code. pure tt) [])
  unfolding run_command
  nasm-Guarded refused h = rw (run_command, h) refl
  nasm-Guarded killed h = rw (run_command, h) (tt, refl)
  nasm-Guarded (ended code) h = rw (run_command, h) (tt, refl)
  nasm-Guarded forever h = rw (run_command, h) refl

  assemble-Guarded :
      (args : Args) (b : Bool)
      → args.assemble_smp_trampoline ≡ b
      → Guarded (Unit {0}) (assemble host args [])
  unfolding assemble
  assemble-Guarded args false h = rw h (tt, refl)
  assemble-Guarded args true h = rw h (nasm-Guarded (host.ending nasm) refl)

  -- When one of the two builds does not end with 0, `main` does not return, in whatever mode, and it has done nothing but
  -- run commands: no image is made of a build that failed, and the logs stay where they are.
  pub main-Stops :
      (test_mode : Bool) (args : Args)
      → (host.ending (kernel_build test_mode args.kernel_profile).1 ≢ ended 0)
        ⊎ (host.ending (user_build args.user_app_profile).1 ≢ ended 0)
      → Stops (main host test_mode args [])
  unfolding main
  main-Stops test_mode args bad =
      continue-Stops (Unit {0}) _ (assemble host args []) (assemble-Guarded args _ refl)
        λ _ d1 _ o1.
          continue-Stops (host.ending (kernel_build test_mode args.kernel_profile).1 ≡ ended 0) _
            (build_with host (kernel_build test_mode args.kernel_profile) d1)
            (by_ending (kernel_build test_mode args.kernel_profile) d1 _ refl o1)
            λ kernel d2 k o2.
              continue-Stops (host.ending (user_build args.user_app_profile).1 ≡ ended 0) _
                (build_with host (user_build args.user_app_profile) d2)
                (by_ending (user_build args.user_app_profile) d2 _ refl o2)
                λ user d3 u o3. absurd (elim bad [ inl n ↦ n k | inr n ↦ n u ])
