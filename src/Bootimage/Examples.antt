-- ===== src/Bootimage/Examples.antt =====
-- A machine on which everything succeeds, with a kernel of two tests that pass; and one on which no build does.
use Prim.Native.String.{String}
use text.Mathlib.Text.{◌==◌}
use text.Mathlib.TextEquality.{eq_iff}
use steelmind_os.Base.{
  ℕ, ◌+◌, ◌*◌, ◌≡◌, ◌≢◌, ◌↔◌, inl, refl, arith, true, false, if◌then◌else◌, Option, none, some,
  List, [], ◌∷◌,
}
use steelmind_os.Tester.{passes, Test, run_tests}
use steelmind_os.Tester.Verdicts.{all_pass}
use steelmind_os.Bootimage.{
  Action, runs, creates_dir, makes_ram_disk, makes_image, removes, renames, Host, ended,
  default_args, goes, kernel_build, user_build, emulator,
}
use steelmind_os.Bootimage.Steps.{main, rotate_logs}
use steelmind_os.Bootimage.Logs.{Files, Keeps, Rotated, replay, rotate_logs-Rotated}
use steelmind_os.Bootimage.Commands.{Stops, main-Stops}
use steelmind_os.Bootimage.Outcome.{main-tests}

abbrev tests : List Test
tests = record { name = 1; verdict = passes } ∷ record { name = 2; verdict = passes } ∷ []

abbrev host : Host
host = record {
  ending = λ cmd. if cmd.program == "qemu-system-x86_64" then ended 33 else ended 0;
  exists = λ path. path == "kernel.log";
  succeeds = λ a. true;
  cargo_target_dir = none;
  ovmf_pure_efi = "OVMF.fd";
  show = λ n. "4";
}

abbrev broken : Host
broken = record host { ending = λ cmd. ended 101 }

-- The command that starts the emulator.
emulator_default : emulator host default_args ≡ record {
  program = "qemu-system-x86_64";
  directory = none;
  args =
      "-drive" ∷ "format=raw,file=bootimage/out/bios.img" ∷ "-device"
      ∷ "isa-debug-exit,iobase=0xf4,iosize=0x04" ∷ "-m" ∷ "8G" ∷ "-smp" ∷ "4" ∷ "-serial" ∷ "stdio"
      ∷ [];
}
unfolding emulator
emulator_default = refl

main-tests_example :
    ((done : List Action) × (main host true default_args [] ≡ goes tt done))
    ↔ ((tests ≢ []) × (all_pass tests ≡ true))
unfolding emulator kernel_build user_build run_tests
main-tests_example =
    main-tests host default_args tests (λ v. 2 * v + 1)
      (record { assembler = (0, refl); kernel = refl; user = refl; files = λ a. refl }) refl
      (omega arith) (λ v. refl) refl

main-Stops_example : Stops (main broken false default_args [])
main-Stops_example = main-Stops broken false default_args (inl (λ e. ground (arith, e)))

-- Files as a function.
abbrev Disk : Type 0
Disk = String → Option (List ℕ)

unfoldable files : Files Disk
files = record {
  content = λ f path. f path;
  remove = λ path f other. if path == other then none else f other;
  rename =
      λ old new f other. if new == other then f old else (if old == other then none else f other);
  removed = λ path f. ground (arith, eq_iff path path);
  remove_keeps = λ path other f ne. ground (arith, eq_iff path other, ne);
  renamed = λ old new f. ground (arith, eq_iff new new);
  moved = λ old new f ne. ground (arith, eq_iff new old, eq_iff old old, ne);
  rename_keeps = λ old new other f a b. ground (arith, eq_iff new other, eq_iff old other, a, b);
}

-- There is a log, and no last log.
abbrev disk : Disk
disk path = if path == "kernel.log" then some (1 ∷ []) else none

abbrev on_disk : Host
on_disk = record host {
  exists = λ path. path == "kernel.log";
  succeeds = λ a. elim a [
    | runs cmd ↦ true
    | creates_dir path ↦ true
    | makes_ram_disk name ↦ true
    | makes_image loader kernel path ↦ true
    | removes path ↦ path == "kernel.log"
    | renames old new ↦ old == "kernel.log"
  ];
}

on_disk-Keeps : Keeps files on_disk disk
unfolding files
on_disk-Keeps = record {
  looks = λ path. ground arith;
  may_remove = λ path. ground arith;
  may_rename = λ old new. ground arith;
}

rotate_logs-Rotated_example :
    (done : List Action) × (rotate_logs on_disk [] ≡ goes tt done)
    × Rotated files disk (replay files done disk)
unfolding files
rotate_logs-Rotated_example = rotate_logs-Rotated files on_disk disk (1 ∷ []) on_disk-Keeps refl
