-- ===== src/Bootimage/Steps.antt =====
-- The parts of `main` in bootimage/src/main.rs, in order.
use Prim.Native.String.{String, ◌++◌ as ◌<>◌}
use steelmind_os.Base.{Bool, if◌then◌else◌}
use steelmind_os.Bootimage.{
  uefi, bios, Args, Command, creates_dir, makes_ram_disk, makes_image, removes, renames, Host, Tool,
  ◌>>=◌, ◌>>◌, pure, when, assert, unwrap_or, nasm, kernel_build, user_build, uefi_path, bios_path,
  log, last_log, emulator, run_command, act, attempt, success, is_code,
}

module _ (host : Host) where
  unfoldable pub assemble : Args → Tool (Unit {0})
  assemble args = when args.assemble_smp_trampoline (run_command host nasm >>= λ _. pure tt)

  -- A build that fails is a panic.
  unfoldable pub build_with : String × Command → Tool String
  build_with (name, cmd) = do code ← run_command host cmd; assert (success code); pure name

  unfoldable pub kernel_path : (kernel_profile : String) → String
  kernel_path kernel_profile =
      unwrap_or "target" host.cargo_target_dir
      <> ("/x86_64-unknown-none/" <> (kernel_profile <> "/kernel"))

  -- Both images, around the RAM disk, which is removed afterwards.
  unfoldable pub make_images : (kernel_profile user_profile : String) → Tool (Unit {0})
  make_images kernel_profile user_profile = do
    let kernel = kernel_path kernel_profile
    attempt host (creates_dir "bootimage/out")
    act host (makes_ram_disk user_profile)
    act host (makes_image uefi kernel uefi_path)
    act host (makes_image bios kernel bios_path)
    act host (removes "ram disk")

  unfoldable pub rotate_logs : Tool (Unit {0})
  rotate_logs =
      when (host.exists log) (
        when (host.exists last_log) (act host (removes last_log))
        >> act host (renames log last_log))

  unfoldable pub emulate : (test_mode : Bool) → Args → Tool (Unit {0})
  emulate test_mode args = do
    exit_code ← run_command host (emulator host args)
    when test_mode (is_code 33 exit_code)

  -- What comes behind the images.
  unfoldable pub finish : (build_only test_mode : Bool) → Args → Tool (Unit {0})
  finish build_only test_mode args =
      if build_only then pure tt else (rotate_logs >> emulate test_mode args)

  -- `main`, once the arguments are parsed; `test_mode` is `args.test`, or true in the test of the tool itself.
  unfoldable pub main : (test_mode : Bool) → Args → Tool (Unit {0})
  main test_mode args = do
    assemble args
    kernel_profile ← build_with (kernel_build test_mode args.kernel_profile)
    user_profile ← build_with (user_build args.user_app_profile)
    make_images kernel_profile user_profile
    finish args.build_only test_mode args
