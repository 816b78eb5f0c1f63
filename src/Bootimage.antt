-- ===== src/Bootimage.antt =====
-- bootimage/src/main.rs: the command line that builds the kernel and the applications, makes the disk images
-- and starts the emulator.
pub mod Steps
pub mod Commands
pub mod Outcome
pub mod Logs
mod Examples
use Prim.Native.String.{String, ◌++◌ as ◌<>◌}
use steelmind_os.Base.{
  ℕ, Bool, true, false, ◌==◌, if◌then◌else◌, Option, none, some, List, [], ◌∷◌, ◌++◌,
}

pub data Bootloader : Type 0 where
  uefi bios : Bootloader

pub data RedirectSerial : Type 0 where
  nowhere file stdout : RedirectSerial

pub data Profile : Type 0 where
  dev opt_dev release : Profile

pub record Args : Type 0 where
  pub smp : ℕ
  pub build_only : Bool
  pub bootloader : Bootloader
  pub test : Bool
  pub redirect_serial : RedirectSerial
  pub kernel_profile : Profile
  pub user_app_profile : Profile
  pub assemble_smp_trampoline : Bool

-- The crate `clap`: what the options are when none is given.
abbrev pub default_args : Args
default_args = record {
  smp = 4;
  build_only = false;
  bootloader = bios;
  test = false;
  redirect_serial = stdout;
  kernel_profile = opt_dev;
  user_app_profile = opt_dev;
  assemble_smp_trampoline = false;
}

-- `std::process::Command`
pub record Command : Type 0 where
  pub program : String
  pub directory : Option String
  pub args : List String

abbrev pub arg : String → Command → Command
arg a cmd = record cmd { args = cmd.args ++ a ∷ [] }

abbrev pub more_args : List String → Command → Command
more_args more cmd = record cmd { args = cmd.args ++ more }

-- What the tool does to the machine that it runs on, in order: what fails is not listed.
pub data Action : Type 0 where
  runs : Command → Action
  creates_dir : String → Action
  makes_ram_disk : (profile_name : String) → Action
  makes_image : Bootloader → (kernel path : String) → Action
  removes : String → Action
  renames : (old new : String) → Action

-- How a command ends: it cannot be run, a signal kills it, it ends with a code, or it does not end.
pub data Ending : Type 0 where
  refused killed : Ending
  ended : (code : ℕ) → Ending
  forever : Ending

-- What the machine answers: the ending of each command, whether a file exists, and whether an operation on
-- files, or the making of a RAM disk or an image, goes well.
pub record Host : Type 0 where
  pub ending : Command → Ending
  pub exists : String → Bool
  pub succeeds : Action → Bool
  pub cargo_target_dir : Option String
  pub ovmf_pure_efi : String
  pub show : ℕ → String

-- The tool goes on with a result, or panics, or waits for a command that does not end; with what it has done.
pub data Run (A : Type 0) : Type 0 where
  goes : A → List Action → Run A
  panics : List Action → Run A
  waits : List Action → Run A

abbrev pub Tool : Type 0 → Type 0
Tool A = List Action → Run A

infixl 5 ◌>>=◌ ◌>>◌
abbrev pub ◌>>=◌ : {A B : Type 0} → Tool A → (A → Tool B) → Tool B
◌>>=◌ m f done = elim (m done) [
  | goes a done' ↦ f a done'
  | panics done' ↦ panics done'
  | waits done' ↦ waits done'
]

abbrev pub ◌>>◌ : {B : Type 0} → Tool (Unit {0}) → Tool B → Tool B
m >> k = m >>= λ _. k

abbrev pub pure : {A : Type 0} → A → Tool A
pure a done = goes a done

abbrev pub when : Bool → Tool (Unit {0}) → Tool (Unit {0})
when true m = m
when false m = pure tt

abbrev pub assert : Bool → Tool (Unit {0})
assert true = pure tt
assert false = λ done. panics done

-- `add_profile_args`, with the command that it extends.
unfoldable pub add_profile_args : Profile → Command → String × Command
add_profile_args dev cmd = ("debug", cmd)
add_profile_args opt_dev cmd = ("opt-dev", more_args ("--profile" ∷ "opt-dev" ∷ []) cmd)
add_profile_args release cmd = ("release-lto", more_args ("--profile" ∷ "release-lto" ∷ []) cmd)

-- `unwrap_or` on `CARGO_TARGET_DIR`.
abbrev pub unwrap_or : String → Option String → String
unwrap_or d none = d
unwrap_or d (some s) = s

abbrev pub nasm : Command
nasm = record {
  program = "nasm";
  directory = some "kernel/smp_trampoline";
  args = "-fbin" ∷ "ap.asm" ∷ "-o" ∷ "ap.bin" ∷ [];
}

unfoldable pub kernel_build : (test_mode : Bool) → Profile → String × Command
unfolding add_profile_args
kernel_build test_mode profile =
    let cmd : Command = record {
      program = "cargo";
      directory = none;
      args = "build" ∷ "--bin" ∷ "kernel" ∷ "--target" ∷ "x86_64-unknown-none" ∷ [];
    } in
    let (name, cmd') = add_profile_args profile cmd in
    (name, if test_mode then more_args ("--features" ∷ "testing" ∷ []) cmd' else cmd')

unfoldable pub user_build : Profile → String × Command
unfolding add_profile_args
user_build profile =
    add_profile_args profile
      (record { program = "cargo"; directory = some "user_app"; args = "build" ∷ [] })

abbrev pub uefi_path : String
uefi_path = "bootimage/out/uefi.img"

abbrev pub bios_path : String
bios_path = "bootimage/out/bios.img"

abbrev pub log : String
log = "kernel.log"

abbrev pub last_log : String
last_log = "kernel_last.log"

abbrev pub boot_args : Bootloader → (ovmf : String) → List String
boot_args bios ovmf = "-drive" ∷ ("format=raw,file=" <> bios_path) ∷ []
boot_args uefi ovmf = "-bios" ∷ ovmf ∷ "-drive" ∷ ("format=raw,file=" <> uefi_path) ∷ []

abbrev pub serial_args : RedirectSerial → List String
serial_args nowhere = []
serial_args file = "-serial" ∷ ("file:" <> log) ∷ []
serial_args stdout = "-serial" ∷ "stdio" ∷ []

module _ (host : Host) where
  unfoldable pub emulator : Args → Command
  emulator args =
      let cmd : Command = record { program = "qemu-system-x86_64"; directory = none; args = [] } in
      let cmd1 = more_args (boot_args args.bootloader host.ovmf_pure_efi) cmd in
      let cmd2 =
        more_args ("-device" ∷ "isa-debug-exit,iobase=0xf4,iosize=0x04" ∷ "-m" ∷ "8G" ∷ []) cmd1 in
      more_args (serial_args args.redirect_serial) (arg (host.show args.smp) (arg "-smp" cmd2))

  -- `spawn().unwrap().wait().unwrap()`, with `code()` of the status.
  unfoldable pub run_command : Command → Tool (Option ℕ)
  run_command cmd done = elim (host.ending cmd) [
    | refused ↦ panics done
    | killed ↦ goes none (done ++ runs cmd ∷ [])
    | ended code ↦ goes (some code) (done ++ runs cmd ∷ [])
    | forever ↦ waits (done ++ runs cmd ∷ [])
  ]

  -- A file operation, or the making of a file, and `unwrap`.
  unfoldable pub act : Action → Tool (Unit {0})
  act a done = if host.succeeds a then goes tt (done ++ a ∷ []) else panics done

  -- `let _ =`: whether it goes well does not matter.
  unfoldable pub attempt : Action → Tool (Unit {0})
  attempt a done = goes tt (if host.succeeds a then done ++ a ∷ [] else done)

abbrev pub success : Option ℕ → Bool
success none = false
success (some code) = code == 0

abbrev pub is_code : ℕ → Option ℕ → Tool (Unit {0})
is_code wanted none = λ done. panics done
is_code wanted (some code) = assert (code == wanted)
