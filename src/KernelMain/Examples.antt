-- ===== src/KernelMain/Examples.antt =====
-- A boot loader's information in which everything has its place.
use steelmind_os.Base.{ℕ, ◌≡◌, ◌↔◌, refl, arith, append_assoc, List, [], ◌∷◌, ◌++◌, some, ok}
use steelmind_os.RamDisk.Image.{Hasher}
use steelmind_os.RamDisk.Reader
use steelmind_os.KernelMain.{BootInfo, running, disabled, assert_boot_info, count_aps}
use steelmind_os.KernelMain.Checks.{Sound, assert_boot_info-Sound}
use steelmind_os.Base.{true, false}

abbrev toy : Hasher
toy = record {
  State = List ℕ;
  default = [];
  write = λ s xs. s ++ xs;
  finish = λ s. 0;
  write-append = λ s xs ys. append_assoc s xs ys;
  finish-lt = λ s. omega arith;
}

abbrev info : BootInfo
info = record {
  physical_memory_offset = some 0x3280_0000_0000;
  framebuffer = some (record { start = 0x3300_0000_0000; len = 64; byte_len = 64 });
  disk = Reader.boot_with 0x3380_0000_0000 (0 ∷ []);
}

assert_boot_info-Sound_example : (assert_boot_info toy info ≡ ok tt) ↔ Sound toy info
assert_boot_info-Sound_example = assert_boot_info-Sound toy info

two_aps :
    count_aps (
      record { state = running; is_ap = false }
      ∷ record { state = running; is_ap = true }
      ∷ record { state = disabled; is_ap = true }
      ∷ record { state = running; is_ap = true }
      ∷ [])
    ≡ 2
unfolding count_aps
two_aps = refl
