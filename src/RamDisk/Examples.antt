-- ===== src/RamDisk/Examples.antt =====
-- A small disk, and the theorems at it. The checksum is a toy: the sum of the bytes.
use steelmind_os.Base.{
  ℕ, ◌+◌, ◌%◌, ◌^◌, ◌≤◌, ◌<◌, ◌≡◌, ◌↔◌, arith, List, [], ◌∷◌, ◌++◌, length, append_assoc, ok,
}
use steelmind_os.RamDisk.Bytes.{Bytes}
use steelmind_os.RamDisk.Image.{Hasher}
use steelmind_os.RamDisk.Reader.{get_file_slice, assert_soundness}
use steelmind_os.RamDisk.Layout.{boot, total}
use steelmind_os.RamDisk.RoundTrip.{assert_soundness-build, get_file_slice-build}

abbrev sum_bytes : Bytes → ℕ
sum_bytes [] = 0
sum_bytes (b ∷ bs) = b + sum_bytes bs

abbrev toy : Hasher
toy = record {
  State = Bytes;
  default = [];
  write = λ s xs. s ++ xs;
  finish = λ s. sum_bytes s % 2 ^ 32;
  write-append = λ s xs ys. append_assoc s xs ys;
  finish-lt = λ s. omega arith;
}

abbrev two_files : List Bytes
two_files = (7 ∷ 8 ∷ 9 ∷ []) ∷ (1 ∷ []) ∷ []

get_file_slice-build_example : get_file_slice (boot toy 4096 two_files) 1 ≡ ok (1 ∷ [])
unfolding total
get_file_slice-build_example = get_file_slice-build toy 4096 two_files (omega arith) 1

assert_soundness-build_example :
    (assert_soundness toy (boot toy 4096 two_files) ≡ ok tt)
    ↔ ((0 < length two_files) × (length two_files ≤ total two_files))
unfolding total
assert_soundness-build_example = assert_soundness-build toy 4096 two_files (omega arith)
