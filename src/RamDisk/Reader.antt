-- ===== src/RamDisk/Reader.antt =====
-- kernel/src/ram_disk.rs: the kernel's view of the disk that the boot loader placed in memory.
use steelmind_os.Base.{
  ℕ, ◌+◌, ◌-◌, ◌/◌, Option, some, none, List, Bool, true, false, length, leb, ltb, ◌==◌,
  if◌then◌else◌, Checked, ok, ◌>>=◌, ◌>>◌, ass, unwrap, add64, sub64, mul64, index, slice_from,
  slice,
}
use steelmind_os.RamDisk.Bytes.{Bytes, words}
use steelmind_os.RamDisk.Image.{Hasher}

-- The two fields of `BootInfo` that matter here. `ramdisk` is the memory region of `ramdisk_len`
-- bytes that starts at `ramdisk_addr`.
pub record BootInfo : Type 0 where
  pub ramdisk_addr : Option ℕ
  pub ramdisk : Bytes

-- A boot that found the disk at `addr`.
abbrev pub boot_with : ℕ → Bytes → BootInfo
boot_with addr disk = record { ramdisk_addr = some addr; ramdisk = disk }

abbrev pub ramdisk_len : BootInfo → ℕ
ramdisk_len b = length b.ramdisk

-- `from_raw_parts(ramdisk_ptr as *const u64, ramdisk_len / 8)`
unfoldable pub ramdisk_u64_slice : BootInfo → List ℕ
unfolding words
ramdisk_u64_slice b = words (ramdisk_len b / 8) b.ramdisk

unfoldable pub file_bounds : List ℕ → ℕ → Checked (ℕ × ℕ)
file_bounds file_end_slice i =
    if i == 0 then (do size ← index file_end_slice 0; ok (0, size)) else (do
      start ← index file_end_slice (i - 1)
      end ← index file_end_slice i
      size ← sub64 end start
      ok (start, size))

unfoldable pub get_file_slice : BootInfo → ℕ → Checked Bytes
unfolding ramdisk_u64_slice
get_file_slice b i = do
  addr ← unwrap b.ramdisk_addr
  let u64s = ramdisk_u64_slice b
  file_count ← index u64s 2
  file_end_slice ← slice_from u64s 3
  ass (ltb i file_count)
  (raw_file_start, file_size) ← file_bounds file_end_slice i
  head ← add64 file_count 3
  head_bytes ← mul64 head 8
  file_start ← add64 raw_file_start head_bytes
  file_end ← add64 file_start file_size
  slice b.ramdisk file_start file_end

unfoldable pub get_file_count : BootInfo → Checked ℕ
unfolding ramdisk_u64_slice
get_file_count b = do addr ← unwrap b.ramdisk_addr; index (ramdisk_u64_slice b) 2

abbrev is_some : Option ℕ → Bool
is_some none = false
is_some (some _) = true

-- Panics where the disk is damaged.
unfoldable pub assert_soundness : Hasher → BootInfo → Checked (Unit {0})
unfolding ramdisk_u64_slice
assert_soundness H b = do
  ass (is_some b.ramdisk_addr)
  ass (leb (8 + 8 + 8 + 8 + 1) (ramdisk_len b))
  let u64s = ramdisk_u64_slice b
  ram_disk_read_length ← index u64s 0
  ass (ram_disk_read_length == ramdisk_len b)
  ram_disk_read_checksum ← index u64s 1
  hashed ← slice_from b.ramdisk 16
  let checksum = H.finish (H.write H.default hashed)
  ass (ram_disk_read_checksum == checksum)
  file_count ← index u64s 2
  a ← sub64 ram_disk_read_length 8
  b' ← sub64 a 8
  c ← sub64 b' 8
  ass (leb file_count (c / 9))
