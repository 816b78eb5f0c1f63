-- ===== src/RamDisk/RoundTrip.antt =====
-- What the kernel reads from a disk is what the image builder wrote.
use Prim.Native.String.{String}
use steelmind_os.Base.{
  ℕ, zero, suc, ◌+◌, ◌-◌, ◌*◌, ◌/◌, ◌≤◌, ◌<◌, ◌≡◌, ◌↔◌, arith, List, [], ◌∷◌, ◌++◌, Option, some,
  length, get_elem?, ok, panic, unwrap, le→leb, lt→ltb, le→ltb, get_elem?-none, Option-cases, inl,
  inr, add64-ok, mul64-ok, get_elem?-append, get_elem?-lt,
}
use steelmind_os.RamDisk.Bytes.{Bytes, words}
use steelmind_os.RamDisk.Image.{Hasher, new, build, user_app_path, create_ram_disk}
use steelmind_os.RamDisk.Reader.{
  boot_with, file_bounds, get_file_count, get_file_slice, assert_soundness,
}
use steelmind_os.RamDisk.Layout.{
  add_all, concat, total, ends_from, boot, Fits, length-disk, u64_slice-disk, drop-disk,
  length-ends_from, total-zero, start_of, slice-disk, start_of-zero, start_of-le,
  get_elem?-ends_from, get_elem?-ends_from_pred,
}

module _ (H : Hasher) (addr : ℕ) (files : List Bytes) (fits : Fits files) where
  -- On a disk built from any files, the kernel counts the files that were put in.
  pub get_file_count-build : get_file_count (boot H addr files) ≡ ok (length files)
  unfolding get_file_count
  get_file_count-build = rw (u64_slice-disk H files addr fits)

  -- A disk built from any files passes the kernel's check exactly when there is a file and
  -- there are at least as many bytes as files.
  pub assert_soundness-build :
      (assert_soundness H (boot H addr files) ≡ ok tt)
      ↔ ((0 < length files) × (length files ≤ total files))
  unfolding assert_soundness
  assert_soundness-build =
      rw (u64_slice-disk H files addr fits, length-disk H files, drop-disk H files)
        (ground (arith, total-zero files))

  file_bounds-table :
      (i : ℕ) {f : Bytes} (rest : List ℕ)
      → get_elem? files i ≡ some f
      → file_bounds (ends_from 0 files ++ rest) i ≡ ok (start_of files i, length f)
  unfolding file_bounds
  file_bounds-table zero {f} rest h =
      rw
        (get_elem?-append (ends_from 0 files) rest 0
          (omega (arith, length-ends_from 0 files, get_elem?-lt files 0 h)))
        (ground (arith, get_elem?-ends_from 0 files 0 h, start_of-zero files))
  file_bounds-table (suc i) {f} rest h =
      let here : suc i < length (ends_from 0 files) =
        omega (arith, length-ends_from 0 files, get_elem?-lt files (suc i) h) in
      let e : suc i - 1 ≡ i = omega arith in
      rw
        (
          e,
          get_elem?-append (ends_from 0 files) rest i (omega arith),
          get_elem?-append (ends_from 0 files) rest (suc i) here,
          get_elem?-ends_from_pred 0 files i h,
          get_elem?-ends_from 0 files (suc i) h,
        )
        (ground arith)

  get_file_slice-none : (i : ℕ) → length files ≤ i → get_file_slice (boot H addr files) i ≡ panic
  unfolding get_file_slice
  get_file_slice-none i h = rw (
    u64_slice-disk H files addr fits,
    le→leb 3
        (suc (suc (suc (length (ends_from 0 files ++ words (total files / 8) (concat files))))))
        (omega arith),
    le→ltb i (length files) h,
  )

  get_file_slice-some :
      (i : ℕ) {f : Bytes} → get_elem? files i ≡ some f → get_file_slice (boot H addr files) i ≡ ok f
  unfolding get_file_slice
  get_file_slice-some i {f} h =
      let rest = words (total files / 8) (concat files) in
      let s = start_of files i in
      let n = length files in
      let e : s + length f ≤ total files = start_of-le files i h in
      rw
        (
          u64_slice-disk H files addr fits,
          le→leb 3 (suc (suc (suc (length (ends_from 0 files ++ rest))))) (omega arith),
          lt→ltb i n (get_elem?-lt files i h),
          file_bounds-table i rest h,
          add64-ok n 3 (omega arith),
          mul64-ok (n + 3) 8 (omega arith),
          add64-ok s ((n + 3) * 8) (omega arith),
          add64-ok (s + (n + 3) * 8) (length f) (omega arith),
        )
        (slice-disk H files i h)

  -- On a disk built from any files, asking for file `i` gives the bytes that were put in as file
  -- `i`, and panics if there is no such file.
  pub get_file_slice-build :
      (i : ℕ) → get_file_slice (boot H addr files) i ≡ unwrap (get_elem? files i)
  get_file_slice-build i = elim (Option-cases (get_elem? files i)) [
    | inl e ↦ rw e (get_file_slice-none i (get_elem?-none files i e))
    | inr (f, e) ↦ rw e (get_file_slice-some i e)
  ]

-- If the build machine has the two programs and the picture, the disk that the image builder makes
-- shows the kernel the main program as file 0, the test program as file 1 and the picture as file 2.
pub get_file_slice-create_ram_disk :
    (H : Hasher) (fs : String → Option Bytes) (target profile : String) (addr : ℕ)
    (main test picture : Bytes)
    → Fits (main ∷ test ∷ picture ∷ [])
    → fs (user_app_path target "main" profile) ≡ some main
    → fs (user_app_path target "test" profile) ≡ some test
    → fs "bootimage/test.jpg" ≡ some picture
    → (disk : Bytes) × (create_ram_disk H fs target profile ≡ ok disk)
      × (let b = boot_with addr disk in
          (get_file_slice b 0 ≡ ok main)
          × (get_file_slice b 1 ≡ ok test)
          × (get_file_slice b 2 ≡ ok picture))
unfolding create_ram_disk add_all
get_file_slice-create_ram_disk H fs target profile addr main test picture fits m t p =
    let files : List Bytes = main ∷ test ∷ picture ∷ [] in
    (
      build H (add_all files new),
      rw (m, t, p),
      (
        get_file_slice-build H addr files fits 0,
        get_file_slice-build H addr files fits 1,
        get_file_slice-build H addr files fits 2,
      ),
    )
