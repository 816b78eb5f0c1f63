-- ===== src/RamDisk/Layout.antt =====
-- What a disk holds, told without the writer: its files, one behind the other, behind a header of
-- words. The writer of `Image` makes this layout.
use steelmind_os.Base.{
  ℕ, zero, suc, ◌+◌, ◌-◌, ◌*◌, ◌/◌, ◌^◌, ◌≤◌, ◌<◌, ◌≡◌, refl, ap, ◌∙◌, arith, List, [], ◌∷◌, ◌++◌,
  some, length, length-append, take, drop, get_elem?, take-append, drop-append, append_assoc,
  append-nil, drop-drop, slice, slice-ok, ok,
}
use steelmind_os.RamDisk.Bytes.{
  Bytes, to_le_bytes, all_le_bytes, length-all_le_bytes, words, words-all_le_bytes, AllU64,
  length-to_le_bytes,
}
use steelmind_os.RamDisk.Image.{Hasher, Image, new, append_region, build}
use steelmind_os.RamDisk.Reader.{BootInfo, boot_with, ramdisk_u64_slice}

-- The image that results from adding the files in turn.
unfoldable pub add_all : List Bytes → Image → Image
unfolding append_region
add_all [] img = img
add_all (f ∷ fs) img = add_all fs (append_region f img)

unfoldable pub concat : List Bytes → Bytes
concat [] = []
concat (f ∷ fs) = f ++ concat fs

-- The bytes of all files together.
unfoldable pub total : List Bytes → ℕ
total [] = 0
total (f ∷ fs) = length f + total fs

-- Where each region ends, the first beginning at `a`.
unfoldable pub ends_from : ℕ → List Bytes → List ℕ
ends_from a [] = []
ends_from a (f ∷ fs) = (a + length f) ∷ ends_from (a + length f) fs

-- A boot with the disk of these files in memory at `addr`.
abbrev pub boot : Hasher → ℕ → List Bytes → BootInfo
boot H addr files = boot_with addr (build H (add_all files new))

-- The length of the whole disk fits 64 bits.
abbrev pub Fits : List Bytes → Type 0
Fits files = 8 * (length files + 3) + total files < 2 ^ 64

pub length-concat : (fs : List Bytes) → length (concat fs) ≡ total fs
unfolding concat total
length-concat [] = refl
length-concat (f ∷ fs) = omega (arith, length-append f (concat fs), length-concat fs)

pub total-zero : (fs : List Bytes) → length fs ≡ 0 → total fs ≡ 0
unfolding total
total-zero [] h = refl
total-zero (f ∷ fs) h = absurd (omega arith)

-- The bytes before file `i`.
unfoldable pub start_of : List Bytes → ℕ → ℕ
start_of [] i = 0
start_of (f ∷ fs) zero = 0
start_of (f ∷ fs) (suc i) = length f + start_of fs i

pub start_of-zero : (fs : List Bytes) → start_of fs 0 ≡ 0
unfolding start_of
start_of-zero [] = refl
start_of-zero (f ∷ fs) = refl

-- The entry of the table for file `i`, and the entry before it.
pub get_elem?-ends_from :
    (a : ℕ) (fs : List Bytes) (i : ℕ) {f : Bytes}
    → get_elem? fs i ≡ some f
    → get_elem? (ends_from a fs) i ≡ some (a + start_of fs i + length f)
unfolding ends_from start_of
get_elem?-ends_from a [] i h = absurd (cc)
get_elem?-ends_from a (g ∷ fs) zero h = ground arith
get_elem?-ends_from a (g ∷ fs) (suc i) h = ground (arith, get_elem?-ends_from (a + length g) fs i h)

pub get_elem?-ends_from_pred :
    (a : ℕ) (fs : List Bytes) (i : ℕ) {f : Bytes}
    → get_elem? fs (suc i) ≡ some f
    → get_elem? (ends_from a fs) i ≡ some (a + start_of fs (suc i))
unfolding ends_from start_of
get_elem?-ends_from_pred a [] i h = absurd (cc)
get_elem?-ends_from_pred a (g ∷ []) zero h = absurd (cc)
get_elem?-ends_from_pred a (g ∷ f ∷ fs) zero h = ground arith
get_elem?-ends_from_pred a (g ∷ fs) (suc i) h =
    ground (arith, get_elem?-ends_from_pred (a + length g) fs i h)

pub start_of-le :
    (fs : List Bytes) (i : ℕ) {f : Bytes}
    → get_elem? fs i ≡ some f
    → start_of fs i + length f ≤ total fs
unfolding start_of total
start_of-le [] i h = absurd (cc)
start_of-le (g ∷ fs) zero h = ground arith
start_of-le (g ∷ fs) (suc i) h = omega (arith, start_of-le fs i h)

-- The contents, cut where the table says.
pub slice-concat :
    (fs : List Bytes) (i : ℕ) {f : Bytes}
    → get_elem? fs i ≡ some f
    → take (length f) (drop (start_of fs i) (concat fs)) ≡ f
unfolding start_of concat
slice-concat [] i h = absurd (cc)
slice-concat (g ∷ fs) zero {f} h =
    let e : f ≡ g = cc in rw e (take-append (length g) g (concat fs) refl)
slice-concat (g ∷ fs) (suc i) h =
    rw
      (
        drop-drop (length g) (start_of fs i) (g ++ concat fs),
        drop-append (length g) g (concat fs) refl,
      )
      (slice-concat fs i h)

pub length-ends_from : (a : ℕ) (fs : List Bytes) → length (ends_from a fs) ≡ length fs
unfolding ends_from
length-ends_from a [] = refl
length-ends_from a (f ∷ fs) = ap suc (length-ends_from (a + length f) fs)

AllU64-ends_from : (a : ℕ) (fs : List Bytes) → a + total fs < 2 ^ 64 → AllU64 (ends_from a fs)
unfolding ends_from total
AllU64-ends_from a [] h = tt
AllU64-ends_from a (f ∷ fs) h = (omega arith, AllU64-ends_from (a + length f) fs (omega arith))

add_all-shape :
    (fs : List Bytes) (img : Image)
    → add_all fs img ≡ record {
      region_ends = img.region_ends ++ ends_from (length img.buffer) fs;
      buffer = img.buffer ++ concat fs;
    }
unfolding add_all ends_from concat append_region
add_all-shape [] img = rw (append-nil img.region_ends, append-nil img.buffer)
add_all-shape (f ∷ fs) img =
    add_all-shape fs (append_region f img) ∙ simp (append_assoc, length-append)

all_le_bytes_two :
    (t c : ℕ) (ws : List ℕ) (buf : Bytes)
    → all_le_bytes (t ∷ c ∷ ws) ++ buf
      ≡ to_le_bytes t ++ (to_le_bytes c ++ (all_le_bytes ws ++ buf))
unfolding all_le_bytes
all_le_bytes_two t c ws buf = simp append_assoc

module _ (H : Hasher) (files : List Bytes) where
  open H use {default, write, finish, write-append}

  abbrev pub region_words : List ℕ
  region_words = length files ∷ ends_from 0 files

  abbrev pub checksum_of : ℕ
  checksum_of = finish (write default (all_le_bytes region_words ++ concat files))

  abbrev pub header : List ℕ
  header = (8 * (length files + 3) + total files) ∷ checksum_of ∷ region_words

  -- The disk is its header, as little-endian words, and the contents.
  pub disk-shape : build H (add_all files new) ≡ all_le_bytes header ++ concat files
  unfolding build
  disk-shape = rw (add_all-shape files new) (
      unfold new in
      rw
        (
          write-append default (all_le_bytes (length (ends_from 0 files) ∷ ends_from 0 files))
              (concat files),
          length-ends_from 0 files,
          all_le_bytes_two (8 * (length files + 3) + total files) checksum_of region_words
              (concat files),
        )
        (ap
          (λ n.
            to_le_bytes n
            ++ (to_le_bytes checksum_of ++ (all_le_bytes region_words ++ concat files)))
          (omega (
            arith,
            length-all_le_bytes region_words,
            length-concat files,
            length-ends_from 0 files,
          ))))

  pub AllU64-header : Fits files → AllU64 header
  AllU64-header h = (h, (H.finish-lt _, (omega arith, AllU64-ends_from 0 files (omega arith))))

  pub length-header : length header ≡ length files + 3
  length-header = omega (arith, length-ends_from 0 files)

  -- What the checksum covers: all behind the first two words.
  pub drop-disk : drop 16 (build H (add_all files new)) ≡ all_le_bytes region_words ++ concat files
  drop-disk =
      rw
        (
          disk-shape,
          all_le_bytes_two (8 * (length files + 3) + total files) checksum_of region_words
              (concat files),
          ← append_assoc (to_le_bytes (8 * (length files + 3) + total files))
              (to_le_bytes checksum_of) (all_le_bytes region_words ++ concat files),
        )
        (drop-append 16
          (to_le_bytes (8 * (length files + 3) + total files) ++ to_le_bytes checksum_of) _
          (omega (
            arith,
            length-append (to_le_bytes (8 * (length files + 3) + total files))
                (to_le_bytes checksum_of),
            length-to_le_bytes (8 * (length files + 3) + total files),
            length-to_le_bytes checksum_of,
          )))

  pub length-disk : length (build H (add_all files new)) ≡ 8 * (length files + 3) + total files
  length-disk =
      rw (disk-shape, length-append (all_le_bytes header) (concat files))
        (omega (arith, length-all_le_bytes header, length-header, length-concat files))

  -- Read as words, the disk shows its header first.
  pub u64_slice-disk :
      (addr : ℕ)
      → Fits files
      → ramdisk_u64_slice (boot H addr files) ≡ header ++ words (total files / 8) (concat files)
  unfolding ramdisk_u64_slice
  u64_slice-disk addr h =
      let e : length (build H (add_all files new)) / 8 ≡ length header + total files / 8 =
        omega (arith, length-disk, length-header) in
      rw (e, disk-shape)
        (words-all_le_bytes header (total files / 8) (concat files) (AllU64-header h))

  pub slice-disk :
      (i : ℕ) {f : Bytes}
      → get_elem? files i ≡ some f
      → let start = start_of files i + (length files + 3) * 8 in
        slice (build H (add_all files new)) start (start + length f) ≡ ok f
  slice-disk i {f} h =
      let s = start_of files i in
      let k : ℕ = length (all_le_bytes header) in
      let same : s + (length files + 3) * 8 ≡ k + s =
        omega (arith, length-all_le_bytes header, length-header) in
      let long : k + s + length f ≤ length (build H (add_all files new)) =
        omega
          (arith, length-disk, start_of-le files i h, length-all_le_bytes header, length-header) in
      let size : k + s + length f - (k + s) ≡ length f = omega arith in
      rw (
        same,
        slice-ok _ (k + s) (k + s + length f) (omega arith) long,
        size,
        disk-shape,
        drop-drop k s (all_le_bytes header ++ concat files),
        drop-append k (all_le_bytes header) (concat files) refl,
        slice-concat files i h,
      )
