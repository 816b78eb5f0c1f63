-- ===== src/RamDisk/Image.antt =====
-- bootimage/src/main.rs: `Image` collects files into one buffer with the end of each region, and
-- `build` writes the disk: total length, checksum, file count, region ends, contents.
use Prim.Native.String.{String, ◌++◌ as str_append}
use steelmind_os.Base.{
  ℕ, ◌+◌, ◌<◌, ◌^◌, ◌≡◌, Option, List, [], ◌∷◌, ◌++◌, length, Checked, ok, ◌>>=◌, unwrap,
}
use steelmind_os.RamDisk.Bytes.{Bytes, to_le_bytes, all_le_bytes}

-- The streaming checksum of the crate `pruefung`: `write` in pieces is `write` of the whole.
pub record Hasher : Type 1 where
  pub State : Type 0
  pub default : State
  pub write : State → Bytes → State
  pub finish : State → ℕ
  pub write-append : (s : State) (xs ys : Bytes) → write (write s xs) ys ≡ write s (xs ++ ys)
  pub finish-lt : (s : State) → finish s < 2 ^ 64

pub record Image : Type 0 where
  pub region_ends : List ℕ
  pub buffer : Bytes

unfoldable pub new : Image
new = record { region_ends = []; buffer = [] }

-- What both `add_file` and `add_string` do with the bytes they have.
unfoldable pub append_region : Bytes → Image → Image
append_region content img =
    let all = img.buffer ++ content in
    record { region_ends = img.region_ends ++ length all ∷ []; buffer = all }

unfoldable pub add_string : Bytes → Image → Image
unfolding append_region
add_string content img = append_region content img

-- `target` is `CARGO_TARGET_DIR` or its default.
unfoldable pub user_app_path : String → String → String → String
user_app_path target name profile_name =
    str_append target
      (str_append "/x86_64-unknown-steelmind_os/" (str_append profile_name (str_append "/" name)))

-- The files of the build machine are a parameter: opening a missing file panics.
module _ (fs : String → Option Bytes) where
  unfoldable pub add_file : String → Image → Checked Image
  unfolding append_region
  add_file path img = do content ← unwrap (fs path); ok (append_region content img)

  unfoldable pub add_user_app : String → String → String → Image → Checked Image
  unfolding add_file
  add_user_app target name profile_name img = add_file (user_app_path target name profile_name) img

module _ (H : Hasher) where
  open H use {default, write, finish}

  -- The bytes of the image file.
  unfoldable pub build : Image → Bytes
  build img =
      let ends = length img.region_ends ∷ img.region_ends in
      let region_lengths_buf = all_le_bytes ends in
      let checksum = finish (write (write default region_lengths_buf) img.buffer) in
      to_le_bytes (length region_lengths_buf + length img.buffer + 8 + 8)
      ++ (to_le_bytes checksum ++ (region_lengths_buf ++ img.buffer))

  unfoldable pub create_ram_disk : (String → Option Bytes) → String → String → Checked Bytes
  unfolding add_file add_user_app
  create_ram_disk fs target profile_name = do
    a ← add_user_app fs target "main" profile_name new
    b ← add_user_app fs target "test" profile_name a
    c ← add_file fs "bootimage/test.jpg" b
    ok (build c)
