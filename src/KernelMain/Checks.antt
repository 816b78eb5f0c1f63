-- ===== src/KernelMain/Checks.antt =====
-- When the checks of kernel/src/main.rs pass.
use steelmind_os.Base.{
  ℕ, ◌<◌, ◌≡◌, ◌↔◌, sym, ap, ◌∙◌, ◌==◌, ltb, ltb→lt, lt→ltb, ==_iff, some, ok, ass_inv, unwrap_inv,
}
use steelmind_os.Constants.{kernel_dynamic_start, kernel_dynamic_end}
use steelmind_os.RamDisk.Image.{Hasher}
use steelmind_os.RamDisk.Reader.{assert_soundness}
use steelmind_os.KernelMain.{FrameBuffer, BootInfo, unwrap_or, assert_boot_info}

-- Strictly within the range that the boot loader was told to map to.
abbrev pub InDynamic : ℕ → Type 0
InDynamic a = (kernel_dynamic_start < a) × (a < kernel_dynamic_end)

pub record Sound (H : Hasher) (b : BootInfo) : Type 0 where
  pub fb : FrameBuffer
  pub framebuffer : b.framebuffer ≡ some fb
  pub length : fb.len ≡ fb.byte_len
  pub fb_range : InDynamic fb.start
  pub ramdisk_addr : ℕ
  pub ramdisk : b.disk.ramdisk_addr ≡ some ramdisk_addr
  pub ramdisk_range : InDynamic ramdisk_addr
  pub offset : ℕ
  pub physical : b.physical_memory_offset ≡ some offset
  pub offset_range : InDynamic offset
  pub disk : assert_soundness H b.disk ≡ ok tt

-- The checks pass exactly when there is a frame buffer as long as its description says, the frame buffer, the RAM
-- disk and the mapping of the physical memory all begin within the kernel's dynamic range, and the RAM disk is
-- sound. Otherwise they panic.
pub assert_boot_info-Sound :
    (H : Hasher) (b : BootInfo) → (assert_boot_info H b ≡ ok tt) ↔ Sound H b
unfolding assert_boot_info
assert_boot_info-Sound H b = (
  (λ h0.
      let (o, physical, h1) = unwrap_inv b.physical_memory_offset _ tt h0 in
      let (fb, framebuffer, h2) = unwrap_inv b.framebuffer _ tt h1 in
      let (len, h3) = ass_inv (fb.len == fb.byte_len) _ tt h2 in
      let (lo, h4) = ass_inv (ltb kernel_dynamic_start fb.start) _ tt h3 in
      let (disk_lo, h5) =
        ass_inv (ltb kernel_dynamic_start (unwrap_or b.disk.ramdisk_addr 0)) _ tt h4 in
      let (off_lo, h6) =
        ass_inv (ltb kernel_dynamic_start (unwrap_or b.physical_memory_offset 0)) _ tt h5 in
      let (hi, h7) = ass_inv (ltb fb.start kernel_dynamic_end) _ tt h6 in
      let (r, ramdisk, h8) = unwrap_inv b.disk.ramdisk_addr _ tt h7 in
      let (disk_hi, h9) = ass_inv (ltb r kernel_dynamic_end) _ tt h8 in
      let (p, physical', h10) = unwrap_inv b.physical_memory_offset _ tt h9 in
      let (off_hi, h11) = ass_inv (ltb p kernel_dynamic_end) _ tt h10 in
      record {
        fb = fb;
        framebuffer = framebuffer;
        length = (==_iff _ _).0 len;
        fb_range = (ltb→lt _ _ lo, ltb→lt _ _ hi);
        ramdisk_addr = r;
        ramdisk = ramdisk;
        ramdisk_range = (
          ltb→lt _ _ (sym (ap (λ o. ltb kernel_dynamic_start (unwrap_or o 0)) ramdisk) ∙ disk_lo),
          ltb→lt _ _ disk_hi,
        );
        offset = p;
        physical = physical';
        offset_range = (
          ltb→lt _ _ (sym (ap (λ o. ltb kernel_dynamic_start (unwrap_or o 0)) physical') ∙ off_lo),
          ltb→lt _ _ off_hi,
        );
        disk = h11;
      }),
  λ s.
      simp (s.physical, s.framebuffer, s.ramdisk)
        (rw
          (
            (==_iff s.fb.len s.fb.byte_len).1 s.length,
            lt→ltb kernel_dynamic_start s.fb.start s.fb_range.0,
            lt→ltb s.fb.start kernel_dynamic_end s.fb_range.1,
            lt→ltb kernel_dynamic_start s.ramdisk_addr s.ramdisk_range.0,
            lt→ltb s.ramdisk_addr kernel_dynamic_end s.ramdisk_range.1,
            lt→ltb kernel_dynamic_start s.offset s.offset_range.0,
            lt→ltb s.offset kernel_dynamic_end s.offset_range.1,
          )
          s.disk),
)
