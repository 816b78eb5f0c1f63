-- ===== src/Constants.antt =====
-- kernel/src/constants.rs: the layout of the virtual address space.
pub mod Layout
use steelmind_os.Base.{
  ℕ, ◌*◌, ◌/◌, ◌^◌, ◌-◌, bit_and, bit_or, ltb, Checked, ok, panic, ◌>>=◌, ◌>>◌, ass,
}

abbrev pub kernel_stack_size : ℕ
kernel_stack_size = 4096 * 1024

abbrev pub user_stack_size : ℕ
user_stack_size = 4096 * 4096

abbrev pub max_cores : ℕ
max_cores = 256

-- The shifts of `u32` arguments widened to `u64`: below 512, none loses a bit.
unfoldable pub build_addr : (l4 l3 l2 l1 offset : ℕ) → Checked ℕ
build_addr l4 l3 l2 l1 offset = do
  ass (ltb l4 512)
  ass (ltb l3 512)
  ass (ltb l2 512)
  ass (ltb l1 512)
  ass (ltb offset 4096)
  ok (
      bit_or (bit_or (bit_or (bit_or (l4 * 2 ^ 39) (l3 * 2 ^ 30)) (l2 * 2 ^ 21)) (l1 * 2 ^ 12))
        offset)

-- The five numbers that `print_addr` prints.
pub record Parts : Type 0 where
  pub l4 : ℕ
  pub l3 : ℕ
  pub l2 : ℕ
  pub l1 : ℕ
  pub offset : ℕ

unfoldable pub print_addr : ℕ → Parts
print_addr addr =
    let l1 = addr / 2 ^ 12 in
    let l2 = l1 / 2 ^ 9 in
    let l3 = l2 / 2 ^ 9 in
    let l4 = l3 / 2 ^ 9 in
    record {
      l4 = bit_and l4 (512 - 1);
      l3 = bit_and l3 (512 - 1);
      l2 = bit_and l2 (512 - 1);
      l1 = bit_and l1 (512 - 1);
      offset = bit_and addr (4096 - 1);
    }

abbrev address : Checked ℕ → ℕ
address (ok a) = a
address panic = 0

-- The module `v`.
unfoldable pub kernel_start : ℕ
unfolding build_addr
kernel_start = address (build_addr 100 0 0 0 0)

unfoldable pub kernel_dynamic_start : ℕ
unfolding build_addr
kernel_dynamic_start = address (build_addr 100 0 0 1 0)

unfoldable pub kernel_dynamic_end : ℕ
unfolding build_addr
kernel_dynamic_end = address (build_addr 108 0 0 0 0)

unfoldable pub kernel_heap_start : ℕ
unfolding build_addr
kernel_heap_start = address (build_addr 108 0 0 0 0)

unfoldable pub kernel_ap_stacks : ℕ
unfolding build_addr
kernel_ap_stacks = address (build_addr 109 0 0 0 0)

unfoldable pub kernel_end : ℕ
unfolding build_addr
kernel_end = address (build_addr 116 0 0 0 0)

unfoldable pub user_start : ℕ
unfolding build_addr
user_start = address (build_addr 0 0 0 0 0)

unfoldable pub user_stack_start : ℕ
unfolding build_addr
user_stack_start = address (build_addr 0 4 0 0 0)

unfoldable pub user_heap_start : ℕ
unfolding build_addr
user_heap_start = address (build_addr 0 8 0 0 0)

unfoldable pub user_end : ℕ
unfolding build_addr
user_end = address (build_addr 1 0 0 0 0)
