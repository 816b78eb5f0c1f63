-- ===== src/Constants/Layout.antt =====
-- The virtual address space: addresses are built from and taken apart into table indices, and the
-- regions of the layout do not overlap.
use steelmind_os.Base.{
  ℕ, ◌+◌, ◌*◌, ◌/◌, ◌%◌, ◌^◌, ◌-◌, ◌≤◌, ◌<◌, ◌≡◌, refl, arith, lt→ltb, ok, or_sum, and_mask,
}
use steelmind_os.Constants.{
  build_addr, print_addr, kernel_start, kernel_dynamic_start, kernel_dynamic_end, kernel_heap_start,
  kernel_ap_stacks, kernel_end, user_start, user_stack_start, user_heap_start, user_end,
  kernel_stack_size, user_stack_size, max_cores,
}

build_addr-sum :
    (l4 l3 l2 l1 offset : ℕ)
    → l4 < 512
    → l3 < 512
    → l2 < 512
    → l1 < 512
    → offset < 4096
    → build_addr l4 l3 l2 l1 offset
      ≡ ok (l4 * 2 ^ 39 + l3 * 2 ^ 30 + l2 * 2 ^ 21 + l1 * 2 ^ 12 + offset)
unfolding build_addr
build_addr-sum l4 l3 l2 l1 offset h4 h3 h2 h1 h0 = rw (
  lt→ltb l4 512 h4,
  lt→ltb l3 512 h3,
  lt→ltb l2 512 h2,
  lt→ltb l1 512 h1,
  lt→ltb offset 4096 h0,
  or_sum 39 (l4 * 2 ^ 39) (l3 * 2 ^ 30) (omega arith) (omega arith),
  or_sum 30 (l4 * 2 ^ 39 + l3 * 2 ^ 30) (l2 * 2 ^ 21) (omega arith) (omega arith),
  or_sum 21 (l4 * 2 ^ 39 + l3 * 2 ^ 30 + l2 * 2 ^ 21) (l1 * 2 ^ 12) (omega arith) (omega arith),
  or_sum 12 (l4 * 2 ^ 39 + l3 * 2 ^ 30 + l2 * 2 ^ 21 + l1 * 2 ^ 12) offset (omega arith)
      (omega arith),
)

print_addr-digits :
    (a : ℕ)
    → print_addr a ≡ record {
      l4 = a / 2 ^ 12 / 2 ^ 9 / 2 ^ 9 / 2 ^ 9 % 2 ^ 9;
      l3 = a / 2 ^ 12 / 2 ^ 9 / 2 ^ 9 % 2 ^ 9;
      l2 = a / 2 ^ 12 / 2 ^ 9 % 2 ^ 9;
      l1 = a / 2 ^ 12 % 2 ^ 9;
      offset = a % 2 ^ 12;
    }
unfolding print_addr
print_addr-digits a = rw (
  and_mask 9 (a / 2 ^ 12 / 2 ^ 9 / 2 ^ 9 / 2 ^ 9),
  and_mask 9 (a / 2 ^ 12 / 2 ^ 9 / 2 ^ 9),
  and_mask 9 (a / 2 ^ 12 / 2 ^ 9),
  and_mask 9 (a / 2 ^ 12),
  and_mask 12 a,
)

-- An address built from indices below their limits is printed with these indices, and is below 2^48.
pub print_addr-build_addr :
    (l4 l3 l2 l1 offset : ℕ)
    → l4 < 512
    → l3 < 512
    → l2 < 512
    → l1 < 512
    → offset < 4096
    → (a : ℕ) × (build_addr l4 l3 l2 l1 offset ≡ ok a)
      × (print_addr a ≡ record { l4 = l4; l3 = l3; l2 = l2; l1 = l1; offset = offset })
      × (a < 2 ^ 48)
print_addr-build_addr l4 l3 l2 l1 offset h4 h3 h2 h1 h0 =
    let a = l4 * 2 ^ 39 + l3 * 2 ^ 30 + l2 * 2 ^ 21 + l1 * 2 ^ 12 + offset in
    let d1 : a / 2 ^ 12 ≡ l4 * 2 ^ 27 + l3 * 2 ^ 18 + l2 * 2 ^ 9 + l1 = omega arith in
    let d2 : a / 2 ^ 12 / 2 ^ 9 ≡ l4 * 2 ^ 18 + l3 * 2 ^ 9 + l2 = omega arith in
    let d3 : a / 2 ^ 12 / 2 ^ 9 / 2 ^ 9 ≡ l4 * 2 ^ 9 + l3 = omega arith in
    let e4 : a / 2 ^ 12 / 2 ^ 9 / 2 ^ 9 / 2 ^ 9 % 2 ^ 9 ≡ l4 = omega (arith, d3) in
    let e3 : a / 2 ^ 12 / 2 ^ 9 / 2 ^ 9 % 2 ^ 9 ≡ l3 = omega (arith, d3) in
    let e2 : a / 2 ^ 12 / 2 ^ 9 % 2 ^ 9 ≡ l2 = omega (arith, d2) in
    let e1 : a / 2 ^ 12 % 2 ^ 9 ≡ l1 = omega (arith, d1) in
    let e0 : a % 2 ^ 12 ≡ offset = omega arith in
    (
      a,
      build_addr-sum l4 l3 l2 l1 offset h4 h3 h2 h1 h0,
      rw (print_addr-digits a, e4, e3, e2, e1, e0) refl,
      omega arith,
    )

-- The regions of the layout stand one after the other: the user's stack and heap, then the kernel's
-- image, dynamic range and heap, and the stacks of the other cores, which 255 stacks with their guard
-- pages do not fill.
pub regions-ordered :
    (user_start ≤ user_stack_start)
    × (user_stack_start + user_stack_size ≤ user_heap_start)
    × (user_heap_start < user_end)
    × (user_end ≤ kernel_start)
    × (kernel_start < kernel_dynamic_start)
    × (kernel_dynamic_start < kernel_dynamic_end)
    × (kernel_dynamic_end ≤ kernel_heap_start)
    × (kernel_heap_start < kernel_ap_stacks)
    × (kernel_ap_stacks + (max_cores - 1) * (kernel_stack_size + 4096) ≤ kernel_end)
unfolding kernel_start kernel_dynamic_start kernel_dynamic_end kernel_heap_start kernel_ap_stacks
    kernel_end user_start user_stack_start user_heap_start user_end
regions-ordered = (
  omega arith,
  omega arith,
  omega arith,
  omega arith,
  omega arith,
  omega arith,
  omega arith,
  omega arith,
  omega arith,
)
