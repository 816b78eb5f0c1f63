-- ===== src/Smp/Stacks.antt =====
-- Which pages the stacks of the other cores take, and that each core's stack pointer lies in its own.
use steelmind_os.Base.{
  ℕ, zero, suc, ◌+◌, ◌-◌, ◌*◌, ◌%◌, ◌≤◌, ◌<◌, ◌≡◌, refl, sym, ap, arith, List, [], ◌∷◌, ◌++◌, true,
  false, Option, Checked, ok, ◌>>=◌, mem, mem-append, ◌∙◌, bind_assoc, bind_same,
}
use steelmind_os.Base.Address.{Align}
use steelmind_os.Constants.{kernel_ap_stacks}
use steelmind_os.Memory.Mapping.{Flags, Memory, map_ram_kernel}
use steelmind_os.Smp.{
  pages_per_core, calc_stack_stride, stack_base, stack_pointer, stack_flags, map_stack, map_stacks,
  allocate_stacks,
}

-- `n` pages from `p` on.
unfoldable pub pages : ℕ → ℕ → List ℕ
pages zero p = []
pages (suc n) p = p ∷ pages n (p + 4096)

-- For each core, `n` pages above a guard page.
unfoldable pub stack_pages : ℕ → ℕ → ℕ → List ℕ
stack_pages n zero p = []
stack_pages n (suc cores) p = pages n (p + 4096) ++ stack_pages n cores (p + (n + 1) * 4096)

module _ {T : Type 0}
    (map_to : (page : ℕ) → Flags → (frame : ℕ) → Memory T → Option (Memory T)) where
  -- A frame of RAM behind each page of a list.
  abbrev pub map_all : List ℕ → Memory T → Checked (Memory T)
  map_all [] m = ok m
  map_all (p ∷ ps) m = map_ram_kernel map_to p stack_flags m >>= λ r. map_all ps r.1

  map_all-append :
      (ps qs : List ℕ) (m : Memory T)
      → map_all (ps ++ qs) m ≡ (map_all ps m >>= λ m'. map_all qs m')
  map_all-append [] qs m = refl
  map_all-append (p ∷ ps) qs m =
      bind_same (map_ram_kernel map_to p stack_flags m) _ _ (λ r. map_all-append ps qs r.1)
      ∙ sym (bind_assoc (map_ram_kernel map_to p stack_flags m) _ _)

  map_stack-pages :
      (n p e : ℕ) (m : Memory T)
      → e ≡ p + n * 4096
      → map_stack map_to n p m ≡ (map_all (pages n p) m >>= λ m'. ok (e, m'))
  unfolding map_stack pages
  map_stack-pages zero p e m h = ap (λ (v : ℕ). ok (v, m)) (omega arith)
  map_stack-pages (suc n) p e m h =
      bind_same (map_ram_kernel map_to p stack_flags m) _ _
        (λ r. map_stack-pages n (p + 4096) e r.1 (omega arith))
      ∙ sym (bind_assoc (map_ram_kernel map_to p stack_flags m) _ _)

  map_stacks-pages :
      (c n p : ℕ) (m : Memory T) → map_stacks map_to c n p m ≡ map_all (stack_pages c n p) m
  unfolding map_stacks stack_pages
  map_stacks-pages c zero p m = refl
  map_stacks-pages c (suc n) p m =
      let ps = pages c (p + 4096) in
      let next = p + (c + 1) * 4096 in
      ap (λ (r : Checked (ℕ × Memory T)). r >>= λ t. map_stacks map_to c n t.0 t.1)
        (map_stack-pages c (p + 4096) next m (omega arith))
      ∙ bind_assoc (map_all ps m) (λ m'. ok (next, m')) (λ t. map_stacks map_to c n t.0 t.1)
      ∙ bind_same (map_all ps m) _ _ (λ m'. map_stacks-pages c n next m')
      ∙ sym (map_all-append ps (stack_pages c n next) m)

pub pages_per_core-eq : (al : Align) → pages_per_core al ≡ 1024
unfolding pages_per_core
pages_per_core-eq al =
    omega (arith, al.up_ge 4194304 12, al.up_least 4194304 12 4194304 (omega arith) refl)

-- `allocate_stacks` maps, for each core in order, 1024 pages above one that it leaves out, and nothing
-- else; where a page cannot be mapped, it panics as the mapping does.
pub allocate_stacks-pages :
    {T : Type 0} (map_to : (page : ℕ) → Flags → (frame : ℕ) → Memory T → Option (Memory T))
    (al : Align) (cores : ℕ) (m : Memory T)
    → allocate_stacks map_to al cores m ≡ map_all map_to (stack_pages 1024 cores kernel_ap_stacks) m
unfolding allocate_stacks
allocate_stacks-pages map_to al cores m =
    map_stacks-pages map_to (pages_per_core al) cores kernel_ap_stacks m
    ∙ ap (λ (c : ℕ). map_all map_to (stack_pages c cores kernel_ap_stacks) m) (pages_per_core-eq al)

in_pages : (n p x : ℕ) → p ≤ x → x < p + n * 4096 → x % 4096 ≡ p % 4096 → mem x (pages n p) ≡ true
unfolding pages
in_pages zero p x h k e = absurd (omega arith)
in_pages (suc n) p x h k e = ground (arith, in_pages n (p + 4096) x)

below_pages : (n p x : ℕ) → x < p → mem x (pages n p) ≡ false
unfolding pages
below_pages zero p x h = refl
below_pages (suc n) p x h = ground (arith, below_pages n (p + 4096) x)

above_pages : (n p x : ℕ) → p + n * 4096 ≤ x → mem x (pages n p) ≡ false
unfolding pages
above_pages zero p x h = refl
above_pages (suc n) p x h = ground (arith, above_pages n (p + 4096) x)

below_stacks : (n p x : ℕ) → x ≤ p → mem x (stack_pages 1024 n p) ≡ false
unfolding stack_pages
below_stacks zero p x h = refl
below_stacks (suc n) p x h = ground (
  arith,
  mem-append x (pages 1024 (p + 4096)) (stack_pages 1024 n (p + 1025 * 4096)),
  below_pages 1024 (p + 4096) x,
  below_stacks n (p + 1025 * 4096) x,
)

guard_unmapped :
    (n p i x : ℕ) → i < n → x ≡ p + i * (1025 * 4096) → mem x (stack_pages 1024 n p) ≡ false
unfolding stack_pages
guard_unmapped zero p i x h e = absurd (omega arith)
guard_unmapped (suc n) p zero x h e = below_stacks (suc n) p x (omega arith)
guard_unmapped (suc n) p (suc i) x h e = ground (
  arith,
  mem-append x (pages 1024 (p + 4096)) (stack_pages 1024 n (p + 1025 * 4096)),
  above_pages 1024 (p + 4096) x,
  guard_unmapped n (p + 1025 * 4096) i x,
)

stack_mapped :
    (n p i x : ℕ)
    → i < n
    → x % 4096 ≡ p % 4096
    → p + i * (1025 * 4096) + 4096 ≤ x
    → x < p + (i + 1) * (1025 * 4096)
    → mem x (stack_pages 1024 n p) ≡ true
unfolding stack_pages
stack_mapped zero p i x h e k l = absurd (omega arith)
stack_mapped (suc n) p zero x h e k l = ground (
  arith,
  mem-append x (pages 1024 (p + 4096)) (stack_pages 1024 n (p + 1025 * 4096)),
  in_pages 1024 (p + 4096) x,
)
stack_mapped (suc n) p (suc i) x h e k l = ground (
  arith,
  mem-append x (pages 1024 (p + 4096)) (stack_pages 1024 n (p + 1025 * 4096)),
  stack_mapped n (p + 1025 * 4096) i x,
)

stack_pointer-eq :
    (al : Align) (i : ℕ) → stack_pointer al i + 1 ≡ kernel_ap_stacks + (i + 1) * (1025 * 4096)
unfolding stack_pointer stack_base calc_stack_stride
stack_pointer-eq al i = rw (pages_per_core-eq al) (omega arith)

-- The 1024 pages below the stack pointer of the core with index `i`, of `cores`, are among the pages of
-- the stacks.
pub stack_pointer-mapped :
    (al : Align) (cores i x : ℕ)
    → i < cores
    → x % 4096 ≡ 0
    → x ≤ stack_pointer al i
    → stack_pointer al i < x + 1024 * 4096
    → mem x (stack_pages 1024 cores kernel_ap_stacks) ≡ true
unfolding kernel_ap_stacks
stack_pointer-mapped al cores i x h e k l =
    let sp = stack_pointer-eq al i in
    stack_mapped cores kernel_ap_stacks i x h (omega arith) (omega arith) (omega arith)

-- The page below the 1024 pages of the core with index `i`, of `cores`, is not a page of any stack.
pub stack_pointer-guarded :
    (al : Align) (cores i : ℕ)
    → i < cores
    → mem (stack_pointer al i + 1 - 1025 * 4096) (stack_pages 1024 cores kernel_ap_stacks) ≡ false
unfolding kernel_ap_stacks
stack_pointer-guarded al cores i h =
    let sp = stack_pointer-eq al i in guard_unmapped cores kernel_ap_stacks i _ h (omega arith)
