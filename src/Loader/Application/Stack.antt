-- ===== src/Loader/Application/Stack.antt =====
-- kernel/src/loader.rs: what `allocate_stack` does to the pages of an address space.
use steelmind_os.Base.{
  ℕ, zero, suc, ◌+◌, ◌*◌, ◌≤◌, ◌<◌, ◌≡◌, ◌≢◌, ◌⊎◌, inl, sym, ap, ◌∙◌, arith, true, ltb, leb, ◌&&◌,
  some, ok, ass_inv, unwrap_inv, bind_inv, ok_injective,
}
use mathlib.Core.Path.{subst}
use native.Mathlib.Decide.{ℕ_discrete}
use steelmind_os.Constants.{user_start, user_end, user_stack_start}
use steelmind_os.Memory.Frames.{allocate_frame}
use steelmind_os.Memory.Mapping.{Flags, Memory, map_frame, map_ram_user}
use steelmind_os.Loader.{stack_flags, map_stack, allocate_stack}
use steelmind_os.Loader.Segments.{Mapper}

-- `PRESENT | USER_ACCESSIBLE`, as `map_ram_user` adds them.
abbrev pub for_user : Flags → Flags
for_user flags = record flags { present = true; user_accessible = true }

module _ {T : Type 0} (M : Mapper T) where
  open M use {flags_of, map_to}

  map_ram_user-sets :
      (page : ℕ) (flags : Flags) (m : Memory T) (r : ℕ × Memory T)
      → map_ram_user map_to page flags m ≡ ok r
      → (flags_of r.1.table page ≡ some (for_user flags))
        × ((q : ℕ) → page ≢ q → flags_of r.1.table q ≡ flags_of m.table q)
  unfolding map_ram_user map_frame
  map_ram_user-sets page flags m r h =
      let (in_range, h1) = ass_inv (leb user_start page && ltb page user_end) _ r h in
      let (allocated, run, h2) = bind_inv (allocate_frame m.frames) _ r h1 in
      let (frame, got, h3) = unwrap_inv allocated.0 _ r h2 in
      let before : Memory T = record m { frames = allocated.1 } in
      let (m', mapped, h4) = unwrap_inv (map_to page (for_user flags) frame before) _ r h3 in
      let e : m' ≡ r.1 = ap (λ (x : ℕ × Memory T). x.1) (ok_injective _ _ h4) in
      subst
        (λ (x : Memory T).
          (flags_of x.table page ≡ some (for_user flags))
          × ((q : ℕ) → page ≢ q → flags_of x.table q ≡ flags_of m.table q))
        e
        (
          M.map_sets page (for_user flags) frame before m' mapped,
          λ q ne. M.map_keeps page (for_user flags) frame before m' q mapped ne,
        )

  -- From `t` to `t'` the `n` pages from number `i` on have been mapped as a stack, and no others have changed.
  pub record StackMapped (n i base : ℕ) (t t' : T) : Type 0 where
    pub stack :
        (j : ℕ) → i ≤ j → j < i + n → flags_of t' (base + j * 4096) ≡ some (for_user stack_flags)
    pub others :
        (q : ℕ) → (q < base + i * 4096) ⊎ (base + (i + n) * 4096 ≤ q) → flags_of t' q ≡ flags_of t q

  map_stack-StackMapped :
      (n i base : ℕ) (m m' : Memory T)
      → map_stack map_to n i base m ≡ ok m'
      → StackMapped n i base m.table m'.table
  unfolding map_stack
  map_stack-StackMapped zero i base m m' h =
      let e : m ≡ m' = ok_injective _ _ h in
      record {
        stack = λ j lo hi. absurd (omega (arith, lo, hi));
        others = λ q o. ap (λ (x : Memory T). flags_of x.table q) (sym e);
      }
  map_stack-StackMapped (suc n) i base m m' h =
      let (r, run, h1) = bind_inv (map_ram_user map_to (base + i * 4096) stack_flags m) _ m' h in
      let (sets, keeps) = map_ram_user-sets (base + i * 4096) stack_flags m r run in
      let rest = map_stack-StackMapped n (i + 1) base r.1 m' h1 in
      record {
        stack = λ j lo hi. elim (ℕ_discrete i j) [
          | yes e ↦
              rest.others (base + j * 4096) (inl (omega (arith, e)))
              ∙ ap (λ k. flags_of r.1.table (base + k * 4096)) (sym e)
              ∙ sets
          | no ne ↦ rest.stack j (omega (arith, ne, lo)) (omega (arith, hi))
        ];
        others = λ q o. rest.others q (ground (arith, o)) ∙ keeps q (λ e. ground (arith, e, o));
      }

  -- The stack's 4095 pages lie above one that is left as it was, for a guard.
  pub allocate_stack-StackMapped :
      (m m' : Memory T)
      → allocate_stack map_to m ≡ ok m'
      → StackMapped 4095 0 (user_stack_start + 4096) m.table m'.table
  unfolding allocate_stack
  allocate_stack-StackMapped m m' h = map_stack-StackMapped 4095 0 (user_stack_start + 4096) m m' h
