-- ===== src/Memory/Tables.antt =====
-- kernel/src/memory.rs: level 4 page tables, one for each address space, and which one is active.
mod Examples
use steelmind_os.Base.Address.{PhysicalMemory, Reachable, phys_addr, virt_add, virt_add-ok}
use steelmind_os.Base.{
  ◌>>=◌, ℕ, zero, suc, ◌+◌, ◌-◌, ◌/◌, ◌%◌, ◌^◌, ◌≤◌, ◌<◌, ◌≡◌, ◌≢◌, true, ◌⊎◌, inl, refl, sym, ◌∙◌,
  arith, ◌==◌, if◌then◌else◌, some, Checked, ok, panic, add64, add64-ok, sub64, sub64-ok, unwrap,
  put, put_same, put_other, Returns,
}
use native.Mathlib.Decide.{ℕ_discrete}
use steelmind_os.Memory.Frames.{State, allocate_frame}

-- The page tables in memory by the virtual address at which the kernel finds them, with their 512 entries each
-- (0 is unused); the register CR3 with the frame of the active one; and the frames.
pub record Paging : Type 0 where
  pub entries : (table index : ℕ) → ℕ
  pub cr3 : ℕ
  pub frames : State

-- `KERNEL_L4_PAGE_TABLE_RANGE`: 16 entries from this one on.
abbrev pub kernel_entry : ℕ
kernel_entry = 100

-- `Memory::kernel_page_table` and the user's are kept as virtual addresses of tables.
module _ (phys : PhysicalMemory) where
  unfoldable pub page_table_from_frame : (frame : ℕ) → Checked ℕ
  page_table_from_frame frame = virt_add phys phys.offset frame

  -- `PhysFrame::from_start_address` fails on an address that is not aligned.
  unfoldable pub frame_from_page_table : (table : ℕ) → Checked ℕ
  frame_from_page_table table = do
    difference ← sub64 table phys.offset
    address ← phys_addr phys difference
    if address % 4096 == 0 then ok address else panic

  unfoldable pub active_level_4_table : Paging → Checked ℕ
  active_level_4_table p = page_table_from_frame p.cr3

  -- The loop: `new_l4_table[i] = active_l4_table[i].clone()`.
  unfoldable pub copy_entries : (active new rounds i : ℕ) → Paging → Paging
  copy_entries active new zero i p = p
  copy_entries active new (suc rounds) i p =
      copy_entries active new rounds (i + 1)
        (record p { entries = put p.entries new (put (p.entries new) i (p.entries active i)) })

  -- The table is cleared, and gets the kernel's entries of the active one.
  unfoldable pub create_new_l4_page_table : Paging → Checked (ℕ × Paging)
  unfolding active_level_4_table
  create_new_l4_page_table p = do
    active ← active_level_4_table p
    (allocated, frames) ← allocate_frame p.frames
    frame ← unwrap allocated
    new ← page_table_from_frame frame
    let zeroed = record p { frames = frames; entries = put p.entries new (λ _. 0) }
    ok (new, copy_entries active new 16 kernel_entry zeroed)

  -- `Cr3::write`
  unfoldable pub switch_l4_page_table : (l4_table : ℕ) → Paging → Checked Paging
  switch_l4_page_table l4_table p = do
    frame ← frame_from_page_table l4_table
    ok (record p { cr3 = frame })

  -- A table can be switched to, and then is the active one.
  pub switch_l4_page_table-active :
      (frame : ℕ) (p : Paging)
      → Reachable phys frame
      → frame % 4096 ≡ 0
      → (switch_l4_page_table (phys.offset + frame) p ≡ ok (record p { cr3 = frame }))
        × (active_level_4_table (record p { cr3 = frame }) ≡ ok (phys.offset + frame))
  unfolding switch_l4_page_table frame_from_page_table active_level_4_table page_table_from_frame
  switch_l4_page_table-active frame p h e =
      let back : phys.offset + frame - phys.offset ≡ frame = omega arith in
      let aligned : (frame % 4096 == 0) ≡ true = ground (arith, e) in
      rw
        (
          virt_add-ok phys frame h,
          sub64-ok (phys.offset + frame) phys.offset (omega arith),
          back,
          h.physical,
          aligned,
        )
        (refl, refl)

  -- After the loop over `n` entries from `i` on.
  pub record Copied (active new n i : ℕ) (p q : Paging) : Type 0 where
    pub copied : (j : ℕ) → i ≤ j → j < i + n → q.entries new j ≡ p.entries active j
    pub rest : (j : ℕ) → (j < i) ⊎ (i + n ≤ j) → q.entries new j ≡ p.entries new j
    pub others : (t : ℕ) → new ≢ t → q.entries t ≡ p.entries t
    pub cr3 : q.cr3 ≡ p.cr3

  copy_entries-Copied :
      (active new n i : ℕ) (p : Paging)
      → new ≢ active
      → Copied active new n i p (copy_entries active new n i p)
  unfolding copy_entries
  copy_entries-Copied active new zero i p ne = record {
    copied = λ j lo hi. absurd (omega (arith, lo, hi));
    rest = λ j o. refl;
    others = λ t d. refl;
    cr3 = refl;
  }
  copy_entries-Copied active new (suc n) i p ne =
      let row : ℕ → ℕ = put (p.entries new) i (p.entries active i) in
      let p1 : Paging = record p { entries = put p.entries new row } in
      let same_active : p1.entries active ≡ p.entries active =
        put_other p.entries new active row ne in
      let same_new : p1.entries new ≡ row = put_same p.entries new row in
      let c = copy_entries-Copied active new n (i + 1) p1 ne in
      record {
        copied = λ j lo hi. elim (ℕ_discrete i j) [
          | yes e ↦
              c.rest j (inl (omega (arith, e)))
              ∙ rw same_new (rw (sym e) (put_same (p.entries new) i (p.entries active i)))
          | no d ↦ c.copied j (omega (arith, d, lo)) (omega (arith, hi)) ∙ rw same_active refl
        ];
        rest = λ j o. c.rest j (ground (arith, o)) ∙ rw same_new (ground (arith, o));
        others = λ t d. c.others t d ∙ put_other p.entries new t row d;
        cr3 = c.cr3;
      }

  -- The new table of an address space, next to the table that was active.
  pub record Fresh (active new : ℕ) (p q : Paging) : Type 0 where
    pub kernel : (i : ℕ) → 100 ≤ i → i < 116 → q.entries new i ≡ p.entries active i
    pub user : (i : ℕ) → (i < 100) ⊎ (116 ≤ i) → q.entries new i ≡ 0
    pub others : (t : ℕ) → new ≢ t → q.entries t ≡ p.entries t
    pub cr3 : q.cr3 ≡ p.cr3

  -- When the allocator has a frame, other than that of the active table, and the mapping of the physical
  -- memory reaches both tables, at canonical addresses: the new table is at that frame, has the kernel's 16 entries of the active
  -- one and no others, and all other tables stay as they were.
  pub create_new_l4_page_table-Fresh :
      (p : Paging) (frame : ℕ) (frames : State)
      → allocate_frame p.frames ≡ ok (some frame, frames)
      → Reachable phys p.cr3
      → Reachable phys frame
      → frame ≢ p.cr3
      → Returns
          (λ (r : ℕ × Paging). (r.0 ≡ phys.offset + frame) × Fresh (phys.offset + p.cr3) r.0 p r.1)
          (create_new_l4_page_table p)
  unfolding create_new_l4_page_table active_level_4_table page_table_from_frame
  create_new_l4_page_table-Fresh p frame frames run h k ne =
      let active = phys.offset + p.cr3 in
      let new = phys.offset + frame in
      let differ : new ≢ active = λ e. ne (omega (arith, e)) in
      let zeroed : Paging = record p { frames = frames; entries = put p.entries new (λ _. 0) } in
      let c = copy_entries-Copied active new 16 kernel_entry zeroed differ in
      rw (virt_add-ok phys p.cr3 h) (
        rw run (
          rw (virt_add-ok phys frame k) (
            (new, _),
            refl,
            (
              refl,
              record {
                kernel = λ i lo hi.
                    c.copied i lo (omega (arith, hi))
                    ∙ rw (put_other p.entries new active (λ _. 0) differ) refl;
                user =
                    λ i o. c.rest i (ground (arith, o)) ∙ rw (put_same p.entries new (λ _. 0)) refl;
                others = λ t d. c.others t d ∙ put_other p.entries new t (λ _. 0) d;
                cr3 = c.cr3;
              },
            ),
          )))
