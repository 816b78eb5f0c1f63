-- ===== src/Loader/Application/Calls.antt =====
-- kernel/src/loader.rs: the functions that the kernel gives to an application.
use steelmind_os.Base.{
  ℕ, zero, suc, ◌+◌, ◌≡◌, refl, ap, Option, List, ◌++◌, [], ◌∷◌, Checked, ok, ◌>>=◌, unwrap, put,
  put_same, put_other, ◌≢◌,
}
use steelmind_os.Smp.Local.{Cells, get_cld}
use steelmind_os.Allocator.{Layout}
use steelmind_os.Loader.Application.{ApplicationResources}

-- The crate `buddy_system_allocator`, and `core::str::from_utf8`.
pub record Libraries (H : Type 0) : Type 0 where
  pub alloc : Layout → H → ℕ × H
  pub dealloc : (ptr : ℕ) → Layout → H → H
  pub from_utf8 : List ℕ → Option (List ℕ)

-- What these functions reach: the memory in bytes, the core local data, whose running application is named by where its
-- resources are; the resources; and the screen, as what was printed.
pub record Kernel (H F S : Type 0) : Type 0 where
  pub bytes : ℕ → ℕ
  pub cells : Cells ℕ F S
  pub resources : ℕ → ApplicationResources H
  pub printed : List (List ℕ)

-- `slice::from_raw_parts`
unfoldable pub raw_parts : (string len : ℕ) → (ℕ → ℕ) → List ℕ
raw_parts string zero m = []
raw_parts string (suc len) m = m string ∷ raw_parts (string + 1) len m

module _ {H F S : Type 0} (lib : Libraries H) (apic_id : ℕ) where
  unfoldable pub print : (string len : ℕ) → Kernel H F S → Checked (Kernel H F S)
  unfolding raw_parts
  print string len k = do
    text ← unwrap (lib.from_utf8 (raw_parts string len k.bytes))
    ok (record k { printed = k.printed ++ text ∷ [] })

  -- `get_cld().running_application_data.as_mut().unwrap().application_resources`
  unfoldable pub app_res : Kernel H F S → Checked ℕ
  app_res k = do cld ← get_cld apic_id k.cells; unwrap cld.running_application_data

  unfoldable pub alloc : (size alignment : ℕ) → Kernel H F S → Checked (ℕ × Kernel H F S)
  unfolding app_res
  alloc size alignment k = do
    app ← app_res k
    let (ptr, heap) = lib.alloc (record { size = size; align = alignment }) (k.resources app).heap
    ok (
      ptr,
      record k { resources = put k.resources app (record (k.resources app) { heap = heap }) },
    )

  unfoldable pub dealloc : (ptr size alignment : ℕ) → Kernel H F S → Checked (Kernel H F S)
  unfolding app_res
  dealloc ptr size alignment k = do
    app ← app_res k
    let heap = lib.dealloc ptr (record { size = size; align = alignment }) (k.resources app).heap
    ok (record k { resources = put k.resources app (record (k.resources app) { heap = heap }) })

  -- A call of `alloc` that returns has taken a block from the heap of the application that runs on the calling core; the
  -- heaps of all other applications are as they were.
  pub alloc-own_heap :
      (size alignment app : ℕ) (k : Kernel H F S)
      → app_res k ≡ ok app
      → (r : ℕ × Kernel H F S) × (alloc size alignment k ≡ ok r)
        × ((r.0, (r.1.resources app).heap)
            ≡ lib.alloc (record { size = size; align = alignment }) (k.resources app).heap)
        × ((other : ℕ) → app ≢ other → r.1.resources other ≡ k.resources other)
  unfolding alloc
  alloc-own_heap size alignment app k h =
      let given = lib.alloc (record { size = size; align = alignment }) (k.resources app).heap in
      let mine : ApplicationResources H = record (k.resources app) { heap = given.1 } in
      rw h (
        (given.0, record k { resources = put k.resources app mine }),
        refl,
        ap (λ (x : ApplicationResources H). (given.0, x.heap)) (put_same k.resources app mine),
        λ other ne. put_other k.resources app other mine ne,
      )
