-- ===== src/Loader/Switch/Entry.antt =====
-- What an application finds when it starts.
use steelmind_os.Base.{ℕ, ◌+◌, ◌-◌, ◌%◌, ◌≤◌, ◌<◌, ◌≡◌, ◌≢◌, ◌⊎◌, refl, arith, none}
use steelmind_os.Constants.{user_stack_start, user_end}
use steelmind_os.Loader.Cpu.{Regs, Cpu, at, execute}
use steelmind_os.Loader.Switch.{Layout, Resources, Core, label, enter, new_rsp}

-- The fields that the assembly uses lie in the kernel's memory, apart from one another and from the
-- four words that it pushes on the kernel's stack.
pub record Apart (l : Layout) (sp : ℕ) : Type 0 where
  pub room : user_end + 32 ≤ sp
  pub saved_high : user_end ≤ l.saved_stack_pointer
  pub abort_high : user_end ≤ l.abort_addr
  pub differ : l.saved_stack_pointer ≢ l.abort_addr
  pub saved_apart : (l.saved_stack_pointer + 32 < sp) ⊎ (sp ≤ l.saved_stack_pointer)
  pub abort_apart : (l.abort_addr + 32 < sp) ⊎ (sp ≤ l.abort_addr)

-- What the way back needs of the memory `m`, when the core's registers were `r`.
pub record Saved (l : Layout) (r : Regs) (m : ℕ → ℕ) : Type 0 where
  pub below : m (new_rsp l - 8) ≡ l.back
  pub abort : m l.abort_addr ≡ l.back
  pub saved : m l.saved_stack_pointer ≡ r.sp - 32
  pub word_bx : m (r.sp - 8) ≡ r.bx
  pub word_bp : m (r.sp - 16) ≡ r.bp
  pub word_n14 : m (r.sp - 24) ≡ r.n14
  pub word_n15 : m (r.sp - 32) ≡ r.n15

pub record Entered (l : Layout) (resources : Resources) (r : Regs) (c : Cpu) : Type 0 where
  pub place : c.place ≡ at resources.entry_point_virt_addr
  pub argument : c.regs.di ≡ l.function_pointers
  pub stack : c.regs.sp ≡ new_rsp l - 16
  pub pointer : c.regs.n15 ≡ l.saved_stack_pointer
  pub top : c.mem (new_rsp l - 16) ≡ l.resume
  pub memory : Saved l r c.mem

module _ (l : Layout) where
  -- Where the two fields that the assembly uses lie in the kernel's memory, apart from each other
  -- and from the four words that it pushes: an application whose entry point is not in the code of
  -- the switch is entered there, with the function pointers as its argument, on the user's stack
  -- with the return address on top, and `r15` and the memory hold all that the way back needs.
  pub enter-Entered :
      (resources : Resources) (core : Core)
      → label l resources.entry_point_virt_addr ≡ none
      → Apart l core.cpu.regs.sp
      → Entered l resources core.cpu.regs (enter l resources core).cpu
  unfolding enter execute user_stack_start user_end
  enter-Entered resources core h a = rw h (record {
    place = refl;
    argument = refl;
    stack = refl;
    pointer = refl;
    top = ground arith;
    memory = record {
      below = ground arith;
      abort = ground arith;
      saved = ground arith;
      word_bx = ground arith;
      word_bp = ground arith;
      word_n14 = ground arith;
      word_n15 = ground arith;
    };
  })

  -- The calling convention wants a stack pointer that is 8 more than a multiple of 16 at the entry of a
  -- function; the application is entered with a multiple of 16.
  pub enter-misaligned :
      (resources : Resources) (core : Core)
      → label l resources.entry_point_virt_addr ≡ none
      → (enter l resources core).cpu.regs.sp % 16 ≡ 0
  unfolding enter execute user_stack_start
  enter-misaligned resources core h = rw h refl
