-- ===== src/Loader/Switch/Resume.antt =====
-- However an application ends, the core comes back to where it was.
use steelmind_os.Base.{
  ℕ, suc, ◌+◌, ◌-◌, ◌≤◌, ◌≡◌, ◌≢◌, ==_refl, refl, sym, ap, ◌∙◌, arith, List, [], ◌∷◌, Option, none,
  some, Checked, ok, ◌>>=◌, Returns,
}
use mathlib.Core.Path.{subst}
use steelmind_os.Loader.Cpu.{
  Regs, Cpu, Code, next, end, inside, execute, jump, jump_to, set, rsp, rdx, ret, jmp_mem, r8,
}
use steelmind_os.Loader.Switch.{
  Layout, Resources, Core, Exit, returning, aborting, label, after_call, after_entry, enter,
  new_rsp, abort, leave, switch_stack_and_execute, run,
}
use steelmind_os.Loader.Switch.Entry.{Apart, Saved, Entered, enter-Entered}

abbrev pub exit_code : Exit → ℕ
exit_code (returning c) = c.regs.ax
exit_code (aborting code c) = code

-- The words of the kernel that an application must leave alone.
abbrev pub kept : Layout → Regs → List ℕ
kept l r =
    (new_rsp l - 8)
    ∷ l.abort_addr
    ∷ l.saved_stack_pointer
    ∷ (r.sp - 8)
    ∷ (r.sp - 16)
    ∷ (r.sp - 24)
    ∷ (r.sp - 32)
    ∷ []

abbrev pub Same : (m m' : ℕ → ℕ) → List ℕ → Type 0
Same m m' [] = Unit
Same m m' (a ∷ as') = (m' a ≡ m a) × Same m m' as'

-- What is asked of an application that was entered with `e`: it leaves these words alone; and if it
-- returns, then as the calling convention says, with its stack pointer at the return address and `r15` as it was.
abbrev pub Behaves : Layout → Regs → Cpu → Exit → Type 0
Behaves l r e (returning c) =
    Same e.mem c.mem (kept l r)
    × (c.regs.sp ≡ e.regs.sp)
    × (c.regs.n15 ≡ e.regs.n15)
    × (c.mem e.regs.sp ≡ e.mem e.regs.sp)
Behaves l r e (aborting code c) = Same e.mem c.mem (kept l r)

-- The stack pointer and the registers that a caller counts on.
pub record Restored (r r' : Regs) : Type 0 where
  pub stack : r'.sp ≡ r.sp
  pub base : r'.bp ≡ r.bp
  pub bx : r'.bx ≡ r.bx
  pub n14 : r'.n14 ≡ r.n14
  pub n15 : r'.n15 ≡ r.n15

module _ (l : Layout) where
  Same-Saved : (r : Regs) (m m' : ℕ → ℕ) → Saved l r m → Same m m' (kept l r) → Saved l r m'
  Same-Saved r m m' s k = record {
    below = k.0 ∙ s.below;
    abort = k.1.0 ∙ s.abort;
    saved = k.1.1.0 ∙ s.saved;
    word_bx = k.1.1.1.0 ∙ s.word_bx;
    word_bp = k.1.1.1.1.0 ∙ s.word_bp;
    word_n14 = k.1.1.1.1.1.0 ∙ s.word_n14;
    word_n15 = k.1.1.1.1.1.1.0 ∙ s.word_n15;
  }

  label-back : label l l.back ≡ some after_call
  unfolding label
  label-back = rw (==_refl l.back) refl

  label-resume : l.resume ≢ l.back → label l l.resume ≡ some after_entry
  unfolding label
  label-resume h = ground arith

  goes_to :
      (n : ℕ) (c : Cpu) (v a : ℕ) (code : Code)
      → v ≡ a
      → label l a ≡ some code
      → execute (label l) n (jump (label l) v c)
        ≡ execute (label l) n (record c { place = inside code })
  goes_to n c v a code e k =
      ap (λ (t : ℕ). execute (label l) n (jump (label l) t c)) e
      ∙ ap (λ (o : Option Code). execute (label l) n (jump_to (label l) o a c)) k

  -- The code after the call, with the pointer to the saved stack pointer in `rdx`.
  finished :
      (r : Regs) (fuel : ℕ) (c : Cpu)
      → 32 ≤ r.sp
      → Saved l r c.mem
      → c.regs.dx ≡ l.saved_stack_pointer
      → let c' : Cpu =
          execute
            (label l)
            (suc (suc (suc (suc (suc (suc (suc fuel)))))))
            (record c { place = inside after_call }) in
        (c'.regs.n13 ≡ c.regs.ax) × Restored r c'.regs
  unfolding execute
  finished r fuel c h s e =
      let stack : c.mem c.regs.dx ≡ r.sp - 32 = ap c.mem e ∙ s.saved in
      (
        refl,
        record {
          stack = omega arith;
          base = ap (λ (a : ℕ). c.mem a) (omega arith) ∙ s.word_bp;
          bx = ap (λ (a : ℕ). c.mem a) (omega arith) ∙ s.word_bx;
          n14 = ap (λ (a : ℕ). c.mem a) (omega arith) ∙ s.word_n14;
          n15 = ap c.mem stack ∙ s.word_n15;
        },
      )

  -- The core at the end of `switch_stack_and_execute`.
  abbrev Done : Regs → ℕ → Cpu → Type 0
  Done r code c = (c.regs.n13 ≡ code) × Restored r c.regs

  returned :
      (resources : Resources) (r : Regs) (e c : Cpu)
      → l.resume ≢ l.back
      → 32 ≤ r.sp
      → Entered l resources r e
      → Behaves l r e (returning c)
      → Done r c.regs.ax (execute (label l) 10 (record c { place = inside (next ret end) }))
  unfolding execute
  returned resources r e c d room en (k, s, p, t) =
      let saved = Same-Saved r e.mem c.mem en.memory k in
      let top : c.mem c.regs.sp ≡ l.resume = ap c.mem s ∙ t ∙ ap e.mem en.stack ∙ en.top in
      let under : c.mem (c.regs.sp + 8) ≡ l.back =
        ap (λ (a : ℕ). c.mem a) (omega (arith, s, en.stack)) ∙ saved.below in
      let c1 = record c { regs = set rsp (c.regs.sp + 8) c.regs; place = inside (next ret end) } in
      let c2 = record c {
        regs = set rsp (c.regs.sp + 8 + 8) (set rdx c.regs.n15 c.regs);
        place = inside (next ret end);
      } in
      subst (Done r c.regs.ax)
        (sym (
          goes_to 9 c1 (c.mem c.regs.sp) l.resume after_entry top (label-resume d)
          ∙ goes_to 7 c2 (c.mem (c.regs.sp + 8)) l.back after_call under label-back))
        (finished r 0 c2 room saved (p ∙ en.pointer))

  aborted :
      (resources : Resources) (r : Regs) (e c : Cpu)
      → 32 ≤ r.sp
      → Entered l resources r e
      → Same e.mem c.mem (kept l r)
      → c.regs.dx ≡ l.saved_stack_pointer
      → c.regs.n8 ≡ l.abort_addr
      → Done r c.regs.ax
          (execute (label l) 10 (record c { place = inside (next (jmp_mem r8) end) }))
  unfolding execute
  aborted resources r e c room en k x y =
      let saved = Same-Saved r e.mem c.mem en.memory k in
      subst (Done r c.regs.ax)
        (sym (
          goes_to 9 (record c { place = inside (next (jmp_mem r8) end) }) (c.mem c.regs.n8) l.back
            after_call (ap c.mem y ∙ saved.abort) label-back))
        (finished r 2 c room saved x)

-- The result of `run`: the exit code, and the core as its caller expects it.
abbrev pub CameBack : Regs → (code kernel_page_table : ℕ) → ℕ × Core → Type 0
CameBack r code kernel_page_table (result, core) =
    (result ≡ code)
    × Restored r core.cpu.regs
    × (core.running ≡ none)
    × (core.page_table ≡ kernel_page_table)

abbrev ended : ℕ → ℕ × Core → Checked (ℕ × Core)
ended kpt (code, core) = ok (code, record core { running = none; page_table = kpt })

-- The rest of `run`, from the exit of the application.
came_back :
    (l : Layout) (kpt : ℕ) (resources : Resources) (r : Regs) (entered : Core) (exit : Exit)
    → l.resume ≢ l.back
    → 32 ≤ r.sp
    → entered.running ≡ some resources
    → Entered l resources r entered.cpu
    → Behaves l r entered.cpu exit
    → Returns (CameBack r (exit_code exit) kpt) (
        (leave l exit entered >>= λ left.
        let c = execute (label l) 10 left.cpu in ok (c.regs.n13, record left { cpu = c }))
        >>= ended kpt)
unfolding leave abort
came_back l kpt resources r entered (returning c) d room some_app en b =
    let (code, restored) = returned l resources r entered.cpu c d room en b in
    (_, refl, (code, restored, refl, refl))
came_back l kpt resources r entered (aborting code c) d room some_app en b = rw some_app (
    let left = record c {
      regs = record c.regs { ax = code; dx = l.saved_stack_pointer; n8 = l.abort_addr };
    } in
    let (result, restored) = aborted l resources r entered.cpu left room en b refl refl in
    (_, refl, (result, restored, refl, refl)))

-- A core runs an application whose entry point is not in the code of the switch, where the linker's
-- two labels differ and the two fields that the assembly uses lie in the kernel's memory, apart from
-- each other and from the four words that it pushes. The application, which may do anything else,
-- behaves as asked: it leaves these words and fields alone and, when it returns, follows the calling
-- convention. Whether it returns or aborts, `run` does not panic and its result is the exit code;
-- the stack pointer and the registers that the caller counts on are as before, no application is
-- running, and the page table is the kernel's.
pub run-Restored :
    (l : Layout) (kernel_page_table : ℕ) (application : Cpu → Exit) (resources : Resources)
    (core : Core)
    → l.resume ≢ l.back
    → label l resources.entry_point_virt_addr ≡ none
    → Apart l core.cpu.regs.sp
    → (let e = (enter l resources (record core { page_table = resources.l4_page_table })).cpu in
        Behaves l core.cpu.regs e (application e))
    → Returns
        (CameBack core.cpu.regs
          (exit_code (
            application
              (enter l resources (record core { page_table = resources.l4_page_table })).cpu))
          kernel_page_table)
        (run l kernel_page_table application resources core)
unfolding run switch_stack_and_execute
run-Restored l kpt application resources core d outside apart behaves =
    let user = record core { page_table = resources.l4_page_table } in
    let e = enter l resources user in
    let en = enter-Entered l resources user outside apart in
    came_back l kpt resources core.cpu.regs e (application e.cpu) d (omega (arith, apart.room)) refl
      en behaves
