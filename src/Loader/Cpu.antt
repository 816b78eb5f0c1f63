-- ===== src/Loader/Cpu.antt =====
-- The part of an x86-64 core that the assembly of kernel/src/loader.rs uses: registers, memory as
-- words of 8 bytes, named by their addresses, and the instructions that are left to execute. The
-- length of an instruction does not matter; an address of code is a label.
use steelmind_os.Base.{ℕ, zero, suc, ◌+◌, ◌-◌, ◌==◌, if◌then◌else◌, Option, none, some}

pub data Reg : Type 0 where
  rax rbx rcx rdx rsi rdi rbp rsp r8 r9 r10 r11 r12 r13 r14 r15 : Reg

pub record Regs : Type 0 where
  pub ax : ℕ
  pub bx : ℕ
  pub cx : ℕ
  pub dx : ℕ
  pub si : ℕ
  pub di : ℕ
  pub bp : ℕ
  pub sp : ℕ
  pub n8 : ℕ
  pub n9 : ℕ
  pub n10 : ℕ
  pub n11 : ℕ
  pub n12 : ℕ
  pub n13 : ℕ
  pub n14 : ℕ
  pub n15 : ℕ

abbrev pub get : Reg → Regs → ℕ
get rax r = r.ax
get rbx r = r.bx
get rcx r = r.cx
get rdx r = r.dx
get rsi r = r.si
get rdi r = r.di
get rbp r = r.bp
get rsp r = r.sp
get r8 r = r.n8
get r9 r = r.n9
get r10 r = r.n10
get r11 r = r.n11
get r12 r = r.n12
get r13 r = r.n13
get r14 r = r.n14
get r15 r = r.n15

abbrev pub set : Reg → ℕ → Regs → Regs
set rax v r = record r { ax = v }
set rbx v r = record r { bx = v }
set rcx v r = record r { cx = v }
set rdx v r = record r { dx = v }
set rsi v r = record r { si = v }
set rdi v r = record r { di = v }
set rbp v r = record r { bp = v }
set rsp v r = record r { sp = v }
set r8 v r = record r { n8 = v }
set r9 v r = record r { n9 = v }
set r10 v r = record r { n10 = v }
set r11 v r = record r { n11 = v }
set r12 v r = record r { n12 = v }
set r13 v r = record r { n13 = v }
set r14 v r = record r { n14 = v }
set r15 v r = record r { n15 = v }

-- `load r s` is `mov r, [s]`, `store r s` is `mov [r], s`. A call carries the label of the instruction
-- after it, and `call` the code that it enters.
mutual
  pub data Instr : Type 0 where
    push pop : Reg → Instr
    mov load store : Reg → Reg → Instr
    call : (back : ℕ) → Code → Instr
    call_reg : (back : ℕ) → Reg → Instr
    jmp_mem : Reg → Instr
    ret : Instr

  pub data Code : Type 0 where
    end : Code
    next : Instr → Code → Code

-- The core is in known code, or at an address.
pub data Place : Type 0 where
  inside : Code → Place
  at : ℕ → Place

pub record Cpu : Type 0 where
  pub regs : Regs
  pub mem : ℕ → ℕ
  pub place : Place

abbrev pub write : ℕ → ℕ → (ℕ → ℕ) → ℕ → ℕ
write a v m b = if b == a then v else m b

abbrev pub push_word : ℕ → Cpu → Cpu
push_word v c = record c {
  regs = set rsp (c.regs.sp - 8) c.regs;
  mem = write (c.regs.sp - 8) v c.mem;
}

-- The labels of the known code.
module _ (label : ℕ → Option Code) where
  abbrev pub jump_to : Option Code → ℕ → Cpu → Cpu
  jump_to none a c = record c { place = at a }
  jump_to (some code) a c = record c { place = inside code }

  abbrev pub jump : ℕ → Cpu → Cpu
  jump a c = jump_to (label a) a c

  abbrev pub perform : Instr → Code → Cpu → Cpu
  perform (push r) rest c = record (push_word (get r c.regs) c) { place = inside rest }
  perform (pop r) rest c = record c {
    regs = set r (c.mem c.regs.sp) (set rsp (c.regs.sp + 8) c.regs);
    place = inside rest;
  }
  perform (mov r s) rest c = record c { regs = set r (get s c.regs) c.regs; place = inside rest }
  perform (load r s) rest c = record c {
    regs = set r (c.mem (get s c.regs)) c.regs;
    place = inside rest;
  }
  perform (store r s) rest c = record c {
    mem = write (get r c.regs) (get s c.regs) c.mem;
    place = inside rest;
  }
  perform (call back code) rest c = record (push_word back c) { place = inside code }
  perform (call_reg back r) rest c = jump (get r c.regs) (push_word back c)
  perform (jmp_mem r) rest c = jump (c.mem (get r c.regs)) c
  perform ret rest c = jump (c.mem c.regs.sp) (record c { regs = set rsp (c.regs.sp + 8) c.regs })

  -- At most `fuel` instructions, until the known code ends or is left.
  unfoldable pub execute : ℕ → Cpu → Cpu
  execute zero c = c
  execute (suc fuel) c = elim c.place [
    | at a ↦ c
    | inside code ↦ elim code [ end ↦ c | next i rest ↦ execute fuel (perform i rest c) ]
  ]
