-- ===== src/Loader/Switch.antt =====
-- kernel/src/loader.rs: how a core runs an application on the user's stack and comes back, when the
-- application returns and when it aborts.
pub mod Entry
pub mod Resume
mod Examples
use steelmind_os.Base.{
  ◌>>=◌, ℕ, ◌+◌, ◌-◌, ◌==◌, if◌then◌else◌, Option, none, some, Checked, ok, unwrap,
}
use steelmind_os.Constants.{user_stack_start, user_stack_size}
use steelmind_os.Loader.Cpu.{
  rax, rbx, rcx, rdx, rsi, rdi, rbp, rsp, r8, r9, r10, r11, r12, r13, r14, r15, push, pop, mov,
  load, store, call, call_reg, jmp_mem, ret, Code, end, next, inside, at, Cpu, write, execute,
}

-- Where the linker puts code and data: the labels after the two calls, the function pointers, and the two
-- fields of the core local data that the assembly uses.
pub record Layout : Type 0 where
  pub back : ℕ
  pub resume : ℕ
  pub function_pointers : ℕ
  pub saved_stack_pointer : ℕ
  pub abort_addr : ℕ

-- `ApplicationResources`, as far as `run` reads it: the address of the level 4 table, and the entry.
pub record Resources : Type 0 where
  pub l4_page_table : ℕ
  pub entry_point_virt_addr : ℕ

-- A core: `running` is `Some` when the core local data holds running application data.
pub record Core : Type 0 where
  pub cpu : Cpu
  pub running : Option Resources
  pub page_table : ℕ

-- How an application ends: it is about to return, or calls `abort`.
pub data Exit : Type 0 where
  returning : Cpu → Exit
  aborting : (exit_code : ℕ) → Cpu → Exit

-- The end of `switch_stack_and_execute`, from the label `back`.
abbrev pub after_call : Code
after_call =
    next (mov r13 rax)
      (next (load rsp rdx) (next (pop r15) (next (pop r14) (next (pop rbp) (next (pop rbx) end)))))

-- `save_instruction_pointer`, from the label `resume`.
abbrev pub after_entry : Code
after_entry = next (mov rdx r15) (next ret end)

module _ (l : Layout) where
  unfoldable pub label : ℕ → Option Code
  label a =
      if a == l.back then some after_call else (if a == l.resume then some after_entry else none)

  abbrev pub save_instruction_pointer : Code
  save_instruction_pointer = next (load rax rsp) (
      next (store rdi rax)
        (next (mov r15 rdx) (next (mov rdi rcx) (next (call_reg l.resume rsi) after_entry))))

  abbrev pub switch_stack : Code
  switch_stack = next (push rbx) (
      next (push rbp) (
        next (push r14) (
          next (push r15) (
            next (store r8 rsp) (
              next (mov rsp r9) (
                next (mov rbp rsp) (
                  next (mov rdi r10) (
                    next (mov rsi r11) (
                      next (mov rdx r8) (
                        next (mov rcx r12)
                          (next (call l.back save_instruction_pointer) after_call)))))))))))

  abbrev pub new_rsp : ℕ
  new_rsp = user_stack_start + user_stack_size - 1024

  -- The running application data are set, with both fields 0, and the registers are as the assembly wants
  -- them.
  abbrev pub prepared : Resources → Core → Core
  prepared resources core = record core {
    running = some resources;
    cpu = record {
      regs = record core.cpu.regs {
        n8 = l.saved_stack_pointer;
        n9 = new_rsp;
        n10 = l.abort_addr;
        n11 = resources.entry_point_virt_addr;
        n12 = l.function_pointers;
      };
      mem = write l.saved_stack_pointer 0 (write l.abort_addr 0 core.cpu.mem);
      place = inside switch_stack;
    };
  }

  -- Until the application has the core: at most 17 instructions.
  unfoldable pub enter : Resources → Core → Core
  unfolding label
  enter resources core =
      let p = prepared resources core in record p { cpu = execute label 17 p.cpu }

  -- The kernel's `abort`, with its assembly: `jmp [r8]`.
  unfoldable pub abort : ℕ → Core → Checked Core
  abort exit_code core = do
    resources ← unwrap core.running
    ok (record core {
      cpu = record core.cpu {
        regs = record core.cpu.regs {
          ax = exit_code;
          dx = l.saved_stack_pointer;
          n8 = l.abort_addr;
        };
        place = inside (next (jmp_mem r8) end);
      };
    })

  -- The application is about to execute `ret`, or the core calls `abort`.
  unfoldable pub leave : Exit → Core → Checked Core
  unfolding abort
  leave (returning c) core = ok (record core { cpu = record c { place = inside (next ret end) } })
  leave (aborting exit_code c) core = abort exit_code (record core { cpu = c })

  -- `switch_stack_and_execute`: what the application does is given; its exit code is in `r13`.
  unfoldable pub switch_stack_and_execute : (Cpu → Exit) → Resources → Core → Checked (ℕ × Core)
  unfolding enter leave label
  switch_stack_and_execute application resources core = do
    let entered = enter resources core
    left ← leave (application entered.cpu) entered
    let c = execute label 10 left.cpu
    ok (c.regs.n13, record left { cpu = c })

  unfoldable pub run :
      (kernel_page_table : ℕ) → (Cpu → Exit) → Resources → Core → Checked (ℕ × Core)
  unfolding switch_stack_and_execute
  run kernel_page_table application resources core = do
    let user = record core { page_table = resources.l4_page_table }
    (exit_code, core') ← switch_stack_and_execute application resources user
    ok (exit_code, record core' { running = none; page_table = kernel_page_table })
