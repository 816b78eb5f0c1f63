-- ===== src/Loader/Switch/Examples.antt =====
-- Two applications at concrete addresses: one returns 42, the other scribbles over the registers and aborts.
use steelmind_os.Base.{refl, arith, inl, none, Returns}
use steelmind_os.Constants.{user_end}
use steelmind_os.Loader.Cpu.{Regs, Cpu, end, inside}
use steelmind_os.Loader.Switch.{
  Layout, Resources, Core, Exit, returning, aborting, label, enter, run,
}
use steelmind_os.Loader.Switch.Entry.{Apart, Entered, enter-Entered}
use steelmind_os.Loader.Switch.Resume.{exit_code, CameBack, run-Restored}

abbrev layout : Layout
layout = record {
  back = 0x3200_0000_1040;
  resume = 0x3200_0000_2018;
  function_pointers = 0x3200_0000_3000;
  saved_stack_pointer = 0x3200_0010_0000;
  abort_addr = 0x3200_0010_0008;
}

abbrev resources : Resources
resources = record { l4_page_table = 0x5000; entry_point_virt_addr = 0x20_1000 }

abbrev registers : Regs
registers = record {
  ax = 0;
  bx = 1;
  cx = 2;
  dx = 3;
  si = 4;
  di = 5;
  bp = 0x3680_0000_ff80;
  sp = 0x3680_0000_ff00;
  n8 = 8;
  n9 = 9;
  n10 = 10;
  n11 = 11;
  n12 = 12;
  n13 = 13;
  n14 = 14;
  n15 = 15;
}

abbrev core : Core
core = record {
  cpu = record { regs = registers; mem = λ a. 0; place = inside end };
  running = none;
  page_table = 0x1000;
}

abbrev answers : Cpu → Exit
answers c = returning (record c { regs = record c.regs { ax = 42; bx = 7 } })

abbrev gives_up : Cpu → Exit
gives_up c =
    aborting 42 (record c { regs = record c.regs { bx = 0; bp = 0; sp = 0; n14 = 0; n15 = 0 } })

apart : Apart layout registers.sp
unfolding user_end
apart = record {
  room = omega arith;
  saved_high = omega arith;
  abort_high = omega arith;
  differ = λ e. omega arith;
  saved_apart = inl (omega arith);
  abort_apart = inl (omega arith);
}

enter-Entered_example : Entered layout resources registers (enter layout resources core).cpu
unfolding label
enter-Entered_example = enter-Entered layout resources core refl apart

run-Restored_example :
    Returns
      (CameBack registers
        (exit_code (gives_up (enter layout resources (record core { page_table = 0x5000 })).cpu))
        0x1000)
      (run layout 0x1000 gives_up resources core)
unfolding label
run-Restored_example =
    run-Restored layout 0x1000 gives_up resources core (λ e. omega arith) refl apart
      (refl, (refl, (refl, (refl, (refl, (refl, (refl, tt)))))))

-- An application that returns behaves as asked too.
answered :
    Returns
      (CameBack registers
        (exit_code (answers (enter layout resources (record core { page_table = 0x5000 })).cpu))
        0x1000)
      (run layout 0x1000 answers resources core)
unfolding label
answered =
    run-Restored layout 0x1000 answers resources core (λ e. omega arith) refl apart
      ((refl, (refl, (refl, (refl, (refl, (refl, (refl, tt))))))), refl, refl, refl)
