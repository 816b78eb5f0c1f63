-- ===== src/Tester.antt =====
-- kernel/src/tester.rs: the tests of the kernel run one after the other, and the emulator ends with a code that
-- says whether all have passed.
pub mod Verdicts
mod Examples
use steelmind_os.Base.{
  ℕ, ◌+◌, ◌%◌, ◌^◌, ◌==◌, ltb, if◌then◌else◌, List, [], ◌∷◌, ◌++◌, length, Checked, ok, panic,
}
use steelmind_os.Base.Ports.{Io, port_write}
use mathlib.Core.List.{reverse}

pub data QemuExitCode : Type 0 where
  success failed : QemuExitCode

abbrev pub value : QemuExitCode → ℕ
value success = 0x10
value failed = 0x11

unfoldable pub exit_qemu : QemuExitCode → Io (Unit {0})
exit_qemu exit_code = port_write 0xf4 (value exit_code)

pub record Tester : Type 0 where
  pub number_of_tests : ℕ
  pub counter : ℕ

-- `counter` is a `u32`. What is logged is the new counter, with the test.
unfoldable pub start_test : Tester → Checked Tester
start_test t =
    if ltb (t.counter + 1) (2 ^ 32) then ok (record t { counter = t.counter + 1 }) else panic

-- How the block of a test ends; and a test, by its name.
pub data Verdict : Type 0 where
  passes panics hangs : Verdict

pub record Test : Type 0 where
  pub name : ℕ
  pub verdict : Verdict

-- The first code that the kernel writes for the emulator, or it writes none. After a panic the handler writes `Failed`.
pub data Halt : Type 0 where
  exits : QemuExitCode → Halt
  silent : Halt

-- The counter and the name of each test that was started, in order.
abbrev pub Log : Type 0
Log = List (ℕ × ℕ)

-- How a block ends, with the rest of the loop.
unfoldable pub after_block : (rest : Halt × Log) → Log → Verdict → Halt × Log
after_block rest log passes = rest
after_block rest log panics = (exits failed, log)
after_block rest log hangs = (silent, log)

-- What the macro `test!` makes of a block: the start comes first.
unfoldable pub after_start :
    (rest : Tester → Log → Halt × Log) → Log → Test → Checked Tester → Halt × Log
after_start rest log test panic = (exits failed, log)
after_start rest log test (ok tester) =
    let log' = log ++ (tester.counter, test.name) ∷ [] in
    after_block (rest tester log') log' test.verdict

-- The loop, with what comes behind it.
unfoldable pub run_each : List Test → Tester → Log → Halt × Log
unfolding after_start
run_each [] tester log = (exits success, log)
run_each (test ∷ tests) tester log = after_start (run_each tests) log test (start_test tester)

unfoldable pub run_tests : (tests : List Test) → Halt × Log
unfolding run_each start_test after_block
run_tests tests =
    let number_of_tests = length tests % 2 ^ 32 in
    if number_of_tests == 0
    then (silent, [])
    else run_each (reverse tests) (record { number_of_tests = number_of_tests; counter = 0 }) []
