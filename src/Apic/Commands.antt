-- ===== src/Apic/Commands.antt =====
-- The interrupt commands: their bits, and their way through the two halves of the register.
use steelmind_os.Base.{ℕ, ◌+◌, ◌^◌, ◌<◌, ◌≡◌, refl, arith, List, [], ◌∷◌, some}
use steelmind_os.Base.Bitfield.{Bitfield}
use steelmind_os.Base.Ports.{Access, input, output, world, port_read, port_write}
use steelmind_os.Apic.Registers.{
  register, interrupt_command_low, interrupt_command_high, read, write, create_startup_cmd,
  write_interrupt_command, read_interrupt_command,
}

module _ (bf : Bitfield) where
  create_startup_cmd-sum :
      (vector : ℕ) → vector < 256 → create_startup_cmd bf vector ≡ 0xC4600 + vector
  unfolding create_startup_cmd
  create_startup_cmd-sum vector h =
      let a = bf.set 0 7 0 vector in
      let b = bf.set a 10 8 6 in
      let c = bf.set b 11 11 0 in
      let d = bf.set c 15 15 0 in
      let e = bf.set d 14 14 1 in
      omega (
        arith,
        bf.set_is 0 0 7 vector,
        bf.set_is a 8 2 6,
        bf.set_is b 11 0 0,
        bf.set_is c 15 0 0,
        bf.set_is d 14 0 1,
        bf.set_is e 18 1 3,
      )

  -- The halves of a 64-bit command are written the high one first; the write of the low one, which
  -- sends it, is the last access. What was written reads back as the same command.
  pub read_interrupt_command-write :
      (apic cmd : ℕ) (script : List ℕ) (log : List Access)
      → cmd < 2 ^ 64
      → (high low : ℕ) × (write_interrupt_command bf apic cmd (world script log)
          ≡ some (
            tt,
            world script (
                output (register apic interrupt_command_low) low
                ∷ output (register apic interrupt_command_high) high
                ∷ log),
          ))
        × (read_interrupt_command bf apic (world (high ∷ low ∷ script) [])
            ≡ some (
              cmd,
              world script (
                  input (register apic interrupt_command_low) low
                  ∷ input (register apic interrupt_command_high) high
                  ∷ []),
            ))
  unfolding write_interrupt_command read_interrupt_command read write port_read port_write
  read_interrupt_command-write apic cmd script log h =
      let high = bf.get cmd 63 32 in
      let low = bf.get cmd 31 0 in
      let back : bf.set (bf.set 0 63 32 high) 31 0 low ≡ cmd = omega (
        arith,
        bf.get_is cmd 32 31,
        bf.get_is cmd 0 31,
        bf.set_is 0 32 31 high,
        bf.set_is (bf.set 0 63 32 high) 0 31 low,
      ) in
      (high, low, refl, rw back refl)
