-- ===== src/Emulator/Step/Traps.antt =====
-- Words of no opcode, and interrupts taken before a fetch.
use novium_emulator.Base.{
  ℕ, ◌+◌, ◌-◌, ◌*◌, ◌%◌, sub32, u32, ◌==◌, if◌then◌else◌, test_bit, false, none, some, ◌≡◌, arith,
}
use novium_emulator.Csr
use novium_emulator.Csr.{
  csr_mtvec, csr_mepc, csr_mcause, csr_mtval, level, PrivilegeLevel, mstatus_mie,
}
use novium_emulator.Interrupt.{Trap, pending_interrupt, cause_code, illegal_inst_trap}
use novium_emulator.Interrupt.Laws.{take_trap_state, take_trap-mtvec, pending_interrupt-pc}
use novium_emulator.Isa.{opcode, opcode_of}
use novium_emulator.Kernels.{FloatOps, HostSimd}
use novium_emulator.Emulator.{Machine, done, threw, unknown_opcode}
use novium_emulator.Emulator.Basics.{trap_base, enter_trap}
use novium_emulator.Emulator.Step.{take_interrupt, execute, illegal}

-- Every trap goes to the base of the trap vector.
pc_of_trap :
    (t : Trap) (m : Machine)
    → let vector = Csr.read m.csr csr_mtvec in (enter_trap t m).regs.pc ≡ u32 (vector - vector % 4)
unfolding enter_trap trap_base
pc_of_trap t m = rw (take_trap-mtvec m.intc m.csr t)

-- A word of no opcode throws where no trap vector is set. Where one is, it traps to the vector with
-- the word and its own address saved, for two cycles.
pub execute_illegal :
    (fl : FloatOps) (simd : HostSimd) (w : ℕ) (m : Machine)
    → opcode_of (opcode w) ≡ none
    → let vector = Csr.read m.csr csr_mtvec in
      let m' = enter_trap (illegal_inst_trap (sub32 m.regs.pc 4) w) m in
      (execute fl simd w m
        ≡ (if vector == 0 then threw (unknown_opcode (opcode w)) m else done 2 m'))
      × (m'.regs.pc ≡ u32 (vector - vector % 4))
      × (Csr.read m'.csr csr_mepc ≡ sub32 m.regs.pc 4)
      × (Csr.read m'.csr csr_mcause ≡ 2)
      × (Csr.read m'.csr csr_mtval ≡ w)
execute_illegal fl simd w m e = (
  unfold execute illegal in ground arith,
  pc_of_trap (illegal_inst_trap (sub32 m.regs.pc 4) w) m,
  saved.0,
  saved.1,
  saved.2,
)
  where
    saved :
        let c = (enter_trap (illegal_inst_trap (sub32 m.regs.pc 4) w) m).csr in
        (Csr.read c csr_mepc ≡ sub32 m.regs.pc 4)
        × (Csr.read c csr_mcause ≡ 2)
        × (Csr.read c csr_mtval ≡ w)
    saved =
        unfold enter_trap illegal_inst_trap cause_code in
        let s = take_trap_state m.intc m.csr (illegal_inst_trap (sub32 m.regs.pc 4) w) in
        (s.0, s.1, s.2)

mtvec-enter_trap :
    (t : Trap) (m : Machine) → Csr.read (enter_trap t m).csr csr_mtvec ≡ Csr.read m.csr csr_mtvec
unfolding enter_trap
mtvec-enter_trap t m = take_trap-mtvec m.intc m.csr t

-- The machine after a pending interrupt is taken: the program counter is the vector base, plus four times the cause
-- code in vectored mode; interrupts are off; and MEPC is zero, whatever instruction was interrupted.
pub take_interrupt_state :
    (m : Machine) (t : Trap)
    → pending_interrupt m.intc m.csr ≡ some t
    → let m' = take_interrupt m in
      let vector = Csr.read m.csr csr_mtvec in
      (m'.regs.pc
        ≡ u32 (
            u32 (vector - vector % 4)
            + (if test_bit vector 0 then cause_code t.cause % 256 * 4 else 0)))
      × (mstatus_mie m'.csr ≡ false)
      × (Csr.read m'.csr csr_mepc ≡ 0)
take_interrupt_state m t e = (
  unfold take_interrupt trap_base in ground (arith, pc_of_trap t m, mtvec-enter_trap t m),
  unfold take_interrupt in ground (arith, saved),
  unfold take_interrupt in ground (arith, saved, pending_interrupt-pc m.intc m.csr t e),
)
  where
    saved :
        (mstatus_mie (enter_trap t m).csr ≡ false) × (Csr.read (enter_trap t m).csr csr_mepc ≡ t.pc)
    saved = unfold enter_trap in let s = take_trap_state m.intc m.csr t in (s.3, s.0)
