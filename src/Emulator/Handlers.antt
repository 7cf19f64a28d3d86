-- ===== src/Emulator/Handlers.antt =====
-- src/emulator.cpp: the handlers of the scalar instructions. Each returns its cycles. The program
-- counter is that after the fetch.
pub mod Alu
pub mod Store
use novium_emulator.Base.{
  ℕ, ◌+◌, add32, sub32, mul32, u32, negative32, ◌==◌, if◌then◌else◌, ◌&&◌, not, Bool, true, false,
  Option, none, some,
}
use mathlib.Core.Bool.{xor}
use novium_emulator.Isa.{Opcode, rd, ra, rb, imm16, simm16, offset, target, cycle_weight}
use novium_emulator.Registers.{RegisterFile, update_flags_u32, set_overflow}
use novium_emulator.Interconnect.{issue, axi4}
use novium_emulator.Emulator.{Machine, M, pure, ◌>>=◌, ◌>>◌}
use novium_emulator.Emulator.Basics.{
  modify, with_regs, with_pc, get_gpr, put_gpr, bus_read32, bus_write32, data_address,
}

unfoldable pub op_nop : ℕ → M ℕ
unfolding cycle_weight
op_nop w = pure (cycle_weight Opcode.nop 0)

unfoldable pub op_halt : ℕ → M ℕ
op_halt w = do modify (λ m. record m { regs = record m.regs { halt = true } }); pure 0

unfoldable pub op_jmp : ℕ → M ℕ
unfolding target cycle_weight
op_jmp w = do modify (λ m. with_pc m (target w)); pure (cycle_weight Opcode.jmp 0)

-- A taken branch adds the offset to the program counter, and a cycle to the cost.
unfoldable pub branch_if : Bool → ℕ → ℕ → M ℕ
unfolding offset
branch_if taken w cycles =
    if taken
    then (do modify (λ m. with_pc m (add32 m.regs.pc (offset w))); pure (cycles + 1))
    else pure cycles

unfoldable pub op_beq : ℕ → M ℕ
unfolding get_gpr rd ra branch_if cycle_weight
op_beq w = do
  rs ← get_gpr (rd w)
  rt ← get_gpr (ra w)
  branch_if (rs == rt) w (cycle_weight Opcode.beq 0)

unfoldable pub op_bne : ℕ → M ℕ
unfolding get_gpr rd ra branch_if cycle_weight
op_bne w = do
  rs ← get_gpr (rd w)
  rt ← get_gpr (ra w)
  branch_if (not (rs == rt)) w (cycle_weight Opcode.bne 0)

-- a_neg == b_neg
abbrev pub same_sign : Bool → Bool → Bool
same_sign a b = not (xor a b)

-- What ADD, SUB and MUL do with their result: the overflow flag is set first, and then the flags
-- are updated.
unfoldable pub finish_alu : ℕ → ℕ → Bool → M (Unit {0})
unfolding put_gpr set_overflow update_flags_u32
finish_alu d result overflow = do
  put_gpr d result
  modify (λ m. with_regs m (update_flags_u32 (set_overflow m.regs overflow) result))

unfoldable pub op_add : ℕ → M ℕ
unfolding get_gpr rd ra rb finish_alu cycle_weight
op_add w = do
  a ← get_gpr (ra w)
  b ← get_gpr (rb w)
  let result = add32 a b
  finish_alu (rd w) result (
      same_sign (negative32 a) (negative32 b) && not (same_sign (negative32 a) (negative32 result)))
  pure (cycle_weight Opcode.add 0)

unfoldable pub op_sub : ℕ → M ℕ
unfolding get_gpr rd ra rb finish_alu cycle_weight
op_sub w = do
  a ← get_gpr (ra w)
  b ← get_gpr (rb w)
  let result = sub32 a b
  finish_alu (rd w) result (
      not (same_sign (negative32 a) (negative32 b))
      && not (same_sign (negative32 a) (negative32 result)))
  pure (cycle_weight Opcode.sub 0)

unfoldable pub op_mul : ℕ → M ℕ
unfolding get_gpr rd ra rb finish_alu cycle_weight
op_mul w = do
  a ← get_gpr (ra w)
  b ← get_gpr (rb w)
  finish_alu (rd w) (mul32 a b) false
  pure (cycle_weight Opcode.mul 0)

unfoldable pub op_mov : ℕ → M ℕ
unfolding get_gpr put_gpr rd ra cycle_weight
op_mov w = do v ← get_gpr (ra w); put_gpr (rd w) v; pure (cycle_weight Opcode.mov 0)

unfoldable pub op_movi : ℕ → M ℕ
unfolding put_gpr rd imm16 cycle_weight
op_movi w = do put_gpr (rd w) (imm16 w); pure (cycle_weight Opcode.movi 0)

-- `axi_.issue` of a transfer, at the profiler's cycle count. The Boolean says that it was accepted.
unfoldable pub issue_axi : ℕ → ℕ → Bool → M Bool
unfolding issue
issue_axi addr bytes is_write m =
    let now = m.profiler.cycle_count in
    let (accepted, axi) =
      issue m.axi
        (record {
          id = 0;
          addr = addr;
          bytes = bytes;
          is_write = is_write;
          issue_cycle = now;
          complete_cycle = 0;
          proto = axi4;
        })
        now in
    pure accepted (record m { axi = axi })

-- The part of LOAD and STORE after the translation.
unfoldable pub load_from : ℕ → ℕ → M ℕ
unfolding bus_read32 put_gpr rd cycle_weight
load_from w addr = do
  _ ← issue_axi addr 4 false
  value ← bus_read32 addr
  put_gpr (rd w) value
  pure (cycle_weight Opcode.load 0)

unfoldable pub store_to : ℕ → ℕ → M ℕ
unfolding get_gpr bus_write32 rd cycle_weight
store_to w addr = do
  value ← get_gpr (rd w)
  _ ← issue_axi addr 4 true
  bus_write32 addr value
  pure (cycle_weight Opcode.store 0)

unfoldable pub op_load : ℕ → M ℕ
unfolding get_gpr ra simm16 load_from
op_load w = do
  base ← get_gpr (ra w)
  mapped ← data_address (add32 base (simm16 w)) false
  elim mapped [ none ↦ pure 2 | some addr ↦ load_from w addr ]

unfoldable pub op_store : ℕ → M ℕ
unfolding get_gpr ra simm16 store_to
op_store w = do
  base ← get_gpr (ra w)
  mapped ← data_address (add32 base (simm16 w)) true
  elim mapped [ none ↦ pure 2 | some addr ↦ store_to w addr ]
