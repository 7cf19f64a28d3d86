-- ===== src/Emulator/Handlers/Alu.antt =====
-- What the scalar handlers do, instruction by instruction.
use novium_emulator.Base.{
  ℕ, ◌<◌, ◌≤◌, add32, sub32, mul32, negative32, update, ◌==◌, if◌then◌else◌, Bool, false, ◌≡◌, ◌⊎◌,
  arith,
}
use novium_emulator.Isa.{rd, ra, rb, imm16, offset}
use novium_emulator.Emulator.{Machine, done, undefined_behaviour}
use novium_emulator.Emulator.Basics.{with_pc, get_gpr, put_gpr}
use novium_emulator.Emulator.Handlers.{
  op_beq, op_bne, op_add, op_sub, op_mul, op_mov, op_movi, finish_alu,
}

-- The value of a general register.
abbrev pub reg : Machine → ℕ → ℕ
reg m i = if i == 0 then 0 else m.regs.gpr i

-- The machine with a register written; register 0 stays zero.
abbrev pub with_reg : Machine → ℕ → ℕ → Machine
with_reg m d v = record m {
  regs = record m.regs {
    gpr = if d == 0 then update m.regs.gpr 0 0 else update (update m.regs.gpr d v) 0 0;
  };
}

abbrev pub with_flags : Machine → ℕ → Machine
with_flags m v = record m {
  regs = record m.regs {
    status = record { zero = v == 0; negative = negative32 v; overflow = false };
  };
}

pub get_gpr_in_range : (i : ℕ) (m : Machine) → i < 16 → get_gpr i m ≡ done (reg m i) m
unfolding get_gpr
get_gpr_in_range i m h = ground arith

pub get_gpr_out_of_range : (i : ℕ) (m : Machine) → 16 ≤ i → get_gpr i m ≡ undefined_behaviour
unfolding get_gpr
get_gpr_out_of_range i m h = ground arith

pub put_gpr_in_range : (i v : ℕ) (m : Machine) → i < 16 → put_gpr i v m ≡ done tt (with_reg m i v)
unfolding put_gpr
put_gpr_in_range i v m h = ground arith

finish_alu_in_range :
    (d v : ℕ) (o : Bool) (m : Machine)
    → d < 16
    → finish_alu d v o m ≡ done tt (with_flags (with_reg m d v) v)
unfolding finish_alu
finish_alu_in_range d v o m h = ground arith

module _ (w : ℕ) (m : Machine) where
  -- ADD, SUB and MUL of registers that exist write the result modulo 2^32 and set the zero and
  -- negative flags by it. The overflow flag is off afterwards, also where the signed sum or
  -- difference overflows.
  pub alu_results :
      rd w < 16
      → ra w < 16
      → rb w < 16
      → let a = reg m (ra w) in
        let b = reg m (rb w) in
        (op_add w m ≡ done 1 (with_flags (with_reg m (rd w) (add32 a b)) (add32 a b)))
        × (op_sub w m ≡ done 1 (with_flags (with_reg m (rd w) (sub32 a b)) (sub32 a b)))
        × (op_mul w m ≡ done 3 (with_flags (with_reg m (rd w) (mul32 a b)) (mul32 a b)))
  alu_results hd ha hb = (
    unfold op_add in ground (arith, get_gpr_in_range (ra w) m ha),
    unfold op_sub in ground arith,
    unfold op_mul in ground arith,
  )

  -- A register field from 16 on, which the encoding allows, makes ADD, SUB and MUL read or write
  -- beyond the register array.
  pub alu_undefined :
      (16 ≤ rd w) ⊎ (16 ≤ ra w) ⊎ (16 ≤ rb w)
      → (op_add w m ≡ undefined_behaviour)
        × (op_sub w m ≡ undefined_behaviour)
        × (op_mul w m ≡ undefined_behaviour)
  alu_undefined h =
      (unfold op_add in ground arith, unfold op_sub in ground arith, unfold op_mul in ground arith)

  -- MOV copies a register and MOVI writes the zero-extended immediate; neither touches the flags.
  pub move_results :
      rd w < 16
      → ra w < 16
      → (op_mov w m ≡ done 1 (with_reg m (rd w) (reg m (ra w))))
        × (op_movi w m ≡ done 1 (with_reg m (rd w) (imm16 w)))
  move_results hd ha = (unfold op_mov in ground arith, unfold op_movi in ground arith)

  -- BEQ and BNE of registers that exist go to the program counter plus the byte offset, for three
  -- cycles, when the registers are equal and different in turn; otherwise they go on, for two.
  pub branch_results :
      rd w < 16
      → ra w < 16
      → let next = with_pc m (add32 m.regs.pc (offset w)) in
        let equal = reg m (rd w) == reg m (ra w) in
        (op_beq w m ≡ (if equal then done 3 next else done 2 m))
        × (op_bne w m ≡ (if equal then done 2 m else done 3 next))
  branch_results hd ha = (unfold op_beq in ground arith, unfold op_bne in ground arith)
