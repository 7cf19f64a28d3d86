-- ===== src/Emulator/Typed/Handlers.antt =====
-- The handlers of the instructions.
use novium_emulator.Base.{
  ℕ, negative32, ◌&&◌, add32, sub32, mul32, ◌==◌, not, Bool, true, false, Option, none, some, ◌≡◌,
  refl, arith,
}
use novium_emulator.Registers.{RegisterFile, update_flags_u32, set_overflow}
use novium_emulator.Registers.Laws.{IsValid}
use novium_emulator.Isa.{Opcode, cycle_weight, rd, ra, rb, simm16, imm16, target}
use novium_emulator.Emulator.{Machine, M, pure, ◌>>=◌, ◌>>◌}
use novium_emulator.Emulator.Basics.{
  get_gpr, put_gpr, bus_read32, bus_write32, data_address, with_regs,
}
use novium_emulator.Emulator.Handlers.{
  same_sign, op_nop, op_halt, op_jmp, branch_if, op_beq, op_bne, finish_alu, op_add, op_sub, op_mul,
  op_mov, op_movi, issue_axi, load_from, store_to, op_load, op_store,
}
use novium_emulator.Emulator.Typed.{
  IsTyped, Safe, Any, Is32, bind-Safe, last-Safe, keeps, with_regs-IsTyped, with_pc-IsTyped,
  get_gpr-Safe, put_gpr-Safe,
}
use novium_emulator.Emulator.Typed.Bus.{bus_read32-Safe, bus_write32-Safe, data_address-Safe}

-- The registers and the program counter are the same.
pub same_registers : (r r' : RegisterFile) → r'.gpr ≡ r.gpr → r'.pc ≡ r.pc → IsValid r → IsValid r'
same_registers r r' eg ep v = record {
  zero_reg = rw eg v.zero_reg;
  words = rw eg v.words;
  pc_word = rw ep v.pc_word;
}

flags-IsTyped :
    (m : Machine) (overflow : Bool) (result : ℕ)
    → IsTyped m
    → IsTyped (with_regs m (update_flags_u32 (set_overflow m.regs overflow) result))
unfolding update_flags_u32 set_overflow
flags-IsTyped m overflow result t =
    with_regs-IsTyped m _ (same_registers m.regs _ refl refl t.regs) t

module _ (w : ℕ) (m : Machine) (t : IsTyped m) where
  pub op_mov-Safe : Safe Any (op_mov w m)
  unfolding op_mov
  op_mov-Safe =
      bind-Safe Is32 Any (get_gpr (ra w) m) _ (get_gpr-Safe (ra w) m t)
        λ v m1 small t1. last-Safe (put_gpr (rd w) v m1) _ (put_gpr-Safe (rd w) v m1 small t1)

  pub op_nop-Safe : Safe Any (op_nop w m)
  unfolding op_nop
  op_nop-Safe = (tt, t)

  pub op_halt-Safe : Safe Any (op_halt w m)
  unfolding op_halt
  op_halt-Safe = (
    tt,
    with_regs-IsTyped m (record m.regs { halt = true }) (same_registers m.regs _ refl refl t.regs)
        t,
  )

  pub op_jmp-Safe : Safe Any (op_jmp w m)
  unfolding op_jmp target
  op_jmp-Safe = (tt, with_pc-IsTyped m _ (omega arith) t)

  branch_if-Safe : (taken : Bool) (cycles : ℕ) → Safe Any (branch_if taken w cycles m)
  unfolding branch_if
  branch_if-Safe true cycles = (tt, with_pc-IsTyped m _ (omega arith) t)
  branch_if-Safe false cycles = (tt, t)

  finish_alu-Safe :
      (d result : ℕ) (overflow : Bool) → Is32 result → Safe Any (finish_alu d result overflow m)
  unfolding finish_alu
  finish_alu-Safe d result overflow small =
      bind-Safe Any Any (put_gpr d result m) _ (put_gpr-Safe d result m small t)
        λ _ m1 _ t1. (tt, flags-IsTyped m1 overflow result t1)

  pub op_movi-Safe : Safe Any (op_movi w m)
  unfolding op_movi imm16
  op_movi-Safe =
      last-Safe (put_gpr (rd w) (imm16 w) m) _ (put_gpr-Safe (rd w) (imm16 w) m (omega arith) t)

  pub issue_axi-Safe :
      (addr bytes : ℕ) (is_write : Bool) → Safe Any (issue_axi addr bytes is_write m)
  unfolding issue_axi
  issue_axi-Safe addr bytes is_write = (tt, keeps m _ refl refl refl refl refl refl refl t)

-- Two registers are read, and what follows is safe for any 32-bit values of them.
pub two_gprs :
    (i j : ℕ) (m : Machine) (f : ℕ → ℕ → M ℕ)
    → IsTyped m
    → ((a b : ℕ) (m' : Machine) → IsTyped m' → Safe Any (f a b m'))
    → Safe Any ((get_gpr i >>= λ a. get_gpr j >>= λ b. f a b) m)
two_gprs i j m f t k =
    bind-Safe Is32 Any (get_gpr i m) _ (get_gpr-Safe i m t) λ a m1 _ t1.
      bind-Safe Is32 Any (get_gpr j m1) _ (get_gpr-Safe j m1 t1) λ b m2 _ t2. k a b m2 t2

module _ (w : ℕ) (m : Machine) (t : IsTyped m) where
  pub op_beq-Safe : Safe Any (op_beq w m)
  unfolding op_beq
  op_beq-Safe =
      two_gprs (rd w) (ra w) m _ t
        λ a b m' t'. branch_if-Safe w m' t' (a == b) (cycle_weight Opcode.beq 0)

  pub op_bne-Safe : Safe Any (op_bne w m)
  unfolding op_bne
  op_bne-Safe =
      two_gprs (rd w) (ra w) m _ t
        λ a b m' t'. branch_if-Safe w m' t' (not (a == b)) (cycle_weight Opcode.bne 0)

  -- The end of an ALU handler.
  alu-Safe :
      (m' : Machine) (result : ℕ) (overflow : Bool) (cycles : ℕ)
      → IsTyped m'
      → Is32 result
      → Safe Any ((finish_alu (rd w) result overflow >> pure cycles) m')
  alu-Safe m' result overflow cycles t' small =
      last-Safe (finish_alu (rd w) result overflow m') _
        (finish_alu-Safe w m' t' (rd w) result overflow small)

  pub op_add-Safe : Safe Any (op_add w m)
  unfolding op_add
  op_add-Safe = two_gprs (ra w) (rb w) m _ t λ a b m' t'.
      alu-Safe m' (add32 a b)
        (same_sign (negative32 a) (negative32 b)
          && not (same_sign (negative32 a) (negative32 (add32 a b))))
        (cycle_weight Opcode.add 0) t' (omega arith)

  pub op_sub-Safe : Safe Any (op_sub w m)
  unfolding op_sub
  op_sub-Safe = two_gprs (ra w) (rb w) m _ t λ a b m' t'.
      alu-Safe m' (sub32 a b)
        (not (same_sign (negative32 a) (negative32 b))
          && not (same_sign (negative32 a) (negative32 (sub32 a b))))
        (cycle_weight Opcode.sub 0) t' (omega arith)

  pub op_mul-Safe : Safe Any (op_mul w m)
  unfolding op_mul
  op_mul-Safe =
      two_gprs (ra w) (rb w) m _ t
        λ a b m' t'. alu-Safe m' (mul32 a b) false (cycle_weight Opcode.mul 0) t' (omega arith)

  load_from-Safe : (addr : ℕ) → Safe Any (load_from w addr m)
  unfolding load_from
  load_from-Safe addr =
      bind-Safe Any Any (issue_axi addr 4 false m) _ (issue_axi-Safe w m t addr 4 false)
        λ _ m1 _ t1.
          bind-Safe Is32 Any (bus_read32 addr m1) _ (bus_read32-Safe addr m1 t1)
            λ v m2 small t2. last-Safe (put_gpr (rd w) v m2) _ (put_gpr-Safe (rd w) v m2 small t2)

  store_to-Safe : (addr : ℕ) → Safe Any (store_to w addr m)
  unfolding store_to
  store_to-Safe addr =
      bind-Safe Is32 Any (get_gpr (rd w) m) _ (get_gpr-Safe (rd w) m t) λ v m1 _ t1.
        bind-Safe Any Any (issue_axi addr 4 true m1) _ (issue_axi-Safe w m1 t1 addr 4 true)
          λ _ m2 _ t2. last-Safe (bus_write32 addr v m2) _ (bus_write32-Safe addr m2 t2 v)

-- A trap ends the handler, an address goes on.
pub mapped_or_trap :
    {A : Type 0} (o : Option A) (f : A → M ℕ) (m : Machine)
    → IsTyped m
    → ((a : A) → Safe Any (f a m))
    → Safe Any (let c : M ℕ = elim o [ none ↦ pure 2 | some a ↦ f a ] in c m)
mapped_or_trap none f m t k = (tt, t)
mapped_or_trap (some a) f m t k = k a

module _ (w : ℕ) (m : Machine) (t : IsTyped m) where
  pub op_load-Safe : Safe Any (op_load w m)
  unfolding op_load
  op_load-Safe = bind-Safe Is32 Any (get_gpr (ra w) m) _ (get_gpr-Safe (ra w) m t) λ base m1 _ t1.
      bind-Safe Any Any (data_address (add32 base (simm16 w)) false m1) _
        (data_address-Safe (add32 base (simm16 w)) false m1 t1)
        λ o m2 _ t2. mapped_or_trap o (load_from w) m2 t2 (load_from-Safe w m2 t2)

  pub op_store-Safe : Safe Any (op_store w m)
  unfolding op_store
  op_store-Safe = bind-Safe Is32 Any (get_gpr (ra w) m) _ (get_gpr-Safe (ra w) m t) λ base m1 _ t1.
      bind-Safe Any Any (data_address (add32 base (simm16 w)) true m1) _
        (data_address-Safe (add32 base (simm16 w)) true m1 t1)
        λ o m2 _ t2. mapped_or_trap o (store_to w) m2 t2 (store_to-Safe w m2 t2)
