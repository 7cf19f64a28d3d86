-- ===== src/Emulator/Switched/Handlers.antt =====
-- What the handlers share and the scalar handlers do alike under all switches.
use novium_emulator.Base.{ℕ, arith, refl, Bool, true, false, add32}
use novium_emulator.Isa.{rd, ra, simm16}
use novium_emulator.Emulator.{pure}
use novium_emulator.Bus
use novium_emulator.Bus.{route, find_device}
use novium_emulator.Emulator.Basics.{
  get_gpr, put_gpr, bus_devices, on_timer_read, on_timer_write, on_uart_read, on_uart_write,
  bus_read32, bus_write32, data_address,
}
use novium_emulator.Emulator.Handlers.{
  op_nop, op_halt, op_jmp, op_beq, op_bne, op_add, op_sub, op_mul, op_mov, op_movi, issue_axi,
  load_from, store_to, op_load, op_store,
}
use novium_emulator.Emulator.Switched.{Switches, Alike, next, option-Alike}

module _ (s : Switches) where
  pub get_gpr-Alike : (i : ℕ) → Alike s (get_gpr i) (get_gpr i)
  unfolding get_gpr
  get_gpr-Alike i m = ground arith

  put_gpr-Alike : (i v : ℕ) → Alike s (put_gpr i v) (put_gpr i v)
  unfolding put_gpr
  put_gpr-Alike i v m = ground arith

  -- The bus serves the same devices.
  pub bus_read32-Alike : (a : ℕ) → Alike s (bus_read32 a) (bus_read32 a)
  unfolding bus_read32 Bus.read32 bus_devices Bus.add_device route find_device on_timer_read
      on_uart_read
  bus_read32-Alike a m = ground arith

  bus_write32-Alike : (a v : ℕ) → Alike s (bus_write32 a v) (bus_write32 a v)
  unfolding bus_write32 Bus.write32 bus_devices Bus.add_device route find_device on_timer_write
      on_uart_write
  bus_write32-Alike a v m = ground arith

  data_address-Alike : (a : ℕ) (wr : Bool) → Alike s (data_address a wr) (data_address a wr)
  unfolding data_address
  data_address-Alike a wr m = ground arith

  pub issue_axi-Alike : (a n : ℕ) (wr : Bool) → Alike s (issue_axi a n wr) (issue_axi a n wr)
  unfolding issue_axi
  issue_axi-Alike a n wr m = refl

  pub op_nop-Alike : (w : ℕ) → Alike s (op_nop w) (op_nop w)
  unfolding op_nop
  op_nop-Alike w m = ground arith

  pub op_halt-Alike : (w : ℕ) → Alike s (op_halt w) (op_halt w)
  unfolding op_halt
  op_halt-Alike w m = ground arith

  pub op_jmp-Alike : (w : ℕ) → Alike s (op_jmp w) (op_jmp w)
  unfolding op_jmp
  op_jmp-Alike w m = ground arith

  pub op_beq-Alike : (w : ℕ) → Alike s (op_beq w) (op_beq w)
  unfolding op_beq
  op_beq-Alike w m = ground arith

  pub op_bne-Alike : (w : ℕ) → Alike s (op_bne w) (op_bne w)
  unfolding op_bne
  op_bne-Alike w m = ground arith

  pub op_add-Alike : (w : ℕ) → Alike s (op_add w) (op_add w)
  unfolding op_add
  op_add-Alike w m = ground arith

  pub op_sub-Alike : (w : ℕ) → Alike s (op_sub w) (op_sub w)
  unfolding op_sub
  op_sub-Alike w m = ground arith

  pub op_mul-Alike : (w : ℕ) → Alike s (op_mul w) (op_mul w)
  unfolding op_mul
  op_mul-Alike w m = ground arith

  pub op_mov-Alike : (w : ℕ) → Alike s (op_mov w) (op_mov w)
  unfolding op_mov
  op_mov-Alike w m = ground arith

  pub op_movi-Alike : (w : ℕ) → Alike s (op_movi w) (op_movi w)
  unfolding op_movi
  op_movi-Alike w m = ground arith

  load_from-Alike : (w a : ℕ) → Alike s (load_from w a) (load_from w a)
  unfolding load_from
  load_from-Alike w a = next s (issue_axi a 4 false) _ _ (issue_axi-Alike a 4 false) λ _.
      next s (bus_read32 a) _ _ (bus_read32-Alike a)
        λ v. next s (put_gpr (rd w) v) _ _ (put_gpr-Alike (rd w) v) λ _ m. refl

  store_to-Alike : (w a : ℕ) → Alike s (store_to w a) (store_to w a)
  unfolding store_to
  store_to-Alike w a = next s (get_gpr (rd w)) _ _ (get_gpr-Alike (rd w)) λ v.
      next s (issue_axi a 4 true) _ _ (issue_axi-Alike a 4 true)
        λ _. next s (bus_write32 a v) _ _ (bus_write32-Alike a v) λ _ m. refl

  pub op_load-Alike : (w : ℕ) → Alike s (op_load w) (op_load w)
  unfolding op_load
  op_load-Alike w = next s (get_gpr (ra w)) _ _ (get_gpr-Alike (ra w)) λ base.
      let at = add32 base (simm16 w) in
      next s (data_address at false) _ _ (data_address-Alike at false) λ mapped.
        option-Alike s mapped (pure 2) (pure 2) (load_from w) (load_from w) (λ m. refl)
          (load_from-Alike w)

  pub op_store-Alike : (w : ℕ) → Alike s (op_store w) (op_store w)
  unfolding op_store
  op_store-Alike w = next s (get_gpr (ra w)) _ _ (get_gpr-Alike (ra w)) λ base.
      let at = add32 base (simm16 w) in
      next s (data_address at true) _ _ (data_address-Alike at true) λ mapped.
        option-Alike s mapped (pure 2) (pure 2) (store_to w) (store_to w) (λ m. refl)
          (store_to-Alike w)
