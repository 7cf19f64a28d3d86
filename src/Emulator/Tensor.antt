-- ===== src/Emulator/Tensor.antt =====
-- src/emulator.cpp: the handlers of the vector, tile and DMA instructions. The float operations and
-- the host's vector width are parameters.
pub mod Dma
pub mod Tile
use novium_emulator.Base.{
  ℕ, ◌+◌, ◌*◌, add32, sub32, u32, low_bits, leb, ltb, ◌==◌, if◌then◌else◌, ◌||◌, not, Bool, true,
  false, Option, none, some, update, copy, slice, List,
}
use novium_emulator.Config.{tile_size, vec_width, vr_byte_size, num_vr}
use novium_emulator.Isa.{Opcode, rd, ra, rb, func, simm16, cycle_weight}
use novium_emulator.Registers
use novium_emulator.Memory.{Memory, in_bounds, load_word, write_bytes, words_bytes}
use novium_emulator.Kernels.{
  FloatOps, HostSimd, VectorFile, vec_add_scalar, vec_add_host, matmul_tile,
}
use novium_emulator.Target.{profile_cycle_weight}
use novium_emulator.Profiler.{record_op}
use novium_emulator.Interrupt.{page_fault_trap}
use novium_emulator.Emulator.{
  Machine, EmulatorError, sram_out_of_bounds, dma_scratchpad_out_of_bounds,
  dma_main_ram_out_of_bounds, invalid_tile, threw, done, undefined_behaviour, M, pure, ◌>>=◌, ◌>>◌,
}
use novium_emulator.Emulator.Basics.{
  modify, or_undefined, or_throw, get_gpr, translate_data, enter_trap, put_scratchpad,
}
use novium_emulator.Emulator.Handlers.{issue_axi}

-- A pointer to a vector register, taken with no test of the index.
unfoldable pub vr_pointer : ℕ → M (Unit {0})
vr_pointer idx m = if ltb idx num_vr then done tt m else undefined_behaviour

abbrev pub with_vr : Machine → VectorFile → Machine
with_vr m vr = record m { regs = record m.regs { vr = vr } }

-- The lanes that a memcpy of 64 bytes makes.
unfoldable pub lanes_at : Memory → ℕ → (ℕ → ℕ) → ℕ → ℕ
unfolding load_word
lanes_at mem addr old j = if ltb j vec_width then load_word mem.byte (addr + j * 4) else old j

unfoldable pub fill_vr : ℕ → ℕ → M (Unit {0})
unfolding in_bounds lanes_at
fill_vr idx addr m =
    if in_bounds m.scratchpad addr vr_byte_size
    then done tt (with_vr m (update m.regs.vr idx (lanes_at m.scratchpad addr (m.regs.vr idx))))
    else threw sram_out_of_bounds m

unfoldable pub op_load_vr : ℕ → M ℕ
unfolding get_gpr ra rd simm16 vr_pointer fill_vr cycle_weight
op_load_vr w = do
  base ← get_gpr (ra w)
  vr_pointer (rd w)
  fill_vr (rd w) (add32 base (simm16 w))
  pure (cycle_weight Opcode.load_vr 0)

unfoldable pub spill_vr : ℕ → ℕ → M (Unit {0})
unfolding write_bytes words_bytes
spill_vr idx addr m =
    (or_throw sram_out_of_bounds
          (write_bytes m.scratchpad addr (words_bytes (slice (m.regs.vr idx) 0 vec_width)))
        >>= λ s. modify (λ m'. put_scratchpad m' s))
      m

unfoldable pub op_store_vr : ℕ → M ℕ
unfolding get_gpr ra rd simm16 vr_pointer spill_vr cycle_weight
op_store_vr w = do
  base ← get_gpr (ra w)
  vr_pointer (rd w)
  spill_vr (rd w) (add32 base (simm16 w))
  pure (cycle_weight Opcode.store_vr 0)

unfoldable pub target_weight : Opcode → ℕ → M ℕ
unfolding profile_cycle_weight
target_weight op f m = done (profile_cycle_weight m.target op f) m

module _ (fl : FloatOps) (simd : HostSimd) where
  unfoldable pub add_lanes : ℕ → ℕ → ℕ → Machine → Machine
  unfolding vec_add_host vec_add_scalar
  add_lanes d a b m =
      with_vr m (
        if m.accel then vec_add_host fl simd m.regs.vr d a b else vec_add_scalar fl m.regs.vr d a b)

  unfoldable pub op_vec_add : ℕ → M ℕ
  unfolding rd ra rb vr_pointer add_lanes target_weight
  op_vec_add w = do
    vr_pointer (rd w)
    vr_pointer (ra w)
    vr_pointer (rb w)
    modify (add_lanes (rd w) (ra w) (rb w))
    target_weight Opcode.vec_add 0

  -- Both paths of the source run the same scalar loops.
  unfoldable pub run_tile : ℕ → ℕ → M ℕ
  unfolding rd ra rb vr_pointer matmul_tile target_weight
  run_tile w n = do
    vr_pointer (rd w)
    vr_pointer (ra w)
    vr_pointer (rb w)
    modify (λ m. with_vr m (matmul_tile fl m.regs.vr (rd w) (ra w) (rb w) n))
    target_weight Opcode.matmul_tile n

  unfoldable pub op_matmul_tile : ℕ → M ℕ
  unfolding func run_tile
  op_matmul_tile w =
      let n = low_bits (func w) 4 in
      if n == 0 || ltb tile_size n then threw (invalid_tile n) else run_tile w n
