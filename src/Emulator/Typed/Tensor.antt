-- ===== src/Emulator/Typed/Tensor.antt =====
-- The handlers of the vector, tile and DMA instructions.
use novium_emulator.Base.{
  ℕ, ◌<◌, add32, low_bits, ltb, ◌==◌, if◌then◌else◌, ◌||◌, update, slice, blit, All, Bool, true,
  false, none, some, List, refl, if_split,
}
use novium_emulator.Config.{num_vr, vr_byte_size, vec_width, tile_size}
use novium_emulator.Isa.{Opcode, rd, ra, rb, simm16, func}
use novium_emulator.Memory.{in_bounds, write_bytes, words_bytes}
use novium_emulator.Kernels.{FloatOps, HostSimd, VectorFile}
use novium_emulator.Emulator.{
  Machine, sram_out_of_bounds, invalid_tile, done, threw, undefined_behaviour, M, ◌>>=◌, ◌>>◌,
}
use novium_emulator.Emulator.Basics.{get_gpr, or_throw, modify, put_scratchpad}
use novium_emulator.Emulator.Tensor.{
  vr_pointer, with_vr, lanes_at, fill_vr, op_load_vr, spill_vr, op_store_vr, target_weight,
  add_lanes, op_vec_add, run_tile, op_matmul_tile,
}
use novium_emulator.Emulator.Tensor.Dma.{}
use novium_emulator.Emulator.Typed.{
  IsTyped, Safe, Any, Is32, bind-Safe, last-Safe, with_regs-IsTyped, pad-IsTyped, blit-Bytes,
  words_bytes-Bytes, get_gpr-Safe,
}
use novium_emulator.Emulator.Typed.Handlers.{same_registers}

module _ (m : Machine) (t : IsTyped m) where
  with_vr-IsTyped : (vr : VectorFile) → IsTyped (with_vr m vr)
  with_vr-IsTyped vr =
      with_regs-IsTyped m (record m.regs { vr = vr }) (same_registers m.regs _ refl refl t.regs) t

  vr_pointer-Safe : (i : ℕ) → Safe Any (vr_pointer i m)
  unfolding vr_pointer
  vr_pointer-Safe i =
      if_split (Safe Any) (ltb i num_vr) (done tt m) undefined_behaviour (λ _. (tt, t)) (λ _. tt)

  fill_vr-Safe : (i addr : ℕ) → Safe Any (fill_vr i addr m)
  unfolding fill_vr
  fill_vr-Safe i addr =
      let lanes = lanes_at m.scratchpad addr (m.regs.vr i) in
      if_split (Safe Any) (in_bounds m.scratchpad addr vr_byte_size)
        (done tt (with_vr m (update m.regs.vr i lanes))) (threw sram_out_of_bounds m)
        (λ _. (tt, with_vr-IsTyped (update m.regs.vr i lanes))) (λ _. t)

  -- A block of bytes stored in the scratchpad, or refused.
  stored-Safe :
      (at : ℕ) (src : List ℕ) (b : Bool)
      → All (λ x. x < 256) src
      → Safe Any (
          (or_throw sram_out_of_bounds (
                if b
                then some (record m.scratchpad { byte = blit m.scratchpad.byte at src })
                else none)
              >>= λ s. modify (λ m'. put_scratchpad m' s))
            m)
  stored-Safe at src true small =
      (tt, pad-IsTyped m _ (blit-Bytes m.scratchpad.byte at src t.pad small) t)
  stored-Safe at src false small = t

  spill_vr-Safe : (i addr : ℕ) → Safe Any (spill_vr i addr m)
  unfolding spill_vr write_bytes
  spill_vr-Safe i addr =
      stored-Safe addr (words_bytes (slice (m.regs.vr i) 0 vec_width)) _
        (words_bytes-Bytes (slice (m.regs.vr i) 0 vec_width))

module _ (w : ℕ) (m : Machine) (t : IsTyped m) where
  pub op_load_vr-Safe : Safe Any (op_load_vr w m)
  unfolding op_load_vr
  op_load_vr-Safe =
      bind-Safe Is32 Any (get_gpr (ra w) m) _ (get_gpr-Safe (ra w) m t) λ base m1 _ t1.
        bind-Safe Any Any (vr_pointer (rd w) m1) _ (vr_pointer-Safe m1 t1 (rd w)) λ _ m2 _ t2.
          last-Safe (fill_vr (rd w) (add32 base (simm16 w)) m2) _
            (fill_vr-Safe m2 t2 (rd w) (add32 base (simm16 w)))

  pub op_store_vr-Safe : Safe Any (op_store_vr w m)
  unfolding op_store_vr
  op_store_vr-Safe =
      bind-Safe Is32 Any (get_gpr (ra w) m) _ (get_gpr-Safe (ra w) m t) λ base m1 _ t1.
        bind-Safe Any Any (vr_pointer (rd w) m1) _ (vr_pointer-Safe m1 t1 (rd w)) λ _ m2 _ t2.
          last-Safe (spill_vr (rd w) (add32 base (simm16 w)) m2) _
            (spill_vr-Safe m2 t2 (rd w) (add32 base (simm16 w)))

pub target_weight-Safe :
    (op : Opcode) (f : ℕ) (m : Machine) → IsTyped m → Safe Any (target_weight op f m)
unfolding target_weight
target_weight-Safe op f m t = (tt, t)

module _ (fl : FloatOps) (simd : HostSimd) (w : ℕ) (m : Machine) (t : IsTyped m) where
  -- Three vector registers, and an operation that writes one.
  three_vrs :
      (f : Machine → VectorFile) (op : Opcode) (n : ℕ)
      → Safe Any (
          (vr_pointer (rd w)
              >> (vr_pointer (ra w)
                  >> (vr_pointer (rb w) >> (modify (λ s. with_vr s (f s)) >> target_weight op n))))
            m)
  three_vrs f op n =
      bind-Safe Any Any (vr_pointer (rd w) m) _ (vr_pointer-Safe m t (rd w)) λ _ m1 _ t1.
        bind-Safe Any Any (vr_pointer (ra w) m1) _ (vr_pointer-Safe m1 t1 (ra w)) λ _ m2 _ t2.
          bind-Safe Any Any (vr_pointer (rb w) m2) _ (vr_pointer-Safe m2 t2 (rb w))
            λ _ m3 _ t3. target_weight-Safe op n (with_vr m3 (f m3)) (with_vr-IsTyped m3 t3 (f m3))

  pub op_vec_add-Safe : Safe Any (op_vec_add fl simd w m)
  unfolding op_vec_add add_lanes
  op_vec_add-Safe = three_vrs _ Opcode.vec_add 0

  run_tile-Safe : (n : ℕ) → Safe Any (run_tile fl simd w n m)
  unfolding run_tile
  run_tile-Safe n = three_vrs _ Opcode.matmul_tile n

  pub op_matmul_tile-Safe : Safe Any (op_matmul_tile fl simd w m)
  unfolding op_matmul_tile
  op_matmul_tile-Safe =
      let n = low_bits (func w) 4 in
      if_split (λ (c : M ℕ). Safe Any (c m)) (n == 0 || ltb tile_size n) (threw (invalid_tile n))
        (run_tile fl simd w n) (λ _. t) (λ _. run_tile-Safe n)
