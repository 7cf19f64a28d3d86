-- ===== src/Emulator/Switched/Tensor.antt =====
-- The vector, tile and DMA handlers do alike under all switches, and with every vector width.
use novium_emulator.Base.{
  ℕ, arith, refl, Bool, true, false, not, ap, ◌≡◌, add32, sub32, ltb, if◌then◌else◌, Option, none,
  some,
}
use novium_emulator.Isa.{Opcode, rd, ra, rb, func}
use novium_emulator.Interrupt.{page_fault_trap}
use novium_emulator.Emulator.Basics.{get_gpr, modify, translate_data, enter_trap}
use novium_emulator.Emulator.Handlers.{issue_axi}
use novium_emulator.Emulator.Switched.Handlers.{get_gpr-Alike, issue_axi-Alike}
use novium_emulator.Kernels.{FloatOps, HostSimd}
use novium_emulator.Kernels.Add.{vec_add_lanes}
use novium_emulator.Emulator.{
  Machine, Outcome, done, threw, M, pure, ◌>>=◌, ◌>>◌, dma_scratchpad_out_of_bounds,
  dma_main_ram_out_of_bounds,
}
use novium_emulator.Emulator.Tensor.{
  vr_pointer, op_load_vr, op_store_vr, target_weight, add_lanes, op_vec_add, op_matmul_tile,
}
use novium_emulator.Emulator.Tensor.Dma.{
  dma_addresses, note_backpressure, load_copy, store_copy, dma_load_run, dma_store_run, op_dma_load,
  op_dma_store,
}
use novium_emulator.Emulator.Switched.{
  Switches, Alike, dress, dressed, next, bind-Alike, if-dressed,
}

module _ (s : Switches) where
  pub op_load_vr-Alike : (w : ℕ) → Alike s (op_load_vr w) (op_load_vr w)
  unfolding op_load_vr
  op_load_vr-Alike w m = ground arith

  pub op_store_vr-Alike : (w : ℕ) → Alike s (op_store_vr w) (op_store_vr w)
  unfolding op_store_vr
  op_store_vr-Alike w m = ground arith

  dma_addresses-Alike :
      (d a : ℕ) (is_load : Bool) → Alike s (dma_addresses d a is_load) (dma_addresses d a is_load)
  unfolding dma_addresses translate_data
  dma_addresses-Alike d a is_load m =
      let (pa_dest, m1) = translate_data d true m in
      let (pa_src, m2) = translate_data a false m1 in faulted m.mmu.enabled pa_dest pa_src m m2
    where
      faulted :
          (on : Bool) (o p : Option ℕ) (m m2 : Machine)
          → ◌≡◌ {A = Outcome (Option (ℕ × ℕ))}
              (if on
                then elim o [
                  | none ↦
                      done none
                        (enter_trap (page_fault_trap (sub32 m2.regs.pc 4) d true) (dress s m2))
                  | some x ↦ elim p [
                    | none ↦ done none (
                        enter_trap
                          (page_fault_trap (sub32 m2.regs.pc 4) a (not is_load))
                          (dress s m2))
                    | some y ↦ done (some (x, y)) (dress s m2)
                  ]
                ]
                else done (some (d, a)) (dress s m))
              (dressed s (
                if on
                then elim o [
                  | none ↦ done none (enter_trap (page_fault_trap (sub32 m2.regs.pc 4) d true) m2)
                  | some x ↦ elim p [
                    | none ↦
                        done none
                          (enter_trap (page_fault_trap (sub32 m2.regs.pc 4) a (not is_load)) m2)
                    | some y ↦ done (some (x, y)) m2
                  ]
                ]
                else done (some (d, a)) m))
      faulted false o p m m2 = refl
      faulted true none p m m2 = refl
      faulted true (some x) none m m2 = refl
      faulted true (some x) (some y) m m2 = refl

  note_backpressure-Alike : (b : Bool) → Alike s (note_backpressure b) (note_backpressure b)
  unfolding note_backpressure
  note_backpressure-Alike b m = ground arith

  load_copy-Alike : (d a n : ℕ) → Alike s (load_copy d a n) (load_copy d a n)
  unfolding load_copy
  load_copy-Alike d a n m = ground arith

  store_copy-Alike : (d a n : ℕ) → Alike s (store_copy d a n) (store_copy d a n)
  unfolding store_copy
  store_copy-Alike d a n m = ground arith

  target_weight-Alike : (op : Opcode) (f : ℕ) → Alike s (target_weight op f) (target_weight op f)
  unfolding target_weight
  target_weight-Alike op f m = refl

  pub vr_pointer-Alike : (i : ℕ) → Alike s (vr_pointer i) (vr_pointer i)
  unfolding vr_pointer
  vr_pointer-Alike i m = ground arith

  load_body-Alike :
      (d a n : ℕ)
      → let c = issue_axi d n false >>= λ accepted.
          note_backpressure accepted >> (load_copy d a n >> target_weight Opcode.dma_load n) in
        Alike s c c
  load_body-Alike d a n = next s (issue_axi d n false) _ _ (issue_axi-Alike s d n false) λ accepted.
      next s (note_backpressure accepted) _ _ (note_backpressure-Alike accepted) λ _.
        next s (load_copy d a n) _ _ (load_copy-Alike d a n)
          λ _. target_weight-Alike Opcode.dma_load n

  dma_load_run-Alike : (d a n : ℕ) → Alike s (dma_load_run d a n) (dma_load_run d a n)
  unfolding dma_load_run
  dma_load_run-Alike d a n m =
      if-dressed s (ltb m.scratchpad.size (add32 d n)) _ _ (threw dma_scratchpad_out_of_bounds m) _
        refl
        (if-dressed s (ltb m.main_ram.size (add32 a n)) _ _ (threw dma_main_ram_out_of_bounds m) _
          refl (load_body-Alike d a n m))

  store_body-Alike :
      (d a n : ℕ)
      → let c =
          issue_axi a n true >>= λ _. (store_copy d a n >> target_weight Opcode.dma_store n) in
        Alike s c c
  store_body-Alike d a n = next s (issue_axi a n true) _ _ (issue_axi-Alike s a n true) λ _.
      next s (store_copy d a n) _ _ (store_copy-Alike d a n)
        λ _. target_weight-Alike Opcode.dma_store n

  dma_store_run-Alike : (d a n : ℕ) → Alike s (dma_store_run d a n) (dma_store_run d a n)
  unfolding dma_store_run
  dma_store_run-Alike d a n m =
      if-dressed s (ltb m.main_ram.size (add32 d n)) _ _ (threw dma_main_ram_out_of_bounds m) _ refl
        (if-dressed s (ltb m.scratchpad.size (add32 a n)) _ _ (threw dma_scratchpad_out_of_bounds m)
          _ refl (store_body-Alike d a n m))

  -- A trap ends the handler, two addresses go on.
  pair-Alike :
      (o : Option (ℕ × ℕ)) (f : ℕ → ℕ → M ℕ)
      → ((d a : ℕ) → Alike s (f d a) (f d a))
      → let x : M ℕ = elim o [ none ↦ pure 2 | some (d, a) ↦ f d a ] in Alike s x x
  pair-Alike none f h m = refl
  pair-Alike (some (d, a)) f h m = h d a m

  pub op_dma_load-Alike : (w : ℕ) → Alike s (op_dma_load w) (op_dma_load w)
  unfolding op_dma_load
  op_dma_load-Alike w = next s (get_gpr (rd w)) _ _ (get_gpr-Alike s (rd w)) λ d.
      next s (get_gpr (ra w)) _ _ (get_gpr-Alike s (ra w)) λ a.
        next s (dma_addresses d a true) _ _ (dma_addresses-Alike d a true) λ o.
          pair-Alike o (λ x y. dma_load_run x y (func w)) (λ x y. dma_load_run-Alike x y (func w))

  pub op_dma_store-Alike : (w : ℕ) → Alike s (op_dma_store w) (op_dma_store w)
  unfolding op_dma_store
  op_dma_store-Alike w = next s (get_gpr (rd w)) _ _ (get_gpr-Alike s (rd w)) λ d.
      next s (get_gpr (ra w)) _ _ (get_gpr-Alike s (ra w)) λ a.
        next s (dma_addresses d a false) _ _ (dma_addresses-Alike d a false) λ o.
          pair-Alike o (λ x y. dma_store_run x y (func w)) (λ x y. dma_store_run-Alike x y (func w))

  module _ (fl : FloatOps) (simd simd' : HostSimd) where
    -- Every way to add the lanes gives the same registers.
    add_lanes-dress :
        (d a b : ℕ) (m : Machine)
        → add_lanes fl simd d a b (dress s m) ≡ dress s (add_lanes fl simd' d a b m)
    unfolding add_lanes
    add_lanes-dress d a b m = ground (
      arith,
      (vec_add_lanes fl simd m.regs.vr d a b).1,
      (vec_add_lanes fl simd' m.regs.vr d a b).1,
    )

    pub op_vec_add-Alike : (w : ℕ) → Alike s (op_vec_add fl simd w) (op_vec_add fl simd' w)
    unfolding op_vec_add
    op_vec_add-Alike w = next s (vr_pointer (rd w)) _ _ (vr_pointer-Alike (rd w)) λ _.
        next s (vr_pointer (ra w)) _ _ (vr_pointer-Alike (ra w)) λ _.
          next s (vr_pointer (rb w)) _ _ (vr_pointer-Alike (rb w)) λ _.
            bind-Alike s (modify (add_lanes fl simd (rd w) (ra w) (rb w)))
              (modify (add_lanes fl simd' (rd w) (ra w) (rb w)))
              (λ _. target_weight Opcode.vec_add 0) (λ _. target_weight Opcode.vec_add 0)
              (λ m. ap (done tt) (add_lanes-dress (rd w) (ra w) (rb w) m))
              (λ _. target_weight-Alike Opcode.vec_add 0)

    pub op_matmul_tile-Alike :
        (w : ℕ) → Alike s (op_matmul_tile fl simd w) (op_matmul_tile fl simd' w)
    unfolding op_matmul_tile
    op_matmul_tile-Alike w m = ground arith
