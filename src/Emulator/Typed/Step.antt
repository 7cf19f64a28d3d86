-- ===== src/Emulator/Typed/Step.antt =====
-- One step: fetch, the dispatch to the handlers, traps and the peripheral ticks.
use novium_emulator.Base.{
  ℕ, zero, suc, ◌+◌, ◌-◌, u64, ◌*◌, ◌/◌, ◌%◌, add32, sub32, u32, leb, ◌==◌, if◌then◌else◌, test_bit,
  true, false, Option, none, some, refl, arith, if_split,
}
use novium_emulator.Config.{cycles_per_tick}
use novium_emulator.Isa.{Opcode, opcode, opcode_of}
use novium_emulator.Isa.Enc
use novium_emulator.Memory.{in_bounds, load_word}
use novium_emulator.Csr
use novium_emulator.Csr.{csr_mtvec}
use novium_emulator.Interrupt.{
  Trap, cause_code, inst_page_fault, page_fault_trap, illegal_inst_trap, pending_interrupt,
}
use novium_emulator.Profiler.{record_op}
use novium_emulator.Kernels.{FloatOps, HostSimd}
use novium_emulator.Mmu.Walk
use novium_emulator.Emulator.{
  Machine, unknown_opcode, done, threw, undefined_behaviour, M, pure, ◌>>=◌, ◌>>◌,
}
use novium_emulator.Emulator.Basics.{with_pc, bus_read32, trap_base, enter_trap, modify}
use novium_emulator.Emulator.Step.{
  take_interrupt, fetch_at, fetch, handler, dma_bytes_of, account, illegal, execute, tick_once,
  tick_loop, tick_peripherals, note_before, step,
}
use novium_emulator.Emulator.Typed.{
  IsTyped, Safe, Any, Is32, bind-Safe, keeps, counted-IsTyped, ticked-IsTyped, with_pc-IsTyped,
}
use novium_emulator.Emulator.Typed.Bus.{bus_read32-Safe, enter_trap-IsTyped}
use novium_emulator.Emulator.Typed.Handlers.{
  op_nop-Safe, op_halt-Safe, op_jmp-Safe, op_beq-Safe, op_bne-Safe, op_add-Safe, op_sub-Safe,
  op_mul-Safe, op_load-Safe, op_store-Safe, op_mov-Safe, op_movi-Safe,
}
use novium_emulator.Emulator.Typed.Tensor.{
  op_load_vr-Safe, op_store_vr-Safe, op_vec_add-Safe, op_matmul_tile-Safe,
}
use novium_emulator.Emulator.Typed.Dma.{op_dma_load-Safe, op_dma_store-Safe}

interrupt_taken :
    (o : Option Trap) (m : Machine)
    → IsTyped m
    → IsTyped (elim o [
      | none ↦ m
      | some tr ↦
          let m' = enter_trap tr m in
          if test_bit (Csr.read m'.csr csr_mtvec) 0
          then with_pc m' (u32 (trap_base m' + cause_code tr.cause % 256 * 4))
          else m'
    ])
interrupt_taken none m t = t
interrupt_taken (some tr) m t =
    let m' = enter_trap tr m in
    let typed = enter_trap-IsTyped tr m t in
    let pc = u32 (trap_base m' + cause_code tr.cause % 256 * 4) in
    if_split IsTyped (test_bit (Csr.read m'.csr csr_mtvec) 0) (with_pc m' pc) m'
      (λ _. with_pc-IsTyped m' pc (omega arith) typed) (λ _. typed)

take_interrupt-IsTyped : (m : Machine) → IsTyped m → IsTyped (take_interrupt m)
unfolding take_interrupt
take_interrupt-IsTyped m t = interrupt_taken (pending_interrupt m.intc m.csr) m t

note_before-IsTyped : (m : Machine) → IsTyped m → IsTyped (note_before m)
unfolding note_before
note_before-IsTyped m t =
    if_split IsTyped m.verbose _ m (λ _. keeps m _ refl refl refl refl refl refl refl t) (λ _. t)

fetch_at-Safe : (pa : ℕ) (m : Machine) → IsTyped m → Safe Any (fetch_at pa m)
unfolding fetch_at
fetch_at-Safe pa m t =
    if_split (Safe Any) (in_bounds m.scratchpad pa 4)
      (done (load_word m.scratchpad.byte pa) (with_pc m (add32 m.regs.pc 4))) undefined_behaviour
      (λ _. (tt, with_pc-IsTyped m (add32 m.regs.pc 4) (omega arith) t)) (λ _. tt)

fetched :
    (o : Option ℕ) (tr : Trap) (m : Machine)
    → IsTyped m
    → Safe Any (elim o [ some pa ↦ fetch_at pa m | none ↦ done Enc.nop (enter_trap tr m) ])
fetched none tr m t = (tt, enter_trap-IsTyped tr m t)
fetched (some pa) tr m t = fetch_at-Safe pa m t

fetch-Safe : (m : Machine) → IsTyped m → Safe Any (fetch m)
unfolding fetch
fetch-Safe m t =
    let va = m.regs.pc in
    let x = Walk.translate m.csr m.scratchpad va false true m.mmu in
    let m' = record m { mmu = x.mmu } in
    let tr = record (page_fault_trap va va false) { cause = inst_page_fault } in
    let typed : IsTyped m' = keeps m m' refl refl refl refl refl refl refl t in
    if_split (Safe Any) m.mmu.enabled
      (elim x.pa [ some pa ↦ fetch_at pa m' | none ↦ done Enc.nop (enter_trap tr m') ]) _
      (λ _. fetched x.pa tr m' typed)
      (λ _.
        bind-Safe Is32 Any (bus_read32 va m) _ (bus_read32-Safe va m t)
          λ raw m1 _ t1. (tt, with_pc-IsTyped m1 (add32 m1.regs.pc 4) (omega arith) t1))

tick_once-IsTyped : (m : Machine) → IsTyped m → IsTyped (tick_once m)
unfolding tick_once
tick_once-IsTyped m t =
    let n = m.tick_accum - cycles_per_tick in
    keeps (record m { tick_accum = n }) _ refl refl refl refl refl refl refl
      (ticked-IsTyped m n (omega (arith, t.ticks)) t)

tick_loop-IsTyped : (n : ℕ) (m : Machine) → IsTyped m → IsTyped (tick_loop n m)
unfolding tick_loop
tick_loop-IsTyped zero m t = t
tick_loop-IsTyped (suc n) m t =
    if_split IsTyped (leb cycles_per_tick m.tick_accum) (tick_loop n (tick_once m)) m
      (λ _. tick_loop-IsTyped n (tick_once m) (tick_once-IsTyped m t)) (λ _. t)

tick_peripherals-IsTyped : (m : Machine) → IsTyped m → IsTyped (tick_peripherals m)
unfolding tick_peripherals
tick_peripherals-IsTyped m t = tick_loop-IsTyped (m.tick_accum / cycles_per_tick) m t

module _ (fl : FloatOps) (simd : HostSimd) where
  handler-Safe : (op : Opcode) (w : ℕ) (m : Machine) → IsTyped m → Safe Any (handler fl simd op w m)
  unfolding handler
  handler-Safe Opcode.nop w m t = op_nop-Safe w m t
  handler-Safe Opcode.halt w m t = op_halt-Safe w m t
  handler-Safe Opcode.jmp w m t = op_jmp-Safe w m t
  handler-Safe Opcode.beq w m t = op_beq-Safe w m t
  handler-Safe Opcode.bne w m t = op_bne-Safe w m t
  handler-Safe Opcode.add w m t = op_add-Safe w m t
  handler-Safe Opcode.sub w m t = op_sub-Safe w m t
  handler-Safe Opcode.mul w m t = op_mul-Safe w m t
  handler-Safe Opcode.load w m t = op_load-Safe w m t
  handler-Safe Opcode.store w m t = op_store-Safe w m t
  handler-Safe Opcode.mov w m t = op_mov-Safe w m t
  handler-Safe Opcode.movi w m t = op_movi-Safe w m t
  handler-Safe Opcode.load_vr w m t = op_load_vr-Safe w m t
  handler-Safe Opcode.store_vr w m t = op_store_vr-Safe w m t
  handler-Safe Opcode.vec_add w m t = op_vec_add-Safe fl simd w m t
  handler-Safe Opcode.matmul_tile w m t = op_matmul_tile-Safe fl simd w m t
  handler-Safe Opcode.dma_load w m t = op_dma_load-Safe w m t
  handler-Safe Opcode.dma_store w m t = op_dma_store-Safe w m t

  illegal-Safe : (w : ℕ) (m : Machine) → IsTyped m → Safe Any (illegal fl simd w m)
  unfolding illegal
  illegal-Safe w m t =
      if_split (Safe Any) (Csr.read m.csr csr_mtvec == 0) (threw (unknown_opcode (opcode w)) m) _
        (λ _. t) (λ _. (tt, enter_trap-IsTyped (illegal_inst_trap (sub32 m.regs.pc 4) w) m t))

  account-IsTyped :
      (op : Opcode) (w cycles : ℕ) (m : Machine)
      → IsTyped m
      → IsTyped (account fl simd op w cycles m)
  unfolding account
  account-IsTyped op w cycles m t =
      let bytes = dma_bytes_of fl simd op w in
      let m' = record m { profiler = record_op m.profiler op cycles bytes } in
      ticked-IsTyped m' (u64 (m.tick_accum + cycles)) (omega arith)
        (counted-IsTyped m op cycles bytes t)

  decoded :
      (o : Option Opcode) (w : ℕ) (m : Machine)
      → IsTyped m
      → Safe Any (
          let c : M ℕ = elim o [
            | none ↦ illegal fl simd w
            | some op ↦ handler fl simd op w >>= λ cycles.
                modify (account fl simd op w cycles) >> pure cycles
          ] in
          c m)
  decoded none w m t = illegal-Safe w m t
  decoded (some op) w m t =
      bind-Safe Any Any (handler fl simd op w m) _ (handler-Safe op w m t)
        λ cycles m1 _ t1. (tt, account-IsTyped op w cycles m1 t1)

  execute-Safe : (w : ℕ) (m : Machine) → IsTyped m → Safe Any (execute fl simd w m)
  unfolding execute
  execute-Safe w m t = decoded (opcode_of (opcode w)) w m t

  pub step-Safe : (m : Machine) → IsTyped m → Safe Any (step fl simd m)
  unfolding step
  step-Safe m t =
      let m0 = note_before (take_interrupt m) in
      let t0 = note_before-IsTyped (take_interrupt m) (take_interrupt-IsTyped m t) in
      if_split (Safe Any) m.regs.halt (done tt m) _ (λ _. (tt, t))
        λ _. bind-Safe Any Any (fetch m0) _ (fetch-Safe m0 t0) λ w m1 _ t1.
          bind-Safe Any Any (execute fl simd w m1) _ (execute-Safe w m1 t1)
            λ _ m2 _ t2. (tt, tick_peripherals-IsTyped m2 t2)
