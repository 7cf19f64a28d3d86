-- ===== src/Emulator/Step.antt =====
-- src/emulator.cpp: fetch, execute, the peripheral ticks, `step` and `run`. The log of the verbose
-- mode is printed text and is left out.
pub mod Run
pub mod Traps
use novium_emulator.Base.{
  ℕ, zero, suc, ◌+◌, ◌-◌, ◌*◌, ◌/◌, ◌%◌, add32, sub32, u32, u64, leb, ◌==◌, if◌then◌else◌, ◌||◌,
  not, Bool, true, false, Option, none, some, test_bit, List,
}
use novium_emulator.Config.{cycles_per_tick}
use novium_emulator.Isa.{Opcode, opcode, opcode_of, func}
use novium_emulator.Isa.Enc
use novium_emulator.Memory.{in_bounds, load_word}
use novium_emulator.Csr
use novium_emulator.Csr.{csr_mtvec}
use novium_emulator.Devices.{timer_tick, uart_flush}
use novium_emulator.Interconnect
use novium_emulator.Interrupt
use novium_emulator.Interrupt.{
  Trap, cause_code, inst_page_fault, page_fault_trap, illegal_inst_trap, pending_interrupt,
}
use novium_emulator.Kernels.{FloatOps, HostSimd}
use novium_emulator.Mmu.Walk
use novium_emulator.Profiler.{record_op}
use novium_emulator.Emulator.{
  Machine, unknown_opcode, Outcome, threw, done, undefined_behaviour, M, pure, ◌>>=◌, ◌>>◌,
}
use novium_emulator.Emulator.Basics.{modify, with_pc, bus_read32, trap_base, enter_trap}
use novium_emulator.Emulator.Handlers.{
  op_nop, op_halt, op_jmp, op_beq, op_bne, op_add, op_sub, op_mul, op_load, op_store, op_mov,
  op_movi,
}
use novium_emulator.Emulator.Tensor.{op_load_vr, op_store_vr, op_vec_add, op_matmul_tile}
use novium_emulator.Emulator.Tensor.Dma.{op_dma_load, op_dma_store}

-- The interrupt that `step` takes before the fetch. With bit 0 of MTVEC set the vector of the
-- cause is used.
unfoldable pub take_interrupt : Machine → Machine
take_interrupt m = elim (pending_interrupt m.intc m.csr) [
  | none ↦ m
  | some t ↦
      let m' = enter_trap t m in
      if test_bit (Csr.read m'.csr csr_mtvec) 0
      then with_pc m' (u32 (trap_base m' + cause_code t.cause % 256 * 4))
      else m'
]

-- The memcpy of an instruction from a translated address, with no bound tested.
unfoldable pub fetch_at : ℕ → M ℕ
fetch_at pa m =
    if in_bounds m.scratchpad pa 4
    then done (load_word m.scratchpad.byte pa) (with_pc m (add32 m.regs.pc 4))
    else undefined_behaviour

unfoldable pub fetch : M ℕ
fetch m =
    let va = m.regs.pc in
    if m.mmu.enabled
    then (let t = Walk.translate m.csr m.scratchpad va false true m.mmu in
        let m' = record m { mmu = t.mmu } in
        elim t.pa [
          | some pa ↦ fetch_at pa m'
          | none ↦
              let trap = record (page_fault_trap va va false) { cause = inst_page_fault } in
              done Enc.nop (enter_trap trap m')
        ])
    else (do raw ← bus_read32 va; modify (λ s. with_pc s (add32 s.regs.pc 4)); pure raw) m

module _ (fl : FloatOps) (simd : HostSimd) where
  -- The dispatch table.
  unfoldable pub handler : Opcode → ℕ → M ℕ
  handler Opcode.nop = op_nop
  handler Opcode.halt = op_halt
  handler Opcode.jmp = op_jmp
  handler Opcode.beq = op_beq
  handler Opcode.bne = op_bne
  handler Opcode.add = op_add
  handler Opcode.sub = op_sub
  handler Opcode.mul = op_mul
  handler Opcode.load = op_load
  handler Opcode.store = op_store
  handler Opcode.mov = op_mov
  handler Opcode.movi = op_movi
  handler Opcode.load_vr = op_load_vr
  handler Opcode.store_vr = op_store_vr
  handler Opcode.vec_add = op_vec_add fl simd
  handler Opcode.matmul_tile = op_matmul_tile fl simd
  handler Opcode.dma_load = op_dma_load
  handler Opcode.dma_store = op_dma_store

  -- The bytes that the profiler counts as DMA.
  unfoldable pub dma_bytes_of : Opcode → ℕ → ℕ
  dma_bytes_of Opcode.dma_load w = func w
  dma_bytes_of Opcode.dma_store w = func w
  dma_bytes_of other w = 0

  -- The bookkeeping after a handler has returned.
  unfoldable pub account : Opcode → ℕ → ℕ → Machine → Machine
  account op w cycles m = record m {
    profiler = record_op m.profiler op cycles (dma_bytes_of op w);
    tick_accum = u64 (m.tick_accum + cycles);
  }

  -- A word of no opcode traps if there is a trap vector, and throws otherwise.
  unfoldable pub illegal : ℕ → M ℕ
  illegal w m =
      if Csr.read m.csr csr_mtvec == 0
      then threw (unknown_opcode (opcode w)) m
      else done 2 (enter_trap (illegal_inst_trap (sub32 m.regs.pc 4) w) m)

  unfoldable pub execute : ℕ → M ℕ
  execute w = elim (opcode_of (opcode w)) [
    | none ↦ illegal w
    | some op ↦ do cycles ← handler op w; modify (account op w cycles); pure cycles
  ]

-- One round of `tick_peripherals`.
unfoldable pub tick_once : Machine → Machine
tick_once m =
    let t = timer_tick m.timer cycles_per_tick in
    record m {
      interconnect = Interconnect.tick m.interconnect cycles_per_tick;
      axi = Interconnect.tick m.axi cycles_per_tick;
      pcie = Interconnect.tick m.pcie cycles_per_tick;
      cxi = Interconnect.tick m.cxi cycles_per_tick;
      timer = t;
      intc = if t.irq_pending then Interrupt.raise_timer m.intc else Interrupt.clear_timer m.intc;
      tick_accum = m.tick_accum - cycles_per_tick;
    }

-- The loop, on fuel: each round takes 1000 off the accumulator.
unfoldable pub tick_loop : ℕ → Machine → Machine
tick_loop zero m = m
tick_loop (suc fuel) m =
    let rest = tick_loop fuel (tick_once m) in if leb cycles_per_tick m.tick_accum then rest else m

unfoldable pub tick_peripherals : Machine → Machine
tick_peripherals m = tick_loop (m.tick_accum / cycles_per_tick) m

-- The copies that the verbose mode keeps.
unfoldable pub note_before : Machine → Machine
note_before m =
    if m.verbose
    then record m { last_pc = m.regs.pc; last_gpr = λ i. if i == 0 then 0 else m.regs.gpr i }
    else m

module _ (fl : FloatOps) (simd : HostSimd) where
  unfoldable pub step : M (Unit {0})
  step m =
      if m.regs.halt
      then done tt m
      else (do
        modify take_interrupt
        modify note_before
        w ← fetch
        _ ← execute fl simd w
        modify tick_peripherals)
          m

  -- The loop of `run`; `none` says that the fuel ran out.
  unfoldable pub run : ℕ → Machine → Option (Outcome (Unit {0}))
  run zero m = none
  run (suc fuel) m =
      if m.regs.halt || m.debugger.breakpoints m.regs.pc
      then some (done tt (record m { uart = uart_flush m.uart }))
      else elim (step m) [
        | done _ m' ↦ run fuel m'
        | threw e m' ↦ some (threw e m')
        | undefined_behaviour ↦ some undefined_behaviour
      ]
