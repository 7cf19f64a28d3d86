-- ===== src/Tests/Machine.antt =====
-- Handlers, traps, transfers and programs on a small machine.
use novium_emulator.Base.{
  ℕ, ◌≡◌, refl, arith, some, none, true, false, [], ◌∷◌, length, ◌+◌, ◌*◌, if◌then◌else◌, inl, inr,
  slice, ◌==◌,
}
use novium_emulator.Isa.{rd, ra, rb, offset, opcode, opcode_of}
use novium_emulator.Memory.{fresh, words_bytes}
use novium_emulator.Csr
use novium_emulator.Csr.{csr_mtvec, csr_mepc, csr_mie, csr_mstatus}
use novium_emulator.Interrupt.{
  pending_interrupt, interrupt_trap, interrupt_pending, enabled_line, machine_timer, Trap,
  take_trap, mret,
}
use novium_emulator.Interrupt.Laws.{
  mret-take_trap, take_trap_state, pending_interrupt_order, first_served, service_order,
}
use novium_emulator.Devices.{uart_flush}
use novium_emulator.Registers.{cleared}
use novium_emulator.Kernels.{FloatOps, no_simd, avx2, vec_add_host, vec_add_scalar, matmul_tile}
use novium_emulator.Kernels.Add.{vec_add_lanes}
use novium_emulator.Kernels.Matmul.{matmul_tile-product, product, by_rows}
use novium_emulator.Translate.{empty_cache}
use novium_emulator.Emulator.{Machine, done, threw, undefined_behaviour, unknown_opcode}
use novium_emulator.Emulator.Basics.{with_pc}
use novium_emulator.Emulator.Control.{
  create, load_program, aism_load_program, save_state, restore_state,
}
use novium_emulator.Emulator.Control.Laws.{
  load_program-fits, load_program-refused, restore_state-save_state,
}
use novium_emulator.Emulator.Handlers.{op_add, op_bne}
use novium_emulator.Emulator.Handlers.Alu.{
  with_reg, with_flags, alu_results, alu_undefined, branch_results,
}
use novium_emulator.Emulator.Handlers.{op_store}
use novium_emulator.Emulator.Handlers.Store.{store_reads_back}
use novium_emulator.Emulator.Basics.{bus_read32}
use novium_emulator.Isa.{simm16}
use novium_emulator.Emulator.Step.{execute, run, tick_peripherals, take_interrupt}
use novium_emulator.Emulator.Step.Run.{run_stops, run_more_fuel, tick_peripherals_accum}
use novium_emulator.Emulator.Step.Traps.{execute_illegal, take_interrupt_state}
use novium_emulator.Emulator.Tensor.Dma.{dma_load_run}
use novium_emulator.Emulator.Tensor.Dma.Laws.{dma_load_copies, dma_load_wraps}

-- Register i holds 4 * i.
abbrev start : Machine
start = record (create 4096 4096) {
  regs = record cleared { gpr = λ i. i * 4 };
  scratchpad = fresh 4096;
  main_ram = fresh 4096;
}

-- ADD r1, r2, r3, and ADD r1, r20, r3.
abbrev add_word : ℕ
add_word = 337778688

abbrev wide_add : ℕ
wide_add = 338958336

-- BEQ r1, r2, +8.
abbrev beq_word : ℕ
beq_word = 203554824

alu_results_example : op_add add_word start ≡ done 1 (with_flags (with_reg start 1 20) 20)
unfolding rd ra rb
alu_results_example = (alu_results add_word start (omega arith) (omega arith) (omega arith)).0

alu_undefined_example : op_add wide_add start ≡ undefined_behaviour
unfolding rd ra rb
alu_undefined_example = (alu_undefined wide_add start (inr (inl (omega arith)))).0

branch_results_example : op_bne beq_word start ≡ done 3 (with_pc start 8)
unfolding rd ra offset cleared
branch_results_example = (branch_results beq_word start (omega arith) (omega arith)).1

-- STORE r2 at r1 + 8.
abbrev store_word : ℕ
store_word = 608239624

store_reads_back_example :
    (m' : Machine) × (op_store store_word start ≡ done 3 m')
    × (bus_read32 12 m' ≡ done 8 m')
    × (m'.regs ≡ start.regs)
    × (m'.main_ram ≡ start.main_ram)
unfolding rd ra simm16 create fresh
store_reads_back_example =
    store_reads_back store_word start (omega arith) (omega arith) refl (omega arith) (omega arith)
      (omega arith)

-- A float is added and multiplied as if it were an integer.
abbrev whole : FloatOps
whole = record { fadd = λ x y. x + y; fmul = λ x y. x * y }

vec_add_lanes_example :
    vec_add_host whole avx2 (λ r j. r + j) 2 0 1 ≡ vec_add_scalar whole (λ r j. r + j) 2 0 1
vec_add_lanes_example = (vec_add_lanes whole avx2 (λ r j. r + j) 2 0 1).1

matmul_tile-product_example :
    matmul_tile whole (λ r j. r + j) 2 0 1 2 2 3
    ≡ product whole 2 (by_rows 2 (λ j. 0 + j)) (by_rows 2 (λ j. 1 + j)) 1 1
matmul_tile-product_example =
    (matmul_tile-product whole 2 0 1 2 (λ e. omega (arith, e)) (λ e. omega (arith, e))
      (λ r j. r + j) 1 1 5 0 (omega arith) (omega arith) (omega arith) (λ e. omega (arith, e))).0

abbrev timer_trap : Trap
timer_trap = interrupt_trap machine_timer

mret-take_trap_example : (mret (take_trap start.intc start.csr timer_trap).1).0 ≡ 0
mret-take_trap_example = (mret-take_trap start.intc start.csr timer_trap).0

take_trap_state_example : Csr.read (take_trap start.intc start.csr timer_trap).1 csr_mepc ≡ 0
take_trap_state_example = (take_trap_state start.intc start.csr timer_trap).0

-- Interrupts are on and the timer's is raised.
abbrev interrupted : Machine
interrupted = record start {
  intc = record { mip = 128; external_id = 0; trap_count = 0 };
  csr = record start.csr {
    regs = λ i. if i == csr_mie then 128 else if i == csr_mstatus then 8 else 0;
  };
}

pending_interrupt_order_example : pending_interrupt interrupted.intc interrupted.csr ≡ (
    if Csr.mstatus_mie interrupted.csr
    then first_served interrupted.intc interrupted.csr service_order
    else none)
pending_interrupt_order_example = pending_interrupt_order interrupted.intc interrupted.csr

take_interrupt_state_example : Csr.read (take_interrupt interrupted).csr csr_mepc ≡ 0
unfolding pending_interrupt interrupt_pending enabled_line
take_interrupt_state_example = (take_interrupt_state interrupted timer_trap refl).2

execute_illegal_example :
    execute whole no_simd 0xFC000000 interrupted ≡ threw (unknown_opcode 63) interrupted
unfolding opcode opcode_of Csr.read
execute_illegal_example = (execute_illegal whole no_simd 0xFC000000 interrupted refl).0

tick_peripherals_accum_example :
    (tick_peripherals (record start { tick_accum = 2500 })).tick_accum ≡ 500
tick_peripherals_accum_example = (tick_peripherals_accum (record start { tick_accum = 2500 })).0

abbrev halted : Machine
halted = record start { regs = record cleared { halt = true } }

run_stops_example : halted.uart.tx_buffer ≡ []
unfolding run create uart_flush
run_stops_example = (run_stops whole no_simd 1 halted halted refl).1

run_more_fuel_example : run whole no_simd 3 halted ≡ some (done tt halted)
unfolding run create uart_flush
run_more_fuel_example = run_more_fuel whole no_simd 1 2 halted (done tt halted) refl

dma_load_copies_example :
    (cycles : ℕ) × (m' : Machine) × (dma_load_run 64 128 16 start ≡ done cycles m')
    × (slice m'.scratchpad.byte 64 16 ≡ slice start.main_ram.byte 128 16)
    × (m'.scratchpad.byte 0 ≡ start.scratchpad.byte 0)
    × (m'.main_ram ≡ start.main_ram)
    × (m'.regs ≡ start.regs)
unfolding fresh
dma_load_copies_example =
    dma_load_copies 64 128 16 start 0 (omega arith) (omega arith) (omega arith) (omega arith)
      (inl (omega arith))

dma_load_wraps_example : dma_load_run 0xFFFFFFFC 0 16 start ≡ undefined_behaviour
unfolding fresh
dma_load_wraps_example =
    dma_load_wraps 0xFFFFFFFC 0 16 start (omega arith) (omega arith) (omega arith) (omega arith)
      (omega arith) (omega arith) (omega arith)

load_program-fits_example :
    (m' : Machine) × (load_program (add_word ∷ []) start ≡ done tt m')
    × (slice m'.scratchpad.byte 0 (length (words_bytes (add_word ∷ [])))
        ≡ words_bytes (add_word ∷ []))
    × (m'.scratchpad.byte 4 ≡ start.scratchpad.byte 4)
    × (m'.block_cache ≡ empty_cache)
    × (m'.regs ≡ start.regs)
    × (m'.main_ram ≡ start.main_ram)
unfolding fresh
load_program-fits_example =
    load_program-fits (add_word ∷ []) start 4 (omega arith) (omega arith) (omega arith)

load_program-refused_example :
    aism_load_program (add_word ∷ []) (record start { scratchpad = fresh 2 })
    ≡ some (false, record start { scratchpad = fresh 2 })
unfolding fresh
load_program-refused_example =
    load_program-refused (add_word ∷ []) (record start { scratchpad = fresh 2 }) (inr (omega arith))

restore_state-save_state_example :
    (restore_state (save_state start) halted).regs ≡ record start.regs { halt = true }
restore_state-save_state_example = (restore_state-save_state start halted refl).0
