-- ===== src/Command/Sections/Passes.antt =====
-- What the sections of src/main.cpp print.
use novium_emulator.Base.{ℕ, true, some, List, [], ◌∷◌, ◌≡◌, refl}
use novium_emulator.Config.{scratchpad_size, main_ram_size}
use novium_emulator.Memory
use novium_emulator.Memory.{Memory, in_bounds}
use novium_emulator.Emulator.Basics.{outside_shared, bus_read32}
use novium_emulator.Emulator.Handlers.{op_halt, op_bne, op_add, op_movi, issue_axi}
use novium_emulator.Emulator.Tensor.{op_load_vr, op_store_vr, op_vec_add, op_matmul_tile}
use novium_emulator.Emulator.Tensor.Dma.{note_backpressure, op_dma_load, op_dma_store}
use novium_emulator.Emulator.Step.{
  take_interrupt, fetch, handler, account, execute, tick_loop, tick_peripherals, note_before, step,
}
use novium_emulator.Isa.{opcode_of}
use novium_emulator.Interrupt.{interrupt_pending, pending_interrupt}
use novium_emulator.Bus.{route}
use novium_emulator.Isa.Enc
use novium_emulator.Kernels.{FloatOps, HostSimd}
use novium_emulator.Emulator.{Outcome, done, threw, undefined_behaviour}
use novium_emulator.Emulator.Control.{create, load_program, load_main_ram}
use novium_emulator.Emulator.Step.{run}
use novium_emulator.Command.{boot, program}
use novium_emulator.Isa.{opcode}
use novium_emulator.Base.Text.{Text, codes}
use novium_emulator.Debugger
use novium_emulator.Emulator.Basics.{
  bus_write32, bus_devices, on_timer_read, on_timer_write, on_uart_write, get_gpr,
}
use novium_emulator.Emulator.Control.{save_state, restore_state}
use novium_emulator.Command.Lanes.{lanes}
use novium_emulator.Command.Sections.{
  then_do, step_until, verbose_section, matches, restore_section, send, mmio_section, printed,
}

-- What the UART has printed.
abbrev lines_sent : {A : Type 0} → Outcome A → List Text
lines_sent o = elim o [
  | done _ m ↦ m.uart.printed
  | threw e m ↦ m.uart.printed
  | undefined_behaviour ↦ []
]

-- The sections of `main`, evaluated with matrices, float operations and vector width left open: they
-- end without an error. The run that is stepped to its breakpoint and continued leaves 15 in r3, the
-- state that is saved at a breakpoint and restored leads to a match, the registers of the timer read
-- back what was written, and the UART prints the line that was sent.
sections_pass :
    (fl : FloatOps) (simd : HostSimd) (a b : ℕ → ℕ)
    → (printed (verbose_section fl simd 40 (lanes a) (lanes b)) ≡ some 15)
      × (printed (restore_section fl simd 40 (lanes a) (lanes b)) ≡ some true)
      × (printed (some (mmio_section (create scratchpad_size main_ram_size))) ≡ some (500, 1))
      × (lines_sent (mmio_section (create scratchpad_size main_ram_size)) ≡ codes "Novium\n" ∷ [])
unfolding verbose_section matches restore_section mmio_section bus_write32 on_timer_read
    on_timer_write on_uart_write save_state restore_state Debugger.add_breakpoint
    Debugger.remove_breakpoint Debugger.has_breakpoint boot program create outside_shared bus_read32
    op_halt op_bne op_add op_movi issue_axi op_load_vr op_store_vr op_vec_add op_matmul_tile
    note_backpressure op_dma_load op_dma_store take_interrupt fetch handler account execute
    tick_loop tick_peripherals note_before step run load_program load_main_ram opcode_of Enc.halt
    Enc.bne Enc.add Enc.movi Enc.load_vr Enc.store_vr Enc.vec_add Enc.matmul_tile Enc.dma_load
    Enc.dma_store Memory.read32 interrupt_pending pending_interrupt route opcode bus_devices get_gpr
    send step_until then_do
sections_pass fl simd a b = (refl, refl, refl, refl)
