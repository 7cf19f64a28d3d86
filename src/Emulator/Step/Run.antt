-- ===== src/Emulator/Step/Run.antt =====
-- Peripheral ticks, and the loop of `run`.
use Prim.Native.Nat.add
use novium_emulator.Base.{ℕ, zero, suc, ◌+◌, ◌/◌, ◌%◌, ◌||◌, true, some, ◌≡◌, refl, arith, []}
use novium_emulator.Devices.{Uart, uart_flush, uart_emit}
use novium_emulator.Kernels.{FloatOps, HostSimd}
use novium_emulator.Emulator.{Machine, Outcome, done}
use novium_emulator.Emulator.Step.{tick_once, tick_loop, tick_peripherals, step, run}

tick_loop_accum :
    (n : ℕ) (m : Machine)
    → m.tick_accum / 1000 ≡ n
    → ((tick_loop n m).tick_accum ≡ m.tick_accum % 1000) × ((tick_loop n m).regs ≡ m.regs)
unfolding tick_loop tick_once
tick_loop_accum zero m e = (omega arith, refl)
tick_loop_accum (suc n) m e = ground (arith, tick_loop_accum n (tick_once m))

-- The loop of the peripheral ticks ends below one tick: it takes every whole thousand of cycles off
-- the accumulator, and leaves the registers alone.
pub tick_peripherals_accum :
    (m : Machine)
    → ((tick_peripherals m).tick_accum ≡ m.tick_accum % 1000) × ((tick_peripherals m).regs ≡ m.regs)
unfolding tick_peripherals
tick_peripherals_accum m = tick_loop_accum (m.tick_accum / 1000) m refl

uart_flush_empty : (u : Uart) → (uart_flush u).tx_buffer ≡ []
unfolding uart_flush uart_emit
uart_flush_empty u = ground arith

module _ (fl : FloatOps) (simd : HostSimd) where
  -- A halted machine does not step.
  pub step_halted : (m : Machine) → m.regs.halt ≡ true → step fl simd m ≡ done tt m
  unfolding step
  step_halted m h = rw h

  -- The machine after a step that returns.
  abbrev stepped : Machine → Machine
  stepped m = elim (step fl simd m) [ done _ m' ↦ m' | _ ↦ m ]

  -- `run` that returns has stopped for one of its reasons, with nothing left in the UART's buffer.
  pub run_stops :
      (fuel : ℕ) (m m' : Machine)
      → run fl simd fuel m ≡ some (done tt m')
      → ((m'.regs.halt || m'.debugger.breakpoints m'.regs.pc) ≡ true) × (m'.uart.tx_buffer ≡ [])
  unfolding run
  run_stops zero m m' h = cc
  run_stops (suc fuel) m m' h =
      ground (arith, uart_flush_empty m.uart, run_stops fuel (stepped m) m')

  -- More fuel changes no result of `run`.
  pub run_more_fuel :
      (fuel extra : ℕ) (m : Machine) (r : Outcome (Unit {0}))
      → run fl simd fuel m ≡ some r
      → run fl simd (fuel + extra) m ≡ some r
  unfolding run
  run_more_fuel zero extra m r h = cc
  run_more_fuel (suc fuel) extra m r h =
      rw add.suc (ground (arith, run_more_fuel fuel extra (stepped m) r))
