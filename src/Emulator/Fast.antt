-- ===== src/Emulator/Fast.antt =====
-- src/emulator.cpp: `run_fast`, which replays decoded blocks of the scratchpad.
pub mod Runs
pub mod Whole
pub mod Check
pub mod Skips
pub mod Stops
use novium_emulator.Base.{
  ℕ, zero, suc, add32, if◌then◌else◌, ◌||◌, Bool, Option, none, some, List, [], ◌∷◌,
}
use novium_emulator.Devices.{uart_flush}
use novium_emulator.Kernels.{FloatOps, HostSimd}
use novium_emulator.Translate.{DecodedBlock, is_halt, is_branch}
use novium_emulator.Translate
use novium_emulator.Emulator.{
  Machine, sram_out_of_bounds, Outcome, threw, done, undefined_behaviour, M, pure, ◌>>=◌, ◌>>◌,
}
use novium_emulator.Emulator.Basics.{modify, with_pc}
use novium_emulator.Emulator.Step.{execute, tick_peripherals, step}

-- The loop test of `run` and `run_fast`, negated.
unfoldable pub stopped : Machine → Bool
stopped m = m.regs.halt || m.debugger.breakpoints m.regs.pc

module _ (fl : FloatOps) (simd : HostSimd) where
  -- The instructions of a block: the program counter advances without a fetch.
  unfoldable pub replay : List ℕ → M (Unit {0})
  replay [] m = done tt m
  replay (w ∷ ws) m =
      let rest = λ (s : Machine). replay ws s in
      if stopped m
      then done tt m
      else (do
        modify (λ s. with_pc s (add32 s.regs.pc 4))
        _ ← execute fl simd w
        modify tick_peripherals
        if is_branch w || is_halt w then pure tt else rest)
          m

  -- One round of the loop of `run_fast`.
  unfoldable pub fast_round : M (Unit {0})
  fast_round m =
      if m.verbose
      then step fl simd m
      else (let (found, cache) = Translate.translate m.block_cache m.scratchpad m.regs.pc in
          let m' = record m { block_cache = cache } in
          elim found [ none ↦ threw sram_out_of_bounds m' | some b ↦ replay b.ops m' ])

  unfoldable pub run_fast : ℕ → Machine → Option (Outcome (Unit {0}))
  run_fast zero m = none
  run_fast (suc fuel) m =
      if stopped m
      then some (done tt (record m { uart = uart_flush m.uart }))
      else elim (fast_round m) [
        | done _ m' ↦ run_fast fuel m'
        | threw e m' ↦ some (threw e m')
        | undefined_behaviour ↦ some undefined_behaviour
      ]
