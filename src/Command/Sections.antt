-- ===== src/Command/Sections.antt =====
-- src/main.cpp: the sections on breakpoints, on saved states and on the devices.
pub mod Passes
pub mod Prints
use novium_emulator.Base.{
  ℕ, zero, suc, ◌+◌, u8, ◌==◌, ◌&&◌, ◌||◌, Bool, true, false, Option, none, some, List, [], ◌∷◌,
  if◌then◌else◌,
}
use novium_emulator.Base.Text.{Text, codes}
use novium_emulator.Config.{scratchpad_size, main_ram_size, mmio_base, uart_base}
use novium_emulator.Debugger
use novium_emulator.Kernels.{FloatOps, HostSimd}
use novium_emulator.Emulator.{
  Machine, Outcome, done, threw, undefined_behaviour, M, pure, ◌>>=◌, ◌>>◌,
}
use novium_emulator.Emulator.Basics.{get_gpr, modify, bus_read32, bus_write32}
use novium_emulator.Emulator.Control.{create, State, save_state, restore_state}
use novium_emulator.Emulator.Step.{step, run}
use novium_emulator.Command.{boot, program}

unfoldable pub add_breakpoint : ℕ → Machine → Machine
unfolding Debugger.add_breakpoint
add_breakpoint addr m = record m { debugger = Debugger.add_breakpoint m.debugger addr }

unfoldable pub remove_breakpoint : ℕ → Machine → Machine
unfolding Debugger.remove_breakpoint
remove_breakpoint addr m = record m { debugger = Debugger.remove_breakpoint m.debugger addr }

-- What follows a run; `none` says that the fuel of the run was used up.
unfoldable pub then_do :
    {A : Type 0} → Option (Outcome (Unit {0})) → (Machine → Option (Outcome A)) → Option (Outcome A)
then_do none k = none
then_do (some (done _ m)) k = k m
then_do (some (threw e m)) k = some (threw e m)
then_do (some undefined_behaviour) k = some undefined_behaviour

module _ (fl : FloatOps) (simd : HostSimd) where
  -- The loop that steps until the breakpoint, which is then removed.
  unfoldable pub step_until : ℕ → Machine → Option (Outcome (Unit {0}))
  unfolding remove_breakpoint Debugger.has_breakpoint
  step_until zero m = none
  step_until (suc fuel) m = if m.regs.halt then some (done tt m) else elim (step fl simd m) [
    | done _ m' ↦
        let rest = λ (s : Machine). step_until fuel s in
        if Debugger.has_breakpoint m'.debugger m'.regs.pc
        then some (done tt (remove_breakpoint 0x10 m'))
        else rest m'
    | threw e m' ↦ some (threw e m')
    | undefined_behaviour ↦ some undefined_behaviour
  ]

  -- `emu2`: the value of r3 that is printed.
  unfoldable pub verbose_section : ℕ → List ℕ → List ℕ → Option (Outcome ℕ)
  unfolding boot program create add_breakpoint then_do step_until get_gpr
  verbose_section fuel matrix_a matrix_b =
      elim (boot program matrix_a matrix_b (create scratchpad_size main_ram_size)) [
        | done _ m ↦
            then_do (step_until fuel (add_breakpoint 0x10 (record m { verbose = true })))
              λ m'. then_do (run fl simd fuel m') λ m''. some (get_gpr 3 m'')
        | threw e m ↦ some (threw e m)
        | undefined_behaviour ↦ some undefined_behaviour
      ]

  -- The comparison after the second run.
  unfoldable pub matches : ℕ → ℕ → M Bool
  unfolding get_gpr
  matches saved_pc saved_r3 m =
      (get_gpr 3 >>= λ r3. pure ((m.regs.pc == saved_pc || m.regs.halt) && r3 == saved_r3)) m

  -- `emu3`: whether the state after the restore and the rest of the run matches.
  unfoldable pub restore_section : ℕ → List ℕ → List ℕ → Option (Outcome Bool)
  unfolding boot program create add_breakpoint remove_breakpoint then_do get_gpr save_state
      restore_state matches
  restore_section fuel matrix_a matrix_b =
      elim (boot program matrix_a matrix_b (create scratchpad_size main_ram_size)) [
        | done _ m ↦ then_do (run fl simd fuel (add_breakpoint 0x2C m)) λ m'. elim (get_gpr 3 m') [
          | done saved_r3 s ↦
              then_do (run fl simd fuel (remove_breakpoint 0x2C (restore_state (save_state s) s)))
                λ m''. some (matches s.regs.pc saved_r3 m'')
          | threw e s ↦ some (threw e s)
          | undefined_behaviour ↦ some undefined_behaviour
        ]
        | threw e m ↦ some (threw e m)
        | undefined_behaviour ↦ some undefined_behaviour
      ]

-- The characters of a text to the UART.
unfoldable pub send : Text → M (Unit {0})
send [] = pure tt
send (c ∷ cs) = bus_write32 (mmio_base + uart_base) (u8 c) >> send cs

-- `emu4`: what the timer's registers read after they are set.
unfoldable pub mmio_section : M (ℕ × ℕ)
unfolding send
mmio_section = do
  send (codes "Novium")
  bus_write32 (mmio_base + uart_base) 10
  bus_write32 (mmio_base + 0x04) 500
  bus_write32 (mmio_base + 0x08) 1
  limit ← bus_read32 (mmio_base + 0x04)
  ctrl ← bus_read32 (mmio_base + 0x08)
  pure (limit, ctrl)

-- What a section that returns prints.
abbrev pub printed : {A : Type 0} → Option (Outcome A) → Option A
printed x = elim x [
  | some o ↦ elim o [ done a _ ↦ some a | threw e _ ↦ none | undefined_behaviour ↦ none ]
  | none ↦ none
]
