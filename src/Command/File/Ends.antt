-- ===== src/Command/File/Ends.antt =====
-- How a run of a source file ends.
use novium_emulator.Base.{ℕ, ◌*◌, ◌<◌, true, false, ◌⊎◌, Option, none, some, [], length, ◌≡◌}
use novium_emulator.Base.Text.{Text}
use novium_emulator.Config.{text_size}
use novium_emulator.Isa.Halting.{ends_in_halt}
use novium_emulator.Kernels.{FloatOps, HostSimd}
use novium_emulator.Frontend.{LoadResult}
use novium_emulator.Emulator.{program_too_large, Outcome, done, threw, undefined_behaviour}
use novium_emulator.Emulator.Control.{}
use novium_emulator.Emulator.Fast.{stopped}
use novium_emulator.Command.File.{Exit, status, uncaught, undefined, list_and_run}
use novium_emulator.Command.File.Loads.{Fits}

-- What an end of the process says of the file and of the run.
abbrev pub Exits : Option LoadResult → Option Exit → Type 0
Exits l none = (r : LoadResult) × (l ≡ some r) × (r.ok ≡ true) × Fits r
Exits l (some (status k none)) = (k ≡ 1) × (r : LoadResult) × (l ≡ some r) × (r.ok ≡ false)
Exits l (some (status k (some m))) =
    (k ≡ 0)
    × (r : LoadResult) × (l ≡ some r)
    × (r.ok ≡ true)
    × Fits r
    × (ends_in_halt r.program ≡ true)
    × (stopped m ≡ true)
    × (m.uart.tx_buffer ≡ [])
Exits l (some (uncaught none)) = l ≡ none
Exits l (some (uncaught (some e))) =
    (r : LoadResult) × (l ≡ some r)
    × (r.ok ≡ true)
    × (Fits r ⊎ (text_size < 4 * length r.program) × (e ≡ program_too_large))
Exits l (some undefined) = (r : LoadResult) × (l ≡ some r) × (r.ok ≡ true) × Fits r

module _ (fl : FloatOps) (simd : HostSimd) (fuel : ℕ) where
  -- The process from what the loads leave.
  abbrev started : LoadResult → Outcome (Unit {0}) → Option Exit
  started r o = elim o [
    | done _ m ↦ list_and_run fl simd fuel r m
    | threw e m ↦ some (uncaught (some e))
    | undefined_behaviour ↦ some undefined
  ]
