-- ===== src/Command/File.antt =====
-- src/main.cpp: the run of a source file that is named on the command line.
pub mod Loads
pub mod Ends
use novium_emulator.Base.{
  ℕ, ◌*◌, ◌<◌, ◌≤◌, true, false, blit, if_split, inl, inr, ◌⊎◌, Option, none, some, List, [],
  length, if◌then◌else◌, ◌≡◌, refl, ap, sym, ◌∙◌, arith,
}
use mathlib.Core.Path.{subst}
use novium_emulator.Base.Text.{Text}
use novium_emulator.Config.{text_size, scratchpad_size, main_ram_size}
use novium_emulator.Isa.Halting.{ends_in_halt}
use novium_emulator.Memory.{fresh, in_bounds, words_bytes}
use novium_emulator.Memory
use novium_emulator.Memory.{Memory}
use novium_emulator.Debugger.Listing.{disassemble_range, disassemble_range-lines_of}
use novium_emulator.Kernels.{FloatOps, HostSimd}
use novium_emulator.Frontend.{LoadResult, Patterns, load}
use novium_emulator.Frontend.Laws.{Answered, load-Answered}
use novium_emulator.Emulator.{
  Machine, EmulatorError, program_too_large, sram_out_of_bounds, Outcome, done, threw,
  undefined_behaviour, M, ◌>>◌,
}
use novium_emulator.Emulator.Basics.{modify}
use novium_emulator.Emulator.Control.Laws.{length-words_bytes, load_program-fits}
use novium_emulator.Emulator.Control.{
  load_program_bytes, create, set_target, load_program, load_main_ram,
}
use novium_emulator.Emulator.Fast.Stops.{run_fast_stops}
use novium_emulator.Emulator.Fast.{stopped, run_fast}
use novium_emulator.Command.{identity, counting}

-- How the process ends. A machine is that of the run. `uncaught` is an exception that nothing
-- catches, with `none` for the one of std::stoi.
pub data Exit : Type 0 where
  status : ℕ → Option Machine → Exit
  uncaught : Option EmulatorError → Exit
  undefined : Exit

-- What comes before the run of a program that the front end has made.
unfoldable pub prepare : LoadResult → M (Unit {0})
unfolding identity counting
prepare r = do
  modify (set_target r.target)
  load_program r.program
  load_main_ram 0 (words_bytes identity)
  load_main_ram 64 (words_bytes counting)

-- The end of the process after the run; `none` says that the fuel of the run was used up.
unfoldable pub leave : Option (Outcome (Unit {0})) → Option Exit
leave none = none
leave (some (done _ m)) = some (status 0 (some m))
leave (some (threw e m)) = some (uncaught (some e))
leave (some undefined_behaviour) = some undefined

module _ (fl : FloatOps) (simd : HostSimd) (fuel : ℕ) where
  -- The program is listed, which reads the scratchpad, and run.
  unfoldable pub list_and_run : LoadResult → Machine → Option Exit
  unfolding disassemble_range leave
  list_and_run r m = elim (disassemble_range m.scratchpad 0 (length r.program)) [
    | none ↦ some (uncaught (some sram_out_of_bounds))
    | some _ ↦ leave (run_fast fl simd fuel m)
  ]

  unfoldable pub run_loaded : LoadResult → Option Exit
  unfolding list_and_run prepare create
  run_loaded r = elim (prepare r (create scratchpad_size main_ram_size)) [
    | done _ m ↦ list_and_run r m
    | threw e m ↦ some (uncaught (some e))
    | undefined_behaviour ↦ some undefined
  ]

  -- `main` with a file, which is given by its content, if it opens, and its extension.
  unfoldable pub main_file : Patterns → Option Text → Text → Option Exit
  unfolding load run_loaded
  main_file px src ext = elim (load px src ext) [
    | none ↦ some (uncaught none)
    | some r ↦ if r.ok then run_loaded r else some (status 1 none)
  ]
