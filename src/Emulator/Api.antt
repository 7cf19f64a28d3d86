-- ===== src/Emulator/Api.antt =====
-- include/aiasm/emulator.h and the C interface at the end of src/emulator.cpp: the calls that forward
-- to the machine, with exceptions turned into codes or swallowed. `Control` has the calls that load.
use novium_emulator.Base.{
  ℕ, ◌==◌, ltb, not, if◌then◌else◌, slice, Bool, true, false, Option, none, some, List,
}
use novium_emulator.Config.{vec_width}
use novium_emulator.Memory
use novium_emulator.Registers
use novium_emulator.Debugger
use novium_emulator.Kernels.{FloatOps, HostSimd}
use novium_emulator.Target.{TargetKind}
use novium_emulator.Emulator.{
  Machine, sram_out_of_bounds, Outcome, done, threw, undefined_behaviour, M, ◌>>=◌,
}
use novium_emulator.Emulator.Basics.{or_throw, modify, put_scratchpad}
use novium_emulator.Emulator.Step.{step, run}
use novium_emulator.Emulator.Fast.{run_fast}
use novium_emulator.Emulator.Control.{reset, set_target_kind, load_tensor, as_code}

unfoldable pub aism_reset : Machine → Machine
unfolding reset
aism_reset m = reset m

unfoldable pub aism_load_tensor : ℕ → List ℕ → Machine → Option (Bool × Machine)
unfolding as_code load_tensor
aism_load_tensor addr floats = as_code (load_tensor addr floats)

unfoldable pub write_scratchpad : ℕ → List ℕ → M (Unit {0})
unfolding Memory.write_bytes
write_scratchpad addr bytes m =
    (or_throw sram_out_of_bounds (Memory.write_bytes m.scratchpad addr bytes) >>= λ s.
    modify (λ m'. put_scratchpad m' s))
      m

unfoldable pub aism_write_scratchpad : ℕ → List ℕ → Machine → Option (Bool × Machine)
unfolding as_code write_scratchpad
aism_write_scratchpad addr bytes = as_code (write_scratchpad addr bytes)

-- `try { ... } catch (...) {}`: the machine as the call or the exception left it; `none` is
-- undefined.
unfoldable pub swallow : Outcome (Unit {0}) → Option Machine
swallow (done _ m) = some m
swallow (threw e m) = some m
swallow undefined_behaviour = none

-- A call that may not have ended yet, with its exception swallowed.
unfoldable pub swallow_run : Option (Outcome (Unit {0})) → Option (Option Machine)
unfolding swallow
swallow_run none = none
swallow_run (some o) = some (swallow o)

module _ (fl : FloatOps) (simd : HostSimd) where
  -- The outer `none` says that the fuel ran out.
  unfoldable pub aism_run : ℕ → Machine → Option (Option Machine)
  unfolding swallow_run
  aism_run fuel m = swallow_run (run fl simd fuel m)

  unfoldable pub aism_step : Machine → Option Machine
  unfolding swallow
  aism_step m = swallow (step fl simd m)

  unfoldable pub aism_run_fast : ℕ → Machine → Option (Option Machine)
  unfolding swallow_run
  aism_run_fast fuel m = swallow_run (run_fast fl simd fuel m)

unfoldable pub aism_set_verbose : ℕ → Machine → Machine
aism_set_verbose verbose m = record m { verbose = not (verbose == 0) }

unfoldable pub aism_halted : Machine → ℕ
aism_halted m = if m.regs.halt then 1 else 0

unfoldable pub aism_add_breakpoint : ℕ → Machine → Machine
unfolding Debugger.add_breakpoint
aism_add_breakpoint addr m = record m { debugger = Debugger.add_breakpoint m.debugger addr }

unfoldable pub aism_remove_breakpoint : ℕ → Machine → Machine
unfolding Debugger.remove_breakpoint
aism_remove_breakpoint addr m = record m { debugger = Debugger.remove_breakpoint m.debugger addr }

unfoldable pub aism_clear_breakpoints : Machine → Machine
unfolding Debugger.clear_breakpoints
aism_clear_breakpoints m = record m { debugger = Debugger.clear_breakpoints m.debugger }

unfoldable pub aism_has_breakpoint : ℕ → Machine → ℕ
unfolding Debugger.has_breakpoint
aism_has_breakpoint addr m = if Debugger.has_breakpoint m.debugger addr then 1 else 0

unfoldable pub aism_enable_single_step : Machine → Machine
unfolding Debugger.set_single_step
aism_enable_single_step m = record m { debugger = Debugger.set_single_step m.debugger true }

unfoldable pub aism_disable_single_step : Machine → Machine
unfolding Debugger.set_single_step
aism_disable_single_step m = record m { debugger = Debugger.set_single_step m.debugger false }

unfoldable pub aism_pc : Machine → ℕ
aism_pc m = m.regs.pc

-- `none` is an access beyond the registers.
unfoldable pub aism_read_gpr : ℕ → Machine → Option ℕ
unfolding Registers.read_gpr
aism_read_gpr idx m = Registers.read_gpr m.regs idx

-- The first `count` lanes, at most all sixteen, go to the caller's buffer.
unfoldable pub aism_read_vr : ℕ → ℕ → Machine → Option (List ℕ)
unfolding Registers.read_vr
aism_read_vr idx count m = elim (Registers.read_vr m.regs idx) [
  | none ↦ none
  | some lanes ↦ some (slice lanes 0 (if ltb count vec_width then count else vec_width))
]

unfoldable pub aism_instruction_count : Machine → ℕ
aism_instruction_count m = m.profiler.instr_count

unfoldable pub aism_cycle_count : Machine → ℕ
aism_cycle_count m = m.profiler.cycle_count

unfoldable pub aism_dma_bytes : Machine → ℕ
aism_dma_bytes m = m.profiler.dma_bytes

unfoldable pub aism_set_target_cpu : Machine → Machine
unfolding set_target_kind
aism_set_target_cpu m = set_target_kind TargetKind.cpu m

unfoldable pub aism_set_target_gpu : Machine → Machine
unfolding set_target_kind
aism_set_target_gpu m = set_target_kind TargetKind.gpu m

unfoldable pub aism_set_target_asic : Machine → Machine
unfolding set_target_kind
aism_set_target_asic m = set_target_kind TargetKind.asic m

unfoldable pub aism_set_acceleration : ℕ → Machine → Machine
aism_set_acceleration enable m = record m { accel = not (enable == 0) }

unfoldable pub aism_block_cache_hits : Machine → ℕ
aism_block_cache_hits m = m.block_cache.hits

unfoldable pub aism_block_cache_misses : Machine → ℕ
aism_block_cache_misses m = m.block_cache.misses
