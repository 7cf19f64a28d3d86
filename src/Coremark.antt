-- ===== src/Coremark.antt =====
-- include/aiasm/coremark.h and src/coremark.cpp: the benchmark's program, and the loop that runs it.
-- The times and rates are doubles and are left out. A matrix is the 64 bytes behind its pointer, and
-- `none` the null pointer.
pub mod Laws
use novium_emulator.Base.{
  ℕ, zero, suc, ◌+◌, u16, u64, ◌==◌, ◌&&◌, if◌then◌else◌, Bool, true, false, Option, none, some,
  List, [], ◌∷◌,
}
use novium_emulator.Isa.Enc
use novium_emulator.Memory
use novium_emulator.Memory.{in_bounds}
use novium_emulator.Kernels.{FloatOps, HostSimd}
use novium_emulator.Emulator.{
  Machine, sram_out_of_bounds, Outcome, done, threw, undefined_behaviour, M, pure, ◌>>=◌, ◌>>◌,
}
use novium_emulator.Emulator.Basics.{or_throw, modify, get_gpr}
use novium_emulator.Emulator.Step.{run}
use novium_emulator.Emulator.Fast.{run_fast}
use novium_emulator.Emulator.Control.{load_program, load_main_ram, reset}
use novium_emulator.Emulator.Api.{write_scratchpad}

-- The branch goes back by 12 bytes: uint16_t(-12).
unfoldable pub build_iteration : ℕ → ℕ → List ℕ
build_iteration scratch_a scratch_b =
    Enc.movi 1 0
    ∷ Enc.movi 2 5
    ∷ Enc.movi 4 1
    ∷ Enc.movi 3 0
    ∷ Enc.add 1 1 4
    ∷ Enc.add 3 3 1
    ∷ Enc.bne 1 2 0xFFF4
    ∷ Enc.movi 5 (u16 scratch_a)
    ∷ Enc.movi 6 (u16 scratch_b)
    ∷ Enc.movi 7 0
    ∷ Enc.movi 8 64
    ∷ Enc.dma_load 5 7 64
    ∷ Enc.dma_load 6 8 64
    ∷ Enc.load_vr 0 5 0
    ∷ Enc.load_vr 1 6 0
    ∷ Enc.vec_add 2 0 1
    ∷ Enc.matmul_tile 3 0 1 4
    ∷ Enc.store_vr 3 5 0
    ∷ Enc.movi 10 0x5A5A
    ∷ Enc.add 11 10 3
    ∷ Enc.mul 12 11 3
    ∷ Enc.halt
    ∷ []

pub record CoremarkResult : Type 0 where
  pub iterations : ℕ
  pub total_cycles : ℕ
  pub total_instrs : ℕ
  pub list_ok : Bool
  pub matrix_ok : Bool
  pub crc_ok : Bool

-- `if (mat) emu.load_main_ram(...)`
unfoldable pub preload : ℕ → Option (List ℕ) → M (Unit {0})
unfolding load_main_ram
preload addr none = pure tt
preload addr (some bytes) = load_main_ram addr bytes

-- A write without the test of the pointer: past the test of the bounds, a copy from the null pointer
-- is undefined.
unfoldable pub place : ℕ → Option (List ℕ) → M (Unit {0})
unfolding write_scratchpad in_bounds
place addr none m =
    if in_bounds m.scratchpad addr 64 then undefined_behaviour else threw sram_out_of_bounds m
place addr (some bytes) m = write_scratchpad addr bytes m

-- The checks after a run. The comparison of the product has no effect in the source.
unfoldable pub tally : CoremarkResult → ℕ → Machine → CoremarkResult
tally res r3 m = record res {
  total_cycles = u64 (res.total_cycles + m.profiler.cycle_count);
  total_instrs = u64 (res.total_instrs + m.profiler.instr_count);
  list_ok = res.list_ok && r3 == 15;
  crc_ok = res.crc_ok && m.regs.halt;
}

unfoldable pub check_run : CoremarkResult → M CoremarkResult
unfolding tally get_gpr
check_run res m =
    (do
      r3 ← get_gpr 3
      _ ← (λ (s : Machine).
          or_throw sram_out_of_bounds (Memory.read_bytes s.scratchpad 0x1000 64) s)
      modify reset
      pure (tally res r3 m))
      m

module _ (fl : FloatOps) (simd : HostSimd) (use_fast : Bool) where
  unfoldable pub run_program : ℕ → Machine → Option (Outcome (Unit {0}))
  run_program fuel m = if use_fast then run_fast fl simd fuel m else run fl simd fuel m

  -- What comes before the run of an iteration.
  unfoldable pub prepare : Option (List ℕ) → Option (List ℕ) → M (Unit {0})
  unfolding preload
  prepare mat_a mat_b = do
    load_program (build_iteration 0x1000 0x1040)
    preload 0x0000 mat_a
    preload 0x0040 mat_b
    place 0x1000 mat_a
    place 0x1040 mat_b

  -- What follows a run that ended; `none` says that the fuel of the run was used up.
  unfoldable pub after_run :
      CoremarkResult → Option (Outcome (Unit {0})) → Option (Outcome CoremarkResult)
  unfolding check_run
  after_run res none = none
  after_run res (some (done _ m)) = some (check_run res m)
  after_run res (some (threw e m)) = some (threw e m)
  after_run res (some undefined_behaviour) = some undefined_behaviour

  unfoldable pub iterate :
      ℕ
      → CoremarkResult
      → Option (List ℕ)
      → Option (List ℕ)
      → Machine
      → Option (Outcome CoremarkResult)
  iterate fuel res mat_a mat_b m = elim (prepare mat_a mat_b m) [
    | done _ m' ↦ after_run res (run_program fuel m')
    | threw e m' ↦ some (threw e m')
    | undefined_behaviour ↦ some undefined_behaviour
  ]

  unfoldable pub loop :
      ℕ
      → ℕ
      → CoremarkResult
      → Option (List ℕ)
      → Option (List ℕ)
      → Machine
      → Option (Outcome CoremarkResult)
  unfolding iterate
  loop fuel zero res mat_a mat_b m = some (done res m)
  loop fuel (suc n) res mat_a mat_b m = elim (iterate fuel res mat_a mat_b m) [
    | none ↦ none
    | some o ↦ elim o [
      | done res' m' ↦ loop fuel n res' mat_a mat_b m'
      | threw e m' ↦ some (threw e m')
      | undefined_behaviour ↦ some undefined_behaviour
    ]
  ]

  -- Both matrices are preloaded only if both are there.
  unfoldable pub preload_both : Option (List ℕ) → Option (List ℕ) → M (Unit {0})
  unfolding load_main_ram
  preload_both (some a) (some b) = do load_main_ram 0x0000 a; load_main_ram 0x0040 b
  preload_both (some a) none = pure tt
  preload_both none mat_b = pure tt

  unfoldable pub new_result : ℕ → CoremarkResult
  new_result n = record {
    iterations = n;
    total_cycles = 0;
    total_instrs = 0;
    list_ok = true;
    matrix_ok = true;
    crc_ok = true;
  }

  -- `run`, with fuel for each run of the program.
  unfoldable pub coremark_run :
      ℕ → ℕ → Option (List ℕ) → Option (List ℕ) → Machine → Option (Outcome CoremarkResult)
  unfolding loop preload_both new_result
  coremark_run fuel n mat_a mat_b m = elim (preload_both mat_a mat_b m) [
    | done _ m' ↦ loop fuel n (new_result n) mat_a mat_b m'
    | threw e m' ↦ some (threw e m')
    | undefined_behaviour ↦ some undefined_behaviour
  ]
