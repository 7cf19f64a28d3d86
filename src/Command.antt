-- ===== src/Command.antt =====
-- src/main.cpp: the command line.
pub mod Accuracy
pub mod File
pub mod Lanes
pub mod Product
pub mod Sections
use novium_emulator.Base.{
  ℕ, zero, suc, ◌+◌, u16, Bool, true, false, Option, none, some, List, [], ◌∷◌, ◌++◌, ltb,
  if◌then◌else◌,
}
use novium_emulator.Config.{scratchpad_size, main_ram_size}
use novium_emulator.Isa.Enc
use novium_emulator.Memory
use novium_emulator.Memory.{words_bytes}
use novium_emulator.Kernels.{FloatOps, HostSimd, no_simd}
use novium_emulator.Emulator.{
  Machine, main_ram_out_of_bounds, Outcome, done, threw, undefined_behaviour, M, pure, ◌>>=◌, ◌>>◌,
}
use novium_emulator.Emulator.Control.{create, set_target, load_program, load_main_ram}
use novium_emulator.Emulator.Step.{run}
use novium_emulator.Emulator.Fast.{run_fast}
use novium_emulator.Emulator.Basics.{or_throw}
use novium_emulator.Target.{TargetProfile}

abbrev pub scratch_a : ℕ
scratch_a = 0x1000

abbrev pub scratch_b : ℕ
scratch_b = 0x1040

abbrev pub main_a : ℕ
main_a = 0

abbrev pub main_b : ℕ
main_b = 0x40

abbrev pub main_result : ℕ
main_result = 0x2000

-- The program of `main`. The branch goes back by 12 bytes: uint16_t(-12).
unfoldable pub program : List ℕ
program =
    Enc.movi 1 0
    ∷ Enc.movi 2 5
    ∷ Enc.movi 4 1
    ∷ Enc.movi 3 0
    ∷ Enc.add 1 1 4
    ∷ Enc.add 3 3 1
    ∷ Enc.bne 1 2 0xFFF4
    ∷ Enc.movi 5 (u16 scratch_a)
    ∷ Enc.movi 6 (u16 scratch_b)
    ∷ Enc.movi 7 (u16 main_a)
    ∷ Enc.movi 8 (u16 main_b)
    ∷ Enc.dma_load 5 7 64
    ∷ Enc.dma_load 6 8 64
    ∷ Enc.load_vr 0 5 0
    ∷ Enc.load_vr 1 6 0
    ∷ Enc.vec_add 2 0 1
    ∷ Enc.matmul_tile 3 0 1 4
    ∷ Enc.store_vr 3 5 0
    ∷ Enc.movi 9 (u16 main_result)
    ∷ Enc.dma_store 9 5 64
    ∷ Enc.halt
    ∷ []

-- A machine with a program, and matrices in the main RAM.
unfoldable pub boot : List ℕ → List ℕ → List ℕ → M (Unit {0})
boot words matrix_a matrix_b = do
  load_program words
  load_main_ram main_a (words_bytes matrix_a)
  load_main_ram main_b (words_bytes matrix_b)

-- The bits of the identity matrix.
unfoldable pub identity : List ℕ
identity =
    0x3F800000 ∷ 0 ∷ 0 ∷ 0 ∷ 0 ∷ 0x3F800000 ∷ 0 ∷ 0 ∷ 0 ∷ 0 ∷ 0x3F800000 ∷ 0 ∷ 0 ∷ 0 ∷ 0
    ∷ 0x3F800000 ∷ []

-- The bits of 1 to 16.
unfoldable pub counting : List ℕ
counting =
    0x3F800000 ∷ 0x40000000 ∷ 0x40400000 ∷ 0x40800000 ∷ 0x40A00000 ∷ 0x40C00000 ∷ 0x40E00000
    ∷ 0x41000000 ∷ 0x41100000 ∷ 0x41200000 ∷ 0x41300000 ∷ 0x41400000 ∷ 0x41500000 ∷ 0x41600000
    ∷ 0x41700000 ∷ 0x41800000 ∷ []

-- A run that ended, and then the read of the result from the main RAM; `none` says that the fuel
-- of the run was used up.
unfoldable pub read_result : Option (Outcome (Unit {0})) → Option (Outcome (List ℕ))
unfolding Memory.read_bytes
read_result none = none
read_result (some (done _ m)) =
    some (or_throw main_ram_out_of_bounds (Memory.read_bytes m.main_ram main_result 64) m)
read_result (some (threw e m)) = some (threw e m)
read_result (some undefined_behaviour) = some undefined_behaviour

-- The program on a new machine: a change of its settings, the loads, a run by `go`, the read.
unfoldable pub measured :
    (Machine → Option (Outcome (Unit {0})))
    → (Machine → Machine)
    → List ℕ
    → List ℕ
    → Option (Outcome (List ℕ))
unfolding boot program read_result create
measured go setup matrix_a matrix_b =
    elim (boot program matrix_a matrix_b (setup (create scratchpad_size main_ram_size))) [
      | done _ m ↦ read_result (go m)
      | threw e m ↦ some (threw e m)
      | undefined_behaviour ↦ some undefined_behaviour
    ]

unfoldable pub set_acceleration : Bool → Machine → Machine
set_acceleration on m = record m { accel = on }

module _ (fl : FloatOps) (simd : HostSimd) where
  -- `ref` and `fast` of the accuracy check, and a run of `bench_target`.
  unfoldable pub reference : ℕ → List ℕ → List ℕ → Option (Outcome (List ℕ))
  unfolding measured set_acceleration
  reference fuel = measured (run fl simd fuel) (set_acceleration false)

  unfoldable pub accelerated : ℕ → List ℕ → List ℕ → Option (Outcome (List ℕ))
  unfolding measured set_acceleration
  accelerated fuel = measured (run_fast fl simd fuel) (set_acceleration true)

  unfoldable pub bench_target : TargetProfile → ℕ → List ℕ → List ℕ → Option (Outcome (List ℕ))
  unfolding measured set_target
  bench_target p fuel = measured (run_fast fl simd fuel) (set_target p)
