-- ===== src/Cluster/Run.antt =====
-- src/cluster.cpp: the loops over the cores, `load_program_all`, `step_all`, `run` and `run_fast`.
use novium_emulator.Base.{
  ℕ, zero, suc, ◌+◌, ◌-◌, ◌^◌, u32, u64, ltb, if◌then◌else◌, ◌||◌, not, Bool, Option, none, some,
  List, [], ◌∷◌,
}
use mathlib.Core.Option
use novium_emulator.Memory.{Memory}
use novium_emulator.Deterministic.{DeterministicEngine, tick}
use novium_emulator.Kernels.{FloatOps, HostSimd}
use novium_emulator.Emulator.{Machine, EmulatorError, Outcome, done, threw, undefined_behaviour, M}
use novium_emulator.Emulator.Step.{step}
use novium_emulator.Emulator.Fast.{run_fast}
use novium_emulator.Cluster.{
  Cluster, with_shared, shared_or, Turn, finished, failed, undefined, keep_core, load_cores,
  all_halted,
}

-- uint64_t a - b
unfoldable pub sub64 : ℕ → ℕ → ℕ
sub64 a b = u64 (a + 2 ^ 64 - b)

-- What a round leaves of a cluster.
pub data ClusterOutcome : Type 0 where
  returned : Cluster → ClusterOutcome
  threw_from : EmulatorError → Cluster → ClusterOutcome
  undefined_outcome : ClusterOutcome

unfoldable pub put_turn : Cluster → Turn → ClusterOutcome
put_turn c (finished e r cs) = returned (record c { deterministic = e; shared_ram = r; cores = cs })
put_turn c (failed err e r cs) =
    threw_from err (record c { deterministic = e; shared_ram = r; cores = cs })
put_turn c undefined = undefined_outcome

unfoldable pub load_program_all : List ℕ → Cluster → ClusterOutcome
unfolding load_cores put_turn
load_program_all prog c = put_turn c (load_cores prog c.deterministic c.shared_ram c.cores)

unfoldable pub next_engine : Option (Bool × DeterministicEngine) → Option DeterministicEngine
next_engine none = none
next_engine (some (barrier, e)) = some e

-- The tick of the engine after the turn of core `i`; a quantum of zero is a division by zero.
unfoldable pub count_turn : DeterministicEngine → ℕ → ℕ → ℕ → Option DeterministicEngine
unfolding tick sub64 next_engine
count_turn e i before after = next_engine (tick e (u32 i) (sub64 after before))

-- The end of a step of a core, and the turn of the others from the RAM that it leaves.
unfoldable pub step_turn :
    DeterministicEngine → Memory → List Machine → Outcome (Unit {0}) → (Memory → Turn) → Turn
unfolding keep_core
step_turn e r cs (done _ c) rest = keep_core c (rest (shared_or r c.shared))
step_turn e r cs (threw err c) rest = failed err e (shared_or r c.shared) (c ∷ cs)
step_turn e r cs undefined_behaviour rest = undefined

-- The turn of a core is counted, and the turn goes on.
unfoldable pub end_turn : Option DeterministicEngine → Machine → (DeterministicEngine → Turn) → Turn
unfolding keep_core
end_turn none c rest = undefined
end_turn (some e) c rest = keep_core c (rest e)

-- The end of a quantum of core `i`, whose counter was `before`.
unfoldable pub quantum_turn :
    ℕ
    → ℕ
    → DeterministicEngine
    → Memory
    → List Machine
    → Outcome (Unit {0})
    → (DeterministicEngine → Memory → Turn)
    → Turn
unfolding end_turn count_turn
quantum_turn i before e r cs (done _ c) rest =
    end_turn (count_turn e i before c.profiler.cycle_count) c (λ e'. rest e' (shared_or r c.shared))
quantum_turn i before e r cs (threw err c) rest = failed err e (shared_or r c.shared) (c ∷ cs)
quantum_turn i before e r cs undefined_behaviour rest = undefined

-- The end of `run_fast` of a core.
unfoldable pub fast_turn :
    DeterministicEngine
    → Memory
    → List Machine
    → Option (Outcome (Unit {0}))
    → (Memory → Option Turn)
    → Option Turn
unfolding keep_core
fast_turn e r cs none rest = none
fast_turn e r cs (some (done _ c)) rest = Option.map (keep_core c) (rest (shared_or r c.shared))
fast_turn e r cs (some (threw err c)) rest = some (failed err e (shared_or r c.shared) (c ∷ cs))
fast_turn e r cs (some undefined_behaviour) rest = some undefined

unfoldable pub ticked : Option (Bool × DeterministicEngine) → Memory → List Machine → Turn
ticked none r cs = undefined
ticked (some (barrier, e)) r cs = finished e r cs

-- The tick of a whole quantum for core 0 that ends a round of `run_fast`.
unfoldable pub tick_round : ℕ → Turn → Turn
unfolding tick ticked
tick_round quantum (finished e r cs) = ticked (tick e 0 quantum) r cs
tick_round quantum (failed err e r cs) = failed err e r cs
tick_round quantum undefined = undefined

module _ (fl : FloatOps) (simd : HostSimd) where
  unfoldable pub step_cores : DeterministicEngine → Memory → List Machine → Turn
  unfolding keep_core step_turn
  step_cores e r [] = finished e r []
  step_cores e r (c ∷ cs) =
      let rest = λ (r' : Memory). step_cores e r' cs in
      if c.regs.halt
      then keep_core c (rest r)
      else step_turn e r cs (step fl simd (with_shared r c)) rest

  -- `step_all`.
  unfoldable pub step_all : Cluster → ClusterOutcome
  unfolding step_cores put_turn
  step_all c = put_turn c (step_cores c.deterministic c.shared_ram c.cores)

  -- At most `quantum` steps of one core.
  unfoldable pub quantum_steps : ℕ → M (Unit {0})
  quantum_steps zero m = done tt m
  quantum_steps (suc q) m =
      let rest = λ (m' : Machine). quantum_steps q m' in
      if m.regs.halt then done tt m else elim (step fl simd m) [
        | done _ m' ↦ rest m'
        | threw err m' ↦ threw err m'
        | undefined_behaviour ↦ undefined_behaviour
      ]

  -- The inner loop of `run`, from core `i` on.
  unfoldable pub run_cores : ℕ → ℕ → DeterministicEngine → Memory → List Machine → Turn
  unfolding keep_core quantum_turn
  run_cores quantum i e r [] = finished e r []
  run_cores quantum i e r (c ∷ cs) =
      let rest = λ (e' : DeterministicEngine) (r' : Memory). run_cores quantum (i + 1) e' r' cs in
      if c.regs.halt
      then keep_core c (rest e r)
      else quantum_turn i c.profiler.cycle_count e r cs (quantum_steps quantum (with_shared r c))
          rest

  -- One round of the loop of `run`.
  unfoldable pub run_round : Cluster → ClusterOutcome
  unfolding run_cores put_turn
  run_round c = put_turn c (run_cores c.cfg.quantum 0 c.deterministic c.shared_ram c.cores)

  -- The loop, from a start of the clock; `none` says that the fuel ran out.
  unfoldable pub run_from : ℕ → ℕ → ℕ → Cluster → Option ClusterOutcome
  unfolding run_round all_halted sub64
  run_from start max_cycles zero c = none
  run_from start max_cycles (suc fuel) c =
      if all_halted c.cores || not (ltb (sub64 c.deterministic.global_clock start) max_cycles)
      then some (returned c)
      else elim (run_round c) [
        | returned c' ↦ run_from start max_cycles fuel c'
        | threw_from err c' ↦ some (threw_from err c')
        | undefined_outcome ↦ some undefined_outcome
      ]

  unfoldable pub run : ℕ → ℕ → Cluster → Option ClusterOutcome
  unfolding run_from
  run max_cycles fuel c = run_from c.deterministic.global_clock max_cycles fuel c

  -- The turns of `run_fast`: each core that has not halted runs until it stops.
  unfoldable pub fast_cores : ℕ → DeterministicEngine → Memory → List Machine → Option Turn
  unfolding keep_core fast_turn
  fast_cores fuel e r [] = some (finished e r [])
  fast_cores fuel e r (c ∷ cs) =
      let rest = λ (r' : Memory). fast_cores fuel e r' cs in
      if c.regs.halt
      then Option.map (keep_core c) (rest r)
      else fast_turn e r cs (run_fast fl simd fuel (with_shared r c)) rest

  unfoldable pub fast_round : ℕ → Cluster → Option ClusterOutcome
  unfolding fast_cores tick_round put_turn
  fast_round fuel c =
      Option.map (λ t. put_turn c (tick_round c.cfg.quantum t))
        (fast_cores fuel c.deterministic c.shared_ram c.cores)

  -- The loop of `run_fast`; the fuel also bounds the run of each core.
  unfoldable pub fast_from : ℕ → ℕ → ℕ → Cluster → Option ClusterOutcome
  unfolding fast_round all_halted sub64
  fast_from start max_cycles zero c = none
  fast_from start max_cycles (suc fuel) c =
      if all_halted c.cores || not (ltb (sub64 c.deterministic.global_clock start) max_cycles)
      then some (returned c)
      else elim (fast_round fuel c) [
        | none ↦ none
        | some o ↦ elim o [
          | returned c' ↦ fast_from start max_cycles fuel c'
          | threw_from err c' ↦ some (threw_from err c')
          | undefined_outcome ↦ some undefined_outcome
        ]
      ]

  unfoldable pub cluster_run_fast : ℕ → ℕ → Cluster → Option ClusterOutcome
  unfolding fast_from
  cluster_run_fast max_cycles fuel c = fast_from c.deterministic.global_clock max_cycles fuel c
