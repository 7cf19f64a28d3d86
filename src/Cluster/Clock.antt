-- ===== src/Cluster/Clock.antt =====
-- The clock of the engine against the cycles of the cores, over a round of `run`.
use novium_emulator.Base.{
  ℕ, ◌+◌, ◌%◌, ◌^◌, ◌<◌, u32, u64, ◌==◌, if_split, All, Option, none, some, List, [], ◌∷◌, ◌≡◌,
  refl, arith,
}
use novium_emulator.Memory.{Memory}
use novium_emulator.Deterministic.{DeterministicEngine, tick, advance}
use novium_emulator.Kernels.{FloatOps, HostSimd}
use novium_emulator.Emulator.{Machine, Outcome, done, threw, undefined_behaviour}
use novium_emulator.Cluster.{
  Cluster, with_shared, Turn, finished, failed, undefined, keep_core, total_cycles,
}
use novium_emulator.Cluster.Run.{
  ClusterOutcome, returned, threw_from, undefined_outcome, put_turn, sub64, end_turn, quantum_turn,
  count_turn, next_engine, quantum_steps, run_cores, run_round,
}

-- The counters of the cores are 64-bit numbers.
abbrev pub CyclesFit : List Machine → Type 0
CyclesFit cs = All (λ c. c.profiler.cycle_count < 2 ^ 64) cs

-- Clock and cycles have grown by the same amount, as 64-bit numbers.
abbrev Counted : DeterministicEngine → List Machine → Turn → Type 0
Counted e cs (finished e' r cs') =
    u64 (e'.global_clock + total_cycles cs) ≡ u64 (e.global_clock + total_cycles cs')
Counted e cs (failed err e' r cs') = Unit
Counted e cs undefined = Unit

-- The core is counted between two engines.
abbrev Ticked : DeterministicEngine → Machine → Machine → DeterministicEngine → Type 0
Ticked e c c' e' =
    u64 (e'.global_clock + c.profiler.cycle_count) ≡ u64 (e.global_clock + c'.profiler.cycle_count)

keep_core-Counted :
    (e e' : DeterministicEngine) (c c' : Machine) (cs : List Machine) (t : Turn)
    → Ticked e c c' e'
    → Counted e' cs t
    → Counted e (c ∷ cs) (keep_core c' t)
unfolding keep_core total_cycles
keep_core-Counted e e' c c' cs (finished e'' r cs') k h = omega arith
keep_core-Counted e e' c c' cs (failed err e'' r cs') k h = tt
keep_core-Counted e e' c c' cs undefined k h = tt

abbrev TickedBy : DeterministicEngine → ℕ → ℕ → Option DeterministicEngine → Type 0
TickedBy e before after none = Unit
TickedBy e before after (some e') = u64 (e'.global_clock + before) ≡ u64 (e.global_clock + after)

count_turn-TickedBy :
    (e : DeterministicEngine) (i before after : ℕ)
    → before < 2 ^ 64
    → TickedBy e before after (count_turn e i before after)
unfolding count_turn next_engine tick advance sub64
count_turn-TickedBy e i before after fits =
    let e' = advance e (u32 i) (sub64 after before) in
    if_split (λ o. TickedBy e before after (next_engine o)) (e.quantum == 0) none
      (some (e'.global_clock % e.quantum == 0, e')) (λ _. tt) (λ _. omega arith)

end_turn-Counted :
    (e : DeterministicEngine) (o : Option DeterministicEngine) (c c' : Machine) (cs : List Machine)
    (rest : DeterministicEngine → Turn)
    → TickedBy e c.profiler.cycle_count c'.profiler.cycle_count o
    → ((e' : DeterministicEngine) → Counted e' cs (rest e'))
    → Counted e (c ∷ cs) (end_turn o c' rest)
unfolding end_turn
end_turn-Counted e none c c' cs rest k h = tt
end_turn-Counted e (some e') c c' cs rest k h = keep_core-Counted e e' c c' cs (rest e') k (h e')

quantum_turn-Counted :
    (i : ℕ) (e : DeterministicEngine) (r : Memory) (c : Machine) (cs : List Machine)
    (o : Outcome (Unit {0})) (rest : DeterministicEngine → Memory → Turn)
    → c.profiler.cycle_count < 2 ^ 64
    → ((e' : DeterministicEngine) (r' : Memory) → Counted e' cs (rest e' r'))
    → Counted e (c ∷ cs) (quantum_turn i c.profiler.cycle_count e r cs o rest)
unfolding quantum_turn
quantum_turn-Counted i e r c cs (done _ c') rest fits h =
    end_turn-Counted e (count_turn e i c.profiler.cycle_count c'.profiler.cycle_count) c c' cs _
      (count_turn-TickedBy e i c.profiler.cycle_count c'.profiler.cycle_count fits) (λ e'. h e' _)
quantum_turn-Counted i e r c cs (threw err c') rest fits h = tt
quantum_turn-Counted i e r c cs undefined_behaviour rest fits h = tt

-- The cluster that a round leaves has counted what its cores have used.
abbrev pub ClockFollows : Cluster → ClusterOutcome → Type 0
ClockFollows c (returned c') =
    u64 (c'.deterministic.global_clock + total_cycles c.cores)
    ≡ u64 (c.deterministic.global_clock + total_cycles c'.cores)
ClockFollows c (threw_from err c') = Unit
ClockFollows c undefined_outcome = Unit

put_turn-ClockFollows :
    (c : Cluster) (t : Turn) → Counted c.deterministic c.cores t → ClockFollows c (put_turn c t)
unfolding put_turn
put_turn-ClockFollows c (finished e r cs) h = h
put_turn-ClockFollows c (failed err e r cs) h = tt
put_turn-ClockFollows c undefined h = tt

module _ (fl : FloatOps) (simd : HostSimd) where
  run_cores-Counted :
      (quantum i : ℕ) (e : DeterministicEngine) (r : Memory) (cs : List Machine)
      → CyclesFit cs
      → Counted e cs (run_cores fl simd quantum i e r cs)
  unfolding run_cores
  run_cores-Counted quantum i e r [] fits = refl
  run_cores-Counted quantum i e r (c ∷ cs) fits =
      let rest =
        λ (e' : DeterministicEngine) (r' : Memory). run_cores fl simd quantum (i + 1) e' r' cs in
      let ih = λ (e' : DeterministicEngine) (r' : Memory).
        run_cores-Counted quantum (i + 1) e' r' cs fits.1 in
      let o = quantum_steps fl simd quantum (with_shared r c) in
      if_split (Counted e (c ∷ cs)) c.regs.halt (keep_core c (rest e r))
        (quantum_turn i c.profiler.cycle_count e r cs o rest)
        (λ _. keep_core-Counted e e c c cs (rest e r) refl (ih e r))
        (λ _. quantum_turn-Counted i e r c cs o rest fits.0 ih)

  -- On cores whose cycle counters are 64-bit numbers, a round of `run` that returns has advanced the
  -- global clock by as much as the cycles of all cores together, as 64-bit numbers.
  pub run_round-ClockFollows :
      (c : Cluster) → CyclesFit c.cores → ClockFollows c (run_round fl simd c)
  unfolding run_round
  run_round-ClockFollows c fits =
      put_turn-ClockFollows c
        (run_cores fl simd c.cfg.quantum 0 c.deterministic c.shared_ram c.cores)
        (run_cores-Counted c.cfg.quantum 0 c.deterministic c.shared_ram c.cores fits)
