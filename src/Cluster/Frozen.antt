-- ===== src/Cluster/Frozen.antt =====
-- A core that has halted, under everything that a cluster does.
use novium_emulator.Base.{
  ℕ, zero, suc, ◌+◌, ◌==◌, if_split, Bool, true, false, Option, none, some, List, [], ◌∷◌, ◌≡◌,
  refl, ◌∙◌, ap,
}
use mathlib.Core.Option
use novium_emulator.Memory.{Memory}
use novium_emulator.Registers.{RegisterFile}
use novium_emulator.Deterministic.{DeterministicEngine, tick}
use novium_emulator.Kernels.{FloatOps, HostSimd}
use novium_emulator.Emulator.{Machine, Outcome, done, threw, undefined_behaviour}
use novium_emulator.Emulator.Step.{step}
use novium_emulator.Emulator.Fast.{run_fast}
use novium_emulator.Cluster.{
  with_shared, Turn, finished, failed, undefined, keep_core, on_others, flush_page, raise_at,
}
use novium_emulator.Cluster.Run.{
  step_turn, end_turn, quantum_turn, fast_turn, count_turn, step_cores, quantum_steps, run_cores,
  fast_cores, ticked, tick_round,
}

-- A halted core keeps its registers and memories, and so stays halted.
abbrev pub Kept : Machine → Machine → Type 0
Kept c c' =
    c.regs.halt ≡ true
    → (c'.regs ≡ c.regs) × (c'.scratchpad ≡ c.scratchpad) × (c'.main_ram ≡ c.main_ram)

abbrev pub Frozen : List Machine → List Machine → Type 0
Frozen [] [] = Unit
Frozen [] (c ∷ cs) = ⊥
Frozen (c ∷ cs) [] = ⊥
Frozen (c ∷ cs) (c' ∷ cs') = Kept c c' × Frozen cs cs'

Kept-refl : (c : Machine) → Kept c c
Kept-refl c h = (refl, refl, refl)

pub Frozen-refl : (cs : List Machine) → Frozen cs cs
Frozen-refl [] = tt
Frozen-refl (c ∷ cs) = (Kept-refl c, Frozen-refl cs)

Kept-trans : (a b c : Machine) → Kept a b → Kept b c → Kept a c
Kept-trans a b c p q h =
    let first = p h in
    let second = q (ap (λ (r : RegisterFile). r.halt) first.0 ∙ h) in
    (second.0 ∙ first.0, second.1 ∙ first.1, second.2 ∙ first.2)

pub Frozen-trans : (xs ys zs : List Machine) → Frozen xs ys → Frozen ys zs → Frozen xs zs
Frozen-trans [] [] [] p q = tt
Frozen-trans (a ∷ xs) (b ∷ ys) (c ∷ zs) p q =
    (Kept-trans a b c p.0 q.0, Frozen-trans xs ys zs p.1 q.1)
Frozen-trans [] [] (c ∷ zs) p q = q
Frozen-trans [] (b ∷ ys) zs p q = absurd p
Frozen-trans (a ∷ xs) [] zs p q = absurd p
Frozen-trans (a ∷ xs) (b ∷ ys) [] p q = absurd q

-- The cores that a loop leaves, on a return and on an exception.
abbrev pub TurnFrozen : List Machine → Turn → Type 0
TurnFrozen cs (finished e r cs') = Frozen cs cs'
TurnFrozen cs (failed err e r cs') = Frozen cs cs'
TurnFrozen cs undefined = Unit

keep_core-Frozen :
    (c c' : Machine) (cs : List Machine) (t : Turn)
    → Kept c c'
    → TurnFrozen cs t
    → TurnFrozen (c ∷ cs) (keep_core c' t)
unfolding keep_core
keep_core-Frozen c c' cs (finished e r cs') k f = (k, f)
keep_core-Frozen c c' cs (failed err e r cs') k f = (k, f)
keep_core-Frozen c c' cs undefined k f = tt

-- Nothing is asked of a core that runs.
running-Kept : (c c' : Machine) → c.regs.halt ≡ false → Kept c c'
running-Kept c c' run h = cc

module _ (c : Machine) (cs : List Machine) (running : c.regs.halt ≡ false) where
  step_turn-Frozen :
      (e : DeterministicEngine) (r : Memory) (o : Outcome (Unit {0})) (rest : Memory → Turn)
      → ((r' : Memory) → TurnFrozen cs (rest r'))
      → TurnFrozen (c ∷ cs) (step_turn e r cs o rest)
  unfolding step_turn
  step_turn-Frozen e r (done _ c') rest h =
      keep_core-Frozen c c' cs (rest _) (running-Kept c c' running) (h _)
  step_turn-Frozen e r (threw err c') rest h = (running-Kept c c' running, Frozen-refl cs)
  step_turn-Frozen e r undefined_behaviour rest h = tt

  end_turn-Frozen :
      (o : Option DeterministicEngine) (c' : Machine) (rest : DeterministicEngine → Turn)
      → ((e : DeterministicEngine) → TurnFrozen cs (rest e))
      → TurnFrozen (c ∷ cs) (end_turn o c' rest)
  unfolding end_turn
  end_turn-Frozen none c' rest h = tt
  end_turn-Frozen (some e) c' rest h =
      keep_core-Frozen c c' cs (rest e) (running-Kept c c' running) (h e)

  quantum_turn-Frozen :
      (i before : ℕ) (e : DeterministicEngine) (r : Memory) (o : Outcome (Unit {0}))
      (rest : DeterministicEngine → Memory → Turn)
      → ((e' : DeterministicEngine) (r' : Memory) → TurnFrozen cs (rest e' r'))
      → TurnFrozen (c ∷ cs) (quantum_turn i before e r cs o rest)
  unfolding quantum_turn
  quantum_turn-Frozen i before e r (done _ c') rest h =
      end_turn-Frozen (count_turn e i before c'.profiler.cycle_count) c' _ (λ e'. h e' _)
  quantum_turn-Frozen i before e r (threw err c') rest h =
      (running-Kept c c' running, Frozen-refl cs)
  quantum_turn-Frozen i before e r undefined_behaviour rest h = tt

module _ (fl : FloatOps) (simd : HostSimd) where
  pub step_cores-Frozen :
      (e : DeterministicEngine) (r : Memory) (cs : List Machine)
      → TurnFrozen cs (step_cores fl simd e r cs)
  unfolding step_cores
  step_cores-Frozen e r [] = tt
  step_cores-Frozen e r (c ∷ cs) =
      let rest = λ (r' : Memory). step_cores fl simd e r' cs in
      let ih = λ (r' : Memory). step_cores-Frozen e r' cs in
      if_split (TurnFrozen (c ∷ cs)) c.regs.halt (keep_core c (rest r))
        (step_turn e r cs (step fl simd (with_shared r c)) rest)
        (λ _. keep_core-Frozen c c cs (rest r) (Kept-refl c) (ih r))
        (λ run. step_turn-Frozen c cs run e r (step fl simd (with_shared r c)) rest ih)

  pub run_cores-Frozen :
      (quantum i : ℕ) (e : DeterministicEngine) (r : Memory) (cs : List Machine)
      → TurnFrozen cs (run_cores fl simd quantum i e r cs)
  unfolding run_cores
  run_cores-Frozen quantum i e r [] = tt
  run_cores-Frozen quantum i e r (c ∷ cs) =
      let rest =
        λ (e' : DeterministicEngine) (r' : Memory). run_cores fl simd quantum (i + 1) e' r' cs in
      let ih =
        λ (e' : DeterministicEngine) (r' : Memory). run_cores-Frozen quantum (i + 1) e' r' cs in
      let o = quantum_steps fl simd quantum (with_shared r c) in
      if_split (TurnFrozen (c ∷ cs)) c.regs.halt (keep_core c (rest e r))
        (quantum_turn i c.profiler.cycle_count e r cs o rest)
        (λ _. keep_core-Frozen c c cs (rest e r) (Kept-refl c) (ih e r))
        (λ run. quantum_turn-Frozen c cs run i c.profiler.cycle_count e r o rest ih)

abbrev pub MaybeFrozen : List Machine → Option Turn → Type 0
MaybeFrozen cs none = Unit
MaybeFrozen cs (some t) = TurnFrozen cs t

keep_core-MaybeFrozen :
    (c c' : Machine) (cs : List Machine) (t : Option Turn)
    → Kept c c'
    → MaybeFrozen cs t
    → MaybeFrozen (c ∷ cs) (Option.map (keep_core c') t)
keep_core-MaybeFrozen c c' cs none k f = tt
keep_core-MaybeFrozen c c' cs (some t) k f = keep_core-Frozen c c' cs t k f

fast_turn-Frozen :
    (c : Machine) (cs : List Machine) (e : DeterministicEngine) (r : Memory)
    (o : Option (Outcome (Unit {0}))) (rest : Memory → Option Turn)
    → c.regs.halt ≡ false
    → ((r' : Memory) → MaybeFrozen cs (rest r'))
    → MaybeFrozen (c ∷ cs) (fast_turn e r cs o rest)
unfolding fast_turn
fast_turn-Frozen c cs e r none rest run h = tt
fast_turn-Frozen c cs e r (some (done _ c')) rest run h =
    keep_core-MaybeFrozen c c' cs (rest _) (running-Kept c c' run) (h _)
fast_turn-Frozen c cs e r (some (threw err c')) rest run h = (running-Kept c c' run, Frozen-refl cs)
fast_turn-Frozen c cs e r (some undefined_behaviour) rest run h = tt

ticked-Frozen :
    (o : Option (Bool × DeterministicEngine)) (r : Memory) (cs cs' : List Machine)
    → Frozen cs cs'
    → TurnFrozen cs (ticked o r cs')
unfolding ticked
ticked-Frozen none r cs cs' f = tt
ticked-Frozen (some (barrier, e)) r cs cs' f = f

pub tick_round-Frozen :
    (quantum : ℕ) (cs : List Machine) (t : Turn)
    → TurnFrozen cs t
    → TurnFrozen cs (tick_round quantum t)
unfolding tick_round
tick_round-Frozen quantum cs (failed err e r cs') f = f
tick_round-Frozen quantum cs undefined f = tt
tick_round-Frozen quantum cs (finished e r cs') f = ticked-Frozen (tick e 0 quantum) r cs cs' f

pub on_others-Frozen :
    (va skip i : ℕ) (cs : List Machine) → Frozen cs (on_others (flush_page va) skip i cs)
unfolding on_others
on_others-Frozen va skip i [] = tt
on_others-Frozen va skip i (c ∷ cs) = (
  if_split (Kept c) (i == skip) c (flush_page va c) (λ _. Kept-refl c) (λ _ h. (refl, refl, refl)),
  on_others-Frozen va skip (i + 1) cs,
)

pub raise_at-Frozen : (i : ℕ) (cs : List Machine) → Frozen cs (raise_at i cs)
unfolding raise_at
raise_at-Frozen i [] = tt
raise_at-Frozen zero (c ∷ cs) = ((λ h. (refl, refl, refl)), Frozen-refl cs)
raise_at-Frozen (suc i) (c ∷ cs) = (Kept-refl c, raise_at-Frozen i cs)

module _ (fl : FloatOps) (simd : HostSimd) where
  pub fast_cores-Frozen :
      (fuel : ℕ) (e : DeterministicEngine) (r : Memory) (cs : List Machine)
      → MaybeFrozen cs (fast_cores fl simd fuel e r cs)
  unfolding fast_cores
  fast_cores-Frozen fuel e r [] = tt
  fast_cores-Frozen fuel e r (c ∷ cs) =
      let rest = λ (r' : Memory). fast_cores fl simd fuel e r' cs in
      let ih = λ (r' : Memory). fast_cores-Frozen fuel e r' cs in
      let o = run_fast fl simd fuel (with_shared r c) in
      if_split (MaybeFrozen (c ∷ cs)) c.regs.halt (Option.map (keep_core c) (rest r))
        (fast_turn e r cs o rest) (λ _. keep_core-MaybeFrozen c c cs (rest r) (Kept-refl c) (ih r))
        (λ run. fast_turn-Frozen c cs e r o rest run ih)
