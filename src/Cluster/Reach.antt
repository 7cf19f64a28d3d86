-- ===== src/Cluster/Reach.antt =====
-- The clusters that a host can reach, and what stays through all of them.
use novium_emulator.Base.{ℕ, Option, none, some, ◌≡◌, sym}
use mathlib.Core.Path.{subst}
use mathlib.Core.Option
use novium_emulator.Kernels.{FloatOps, HostSimd}
use novium_emulator.Cluster.{
  Cluster, Turn, finished, failed, undefined, tlb_shootdown, snoop_invalidate, send_ipi,
}
use novium_emulator.Cluster.Run.{
  ClusterOutcome, returned, threw_from, undefined_outcome, put_turn, step_all, run_round,
  fast_cores, tick_round, fast_round,
}
use novium_emulator.Cluster.Frozen.{
  Frozen, Frozen-refl, Frozen-trans, TurnFrozen, MaybeFrozen, step_cores-Frozen, run_cores-Frozen,
  fast_cores-Frozen, tick_round-Frozen, on_others-Frozen, raise_at-Frozen,
}

-- The cluster that an operation leaves, when it returns or throws.
abbrev pub Leaves : ClusterOutcome → Cluster → Type 0
Leaves (returned c) c' = c' ≡ c
Leaves (threw_from err c) c' = c' ≡ c
Leaves undefined_outcome c' = ⊥

-- What the host can do to a running cluster: step or run its cores, with exceptions caught, signal a
-- core, and flush pages.
pub data ClusterStep (fl : FloatOps) (simd : HostSimd) (c : Cluster) (c' : Cluster) : Type 0 where
  stepping : Leaves (step_all fl simd c) c' → ClusterStep fl simd c c'
  running : Leaves (run_round fl simd c) c' → ClusterStep fl simd c c'
  running_fast :
      (fuel : ℕ) (o : ClusterOutcome)
      → fast_round fl simd fuel c ≡ some o
      → Leaves o c'
      → ClusterStep fl simd c c'
  signalling : (target : ℕ) → c' ≡ send_ipi target c → ClusterStep fl simd c c'
  shooting_down : (va initiator : ℕ) → c' ≡ tlb_shootdown va initiator c → ClusterStep fl simd c c'
  snooping : (addr writer : ℕ) → c' ≡ snoop_invalidate addr writer c → ClusterStep fl simd c c'

pub data ClusterReach (fl : FloatOps) (simd : HostSimd) (c : Cluster) : Cluster → Type 0 where
  here : ClusterReach fl simd c c
  later :
      {d e : Cluster}
      → ClusterReach fl simd c d
      → ClusterStep fl simd d e
      → ClusterReach fl simd c e

put_turn-Frozen :
    (c : Cluster) (t : Turn) (c' : Cluster)
    → TurnFrozen c.cores t
    → Leaves (put_turn c t) c'
    → Frozen c.cores c'.cores
unfolding put_turn
put_turn-Frozen c (finished e r cs) c' f l = subst (λ d. Frozen c.cores d.cores) (sym l) f
put_turn-Frozen c (failed err e r cs) c' f l = subst (λ d. Frozen c.cores d.cores) (sym l) f
put_turn-Frozen c undefined c' f l = absurd l

module _ (fl : FloatOps) (simd : HostSimd) where
  fast_outcome-Frozen :
      (c : Cluster) (t : Option Turn) (o : ClusterOutcome) (c' : Cluster)
      → MaybeFrozen c.cores t
      → Option.map (λ u. put_turn c (tick_round c.cfg.quantum u)) t ≡ some o
      → Leaves o c'
      → Frozen c.cores c'.cores
  fast_outcome-Frozen c none o c' f e l = cc
  fast_outcome-Frozen c (some t) o c' f e l =
      put_turn-Frozen c (tick_round c.cfg.quantum t) c'
        (tick_round-Frozen c.cfg.quantum c.cores t f)
        (subst (λ p. Leaves p c') (sym (Option.some-injective _ _ e)) l)

  ClusterStep-Frozen : (c c' : Cluster) → ClusterStep fl simd c c' → Frozen c.cores c'.cores
  unfolding step_all run_round fast_round send_ipi tlb_shootdown snoop_invalidate
  ClusterStep-Frozen c c' (stepping l) =
      put_turn-Frozen c _ c' (step_cores-Frozen fl simd c.deterministic c.shared_ram c.cores) l
  ClusterStep-Frozen c c' (running l) =
      put_turn-Frozen c _ c'
        (run_cores-Frozen fl simd c.cfg.quantum 0 c.deterministic c.shared_ram c.cores) l
  ClusterStep-Frozen c c' (running_fast fuel o e l) =
      fast_outcome-Frozen c (fast_cores fl simd fuel c.deterministic c.shared_ram c.cores) o c'
        (fast_cores-Frozen fl simd fuel c.deterministic c.shared_ram c.cores) e l
  ClusterStep-Frozen c c' (signalling target e) =
      subst (λ d. Frozen c.cores d.cores) (sym e) (raise_at-Frozen target c.cores)
  ClusterStep-Frozen c c' (shooting_down va i e) =
      subst (λ d. Frozen c.cores d.cores) (sym e) (on_others-Frozen va i 0 c.cores)
  ClusterStep-Frozen c c' (snooping va i e) =
      subst (λ d. Frozen c.cores d.cores) (sym e) (on_others-Frozen va i 0 c.cores)

  -- Whatever sequence of steps and rounds of the cores, interrupts and page flushes the host makes,
  -- with exceptions caught, the number of the cores stays, and a core that has halted keeps its
  -- registers and both its memories: no turn of another core and no interrupt wakes it.
  pub reach-Frozen : {c c' : Cluster} → ClusterReach fl simd c c' → Frozen c.cores c'.cores
  reach-Frozen {c} here = Frozen-refl c.cores
  reach-Frozen {c} {c'} (later {d} r st) =
      Frozen-trans c.cores d.cores c'.cores (reach-Frozen r) (ClusterStep-Frozen d c' st)
