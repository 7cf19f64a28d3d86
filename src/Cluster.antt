-- ===== src/Cluster.antt =====
-- include/aiasm/cluster.h and src/cluster.cpp: several cores in turn, with a RAM that all of them see
-- through a window of their bus, and the engine that counts their cycles. The shared L2 and the
-- cluster's fabric are only handed out by accessors, and are left out.
pub mod Run
pub mod Frozen
pub mod Reach
pub mod Clock
pub mod Signals
use novium_emulator.Base.{
  ℕ, zero, suc, ◌+◌, ◌==◌, u64, if◌then◌else◌, get_elem?, set, map, length, Bool, true, false,
  Option, none, some, List, [], ◌∷◌, ◌&&◌,
}
use novium_emulator.Memory.{Memory, fresh}
use novium_emulator.Mmu.{tlb_flush_va}
use novium_emulator.Interrupt.{raise_soft}
use novium_emulator.Deterministic.{DeterministicEngine, new_engine}
use novium_emulator.Kernels.{FloatOps, HostSimd}
use novium_emulator.Emulator.{Machine, EmulatorError, Outcome, done, threw, undefined_behaviour}
use novium_emulator.Emulator.Step.{step}
use novium_emulator.Emulator.Control.{create, load_program}

pub record ClusterConfig : Type 0 where
  pub num_cores : ℕ
  pub scratchpad_per_core : ℕ
  pub shared_ram : ℕ
  pub quantum : ℕ

pub record Cluster : Type 0 where
  pub cfg : ClusterConfig
  pub cores : List Machine
  pub shared_ram : Memory
  pub deterministic : DeterministicEngine

-- A core with the window on the shared RAM. Between its turns the copy in a core is out of date.
abbrev pub with_shared : Memory → Machine → Machine
with_shared r m = record m { shared = some r }

abbrev pub shared_or : Memory → Option Memory → Memory
shared_or r none = r
shared_or r (some r') = r'

unfoldable pub new_cores : ℕ → ClusterConfig → List Machine
unfolding create fresh
new_cores zero cfg = []
new_cores (suc n) cfg =
    with_shared (fresh cfg.shared_ram) (create cfg.scratchpad_per_core cfg.shared_ram)
    ∷ new_cores n cfg

unfoldable pub new_cluster : ClusterConfig → Cluster
unfolding new_cores fresh new_engine
new_cluster cfg = record {
  cfg = cfg;
  cores = new_cores cfg.num_cores cfg;
  shared_ram = fresh cfg.shared_ram;
  deterministic = new_engine cfg.quantum;
}

-- What a loop over the cores leaves. An exception ends it: the cores before are changed, the cores
-- after are not.
pub data Turn : Type 0 where
  finished : DeterministicEngine → Memory → List Machine → Turn
  failed : EmulatorError → DeterministicEngine → Memory → List Machine → Turn
  undefined : Turn

-- A core put back in front of the cores that come after it.
unfoldable pub keep_core : Machine → Turn → Turn
keep_core c (finished e r cs) = finished e r (c ∷ cs)
keep_core c (failed err e r cs) = failed err e r (c ∷ cs)
keep_core c undefined = undefined

unfoldable pub load_cores : List ℕ → DeterministicEngine → Memory → List Machine → Turn
unfolding keep_core
load_cores prog e r [] = finished e r []
load_cores prog e r (c ∷ cs) = elim (load_program prog c) [
  | done _ c' ↦ keep_core c' (load_cores prog e r cs)
  | threw err c' ↦ failed err e r (c' ∷ cs)
  | undefined_behaviour ↦ undefined
]

unfoldable pub all_halted : List Machine → Bool
all_halted [] = true
all_halted (c ∷ cs) = c.regs.halt && all_halted cs

unfoldable pub total_cycles : List Machine → ℕ
total_cycles [] = 0
total_cycles (c ∷ cs) = u64 (c.profiler.cycle_count + total_cycles cs)

unfoldable pub total_instructions : List Machine → ℕ
total_instructions [] = 0
total_instructions (c ∷ cs) = u64 (c.profiler.instr_count + total_instructions cs)

-- An operation on every core but number `skip`; `i` is the number of the first.
unfoldable pub on_others : (Machine → Machine) → ℕ → ℕ → List Machine → List Machine
on_others f skip i [] = []
on_others f skip i (c ∷ cs) = (if i == skip then c else f c) ∷ on_others f skip (i + 1) cs

abbrev pub flush_page : ℕ → Machine → Machine
flush_page va m = record m { mmu = tlb_flush_va m.mmu va }

unfoldable pub tlb_shootdown : ℕ → ℕ → Cluster → Cluster
unfolding on_others
tlb_shootdown va initiator c = record c { cores = on_others (flush_page va) initiator 0 c.cores }

-- The caches of the cores are out of reach here: the source flushes the TLB in their place.
unfoldable pub snoop_invalidate : ℕ → ℕ → Cluster → Cluster
unfolding on_others
snoop_invalidate addr writer c = record c { cores = on_others (flush_page addr) writer 0 c.cores }

-- A target that is not a core is ignored.
unfoldable pub raise_at : ℕ → List Machine → List Machine
unfolding raise_soft
raise_at i [] = []
raise_at zero (c ∷ cs) = record c { intc = raise_soft c.intc } ∷ cs
raise_at (suc i) (c ∷ cs) = c ∷ raise_at i cs

unfoldable pub send_ipi : ℕ → Cluster → Cluster
unfolding raise_at
send_ipi target c = record c { cores = raise_at target c.cores }
