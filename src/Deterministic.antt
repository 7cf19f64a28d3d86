-- ===== src/Deterministic.antt =====
-- include/aiasm/deterministic.h: the engine that counts the cycles of the cores and says when a
-- barrier is due. The mutex makes each operation one step.
pub mod Laws
use novium_emulator.Base.{
  ℕ, zero, suc, ◌+◌, ◌%◌, u64, ◌==◌, if◌then◌else◌, update, Bool, Option, none, some, List, [], ◌∷◌,
}

abbrev pub max_cores : ℕ
max_cores = 16

pub record DeterministicEngine : Type 0 where
  pub quantum : ℕ
  pub global_clock : ℕ
  pub seq : ℕ
  pub clocks : ℕ → ℕ

unfoldable pub new_engine : ℕ → DeterministicEngine
new_engine quantum = record { quantum = quantum; global_clock = 0; seq = 0; clocks = λ _. 0 }

unfoldable pub set_quantum : DeterministicEngine → ℕ → DeterministicEngine
set_quantum e q = record e { quantum = q }

-- The counters after a commit of `cycles` on a core.
unfoldable pub advance : DeterministicEngine → ℕ → ℕ → DeterministicEngine
advance e core_id cycles =
    let core = core_id % max_cores in
    record e {
      clocks = update e.clocks core (u64 (e.clocks core + cycles));
      global_clock = u64 (e.global_clock + cycles);
      seq = u64 (e.seq + 1);
    }

-- `none` is the division by a quantum of zero. The Boolean asks for a barrier.
unfoldable pub tick : DeterministicEngine → ℕ → ℕ → Option (Bool × DeterministicEngine)
unfolding advance
tick e core_id cycles =
    let e' = advance e core_id cycles in
    if e.quantum == 0 then none else some (e'.global_clock % e.quantum == 0, e')

unfoldable pub reset : DeterministicEngine → DeterministicEngine
reset e = record e { global_clock = 0; seq = 0; clocks = λ _. 0 }
