-- ===== src/Checkpoint.antt =====
-- include/aiasm/checkpoint.h and src/checkpoint.cpp: saved states of the core, and the bounded
-- history that steps back through them.
pub mod Laws
use novium_emulator.Base.{
  ℕ, ◌+◌, ltb, if◌then◌else◌, length, Bool, true, false, not, Option, none, some, List, [], ◌∷◌,
}
use novium_emulator.Base.Window.{push_bounded, pop_back}
use novium_emulator.Registers.{RegisterFile}
use novium_emulator.Csr.{CsrFile}
use novium_emulator.Profiler.{ProfilerState}

pub record Checkpoint : Type 0 where
  pub regs : RegisterFile
  pub csr : CsrFile
  pub profiler : ProfilerState
  pub tick_accum : ℕ
  pub global_clock : ℕ
  pub seq : ℕ
  pub scratch_snapshot : List ℕ
  pub has_memory : Bool

-- The deque with its front first.
pub record CheckpointManager : Type 0 where
  pub history : List Checkpoint
  pub max_history : ℕ

unfoldable pub new_manager : ℕ → CheckpointManager
new_manager max_history = record { history = []; max_history = max_history }

-- The history itself is not cut.
unfoldable pub set_max_history : CheckpointManager → ℕ → CheckpointManager
set_max_history c n = record c { max_history = n }

unfoldable pub size : CheckpointManager → ℕ
size c = length c.history

unfoldable pub add : CheckpointManager → Checkpoint → CheckpointManager
unfolding push_bounded
add c cp = record c { history = push_bounded c.max_history c.history cp }

unfoldable pub push :
    CheckpointManager → RegisterFile → CsrFile → ProfilerState → ℕ → ℕ → ℕ → CheckpointManager
unfolding add
push c regs csr prof ticks clock seq = add c (record {
  regs = regs;
  csr = csr;
  profiler = prof;
  tick_accum = ticks;
  global_clock = clock;
  seq = seq;
  scratch_snapshot = [];
  has_memory = false;
})

unfoldable pub push_full : CheckpointManager → Checkpoint → List ℕ → CheckpointManager
unfolding add
push_full c cp mem = add c (record cp { scratch_snapshot = mem; has_memory = true })

unfoldable pub can_reverse : CheckpointManager → Bool
can_reverse c = ltb 0 (length c.history)

-- `none` is the answer false.
unfoldable pub pop : CheckpointManager → Option (Checkpoint × CheckpointManager)
unfolding pop_back
pop c = elim (pop_back c.history) [
  | none ↦ none
  | some (rest, cp) ↦ some (cp, record c { history = rest })
]

unfoldable pub clear : CheckpointManager → CheckpointManager
clear c = record c { history = [] }

-- A blob is the object representation of the registers in front of bytes that stay zero. How a
-- compiler lays a register file out is not in the source: a blob is its size and the registers.
pub record Blob : Type 0 where
  pub bytes : ℕ
  pub regs : RegisterFile

-- `regs_size` and `csr_size` stand for the two sizeof.
unfoldable pub save_blob : ℕ → ℕ → Checkpoint → Blob
save_blob regs_size csr_size cp = record { bytes = regs_size + csr_size + 64; regs = cp.regs }

unfoldable pub restore_blob : ℕ → Blob → Checkpoint → Option Checkpoint
restore_blob regs_size blob out =
    if ltb blob.bytes regs_size then none else some (record out { regs = blob.regs })
