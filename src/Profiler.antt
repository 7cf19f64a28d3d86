-- ===== src/Profiler.antt =====
-- include/aiasm/profiler.h and the Profiler part of src/emulator.cpp: the counters. The ratios of
-- `ipc` and `dma_throughput` are doubles and are left out, as is the printed report.
use novium_emulator.Base.{ℕ, ◌+◌, u64, ltb, if◌then◌else◌, update}
use novium_emulator.Isa.{Opcode, opcode_code}

pub record Profiler : Type 0 where
  pub instr_count : ℕ
  pub cycle_count : ℕ
  pub dma_bytes : ℕ
  pub dma_cycle_count : ℕ
  pub opcode_hist : ℕ → ℕ

-- `reset`, and the value after construction.
unfoldable pub cleared : Profiler
cleared = record {
  instr_count = 0;
  cycle_count = 0;
  dma_bytes = 0;
  dma_cycle_count = 0;
  opcode_hist = λ _. 0;
}

unfoldable pub record_op : Profiler → Opcode → ℕ → ℕ → Profiler
unfolding opcode_code
record_op p op cycles dma_bytes =
    let code = opcode_code op in
    let p' = record p {
      instr_count = u64 (p.instr_count + 1);
      cycle_count = u64 (p.cycle_count + cycles);
      opcode_hist = update p.opcode_hist code (u64 (p.opcode_hist code + 1));
    } in
    if ltb 0 dma_bytes
    then record p' {
      dma_bytes = u64 (p.dma_bytes + dma_bytes);
      dma_cycle_count = u64 (p.dma_cycle_count + cycles);
    }
    else p'

-- `Profiler::State`, with `save` and `restore`.
pub record ProfilerState : Type 0 where
  pub instr_count : ℕ
  pub cycle_count : ℕ
  pub dma_bytes : ℕ
  pub dma_cycles : ℕ
  pub opcode_hist : ℕ → ℕ

unfoldable pub save : Profiler → ProfilerState
save p = record {
  instr_count = p.instr_count;
  cycle_count = p.cycle_count;
  dma_bytes = p.dma_bytes;
  dma_cycles = p.dma_cycle_count;
  opcode_hist = p.opcode_hist;
}

unfoldable pub restore : ProfilerState → Profiler
restore s = record {
  instr_count = s.instr_count;
  cycle_count = s.cycle_count;
  dma_bytes = s.dma_bytes;
  dma_cycle_count = s.dma_cycles;
  opcode_hist = s.opcode_hist;
}
