-- ===== src/Tests/Host.antt =====
-- Clusters, checkpoints, transactions and source texts at concrete inputs.
use novium_emulator.Base.{
  ℕ, ◌+◌, ◌*◌, ◌≡◌, ◌≢◌, refl, arith, true, false, none, some, List, [], ◌∷◌, get_elem?, blit,
  add32,
}
use novium_emulator.Base.Text.{codes, lowered, trim, cut_at}
use novium_emulator.Isa.Enc
use novium_emulator.Isa.Halting.{ends_in_halt}
use novium_emulator.Memory.{Memory, fresh}
use novium_emulator.Registers.{cleared}
use novium_emulator.Csr.{after_reset}
use novium_emulator.Kernels.{FloatOps, no_simd}
use novium_emulator.Emulator.{Machine, done}
use novium_emulator.Emulator.Control.{create, load_program, reset}
use novium_emulator.Emulator.Step.{run}
use novium_emulator.Emulator.Typed.{Safe, Any}
use novium_emulator.Emulator.Typed.Run.{RunSafe, steps, program_run-Safe}
use novium_emulator.Cluster.{ClusterConfig, Cluster, new_cluster, tlb_shootdown, send_ipi}
use novium_emulator.Cluster.Run.{run_round}
use novium_emulator.Cluster.Frozen.{Frozen}
use novium_emulator.Cluster.Reach.{
  ClusterReach, here, later, signalling, shooting_down, reach-Frozen,
}
use novium_emulator.Cluster.Clock.{ClockFollows, run_round-ClockFollows}
use novium_emulator.Cluster.Signals.{served, tlb_shootdown-served}
use novium_emulator.Checkpoint
use novium_emulator.Checkpoint.{Checkpoint, CheckpointManager, new_manager, add, pop}
use novium_emulator.Checkpoint.Laws.{add_all, history-last_of, pop-add}
use novium_emulator.Deterministic.{new_engine}
use novium_emulator.Deterministic.Laws.{Counted, advance_all, advance_all-Counted}
use novium_emulator.Interconnect.{Interconnect, axi4}
use novium_emulator.Interconnect.Laws.{tick_all, tick_all-drains}
use novium_emulator.Tlm
use novium_emulator.Tlm.{TlmPayload, TlmAdapter, new_socket, ok, returned, answer}
use novium_emulator.Tlm.Laws.{transact, transact-transact}
use novium_emulator.Fpga.{FpgaCoEmulator, simulated, new_fpga}
use novium_emulator.Fpga.Laws.{
  after_all, offloads, is_offload, connecting, copying, after_all-counts,
}
use novium_emulator.Decoder.{translate_bytes, ptx}
use novium_emulator.Decoder.Laws.{translate_ptx-halts}
use novium_emulator.Frontend.{Patterns, load, asm_line, asm_text}
use novium_emulator.Frontend.Laws.{Answered, load-Answered, asm_line-movi}
use novium_emulator.Coremark.{CoremarkResult, check_run, tally}
use novium_emulator.Coremark.Laws.{check_run_lem}

-- A float is added and multiplied as if it were an integer.
abbrev whole : FloatOps
whole = record { fadd = λ x y. x + y; fmul = λ x y. x * y }

-- A new machine with MOVI r0, 7 and HALT.
abbrev zero_program : List ℕ
zero_program = Enc.movi 0 7 ∷ Enc.halt ∷ []

program_run-Safe_example :
    (m : Machine) × (load_program zero_program (create 64 64) ≡ done tt m)
    × (Safe Any (steps whole no_simd 1 m) × RunSafe (run whole no_simd 3 m))
unfolding load_program create
program_run-Safe_example = (_, refl, program_run-Safe whole no_simd 64 64 1 3 zero_program refl)

abbrev small : ClusterConfig
small = record { num_cores = 2; scratchpad_per_core = 64; shared_ram = 64; quantum = 10 }

abbrev pair : Cluster
pair = new_cluster small

signalled : ClusterReach whole no_simd pair (tlb_shootdown 4096 0 (send_ipi 1 pair))
signalled = later (later here (signalling 1 refl)) (shooting_down 4096 0 refl)

reach-Frozen_example : Frozen pair.cores (tlb_shootdown 4096 0 (send_ipi 1 pair)).cores
reach-Frozen_example = reach-Frozen whole no_simd signalled

run_round-ClockFollows_example : ClockFollows pair (run_round whole no_simd pair)
unfolding new_cluster create
run_round-ClockFollows_example =
    run_round-ClockFollows whole no_simd pair (omega arith, (omega arith, tt))

abbrev core : Machine
core = create 64 64

-- The initiator is core 0.
abbrev cores : Cluster
cores = record pair { cores = core ∷ core ∷ [] }

tlb_shootdown-served_example :
    (core' : Machine) × (get_elem? (tlb_shootdown 4096 0 cores).cores 1 ≡ some core')
    × (◌≡◌ {A = ℕ} 1 0 → core' ≡ core)
    × (◌≢◌ {A = ℕ} 1 0 → served core' 4096 0 ≡ none)
    × (served core' 8192 0 ≡ served core 8192 0)
tlb_shootdown-served_example =
    tlb_shootdown-served cores 4096 0 1 8192 0 core refl (λ e. omega (arith, e))

abbrev saved : Checkpoint
saved = record {
  regs = cleared;
  csr = after_reset;
  profiler = record {
    instr_count = 0;
    cycle_count = 0;
    dma_bytes = 0;
    dma_cycles = 0;
    opcode_hist = λ _. 0;
  };
  tick_accum = 0;
  global_clock = 0;
  seq = 0;
  scratch_snapshot = [];
  has_memory = false;
}

abbrev next : Checkpoint
next = record saved { seq = 1 }

history-last_of_example :
    add_all (new_manager 1) (saved ∷ next ∷ []) ≡ record { history = next ∷ []; max_history = 1 }
history-last_of_example = history-last_of 1 (saved ∷ next ∷ [])

pop-add_example : pop (add (new_manager 2) saved) ≡ some (saved, new_manager 2)
unfolding new_manager Checkpoint.size
pop-add_example = pop-add (new_manager 2) saved (omega arith)

advance_all-Counted_example : Counted (advance_all (new_engine 10) ((0, 7) ∷ (17, 5) ∷ [])) 12
advance_all-Counted_example = advance_all-Counted 10 ((0, 7) ∷ (17, 5) ∷ []) (omega arith)

-- One transaction that completes at cycle 5.
abbrev busy : Interconnect
busy = record {
  cfg = record {
    protocol = axi4;
    data_width = 64;
    latency_cycles = 2;
    max_outstanding = 1;
    burst_len = 16;
  };
  pending =
      record {
        id = 0;
        addr = 64;
        bytes = 4;
        is_write = false;
        issue_cycle = 0;
        complete_cycle = 5;
        proto = axi4;
      }
      ∷ [];
  cur_cycle = 0;
  completed = 0;
  stalled = 0;
}

tick_all-drains_example : (tick_all busy (2 ∷ 4 ∷ [])).completed ≡ 1
tick_all-drains_example =
    (tick_all-drains busy 2 (4 ∷ []) (omega arith) (omega arith) (omega arith)).1

abbrev adapter : TlmAdapter Memory
adapter = record { initiator = new_socket; target = new_socket }

-- Two bytes for address 8.
abbrev payload : TlmPayload
payload = record {
  command = Tlm.write;
  address = 8;
  buffer = 1 ∷ 2 ∷ [];
  bytes = 2;
  streaming_width = 0;
  response = ok;
  delay_cycles = 0;
}

abbrev page : Memory
page = fresh 64

transact-transact_example : transact adapter payload 0 page ≡ (
  returned (answer payload ok 1) (record page { byte = blit page.byte 8 (1 ∷ 2 ∷ []) }),
  add32 0 1,
)
unfolding fresh
transact-transact_example =
    (transact-transact adapter payload (9 ∷ 9 ∷ []) 0 page (omega arith) (omega arith) (omega arith)
      (omega arith)).0

abbrev far : TlmPayload
far = record payload { address = 0xFFFFFFFFFFFFFFFE }

abbrev bridge : FpgaCoEmulator
bridge = new_fpga (record { backend = simulated; device_id = 0; fallback_to_sim = true })

after_all-counts_example :
    (after_all whole bridge (connecting ∷ copying (λ i. i) 0 (λ _. 0) 0 4 ∷ [])).offloaded
      + (after_all whole bridge (connecting ∷ copying (λ i. i) 0 (λ _. 0) 0 4 ∷ [])).fallback
    ≡ 1
unfolding new_fpga offloads is_offload
after_all-counts_example =
    after_all-counts whole bridge (connecting ∷ copying (λ i. i) 0 (λ _. 0) 0 4 ∷ []) (omega arith)

translate_ptx-halts_example : ends_in_halt (translate_bytes ptx (codes "mov.u32 %r1, 1;")).0 ≡ true
translate_ptx-halts_example = (translate_ptx-halts (codes "mov.u32 %r1, 1;")).0

-- No pattern matches.
abbrev unmatched : Patterns
unmatched = record {
  annotation = λ _. none;
  sv_tile = λ _. none;
  sv_lanes = λ _. none;
  sv_bw = λ _. none;
  chisel_lanes = λ _. none;
  stoi = λ _. none;
  scan_movi_spaced = λ _. none;
  scan_movi = λ _. none;
  scan_vec_add = λ _. none;
}

load-Answered_example : Answered (load unmatched (some (codes "vec_add v1, v2, v3")) (codes ".asm"))
load-Answered_example = load-Answered unmatched (some (codes "vec_add v1, v2, v3")) (codes ".asm")

asm_line-movi_example : asm_line unmatched (codes "movi r1, #5") ≡ none
unfolding asm_text trim cut_at lowered
asm_line-movi_example =
    asm_line-movi unmatched (codes "movi r1, #5") (λ s h. refl) (λ s h. refl) refl

-- No check of this machine has failed.
abbrev passing : CoremarkResult
passing = record {
  iterations = 1;
  total_cycles = 0;
  total_instrs = 0;
  list_ok = true;
  matrix_ok = true;
  crc_ok = true;
}

check_run_lem_example :
    check_run passing (record core { scratchpad = fresh 0x2000 })
    ≡ done (tally passing 0 core) (reset (record core { scratchpad = fresh 0x2000 }))
unfolding create fresh cleared
check_run_lem_example = (check_run_lem passing core (fresh 0x2000) (omega arith)).0
