-- ===== src/Emulator/Control.antt =====
-- src/emulator.cpp: construction, reset, loading, targets, and the saved state; and the functions
-- of the C interface that turn errors into codes.
pub mod Laws
use novium_emulator.Base.{
  ℕ, ◌+◌, ◌*◌, ltb, ◌==◌, if◌then◌else◌, update, length, Bool, true, false, Option, none, some,
  List, [], ◌∷◌, get_or,
}
use novium_emulator.Config.{text_base, text_size, scratchpad_size, main_ram_size, vec_width, num_vr}
use novium_emulator.Memory
use novium_emulator.Memory.{words_bytes}
use novium_emulator.Registers
use novium_emulator.Registers.{StatusFlags}
use novium_emulator.Csr
use novium_emulator.Mmu
use novium_emulator.Devices.{new_timer, new_uart, uart_flush}
use novium_emulator.Profiler
use novium_emulator.Profiler.{ProfilerState}
use novium_emulator.Debugger
use novium_emulator.Interrupt
use novium_emulator.Interconnect
use novium_emulator.Interconnect.{axi4, pcie, cxi, new_interconnect}
use novium_emulator.Target.{
  TargetProfile, TargetKind, make_cpu_profile, make_gpu_profile, make_asic_profile,
}
use novium_emulator.Translate.{empty_cache}
use novium_emulator.Emulator.{
  Machine, sram_out_of_bounds, main_ram_out_of_bounds, program_too_large, Outcome, threw, done,
  undefined_behaviour, M, pure, ◌>>=◌, ◌>>◌,
}
use novium_emulator.Emulator.Basics.{or_throw, modify, put_scratchpad, bus_read32, bus_write32}

-- The constructor, with the member initialisers.
unfoldable pub create : ℕ → ℕ → Machine
unfolding Memory.fresh Registers.cleared Csr.after_reset Mmu.fresh new_interconnect new_timer
    new_uart Profiler.cleared Debugger.new_debugger Interrupt.idle make_asic_profile empty_cache
create scratchpad_bytes main_ram_bytes = record {
  scratchpad = Memory.fresh scratchpad_bytes;
  main_ram = Memory.fresh main_ram_bytes;
  regs = Registers.cleared;
  csr = Csr.after_reset;
  mmu = Mmu.fresh;
  interconnect = new_interconnect axi_config;
  axi = new_interconnect axi_config;
  pcie = new_interconnect pcie_config;
  cxi = new_interconnect cxi_config;
  timer = new_timer;
  uart = new_uart;
  profiler = Profiler.cleared;
  debugger = Debugger.new_debugger;
  intc = Interrupt.idle;
  target = make_asic_profile;
  block_cache = empty_cache;
  accel = true;
  verbose = false;
  tick_accum = 0;
  last_pc = 0;
  last_gpr = λ _. 0;
  shared = none;
}
  where
    axi_config : Interconnect.InterconnectConfig
    axi_config = record {
      protocol = axi4;
      data_width = 64;
      latency_cycles = 2;
      max_outstanding = 8;
      burst_len = 16;
    }

    pcie_config : Interconnect.InterconnectConfig
    pcie_config = record {
      protocol = pcie;
      data_width = 64;
      latency_cycles = 4;
      max_outstanding = 4;
      burst_len = 8;
    }

    cxi_config : Interconnect.InterconnectConfig
    cxi_config = record {
      protocol = cxi;
      data_width = 64;
      latency_cycles = 3;
      max_outstanding = 16;
      burst_len = 16;
    }

-- What `reset` sets; the timer, the UART, the target, the acceleration flag, the simple map and
-- the counters of the TLB are not among it.
unfoldable pub reset : Machine → Machine
unfolding Memory.clear Registers.cleared Csr.after_reset Mmu.tlb_flush Mmu.set_enabled
    Interconnect.reset Profiler.cleared Debugger.clear_breakpoints Debugger.set_single_step
    Interrupt.idle empty_cache
reset m = record m {
  regs = Registers.cleared;
  csr = Csr.after_reset;
  mmu = Mmu.set_enabled (Mmu.tlb_flush m.mmu) false;
  axi = Interconnect.reset m.axi;
  pcie = Interconnect.reset m.pcie;
  cxi = Interconnect.reset m.cxi;
  interconnect = Interconnect.reset m.interconnect;
  intc = Interrupt.idle;
  scratchpad = Memory.clear m.scratchpad;
  main_ram = Memory.clear m.main_ram;
  profiler = Profiler.cleared;
  debugger = Debugger.set_single_step (Debugger.clear_breakpoints m.debugger) false;
  verbose = false;
  tick_accum = 0;
  last_pc = 0;
  last_gpr = λ _. 0;
  block_cache = empty_cache;
}

unfoldable pub set_target : TargetProfile → Machine → Machine
unfolding empty_cache
set_target p m = record m { target = p; block_cache = empty_cache }

unfoldable pub set_target_kind : TargetKind → Machine → Machine
unfolding set_target make_cpu_profile make_gpu_profile make_asic_profile
set_target_kind TargetKind.cpu m = set_target make_cpu_profile m
set_target_kind TargetKind.gpu m = set_target make_gpu_profile m
set_target_kind TargetKind.asic m = set_target make_asic_profile m

-- `load_program` of bytes: the size is tested against the text region, then the load against the
-- scratchpad. The block cache is cleared last.
unfoldable pub load_program_bytes : List ℕ → M (Unit {0})
unfolding Memory.load empty_cache
load_program_bytes bytes m =
    if ltb text_size (length bytes)
    then threw program_too_large m
    else (do
      s ← or_throw sram_out_of_bounds (Memory.load m.scratchpad text_base bytes)
      modify (λ m'. record (put_scratchpad m' s) { block_cache = empty_cache }))
        m

unfoldable pub load_program : List ℕ → M (Unit {0})
unfolding load_program_bytes words_bytes
load_program words = load_program_bytes (words_bytes words)

-- `load_data`, and `load_tensor` over the patterns of its floats.
unfoldable pub load_data : ℕ → List ℕ → M (Unit {0})
unfolding Memory.load
load_data addr bytes m =
    (or_throw sram_out_of_bounds (Memory.load m.scratchpad addr bytes) >>= λ s.
    modify (λ m'. put_scratchpad m' s))
      m

unfoldable pub load_tensor : ℕ → List ℕ → M (Unit {0})
unfolding load_data words_bytes
load_tensor addr floats = load_data addr (words_bytes floats)

unfoldable pub load_main_ram : ℕ → List ℕ → M (Unit {0})
unfolding Memory.write_bytes
load_main_ram addr bytes m =
    (or_throw main_ram_out_of_bounds (Memory.write_bytes m.main_ram addr bytes) >>= λ r.
    modify (λ m'. record m' { main_ram = r }))
      m

-- `Emulator::State`.
pub record State : Type 0 where
  pub status : StatusFlags
  pub gpr : ℕ → ℕ
  pub vr : ℕ → ℕ → ℕ
  pub pc : ℕ
  pub tick_accum : ℕ
  pub profiler : ProfilerState

unfoldable pub save_state : Machine → State
unfolding Profiler.save
save_state m = record {
  status = m.regs.status;
  gpr = m.regs.gpr;
  vr = m.regs.vr;
  pc = m.regs.pc;
  tick_accum = m.tick_accum;
  profiler = Profiler.save m.profiler;
}

unfoldable pub restore_state : State → Machine → Machine
unfolding Profiler.restore
restore_state s m = record m {
  regs = record m.regs { status = s.status; gpr = update s.gpr 0 0; vr = s.vr; pc = s.pc };
  tick_accum = s.tick_accum;
  profiler = Profiler.restore s.profiler;
}

-- A call of the C interface: the exception is swallowed, the code is 0 or -1 (`false`).
unfoldable pub as_code : {A : Type 0} → M A → Machine → Option (Bool × Machine)
as_code c m = elim (c m) [
  | done _ m' ↦ some (true, m')
  | threw _ m' ↦ some (false, m')
  | undefined_behaviour ↦ none
]

-- `aism_create`: a size of zero asks for the default.
unfoldable pub aism_create : ℕ → ℕ → Machine
unfolding create
aism_create scratchpad_bytes main_ram_bytes =
    create (if scratchpad_bytes == 0 then scratchpad_size else scratchpad_bytes)
      (if main_ram_bytes == 0 then main_ram_size else main_ram_bytes)

unfoldable pub aism_load_program : List ℕ → Machine → Option (Bool × Machine)
unfolding as_code load_program
aism_load_program instrs = as_code (load_program instrs)

unfoldable pub aism_load_main_ram : ℕ → List ℕ → Machine → Option (Bool × Machine)
unfolding as_code load_main_ram
aism_load_main_ram offset bytes = as_code (load_main_ram offset bytes)

unfoldable pub aism_write32 : ℕ → ℕ → Machine → Option (Bool × Machine)
unfolding as_code bus_write32
aism_write32 addr value = as_code (bus_write32 addr value)

-- An error reads as 0.
unfoldable pub aism_read32 : ℕ → Machine → Option (ℕ × Machine)
unfolding bus_read32
aism_read32 addr m = elim (bus_read32 addr m) [
  | done v m' ↦ some (v, m')
  | threw _ m' ↦ some (0, m')
  | undefined_behaviour ↦ none
]
