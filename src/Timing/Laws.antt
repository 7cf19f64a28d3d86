-- ===== src/Timing/Laws.antt =====
-- The range of the adjusted cycles.
use novium_emulator.Base.{ℕ, ◌+◌, ◌/◌, ◌^◌, ◌<◌, ◌≤◌, ◌≡◌, Bool, arith}
use novium_emulator.Timing.{
  TimingMode, functional, cycle_approximate, cycle_accurate, TimingConfig, adjust, set_mode,
}

-- In functional mode every instruction takes one cycle. In the other modes the adjusted cycles are
-- at least the base and at most the base with all three penalties, if that sum fits 32 bits.
pub adjust_bounds :
    (cfg : TimingConfig) (base : ℕ) (mispredict miss is_mem : Bool)
    → base + cfg.branch_mispredict_penalty + cfg.cache_miss_penalty + cfg.memory_latency / 10
      < 2 ^ 32
    → let at = λ (m : TimingMode). adjust (set_mode cfg m) base mispredict miss is_mem in
      (at functional ≡ 1)
      × (at cycle_approximate ≡ base)
      × (base ≤ at cycle_accurate)
      × (at cycle_accurate
          ≤ base + cfg.branch_mispredict_penalty + cfg.cache_miss_penalty + cfg.memory_latency / 10)
unfolding adjust set_mode
adjust_bounds cfg base mispredict miss is_mem fits =
    (ground arith, ground arith, ground arith, ground arith)
