-- ===== src/Timing.antt =====
-- include/aiasm/timing.h: the three accuracies, and the penalties that the accurate one adds.
pub mod Laws
use novium_emulator.Base.{ℕ, ◌+◌, ◌/◌, u32, add32, if◌then◌else◌, ◌&&◌, Bool, true}

pub data TimingMode : Type 0 where
  functional cycle_approximate cycle_accurate : TimingMode

pub record TimingConfig : Type 0 where
  pub mode : TimingMode
  pub model_branch_mispredict : Bool
  pub model_cache_miss : Bool
  pub model_memory_latency : Bool
  pub branch_mispredict_penalty : ℕ
  pub cache_miss_penalty : ℕ
  pub memory_latency : ℕ

unfoldable pub default_config : TimingConfig
default_config = record {
  mode = cycle_approximate;
  model_branch_mispredict = true;
  model_cache_miss = true;
  model_memory_latency = true;
  branch_mispredict_penalty = 3;
  cache_miss_penalty = 10;
  memory_latency = 100;
}

unfoldable pub set_mode : TimingConfig → TimingMode → TimingConfig
set_mode cfg m = record cfg { mode = m }

unfoldable pub configure : TimingConfig → TimingConfig → TimingConfig
configure cfg c = c

-- One `if (modelled && happened) c += penalty`.
unfoldable pub penalty : Bool → Bool → ℕ → ℕ → ℕ
penalty modelled happened cost c = if modelled && happened then add32 c cost else c

-- The parameter `branch_taken` of the source has no effect, and is left out.
unfoldable pub adjust_in : TimingMode → TimingConfig → ℕ → Bool → Bool → Bool → ℕ
unfolding penalty
adjust_in functional cfg base mispredict miss is_mem = 1
adjust_in cycle_approximate cfg base mispredict miss is_mem = base
adjust_in cycle_accurate cfg base mispredict miss is_mem =
    penalty cfg.model_memory_latency is_mem (cfg.memory_latency / 10) (
      penalty cfg.model_cache_miss miss cfg.cache_miss_penalty
        (penalty cfg.model_branch_mispredict mispredict cfg.branch_mispredict_penalty base))

unfoldable pub adjust : TimingConfig → ℕ → Bool → Bool → Bool → ℕ
unfolding adjust_in
adjust cfg base mispredict miss is_mem = adjust_in cfg.mode cfg base mispredict miss is_mem
