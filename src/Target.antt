-- ===== src/Target.antt =====
-- include/aiasm/target.h: the target profiles and their cycle weights. The name of a profile is
-- only printed and is left out.
use novium_emulator.Base.{ℕ, ◌==◌, if◌then◌else◌, update, Bool, true, false}
use novium_emulator.Isa.{Opcode, opcode_code, cycle_weight}

pub data TargetKind : Type 0 where
  cpu gpu asic : TargetKind

pub record TargetProfile : Type 0 where
  pub kind : TargetKind
  pub cycle_overrides : ℕ → ℕ
  pub vector_lanes : ℕ
  pub tensor_cores : ℕ
  pub dma_bandwidth : ℕ
  pub out_of_order : Bool
  pub warp_scheduling : Bool

unfoldable pub make_cpu_profile : TargetProfile
unfolding opcode_code
make_cpu_profile = record {
  kind = cpu;
  cycle_overrides =
      update (update (λ _. 0) (opcode_code Opcode.vec_add) 2) (opcode_code Opcode.matmul_tile) 24;
  vector_lanes = 8;
  tensor_cores = 1;
  dma_bandwidth = 32;
  out_of_order = true;
  warp_scheduling = false;
}

unfoldable pub make_gpu_profile : TargetProfile
unfolding opcode_code
make_gpu_profile = record {
  kind = gpu;
  cycle_overrides =
      update
        (update
          (update (update (λ _. 0) (opcode_code Opcode.vec_add) 1) (opcode_code Opcode.matmul_tile)
            4)
          (opcode_code Opcode.dma_load) 1)
        (opcode_code Opcode.dma_store) 1;
  vector_lanes = 32;
  tensor_cores = 4;
  dma_bandwidth = 256;
  out_of_order = false;
  warp_scheduling = true;
}

unfoldable pub make_asic_profile : TargetProfile
make_asic_profile = record {
  kind = asic;
  cycle_overrides = λ _. 0;
  vector_lanes = 16;
  tensor_cores = 1;
  dma_bandwidth = 64;
  out_of_order = false;
  warp_scheduling = false;
}

unfoldable pub make_custom_profile : ℕ → ℕ → ℕ → TargetProfile
unfolding make_asic_profile
make_custom_profile lanes cores bw = record make_asic_profile {
  vector_lanes = lanes;
  tensor_cores = cores;
  dma_bandwidth = bw;
}

unfoldable pub profile_cycle_weight : TargetProfile → Opcode → ℕ → ℕ
unfolding opcode_code cycle_weight
profile_cycle_weight prof op f =
    let ov = prof.cycle_overrides (opcode_code op) in if ov == 0 then cycle_weight op f else ov
