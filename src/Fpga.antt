-- ===== src/Fpga.antt =====
-- include/aiasm/fpga.h and src/fpga.cpp: the bridge to a co-emulator, which counts what it takes
-- over and what falls back. The three matrices of a call are arrays of a `VectorFile`, by number;
-- the path of the bitstream is only printed.
pub mod Laws
use novium_emulator.Base.{ℕ, ◌+◌, u8, u64, if◌then◌else◌, copy, ◌&&◌, Bool, true, false}
use novium_emulator.Kernels.{FloatOps, VectorFile, matmul_tile}

pub data FpgaBackend : Type 0 where
  no_backend pcie usb simulated : FpgaBackend

pub record FpgaConfig : Type 0 where
  pub backend : FpgaBackend
  pub device_id : ℕ
  pub fallback_to_sim : Bool

pub record FpgaCoEmulator : Type 0 where
  pub cfg : FpgaConfig
  pub connected : Bool
  pub offloaded : ℕ
  pub fallback : ℕ

unfoldable pub new_fpga : FpgaConfig → FpgaCoEmulator
new_fpga cfg = record { cfg = cfg; connected = false; offloaded = 0; fallback = 0 }

unfoldable pub configure : FpgaConfig → FpgaCoEmulator → FpgaCoEmulator
configure cfg f = record f { cfg = cfg }

-- Only the simulated device is ever there.
unfoldable pub is_available : FpgaBackend → Bool
is_available simulated = true
is_available other = false

unfoldable pub connect : FpgaCoEmulator → Bool × FpgaCoEmulator
unfolding is_available
connect f = if is_available f.cfg.backend then (true, record f { connected = true }) else (false, f)

unfoldable pub disconnect : FpgaCoEmulator → FpgaCoEmulator
disconnect f = record f { connected = false }

-- The test that both offloads begin with, negated.
unfoldable pub takes_over : FpgaCoEmulator → Bool
unfolding is_available
takes_over f = f.connected && is_available f.cfg.backend

unfoldable pub fall_back : FpgaCoEmulator → FpgaCoEmulator
fall_back f = record f { fallback = u64 (f.fallback + 1) }

unfoldable pub count_offload : FpgaCoEmulator → FpgaCoEmulator
count_offload f = record f { offloaded = u64 (f.offloaded + 1) }

-- The dimension is cut to eight bits on its way to the kernel.
unfoldable pub offload_matmul :
    FloatOps → FpgaCoEmulator → VectorFile → ℕ → ℕ → ℕ → ℕ → Bool × FpgaCoEmulator × VectorFile
unfolding takes_over fall_back count_offload
offload_matmul fl f arrays a b d n =
    if takes_over f
    then (true, count_offload f, matmul_tile fl arrays d a b (u8 n))
    else (false, fall_back f, arrays)

-- The memcpy from the bytes at `src` to those at `dst`, which the source requires not to overlap.
unfoldable pub offload_dma :
    FpgaCoEmulator → (ℕ → ℕ) → ℕ → (ℕ → ℕ) → ℕ → ℕ → Bool × FpgaCoEmulator × (ℕ → ℕ)
unfolding takes_over fall_back count_offload
offload_dma f from src to dst bytes =
    if takes_over f
    then (true, count_offload f, copy to dst from src bytes)
    else (false, fall_back f, to)
