-- ===== src/Fpga/Laws.antt =====
-- What a caller of the bridge gets.
use novium_emulator.Base.{
  ℕ, ◌+◌, ◌%◌, ◌<◌, ◌≤◌, ◌^◌, u8, if◌then◌else◌, Bool, true, false, ◌≡◌, refl, arith, List, [], ◌∷◌,
  length,
}
use novium_emulator.Kernels.{FloatOps, VectorFile, matmul_tile, rows_from}
use novium_emulator.Fpga.{
  FpgaConfig, FpgaCoEmulator, configure, connect, disconnect, takes_over, count_offload,
  offload_matmul, offload_dma,
}

-- A dimension that is a multiple of 256 reaches the kernel as zero: the bridge reports the product
-- as done, and no array has changed.
pub offload_matmul_cut :
    (fl : FloatOps) (f : FpgaCoEmulator) (arrays : VectorFile) (a b d n : ℕ)
    → takes_over f ≡ true
    → n % 256 ≡ 0
    → offload_matmul fl f arrays a b d n ≡ (true, count_offload f, arrays)
unfolding offload_matmul matmul_tile rows_from
offload_matmul_cut fl f arrays a b d n there e = let w : u8 n ≡ 0 = e in rw there (rw w refl)

-- The calls of a client.
pub data FpgaCall : Type 0 where
  connecting disconnecting : FpgaCall
  configuring : FpgaConfig → FpgaCall
  multiplying : VectorFile → ℕ → ℕ → ℕ → ℕ → FpgaCall
  copying : (ℕ → ℕ) → ℕ → (ℕ → ℕ) → ℕ → ℕ → FpgaCall

unfoldable pub is_offload : FpgaCall → Bool
is_offload connecting = false
is_offload disconnecting = false
is_offload (configuring cfg) = false
is_offload (multiplying arrays a b d n) = true
is_offload (copying from src to dst bytes) = true

module _ (fl : FloatOps) where
  unfoldable pub after : FpgaCall → FpgaCoEmulator → FpgaCoEmulator
  unfolding connect disconnect configure offload_matmul offload_dma
  after connecting f = (connect f).1
  after disconnecting f = disconnect f
  after (configuring cfg) f = configure cfg f
  after (multiplying arrays a b d n) f = (offload_matmul fl f arrays a b d n).1
  after (copying from src to dst bytes) f = (offload_dma f from src to dst bytes).1

  -- The co-emulator after some calls, and the offloads among them.
  unfoldable pub after_all : FpgaCoEmulator → List FpgaCall → FpgaCoEmulator
  after_all f [] = f
  after_all f (c ∷ cs) = after_all (after c f) cs

  unfoldable pub offloads : List FpgaCall → ℕ
  offloads [] = 0
  offloads (c ∷ cs) = (if is_offload c then 1 else 0) + offloads cs

  after-count :
      (c : FpgaCall) (f : FpgaCoEmulator)
      → f.offloaded + f.fallback + 1 < 2 ^ 64
      → (after c f).offloaded + (after c f).fallback
        ≡ (if is_offload c then 1 else 0) + (f.offloaded + f.fallback)
  unfolding after is_offload
  after-count connecting f fits = ground arith
  after-count disconnecting f fits = ground arith
  after-count (configuring cfg) f fits = ground arith
  after-count (multiplying arrays a b d n) f fits = ground arith
  after-count (copying from src to dst bytes) f fits = ground arith

  -- Whatever calls a client makes, connecting, disconnecting and changing the configuration
  -- included, every offload is counted exactly once, as taken over or as a fallback, as long as the
  -- counts fit 64 bits.
  pub after_all-counts :
      (f : FpgaCoEmulator) (cs : List FpgaCall)
      → f.offloaded + f.fallback + length cs < 2 ^ 64
      → (after_all f cs).offloaded + (after_all f cs).fallback
        ≡ offloads cs + (f.offloaded + f.fallback)
  unfolding after_all offloads
  after_all-counts f [] fits = omega arith
  after_all-counts f (c ∷ cs) fits =
      let one = after-count c f (omega arith) in
      let small : (if is_offload c then 1 else 0) ≤ 1 = ground arith in
      omega (arith, one, small, after_all-counts (after c f) cs (omega (arith, one, small)))
