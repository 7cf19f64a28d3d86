-- ===== src/Emulator/Tensor/Tile.antt =====
-- The execution of a MATMUL_TILE.
use novium_emulator.Base.{◌==◌, ℕ, true, false, Option, none, some, ◌≡◌, refl, ap, ◌∙◌}
use novium_emulator.Emulator.Tensor.{op_matmul_tile}
use novium_emulator.Emulator.Step.{handler, account, execute}
use novium_emulator.Isa.{opcode_of}
use novium_emulator.Kernels.{FloatOps, HostSimd}
use novium_emulator.Emulator.Fast.Runs.{if_on}
use novium_emulator.Emulator.Basics.{modify}
use novium_emulator.Emulator.Step.{illegal}
use novium_emulator.Emulator.{
  M, pure, ◌>>=◌, ◌>>◌, Machine, Outcome, done, threw, undefined_behaviour,
}
use novium_emulator.Kernels.{matmul_tile}
use novium_emulator.Emulator.Fast.Runs.{if_off}
use novium_emulator.Target.{profile_cycle_weight}
use novium_emulator.Base.{low_bits, ltb, ◌||◌}
use novium_emulator.Isa.{Opcode, opcode, rd, ra, rb, func}
use novium_emulator.Emulator.Tensor.{with_vr, run_tile, vr_pointer, target_weight}

-- `k` after an outcome.
abbrev carry : M ℕ → Outcome (Unit {0}) → Outcome ℕ
carry k o = elim o [
  | done _ m ↦ k m
  | threw e m ↦ threw e m
  | undefined_behaviour ↦ undefined_behaviour
]

pointed : (i : ℕ) (m : Machine) → ltb i 8 ≡ true → vr_pointer i m ≡ done tt m
unfolding vr_pointer
pointed i m e = if_on _ _ (ltb i 8) e

seq : (c : M (Unit {0})) (k : M ℕ) (m : Machine) → c m ≡ done tt m → (c >> k) m ≡ k m
seq c k m e = ap (λ (o : Outcome (Unit {0})). carry k o) e

pub tile_size : {n : ℕ} → n ≡ 4 → (n == 0 || ltb 4 n) ≡ false
tile_size e = rw e refl

pub below : {i k : ℕ} → i ≡ k → ltb k 8 ≡ true → ltb i 8 ≡ true
below e l = rw e l

module _ (fl : FloatOps) (simd : HostSimd) where
  abbrev counted : ℕ → Outcome ℕ → Outcome ℕ
  counted w o = elim o [
    | done cycles m ↦ done cycles (account fl simd Opcode.matmul_tile w cycles m)
    | threw e m ↦ threw e m
    | undefined_behaviour ↦ undefined_behaviour
  ]

  tile_run :
      (w n : ℕ) (m : Machine)
      → ltb (rd w) 8 ≡ true
      → ltb (ra w) 8 ≡ true
      → ltb (rb w) 8 ≡ true
      → run_tile fl simd w n m
        ≡ done
            (profile_cycle_weight m.target Opcode.matmul_tile n)
            (with_vr m (matmul_tile fl m.regs.vr (rd w) (ra w) (rb w) n))
  unfolding run_tile target_weight
  tile_run w n m d a b =
      let k : M ℕ =
        modify (λ x. with_vr x (matmul_tile fl x.regs.vr (rd w) (ra w) (rb w) n))
        >> target_weight Opcode.matmul_tile n in
      seq (vr_pointer (rd w)) (vr_pointer (ra w) >> (vr_pointer (rb w) >> k)) m (pointed (rd w) m d)
      ∙ seq (vr_pointer (ra w)) (vr_pointer (rb w) >> k) m (pointed (ra w) m a)
      ∙ seq (vr_pointer (rb w)) k m (pointed (rb w) m b)

  -- A MATMUL_TILE on existing registers of a dimension up to four.
  pub tile_execute :
      (w : ℕ) (m : Machine)
      → opcode_of (opcode w) ≡ some Opcode.matmul_tile
      → (low_bits (func w) 4 == 0 || ltb 4 (low_bits (func w) 4)) ≡ false
      → ltb (rd w) 8 ≡ true
      → ltb (ra w) 8 ≡ true
      → ltb (rb w) 8 ≡ true
      → let n = low_bits (func w) 4 in
        let c = profile_cycle_weight m.target Opcode.matmul_tile n in
        execute fl simd w m
        ≡ done c (
            account fl simd Opcode.matmul_tile w c
              (with_vr m (matmul_tile fl m.regs.vr (rd w) (ra w) (rb w) n)))
  unfolding execute handler op_matmul_tile
  tile_execute w m e n d a b =
      ap
        (λ (o : Option Opcode).
          let c : M ℕ = elim o [
            | none ↦ illegal fl simd w
            | some op ↦ handler fl simd op w >>= λ cycles.
                modify (account fl simd op w cycles) >> pure cycles
          ] in
          c m)
        e
      ∙ ap
          (λ (c : M ℕ).
            (c >>= λ cycles. modify (account fl simd Opcode.matmul_tile w cycles) >> pure cycles) m)
          (if_off _ _ (low_bits (func w) 4 == 0 || ltb 4 (low_bits (func w) 4)) n)
      ∙ ap (λ (o : Outcome ℕ). counted w o) (tile_run w (low_bits (func w) 4) m d a b)
