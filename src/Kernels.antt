-- ===== src/Kernels.antt =====
-- include/aiasm/host.h and the scalar loops of src/emulator.cpp: VEC_ADD and MATMUL_TILE over the
-- vector registers. A float is its 32-bit pattern. The float addition and multiplication of the
-- host are parameters, used in the order in which the source uses them. The destination may be
-- one of the operands: the loops work in place.
pub mod Add
pub mod Matmul
use novium_emulator.Base.{ℕ, zero, suc, ◌+◌, ◌*◌, leb, ltb, ◌&&◌, if◌then◌else◌, update}
use novium_emulator.Config.{vec_width}

pub record FloatOps : Type 0 where
  pub fadd : ℕ → ℕ → ℕ
  pub fmul : ℕ → ℕ → ℕ

-- The vector registers, by register and lane.
abbrev pub VectorFile : Type 0
VectorFile = ℕ → ℕ → ℕ

-- The lanes of one instruction on the host: 8 with AVX2, 16 with AVX-512, 4 with NEON, else 1.
pub data HostSimd : Type 0 where
  avx2 avx512 neon no_simd : HostSimd

module _ (fl : FloatOps) where
  open fl use {fadd, fmul}

  -- One vector instruction of the host: load lanes [at, at + w) of both operands, add, store.
  unfoldable pub add_block : VectorFile → ℕ → ℕ → ℕ → ℕ → ℕ → VectorFile
  add_block vr d a b w at =
      update vr d λ j. if leb at j && ltb j (at + w) then fadd (vr a j) (vr b j) else vr d j

  -- `n` such instructions in a row, from lane `at` on.
  unfoldable pub add_blocks : VectorFile → ℕ → ℕ → ℕ → ℕ → ℕ → ℕ → VectorFile
  unfolding add_block
  add_blocks vr d a b w zero at = vr
  add_blocks vr d a b w (suc n) at = add_blocks (add_block vr d a b w at) d a b w n (at + w)

  -- The scalar loop: one lane at a time.
  unfoldable pub vec_add_scalar : VectorFile → ℕ → ℕ → ℕ → VectorFile
  unfolding add_blocks
  vec_add_scalar vr d a b = add_blocks vr d a b 1 vec_width 0

  unfoldable pub vec_add_host : HostSimd → VectorFile → ℕ → ℕ → ℕ → VectorFile
  unfolding add_blocks
  vec_add_host avx2 vr d a b = add_blocks vr d a b 8 2 0
  vec_add_host avx512 vr d a b = add_blocks vr d a b 16 1 0
  vec_add_host neon vr d a b = add_blocks vr d a b 4 4 0
  vec_add_host no_simd vr d a b = add_blocks vr d a b 1 16 0

  -- The loop over k: sum += a[i * n + k] * b[k * n + j].
  unfoldable pub dot_from : VectorFile → ℕ → ℕ → ℕ → ℕ → ℕ → ℕ → ℕ → ℕ → ℕ
  dot_from vr a b n i j zero k sum = sum
  dot_from vr a b n i j (suc left) k sum =
      dot_from vr a b n i j left (k + 1) (fadd sum (fmul (vr a (i * n + k)) (vr b (k * n + j))))

  -- The loop over j: d[i * n + j] = sum.
  unfoldable pub row_from : VectorFile → ℕ → ℕ → ℕ → ℕ → ℕ → ℕ → ℕ → VectorFile
  unfolding dot_from
  row_from vr d a b n i zero j = vr
  row_from vr d a b n i (suc left) j =
      row_from (update vr d (update (vr d) (i * n + j) (dot_from vr a b n i j n 0 0))) d a b n i
        left (j + 1)

  -- The loop over i.
  unfoldable pub rows_from : VectorFile → ℕ → ℕ → ℕ → ℕ → ℕ → ℕ → VectorFile
  unfolding row_from
  rows_from vr d a b n zero i = vr
  rows_from vr d a b n (suc left) i = rows_from (row_from vr d a b n i n 0) d a b n left (i + 1)

  -- `matmul_tile_host`, on both of its paths, and the loop of the interpreter.
  unfoldable pub matmul_tile : VectorFile → ℕ → ℕ → ℕ → ℕ → VectorFile
  unfolding rows_from
  matmul_tile vr d a b n = rows_from vr d a b n n 0
