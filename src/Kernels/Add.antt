-- ===== src/Kernels/Add.antt =====
-- Every way in which the host adds vectors gives the sum of each lane of the operands, also where
-- the destination is an operand.
use novium_emulator.Base.{
  ℕ, zero, suc, ◌+◌, ◌*◌, leb, ltb, ◌==◌, ◌&&◌, if◌then◌else◌, ◌≡◌, refl, fun_ext, arith,
}
use novium_emulator.Config.{vec_width}
use novium_emulator.Kernels.{
  FloatOps, VectorFile, HostSimd, avx2, avx512, neon, no_simd, add_block, add_blocks,
  vec_add_scalar, vec_add_host,
}

module _ (fl : FloatOps) where
  open fl use {fadd}

  -- The lanes from `at` on of `n` blocks of `w` are sums; all else is as before.
  pub add_blocks_lanes :
      (vr : VectorFile) (d a b w n at stop r j : ℕ)
      → at + n * w ≡ stop
      → add_blocks fl vr d a b w n at r j
        ≡ (if (d == r) && (leb at j && ltb j stop) then fadd (vr a j) (vr b j) else vr r j)
  unfolding add_blocks add_block
  add_blocks_lanes vr d a b w zero at stop r j e = ground arith
  add_blocks_lanes vr d a b w (suc n) at stop r j e =
      let vr' = add_block fl vr d a b w at in
      ground (arith, add_blocks_lanes vr' d a b w n (at + w) stop r j (omega arith))

  host_lanes :
      (simd : HostSimd) (vr : VectorFile) (d a b r j : ℕ)
      → vec_add_host fl simd vr d a b r j
        ≡ (if (d == r) && ltb j vec_width then fadd (vr a j) (vr b j) else vr r j)
  unfolding vec_add_host
  host_lanes avx2 vr d a b r j = ground (arith, add_blocks_lanes vr d a b 8 2 0 16 r j refl)
  host_lanes avx512 vr d a b r j = ground (arith, add_blocks_lanes vr d a b 16 1 0 16 r j refl)
  host_lanes neon vr d a b r j = ground (arith, add_blocks_lanes vr d a b 4 4 0 16 r j refl)
  host_lanes no_simd vr d a b r j = ground (arith, add_blocks_lanes vr d a b 1 16 0 16 r j refl)

  host_scalar :
      (simd : HostSimd) (vr : VectorFile) (d a b r j : ℕ)
      → vec_add_host fl simd vr d a b r j ≡ vec_add_scalar fl vr d a b r j
  unfolding vec_add_scalar
  host_scalar simd vr d a b r j =
      ground
        (arith, host_lanes simd vr d a b r j, add_blocks_lanes vr d a b 1 vec_width 0 16 r j refl)

  -- With any vector width of the host, and with none, VEC_ADD leaves in each of the 16 lanes of the
  -- destination the sum of that lane of the operands as they were, and changes nothing else; so the
  -- accelerated and the scalar loop agree, also where registers coincide.
  pub vec_add_lanes :
      (simd : HostSimd) (vr : VectorFile) (d a b : ℕ)
      → ((r j : ℕ)
          → vec_add_host fl simd vr d a b r j
            ≡ (if (d == r) && ltb j vec_width then fadd (vr a j) (vr b j) else vr r j))
        × (vec_add_host fl simd vr d a b ≡ vec_add_scalar fl vr d a b)
  vec_add_lanes simd vr d a b =
      (host_lanes simd vr d a b, fun_ext λ r. fun_ext λ j. host_scalar simd vr d a b r j)
