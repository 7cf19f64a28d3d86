-- ===== src/Command/Lanes.antt =====
-- The matrices of src/main.cpp, of sixteen words, and their product.
use novium_emulator.Base.{ℕ, List, [], ◌∷◌, ◌≡◌, refl, ap, ◌∙◌, arith}
use novium_emulator.Kernels.{FloatOps}
use novium_emulator.Base.{zero, suc, ◌+◌}
use novium_emulator.Kernels.{matmul_tile, VectorFile}
use novium_emulator.Kernels.Matmul
use novium_emulator.Kernels.Matmul.{by_rows, matmul_tile-product}
use novium_emulator.Base.{◌*◌, ◌/◌, ◌%◌, ◌<◌}

-- Sixteen words.
abbrev pub lanes : (ℕ → ℕ) → List ℕ
lanes b =
    b 0
    ∷ b 1
    ∷ b 2
    ∷ b 3
    ∷ b 4
    ∷ b 5
    ∷ b 6
    ∷ b 7
    ∷ b 8
    ∷ b 9
    ∷ b 10
    ∷ b 11
    ∷ b 12
    ∷ b 13
    ∷ b 14
    ∷ b 15
    ∷ []

row_column : (k : ℕ) → k ≡ k / 4 * 4 + k % 4
row_column k = omega arith

cons_cong : {x y : ℕ} {xs ys : List ℕ} → x ≡ y → xs ≡ ys → ◌≡◌ {A = List ℕ} (x ∷ xs) (y ∷ ys)
cons_cong e f = cc

lanes_cong : (f g : ℕ → ℕ) → ((k : ℕ) → k < 16 → f k ≡ g k) → lanes f ≡ lanes g
lanes_cong f g h = cons_cong (h 0 (omega arith)) (
    cons_cong (h 1 (omega arith)) (
      cons_cong (h 2 (omega arith)) (
        cons_cong (h 3 (omega arith)) (
          cons_cong (h 4 (omega arith)) (
            cons_cong (h 5 (omega arith)) (
              cons_cong (h 6 (omega arith)) (
                cons_cong (h 7 (omega arith)) (
                  cons_cong (h 8 (omega arith)) (
                    cons_cong (h 9 (omega arith)) (
                      cons_cong (h 10 (omega arith)) (
                        cons_cong (h 11 (omega arith)) (
                          cons_cong (h 12 (omega arith)) (
                            cons_cong (h 13 (omega arith)) (
                              cons_cong (h 14 (omega arith))
                                (cons_cong (h 15 (omega arith)) (refl))))))))))))))))

-- An element of a matrix in its list.
abbrev pub at : List ℕ → ℕ → ℕ
at [] k = 0
at (x ∷ xs) zero = x
at (x ∷ xs) (suc k) = at xs k

module _ (fl : FloatOps) where
  -- The product of two matrices of four rows and columns, each a list row by row.
  abbrev pub product : List ℕ → List ℕ → List ℕ
  product xs ys =
      lanes λ k. Matmul.product fl 4 (by_rows 4 (at xs)) (by_rows 4 (at ys)) (k / 4) (k % 4)

  -- MATMUL_TILE leaves the product of the registers 0 and 1 in register 3.
  pub tile-product :
      (vr : VectorFile)
      → lanes (matmul_tile fl vr 3 0 1 4 3) ≡ product (lanes (vr 0)) (lanes (vr 1))
  unfolding Matmul.sum_to
  tile-product vr =
      lanes_cong (matmul_tile fl vr 3 0 1 4 3)
        (λ k. Matmul.product fl 4 (by_rows 4 (vr 0)) (by_rows 4 (vr 1)) (k / 4) (k % 4))
        λ k l.
          ap (matmul_tile fl vr 3 0 1 4 3) (row_column k)
          ∙ (matmul_tile-product fl 3 0 1 4 (λ e. omega (arith, e)) (λ e. omega (arith, e)) vr
              (k / 4) (k % 4) 16 0 (omega arith) (omega arith) (omega arith)
              (λ e. omega (arith, e))).0
