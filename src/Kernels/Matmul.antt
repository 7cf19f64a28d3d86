-- ===== src/Kernels/Matmul.antt =====
-- The in-place loops of MATMUL_TILE against the matrix product, where the destination is not an
-- operand.
use novium_emulator.Base.{
  ℕ, zero, suc, ◌+◌, ◌*◌, ◌≤◌, ◌<◌, ◌≡◌, ◌≢◌, refl, ◌∙◌, arith, update, ap, ◌⊎◌, inl, inr,
}
use native.Mathlib.Decide.{dec_lt}
use native.Mathlib.Numerals.{unary_clauses}
use novium_emulator.Kernels.{FloatOps, VectorFile, dot_from, row_from, rows_from, matmul_tile}

-- A matrix by row and column.
abbrev pub Matrix : Type 0
Matrix = ℕ → ℕ → ℕ

-- The matrix of `n` columns that a register holds row by row.
abbrev pub by_rows : ℕ → (ℕ → ℕ) → Matrix
by_rows n lane i j = lane (i * n + j)

module _ (fl : FloatOps) where
  open fl use {fadd, fmul}

  -- `f 0`, …, `f (n - 1)`, added to zero from the left.
  unfoldable pub sum_to : ℕ → (ℕ → ℕ) → ℕ
  sum_to zero f = 0
  sum_to (suc n) f = fadd (sum_to n f) (f n)

  -- Term `k` of row `i` of `x` times column `j` of `y`.
  abbrev term : Matrix → Matrix → ℕ → ℕ → ℕ → ℕ
  term x y i j k = fmul (x i k) (y k j)

  -- The product of two matrices of `n` rows and columns.
  abbrev pub product : ℕ → Matrix → Matrix → Matrix
  product n x y i j = sum_to n (term x y i j)

  -- The inner loop from its start.
  abbrev dot : VectorFile → ℕ → ℕ → ℕ → ℕ → ℕ → ℕ
  dot vr a b n i j = dot_from fl vr a b n i j n 0 0

  -- The loop over k adds the terms from `k` on to the sum of those before.
  dot_from-sum_to :
      (vr : VectorFile) (a b n i j left k stop : ℕ)
      → k + left ≡ stop
      → let f = term (by_rows n (vr a)) (by_rows n (vr b)) i j in
        dot_from fl vr a b n i j left k (sum_to k f) ≡ sum_to stop f
  unfolding dot_from sum_to
  dot_from-sum_to vr a b n i j zero k stop e =
      ap (λ t. sum_to t (term (by_rows n (vr a)) (by_rows n (vr b)) i j)) (omega arith)
  dot_from-sum_to vr a b n i j (suc left) k stop e =
      simp unary_clauses (dot_from-sum_to vr a b n i j left (suc k) stop (omega arith))

  dot-product :
      (vr : VectorFile) (a b n i j : ℕ)
      → dot vr a b n i j ≡ product n (by_rows n (vr a)) (by_rows n (vr b)) i j
  unfolding sum_to
  dot-product vr a b n i j = dot_from-sum_to vr a b n i j n 0 n (omega arith)

  dot_cong :
      (vr vr' : VectorFile) (a b n i j left k sum : ℕ)
      → vr a ≡ vr' a
      → vr b ≡ vr' b
      → dot_from fl vr a b n i j left k sum ≡ dot_from fl vr' a b n i j left k sum
  unfolding dot_from
  dot_cong vr vr' a b n i j zero k sum p q = refl
  dot_cong vr vr' a b n i j (suc left) k sum p q =
      rw (p, q) (dot_cong vr vr' a b n i j left (k + 1) _ p q)

  module _ (d a b n : ℕ) (apart_a : d ≢ a) (apart_b : d ≢ b) where
    -- The registers after one store of the inner loop.
    abbrev stored : VectorFile → ℕ → ℕ → VectorFile
    stored vr i j = update vr d (update (vr d) (i * n + j) (dot vr a b n i j))

    stored_apart : (vr : VectorFile) (i j r : ℕ) → d ≢ r → stored vr i j r ≡ vr r
    stored_apart vr i j r ne = ground arith

    -- The loops write the destination only.
    row_apart :
        (vr : VectorFile) (i left j r : ℕ) → d ≢ r → row_from fl vr d a b n i left j r ≡ vr r
    unfolding row_from
    row_apart vr i zero j r ne = refl
    row_apart vr i (suc left) j r ne = ground (arith, row_apart (stored vr i j) i left (j + 1) r ne)

    rows_apart : (vr : VectorFile) (left i r : ℕ) → d ≢ r → rows_from fl vr d a b n left i r ≡ vr r
    unfolding rows_from
    rows_apart vr zero i r ne = refl
    rows_apart vr (suc left) i r ne =
        rows_apart (row_from fl vr d a b n i n 0) left (i + 1) r ne ∙ row_apart vr i n 0 r ne

    -- Lanes that a row does not reach are as before.
    row_outside :
        (vr : VectorFile) (i left j stop l : ℕ)
        → j + left ≡ stop
        → (l < i * n + j) ⊎ (i * n + stop ≤ l)
        → row_from fl vr d a b n i left j d l ≡ vr d l
    unfolding row_from
    row_outside vr i zero j stop l e out = refl
    row_outside vr i (suc left) j stop l e out =
        ground (arith, row_outside (stored vr i j) i left (j + 1) stop l (omega arith))

    -- A row holds the products with each column.
    row_inside :
        (vr : VectorFile) (i left j stop q : ℕ)
        → j + left ≡ stop
        → j ≤ q
        → q < stop
        → row_from fl vr d a b n i left j d (i * n + q) ≡ dot vr a b n i q
    unfolding row_from
    row_inside vr i zero j stop q e lo hi = absurd (omega arith)
    row_inside vr i (suc left) j stop q e lo hi = elim (dec_lt j q) [
      | yes later ↦
          row_inside (stored vr i j) i left (j + 1) stop q (omega arith) (omega arith) hi
          ∙ dot_cong (stored vr i j) vr a b n i q n 0 0 (stored_apart vr i j a apart_a)
              (stored_apart vr i j b apart_b)
      | no here ↦
          let e' : j ≡ q = omega arith in
          row_outside (stored vr i j) i left (j + 1) stop (i * n + q) (omega arith)
            (inl (omega arith))
          ∙ ground (arith, ap (dot vr a b n i) e')
    ]

    rows_outside :
        (vr : VectorFile) (left i stop l : ℕ)
        → i + left ≡ stop
        → (l < i * n) ⊎ (stop * n ≤ l)
        → rows_from fl vr d a b n left i d l ≡ vr d l
    unfolding rows_from
    rows_outside vr zero i stop l e out = refl
    rows_outside vr (suc left) i stop l e out =
        rows_outside (row_from fl vr d a b n i n 0) left (i + 1) stop l (omega arith)
          (omega (arith, ap (λ (t : ℕ). t * n) e))
        ∙ row_outside vr i n 0 n l (omega arith) (omega (arith, ap (λ (t : ℕ). t * n) e))

    rows_inside :
        (vr : VectorFile) (left i stop p q : ℕ)
        → i + left ≡ stop
        → i ≤ p
        → p < stop
        → q < n
        → rows_from fl vr d a b n left i d (p * n + q) ≡ dot vr a b n p q
    unfolding rows_from
    rows_inside vr zero i stop p q e lo hi hq = absurd (omega arith)
    rows_inside vr (suc left) i stop p q e lo hi hq = elim (dec_lt i p) [
      | yes later ↦
          rows_inside (row_from fl vr d a b n i n 0) left (i + 1) stop p q (omega arith)
            (omega arith) hi hq
          ∙ dot_cong (row_from fl vr d a b n i n 0) vr a b n p q n 0 0
              (row_apart vr i n 0 a apart_a) (row_apart vr i n 0 b apart_b)
      | no here ↦
          let e' : i ≡ p = omega arith in
          rows_outside (row_from fl vr d a b n i n 0) left (i + 1) stop (p * n + q) (omega arith)
            (inl (omega (arith, ap (λ (t : ℕ). t * n) e')))
          ∙ rw (← e') (row_inside vr i n 0 n q (omega arith) (omega arith) hq)
    ]

    -- Where the destination is neither operand, the destination holds row by row the product of the
    -- matrices that the operands held row by row: element (p, q) is the sum over k, from the left and
    -- from zero, of a[p, k] · b[k, q]. The lanes of the destination from `n * n` on and all other
    -- registers are as before.
    pub matmul_tile-product :
        (vr : VectorFile) (p q l r : ℕ)
        → p < n
        → q < n
        → n * n ≤ l
        → d ≢ r
        → (matmul_tile fl vr d a b n d (p * n + q)
            ≡ product n (by_rows n (vr a)) (by_rows n (vr b)) p q)
          × (matmul_tile fl vr d a b n d l ≡ vr d l)
          × (matmul_tile fl vr d a b n r ≡ vr r)
    unfolding matmul_tile
    matmul_tile-product vr p q l r hp hq out ne = (
      rows_inside vr n 0 n p q (omega arith) (omega arith) hp hq ∙ dot-product vr a b n p q,
      rows_outside vr n 0 n l (omega arith) (inr out),
      rows_apart vr n 0 r ne,
    )
