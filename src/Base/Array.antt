-- ===== src/Base/Array.antt =====
-- Arrays of C as functions of the index; the length stands beside them where a bound is tested.
use Prim.Native.Nat.{ℕ, zero, suc, ◌+◌, ◌-◌, ◌≤◌, ◌<◌}
use mathlib.Core.Path.{◌≡◌, refl, ap, ap₂, ◌∙◌, subst, subst₂}
use mathlib.Core.Logic.{◌⊎◌}
use mathlib.Core.Bool.{◌&&◌}
use mathlib.Core.List.{List, [], ◌∷◌}
use native.Mathlib.Nat.{add-zero}
use native.Mathlib.Omega.{arith}
use novium_emulator.Base.Tests.{ltb, leb, ◌==◌, if◌then◌else◌}
use novium_emulator.Base.Lists.{length, get_or, get_or_default}

module _ {ℓ} {A : Type ℓ} where
  -- a[i] = v
  abbrev pub update : (ℕ → A) → ℕ → A → ℕ → A
  update a i v j = if i == j then v else a j

  -- memcpy of a buffer to `a + at`.
  abbrev pub blit : (ℕ → A) → ℕ → List A → ℕ → A
  blit a at src j = if leb at j && ltb j (at + length src) then get_or src (j - at) (a j) else a j

  -- memcpy of `n` elements from `b + from` to `a + at`.
  abbrev pub copy : (ℕ → A) → ℕ → (ℕ → A) → ℕ → ℕ → ℕ → A
  copy a at b from n j = if leb at j && ltb j (at + n) then b (from + (j - at)) else a j

  -- The `n` elements of `a` from index `at` on.
  abbrev pub slice : (ℕ → A) → ℕ → ℕ → List A
  slice a at zero = []
  slice a at (suc n) = a at ∷ slice a (at + 1) n

  -- `blit` within the buffer's range and outside it.
  pub blit_in :
      (a : ℕ → A) (at : ℕ) (src : List A) (k : ℕ)
      → k < length src
      → blit a at src (at + k) ≡ get_or src k (a (at + k))
  blit_in a at src k h =
      let e : at + k - at ≡ k = omega arith in
      ground (arith, ap (λ (i : ℕ). get_or src i (a (at + k))) e)

  pub blit_out :
      (a : ℕ → A) (at : ℕ) (src : List A) (j : ℕ)
      → (j < at) ⊎ (at + length src ≤ j)
      → blit a at src j ≡ a j
  blit_out a at src j h = ground arith

  pub copy_in :
      (a : ℕ → A) (at : ℕ) (b : ℕ → A) (from n k : ℕ)
      → k < n
      → copy a at b from n (at + k) ≡ b (from + k)
  copy_in a at b from n k h =
      let e : at + k - at ≡ k = omega arith in ground (arith, ap (λ (i : ℕ). b (from + i)) e)

  pub copy_out :
      (a : ℕ → A) (at : ℕ) (b : ℕ → A) (from n j : ℕ)
      → (j < at) ⊎ (at + n ≤ j)
      → copy a at b from n j ≡ a j
  copy_out a at b from n j h = ground arith

  pub length-slice : (a : ℕ → A) (at n : ℕ) → length (slice a at n) ≡ n
  length-slice a at zero = refl
  length-slice a at (suc n) = ap suc (length-slice a (at + 1) n)

  -- A slice is determined by its elements.
  pub slice_of_elements :
      (a : ℕ → A) (at : ℕ) (xs : List A)
      → ((k : ℕ) → k < length xs → a (at + k) ≡ get_or xs k (a (at + k)))
      → slice a at (length xs) ≡ xs
  slice_of_elements a at [] h = refl
  slice_of_elements a at (x ∷ xs) h =
      ap₂ ◌∷◌ (subst (λ i. a i ≡ x) (add-zero at) (h 0 (omega arith))) (
        slice_of_elements a (at + 1) xs λ k p.
          let e : at + suc k ≡ at + 1 + k = omega arith in
          subst (λ i. a i ≡ get_or xs k (a i)) e (h (suc k) (omega arith)))

  pub slice_cong :
      (a b : ℕ → A) (i j n : ℕ)
      → ((k : ℕ) → k < n → a (i + k) ≡ b (j + k))
      → slice a i n ≡ slice b j n
  slice_cong a b i j zero h = refl
  slice_cong a b i j (suc n) h =
      ap₂ ◌∷◌ (subst₂ (λ p q. a p ≡ b q) (add-zero i) (add-zero j) (h 0 (omega arith))) (
        slice_cong a b (i + 1) (j + 1) n λ k p.
          let e : i + suc k ≡ i + 1 + k = omega arith in
          let f : j + suc k ≡ j + 1 + k = omega arith in
          subst₂ (λ p q. a p ≡ b q) e f (h (suc k) (omega arith)))

  -- A block that is written reads back, and a copied block is the source block.
  pub slice-blit : (a : ℕ → A) (at : ℕ) (src : List A) → slice (blit a at src) at (length src) ≡ src
  slice-blit a at src =
      slice_of_elements (blit a at src) at src
        λ k p. blit_in a at src k p ∙ get_or_default src k (a (at + k)) (blit a at src (at + k)) p

  pub slice-copy :
      (a : ℕ → A) (at : ℕ) (b : ℕ → A) (from n : ℕ)
      → slice (copy a at b from n) at n ≡ slice b from n
  slice-copy a at b from n =
      slice_cong (copy a at b from n) b at from n (λ k p. copy_in a at b from n k p)
