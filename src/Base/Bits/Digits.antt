-- ===== src/Base/Bits/Digits.antt =====
-- The recursion on binary digits behind `|` and `&`: rounds after the last digit change nothing.
use Prim.Native.Nat.{ℕ, zero, suc, ◌+◌, ◌-◌, ◌*◌, ◌/◌, ◌%◌, ◌≤◌, digits}
use mathlib.Core.Path.{◌≡◌, refl, ap, ◌∙◌}
use native.Mathlib.Omega.{arith}

module _ (last : ℕ → ℕ) (op : ℕ → ℕ → ℕ) where
  one_more :
      (rounds x y : ℕ) → x ≤ rounds → digits last op (suc rounds) x y ≡ digits last op rounds x y
  one_more (suc rounds) (suc x) y fits =
      ap (λ (t : ℕ). t * 2 + op (suc x % 2) (y % 2))
        (one_more rounds (suc x / 2) (y / 2) (omega arith))
  one_more (suc rounds) zero y fits = refl
  one_more zero (suc x) y fits = absurd (omega arith)
  one_more zero zero y fits = refl

  many_more :
      (extra rounds total x y : ℕ)
      → extra + rounds ≡ total
      → x ≤ rounds
      → digits last op total x y ≡ digits last op rounds x y
  many_more zero rounds total x y sum fits =
      ap (λ (r : ℕ). digits last op r x y) (omega (arith, sum))
  many_more (suc extra) rounds zero x y sum fits = absurd (omega (arith, sum))
  many_more (suc extra) rounds (suc total) x y sum fits =
      one_more total x y (omega (arith, sum, fits))
      ∙ many_more extra rounds total x y (omega (arith, sum)) fits

  -- The lowest digit of a number that is not zero, and its half.
  pub digits-halves :
      (x y : ℕ)
      → let half = suc x / 2 in
        digits last op (suc x) (suc x) y
        ≡ digits last op half half (y / 2) * 2 + op (suc x % 2) (y % 2)
  digits-halves x y =
      let half = suc x / 2 in
      ap (λ (t : ℕ). t * 2 + op (suc x % 2) (y % 2))
        (many_more (x - half) half x half (y / 2) (omega arith) (omega arith))
