-- ===== src/Base/Bits/Conj.antt =====
-- A bit that two words share makes their conjunction non-zero.
use Prim.Native.Nat.{ℕ, zero, suc, ◌+◌, ◌*◌, ◌/◌, ◌%◌, ◌^◌, min, bit_and, bit_and-bitwise}
use mathlib.Core.Path.{◌≡◌, ap}
use mathlib.Core.Logic.{◌≢◌}
use native.Mathlib.Nat.{pow-suc, div-div-eq-div-mul}
use native.Mathlib.Omega.{arith}
use novium_emulator.Base.Bits.Digits.{digits-halves}

and_left : (y : ℕ) → bit_and 0 y ≡ 0
and_left y = bit_and-bitwise 0 y

and_halves : (x y : ℕ) → bit_and x y ≡ bit_and (x / 2) (y / 2) * 2 + min (x % 2) (y % 2)
and_halves (suc x) y =
    let half = bit_and-bitwise (suc x / 2) (y / 2) in
    omega (arith, digits-halves (λ r. zero) min x y, half, bit_and-bitwise (suc x) y)
and_halves zero y = omega (arith, and_left (y / 2), and_left y)

div-pow-suc : (a k : ℕ) → a / 2 ^ suc k ≡ a / 2 / 2 ^ k
div-pow-suc a k = rw (pow-suc 2 k, div-div-eq-div-mul) (ap (λ (t : ℕ). a / t) (omega arith))

pub bit_and-ne-zero : (k a b : ℕ) → a / 2 ^ k % 2 ≡ 1 → b / 2 ^ k % 2 ≡ 1 → bit_and a b ≢ 0
bit_and-ne-zero zero a b p q e = omega (arith, and_halves a b)
bit_and-ne-zero (suc k) a b p q e =
    bit_and-ne-zero k (a / 2) (b / 2) (rw (← div-pow-suc a k) p) (rw (← div-pow-suc b k) q)
      (omega (arith, and_halves a b))
