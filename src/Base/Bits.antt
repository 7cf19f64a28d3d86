-- ===== src/Base/Bits.antt =====
-- `|` of disjoint fields, as arithmetic, at every width.
mod Digits
pub mod Conj
use Prim.Native.Nat.{
  ℕ, zero, suc, ◌+◌, ◌*◌, ◌/◌, ◌%◌, ◌^◌, ◌≤◌, ◌<◌, max, bit_or, digits, bit_or-bitwise,
}
use mathlib.Core.Path.{◌≡◌, refl, ap, ◌∙◌}
use native.Mathlib.Nat.{le_refl, pow-suc}
use native.Mathlib.Omega.{arith}
use novium_emulator.Base.Bits.Digits.{digits-halves}

-- What no digits on the left leave of the right, and no digits on the right of the left.
or_left : (y : ℕ) → bit_or 0 y ≡ y
or_left y = bit_or-bitwise 0 y

or_right : (rounds x : ℕ) → x ≤ rounds → digits (λ y. y) max rounds x 0 ≡ x
or_right (suc rounds) (suc x) fits = omega (arith, or_right rounds (suc x / 2) (omega arith))
or_right (suc rounds) zero fits = refl
or_right zero x fits = omega arith

pub bit_or-zero : (x : ℕ) → bit_or x 0 ≡ x
bit_or-zero x = bit_or-bitwise x 0 ∙ or_right x x (le_refl x)

or_halves : (x y : ℕ) → bit_or x y ≡ bit_or (x / 2) (y / 2) * 2 + max (x % 2) (y % 2)
or_halves (suc x) y =
    let half = bit_or-bitwise (suc x / 2) (y / 2) in
    omega (arith, digits-halves (λ r. r) max x y, half, bit_or-bitwise (suc x) y)
or_halves zero y = omega (arith, or_left (y / 2), or_left y)

-- `(q << k) | r` is a sum where `r` fits `k` bits.
pub bit_or-shift : (k q r : ℕ) → r < 2 ^ k → bit_or (q * 2 ^ k) r ≡ q * 2 ^ k + r
bit_or-shift zero q r fits = ground (arith, bit_or-zero q)
bit_or-shift (suc k) q r fits =
    let doubled : q * 2 ^ suc k ≡ 2 * (q * 2 ^ k) =
      omega (arith, ap (λ (t : ℕ). q * t) (pow-suc 2 k)) in
    ground (arith, doubled, or_halves (q * 2 ^ suc k) r, bit_or-shift k q (r / 2) (omega arith))
