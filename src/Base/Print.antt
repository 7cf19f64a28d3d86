-- ===== src/Base/Print.antt =====
-- The formats of printf that the code uses: text, %d of an int given by its 32-bit pattern, and %08X.
use Prim.Native.Nat.{ℕ, zero, suc, ◌+◌, ◌-◌, ◌/◌, ◌%◌, ◌≤◌, ◌<◌}
use mathlib.Core.List.{List, [], ◌∷◌, ◌++◌}
use mathlib.Core.Path.{◌≡◌, refl, ap}
use native.Mathlib.Omega.{arith}
use novium_emulator.Base.Tests.{ltb, if◌then◌else◌}
use novium_emulator.Base.Lists.{length, length-append}
use novium_emulator.Base.Window.{take}
use novium_emulator.Base.Text.{Text}

pub data Piece : Type 0 where
  text : Text → Piece
  int hex8 : ℕ → Piece

-- The last `f` decimal digits of a number, without leading zeros.
unfoldable pub decimal_from : ℕ → ℕ → Text
decimal_from zero n = []
decimal_from (suc f) n =
    let rest = decimal_from f (n / 10) in
    if ltb n 10 then (b'0' + n) ∷ [] else rest ++ ((b'0' + n % 10) ∷ [])

-- An int of 32 bits has ten digits at most.
unfoldable pub decimal : ℕ → Text
unfolding decimal_from
decimal n = if ltb n 0x80000000 then decimal_from 10 n else b'-' ∷ decimal_from 10 (0x100000000 - n)

unfoldable pub hex_digit : ℕ → ℕ
hex_digit d = if ltb d 10 then b'0' + d else b'A' + (d - 10)

-- The last `k` hexadecimal digits.
unfoldable pub hex_from : ℕ → ℕ → Text
unfolding hex_digit
hex_from zero n = []
hex_from (suc k) n = hex_from k (n / 16) ++ (hex_digit (n % 16) ∷ [])

unfoldable pub print : Piece → Text
unfolding decimal hex_from
print (text t) = t
print (int n) = decimal n
print (hex8 n) = hex_from 8 n

unfoldable pub render : List Piece → Text
unfolding print
render [] = []
render (p ∷ ps) = print p ++ render ps

-- snprintf into a buffer of `size` bytes, the last of which is for the end of the string.
unfoldable pub snprintf : ℕ → List Piece → Text
unfolding render
snprintf size ps = take (size - 1) (render ps)

-- The number of characters that a piece may take.
unfoldable pub width : Piece → ℕ
width (text t) = length t
width (int n) = 11
width (hex8 n) = 8

unfoldable pub widths : List Piece → ℕ
unfolding width
widths [] = 0
widths (p ∷ ps) = width p + widths ps

length-decimal_from : (f n : ℕ) → length (decimal_from f n) ≤ f
unfolding decimal_from
length-decimal_from zero n = omega arith
length-decimal_from (suc f) n = ground (
  arith,
  length-decimal_from f (n / 10),
  length-append (decimal_from f (n / 10)) ((b'0' + n % 10) ∷ []),
)

length-hex_from : (k n : ℕ) → length (hex_from k n) ≡ k
unfolding hex_from
length-hex_from zero n = refl
length-hex_from (suc k) n = omega (
  arith,
  length-hex_from k (n / 16),
  length-append (hex_from k (n / 16)) (hex_digit (n % 16) ∷ []),
)

length-print : (p : Piece) → length (print p) ≤ width p
unfolding print width decimal
length-print (text t) = omega arith
length-print (int n) =
    ground (arith, length-decimal_from 10 n, length-decimal_from 10 (0x100000000 - n))
length-print (hex8 n) = omega (arith, length-hex_from 8 n)

pub length-render : (ps : List Piece) → length (render ps) ≤ widths ps
unfolding render widths
length-render [] = omega arith
length-render (p ∷ ps) =
    omega (arith, length-append (print p) (render ps), length-print p, length-render ps)

take_whole : (n : ℕ) (xs : Text) → length xs ≤ n → take n xs ≡ xs
take_whole zero [] l = refl
take_whole (suc n) [] l = refl
take_whole zero (x ∷ xs) l = absurd (omega arith)
take_whole (suc n) (x ∷ xs) l = ap (λ ys. x ∷ ys) (take_whole n xs (omega arith))

-- A text that is shorter than the buffer is not cut.
pub snprintf-render : (size : ℕ) (ps : List Piece) → widths ps < size → snprintf size ps ≡ render ps
unfolding snprintf
snprintf-render size ps l = take_whole (size - 1) (render ps) (omega (arith, length-render ps))
