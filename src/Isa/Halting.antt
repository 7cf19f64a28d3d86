-- ===== src/Isa/Halting.antt =====
-- The HALT at the end of a program, which the front ends add where it is missing: the lines
-- `if (program.empty() || (program.back() >> OPCODE_SHIFT) != HALT) program.push_back(halt())`.
use novium_emulator.Base.{
  ℕ, ◌+◌, ◌≤◌, ◌≡◌, refl, arith, ◌>>>◌, ◌==◌, if◌then◌else◌, length, length-append, Bool, true,
  false, if_split, List, [], ◌∷◌, ◌++◌,
}
use novium_emulator.Isa.{Opcode, opcode_code}
use novium_emulator.Isa.Enc

unfoldable pub ends_in_halt : List ℕ → Bool
unfolding opcode_code
ends_in_halt [] = false
ends_in_halt (w ∷ []) = w >>> 26 == opcode_code Opcode.halt
ends_in_halt (w ∷ v ∷ ws) = ends_in_halt (v ∷ ws)

unfoldable pub ensure_halt : List ℕ → List ℕ
unfolding ends_in_halt Enc.halt
ensure_halt ws = if ends_in_halt ws then ws else ws ++ (Enc.halt ∷ [])

ends_in_halt-append : (ws : List ℕ) → ends_in_halt (ws ++ (Enc.halt ∷ [])) ≡ true
unfolding ends_in_halt Enc.halt
ends_in_halt-append [] = refl
ends_in_halt-append (w ∷ []) = refl
ends_in_halt-append (w ∷ v ∷ ws) = ends_in_halt-append (v ∷ ws)

pub ensure_halt-ends : (ws : List ℕ) → ends_in_halt (ensure_halt ws) ≡ true
unfolding ensure_halt
ensure_halt-ends ws =
    if_split (λ p. ends_in_halt p ≡ true) (ends_in_halt ws) ws (ws ++ (Enc.halt ∷ [])) (λ h. h)
      (λ _. ends_in_halt-append ws)

pub ensure_halt-length :
    (ws : List ℕ)
    → (length ws ≤ length (ensure_halt ws)) × (length (ensure_halt ws) ≤ length ws + 1)
unfolding ensure_halt
ensure_halt-length ws =
    if_split (λ p. (length ws ≤ length p) × (length p ≤ length ws + 1)) (ends_in_halt ws) ws
      (ws ++ (Enc.halt ∷ [])) (λ _. (omega arith, omega arith))
      (λ _. let l = length-append ws (Enc.halt ∷ []) in (omega arith, omega arith))
