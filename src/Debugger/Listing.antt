-- ===== src/Debugger/Listing.antt =====
-- src/emulator.cpp: `Debugger::disassemble_range`, `Emulator::disassemble_at` and
-- `aism_disassemble_at`. `none` is the error of the scratchpad.
use mathlib.Core.Option
use novium_emulator.Base.{
  length, leb, if◌then◌else◌, ◌||◌, ◌==◌, ℕ, zero, suc, ◌+◌, ◌*◌, ◌<◌, ◌≤◌, u32, Bool, true, false,
  Option, none, some, List, [], ◌∷◌, ◌++◌, ◌≡◌, refl, ap, sym, ◌∙◌, ◌⊎◌, inl, inr, arith,
}
use novium_emulator.Base.Text.{Text, codes}
use novium_emulator.Base.Print.{
  Piece, text, hex8, render, snprintf, widths, snprintf-render, length-render,
}
use novium_emulator.Memory
use novium_emulator.Memory.{Memory, load_word, in_bounds}
use novium_emulator.Isa.Disasm.{disassemble, listing, listing-widths, disassemble-listing}

-- A line, of the address, the word and its disassembly.
unfoldable pub line_of : ℕ → ℕ → Text → List Piece
line_of addr raw dis =
    hex8 addr ∷ text (codes ": ") ∷ hex8 raw ∷ text (codes "  ") ∷ text dis ∷ text (10 ∷ []) ∷ []

unfoldable pub disassemble_range : Memory → ℕ → ℕ → Option Text
unfolding Memory.read32 snprintf line_of disassemble
disassemble_range mem addr zero = some []
disassemble_range mem addr (suc count) = elim (Memory.read32 mem addr) [
  | none ↦ none
  | some raw ↦
      Option.map (λ rest. snprintf 128 (line_of addr raw (disassemble raw)) ++ rest)
        (disassemble_range mem (u32 (addr + 4)) count)
]

unfoldable pub disassemble_at : Memory → ℕ → Option Text
unfolding Memory.read32 disassemble
disassemble_at mem addr = Option.map disassemble (Memory.read32 mem addr)

-- The text that the caller's buffer of `bufsize` bytes gets, and whether the code is 0.
unfoldable pub aism_disassemble_at : Memory → ℕ → ℕ → Text × Bool
unfolding disassemble_at snprintf
aism_disassemble_at mem addr bufsize = elim (disassemble_at mem addr) [
  | some dis ↦ (snprintf bufsize (text dis ∷ []), true)
  | none ↦ (snprintf bufsize (text (codes "???") ∷ []), false)
]

-- The whole lines for the words of a memory.
unfoldable pub lines_of : Memory → ℕ → ℕ → Text
lines_of mem addr zero = []
lines_of mem addr (suc count) =
    let raw = load_word mem.byte addr in
    render (line_of addr raw (render (listing raw))) ++ lines_of mem (addr + 4) count

line_fits : (addr raw : ℕ) → widths (line_of addr raw (disassemble raw)) < 128
unfolding widths line_of
line_fits addr raw =
    omega
      (arith, ap length (disassemble-listing raw), length-render (listing raw), listing-widths raw)

line-uncut :
    (addr raw : ℕ)
    → snprintf 128 (line_of addr raw (disassemble raw))
      ≡ render (line_of addr raw (render (listing raw)))
line-uncut addr raw =
    snprintf-render 128 (line_of addr raw (disassemble raw)) (line_fits addr raw)
    ∙ ap (λ t. render (line_of addr raw t)) (disassemble-listing raw)

read32-in :
    (mem : Memory) (addr : ℕ)
    → addr + 4 ≤ mem.size
    → Memory.read32 mem addr ≡ some (load_word mem.byte addr)
unfolding Memory.read32 in_bounds
read32-in mem addr l = ground arith

read32-out : (mem : Memory) (addr : ℕ) → mem.size < addr + 4 → Memory.read32 mem addr ≡ none
unfolding Memory.read32 in_bounds
read32-out mem addr l = ground arith

no_wrap : (n : ℕ) → n < 0x100000000 → u32 n ≡ n
no_wrap n l = omega arith

-- The listing from a read on.
abbrev from_read : Memory → ℕ → ℕ → Option ℕ → Option Text
from_read mem addr count o = elim o [
  | none ↦ none
  | some raw ↦
      Option.map (λ rest. snprintf 128 (line_of addr raw (disassemble raw)) ++ rest)
        (disassemble_range mem (u32 (addr + 4)) count)
]

-- The line of a word in front of the others.
abbrev put_line : Memory → ℕ → Option Text → Option Text
put_line mem addr rest =
    let raw = load_word mem.byte addr in
    Option.map (λ t. render (line_of addr raw (render (listing raw))) ++ t) rest

range_in :
    (mem : Memory) (addr count : ℕ)
    → addr + 4 ≤ mem.size
    → addr + 4 < 0x100000000
    → disassemble_range mem addr (suc count)
      ≡ put_line mem addr (disassemble_range mem (addr + 4) count)
unfolding disassemble_range
range_in mem addr count l w =
    let raw = load_word mem.byte addr in
    ap (from_read mem addr count) (read32-in mem addr l)
    ∙ ap (λ t. Option.map (λ rest. t ++ rest) (disassemble_range mem (u32 (addr + 4)) count))
        (line-uncut addr raw)
    ∙ ap (λ a. put_line mem addr (disassemble_range mem a count)) (no_wrap (addr + 4) w)

range_out :
    (mem : Memory) (addr count : ℕ)
    → mem.size < addr + 4
    → disassemble_range mem addr (suc count) ≡ none
unfolding disassemble_range
range_out mem addr count l = ap (from_read mem addr count) (read32-out mem addr l)

no_less : 0 < 0 → ⊥
no_less l = omega arith

le_or_lt : (a b : ℕ) → (a ≤ b) ⊎ (b < a)
le_or_lt a b = ground arith

pub range_cases :
    (mem : Memory) (addr count : ℕ)
    → addr + 4 * count < 0x100000000
    → (addr + 4 * count ≤ mem.size
        → disassemble_range mem addr count ≡ some (lines_of mem addr count))
      × (mem.size < addr + 4 * count → 0 < count → disassemble_range mem addr count ≡ none)
unfolding disassemble_range lines_of
range_cases mem addr zero h = (λ _. refl, λ _ z. absurd (no_less z))
range_cases mem addr (suc count) h =
    let w : addr + 4 < 0x100000000 = omega arith in
    let ih = range_cases mem (addr + 4) count (omega arith) in
    (
      λ l. range_in mem addr count (omega arith) w ∙ ap (put_line mem addr) (ih.0 (omega arith)),
      λ l z. elim (le_or_lt (addr + 4) mem.size) [
        | inl fits ↦
            range_in mem addr count fits w
            ∙ ap (put_line mem addr) (ih.1 (omega arith) (omega arith))
        | inr out ↦ range_out mem addr count out
      ],
    )

picked :
    {A : Type 0} (x y : A) (a b count : ℕ)
    → 0 < count
    → (a ≤ b → (if leb a b || count == 0 then x else y) ≡ x)
      × (b < a → (if leb a b || count == 0 then x else y) ≡ y)
picked x y a b count z = (λ l. ground arith, λ l. ground arith)

-- For a range of words below 2^32: if it lies in the memory or is empty, the listing has one line for
-- each word, at its address, and no line is cut by its buffer; otherwise the read of the scratchpad
-- throws.
pub disassemble_range-lines_of :
    (mem : Memory) (addr count : ℕ)
    → addr + 4 * count < 0x100000000
    → disassemble_range mem addr count ≡ (
        if leb (addr + 4 * count) mem.size || count == 0
        then some (lines_of mem addr count)
        else none)
unfolding disassemble_range lines_of
disassemble_range-lines_of mem addr zero h = ground arith
disassemble_range-lines_of mem addr (suc count) h =
    let cases = range_cases mem addr (suc count) h in
    let pick =
      picked (some (lines_of mem addr (suc count))) none (addr + 4 * suc count) mem.size (suc count)
        (omega arith) in
    elim (le_or_lt (addr + 4 * suc count) mem.size) [
      | inl fits ↦ cases.0 fits ∙ sym (pick.0 fits)
      | inr out ↦ cases.1 out (omega arith) ∙ sym (pick.1 out)
    ]
