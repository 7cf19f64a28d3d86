-- ===== src/Decoder.antt =====
-- include/aiasm/decoder.h and src/decoder.cpp: the translation of RISC-V and ARM64 words to words
-- of the emulator's own instruction set, of PTX lines, and `translate_bytes`. A signed value is its pattern of 32 bits; int32_t >> is the arithmetic shift.
pub mod Laws
use novium_emulator.Base.{
  ℕ, zero, suc, ◌+◌, ◌-◌, ◌*◌, ◌/◌, ◌%◌, ◌^◌, u8, u16, u32, bit_or, test_bit, low_bits, ◌>>>◌,
  ◌<<<◌, bit_at, ◌==◌, if◌then◌else◌, ◌&&◌, ◌||◌, Bool, negative32, Option, none, some, List, [],
  ◌∷◌, ◌++◌, length,
}
use novium_emulator.Base.Text.{Text, codes, lowered, starts_with, cut_at, trim, is_empty, lines}
use novium_emulator.Isa.Enc
use novium_emulator.Isa.Halting.{ensure_halt}

-- (word >> at) & ((1 << width) - 1)
abbrev pub field : ℕ → ℕ → ℕ → ℕ
field word at width = low_bits (word >>> at) width

-- int32_t(word) >> 20
unfoldable pub imm_i : ℕ → ℕ
imm_i word = if negative32 word then word >>> 20 + 0xFFFFF000 else word >>> 20

unfoldable pub imm_s : ℕ → ℕ
imm_s word =
    let imm = bit_or (u32 (word >>> 25 <<< 5)) (field word 7 5) in
    if test_bit word 31 then bit_or imm 0xFFFFF000 else imm

unfoldable pub imm_b : ℕ → ℕ
imm_b word =
    let imm =
      bit_or
        (bit_or (bit_or (field word 31 1 <<< 12) (field word 7 1 <<< 11)) (field word 25 6 <<< 5))
        (field word 8 4 <<< 1) in
    if test_bit imm 12 then bit_or imm 0xFFFFE000 else imm

unfoldable pub imm_j : ℕ → ℕ
imm_j word =
    let imm =
      bit_or
        (bit_or (bit_or (field word 31 1 <<< 20) (field word 12 8 <<< 12)) (field word 20 1 <<< 11))
        (field word 21 10 <<< 1) in
    if test_bit imm 20 then bit_or imm 0xFFE00000 else imm

-- int16_t((imm - 4) / 4): the division of an int32_t cuts towards zero.
unfoldable pub branch_words : ℕ → ℕ
branch_words imm =
    let d = u32 (imm + (2 ^ 32 - 4)) in
    if negative32 d then u16 (2 ^ 32 - (2 ^ 32 - d) / 4) else u16 (d / 4)

-- `none` is the answer false, with nothing emitted.
unfoldable pub translate_one_riscv : ℕ → Option (List ℕ)
translate_one_riscv word =
    let opcode = low_bits word 7 in
    let rd = low_bits (field word 7 5) 4 in
    let rs1 = low_bits (field word 15 5) 4 in
    let rs2 = low_bits (field word 20 5) 4 in
    let funct3 = field word 12 3 in
    let funct7 = field word 25 7 in
    if opcode == 0x33
    then (if funct3 == 0 && funct7 == 0x00
        then some (Enc.add rd rs1 rs2 ∷ [])
        else if funct3 == 0 && funct7 == 0x20
        then some (Enc.sub rd rs1 rs2 ∷ [])
        else if funct3 == 0 && funct7 == 0x01
        then some (Enc.mul rd rs1 rs2 ∷ [])
        else none)
    else if opcode == 0x13
    then some (Enc.movi 15 (low_bits (imm_i word) 16) ∷ Enc.add rd rs1 15 ∷ [])
    else if opcode == 0x03
    then some (Enc.load rd rs1 (low_bits (imm_i word) 16) ∷ [])
    else if opcode == 0x23
    then some (Enc.store rs2 rs1 (low_bits (imm_s word) 16) ∷ [])
    else if opcode == 0x63
    then (if funct3 == 0
        then some (Enc.beq rs1 rs2 (branch_words (imm_b word)) ∷ [])
        else if funct3 == 1
        then some (Enc.bne rs1 rs2 (branch_words (imm_b word)) ∷ [])
        else none)
    else if opcode == 0x6F
    then some (Enc.jmp (low_bits (imm_j word) 26) ∷ [])
    else none

-- The masks of `word` select bits from a position upwards, so they are tests of the quotient; the
-- mask 0xFFE0FC00 leaves bits 16 to 20 and 0 to 9 out.
unfoldable pub translate_one_arm64 : ℕ → Option (List ℕ)
translate_one_arm64 word =
    let rd = field word 0 5 in
    let rn = field word 5 5 in
    let rm = field word 16 5 in
    let imm = u32 (low_bits word 26 <<< 2) in
    if field word 25 7 == 0x45
    then some (Enc.add (low_bits rd 4) (low_bits rn 4) (low_bits rm 4) ∷ [])
    else if field word 25 7 == 0x65
    then some (Enc.sub (low_bits rd 4) (low_bits rn 4) (low_bits rm 4) ∷ [])
    else if field word 23 9 == 0xA5
    then some (Enc.movi (low_bits rd 4) (field word 5 16) ∷ [])
    else if field word 26 6 == 0x05
    then some (Enc.jmp (low_bits (if test_bit imm 27 then bit_or imm 0xF0000000 else imm) 26) ∷ [])
    else if field word 22 10 == 0x3E5
    then some (Enc.load (low_bits rd 4) (low_bits rn 4) (u16 (field word 10 12 * 8)) ∷ [])
    else if field word 21 11 == 0x271 && field word 10 6 == 0x35
    then some (Enc.vec_add (rd % 8) (rn % 8) (rm % 8) ∷ [])
    else none

pub data GuestIsa : Type 0 where
  native arm64 riscv64 ptx asic : GuestIsa

pub record TranslationStats : Type 0 where
  pub decoded : ℕ
  pub emitted : ℕ

-- The words of a buffer: bytes after the last whole word are left out.
unfoldable pub words_of : List ℕ → List ℕ
words_of (b0 ∷ b1 ∷ b2 ∷ b3 ∷ rest) = (b0 + b1 * 256 + b2 * 65536 + b3 * 16777216) ∷ words_of rest
words_of other = []

-- What one guest word adds: an unknown word becomes a NOP and is not counted.
unfoldable pub add_word : Option (List ℕ) → List ℕ × TranslationStats → List ℕ × TranslationStats
add_word none (out, stats) = (Enc.nop ∷ out, stats)
add_word (some ops) (out, stats) =
    (ops ++ out, record { decoded = stats.decoded + 1; emitted = stats.emitted + length ops })

-- The loop over the words of a guest program.
unfoldable pub translate_words : (ℕ → Option (List ℕ)) → List ℕ → List ℕ × TranslationStats
unfolding add_word
translate_words one [] = ([], record { decoded = 0; emitted = 0 })
translate_words one (w ∷ ws) = add_word (one w) (translate_words one ws)

unfoldable pub copy_words : List ℕ → List ℕ × TranslationStats
copy_words ws = (ws, record { decoded = length ws; emitted = length ws })

-- The first test that a line passes, on the line in lower case. Characters are ASCII.
unfoldable pub ptx_op : Text → Option (List ℕ)
unfolding starts_with
ptx_op low =
    if starts_with (codes "add.") low
    then some (Enc.vec_add 2 0 1 ∷ [])
    else if starts_with (codes "fma") low || starts_with (codes "mma") low
    then some (Enc.matmul_tile 3 0 1 4 ∷ [])
    else if starts_with (codes "ld.") low
    then some (Enc.load_vr 0 5 0 ∷ [])
    else if starts_with (codes "st.") low
    then some (Enc.store_vr 3 5 0 ∷ [])
    else if starts_with (codes "mov") low
    then some (Enc.movi 1 1 ∷ [])
    else if starts_with (codes "ret") low || starts_with (codes "exit") low
    then some (Enc.halt ∷ [])
    else none

unfoldable pub translate_one_ptx : Text → Option (List ℕ)
unfolding ptx_op cut_at trim lowered
translate_one_ptx line =
    let s = trim (cut_at (codes "//") line) in if is_empty s then none else ptx_op (lowered s)

-- An unknown line is left out.
unfoldable pub add_line : Option (List ℕ) → List ℕ × TranslationStats → List ℕ × TranslationStats
add_line none (out, stats) = (out, stats)
add_line (some ops) (out, stats) =
    (ops ++ out, record { decoded = stats.decoded + 1; emitted = stats.emitted + length ops })

unfoldable pub translate_lines : List Text → List ℕ × TranslationStats
unfolding add_line translate_one_ptx
translate_lines [] = ([], record { decoded = 0; emitted = 0 })
translate_lines (l ∷ ls) = add_line (translate_one_ptx l) (translate_lines ls)

-- The final HALT is not counted.
unfoldable pub translate_ptx : Text → List ℕ × TranslationStats
unfolding translate_lines ensure_halt lines
translate_ptx source = let (out, stats) = translate_lines (lines source) in (ensure_halt out, stats)

unfoldable pub translate_bytes : GuestIsa → List ℕ → List ℕ × TranslationStats
unfolding copy_words translate_words words_of translate_ptx
translate_bytes native data_bytes = copy_words (words_of data_bytes)
translate_bytes asic data_bytes = copy_words (words_of data_bytes)
translate_bytes riscv64 data_bytes = translate_words translate_one_riscv (words_of data_bytes)
translate_bytes arm64 data_bytes = translate_words translate_one_arm64 (words_of data_bytes)
translate_bytes ptx data_bytes = translate_ptx data_bytes
