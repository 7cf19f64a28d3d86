-- ===== src/Tests/Isa.antt =====
-- Encoders, decoders and registers at concrete inputs: ADD r1, r2, r3 and its neighbours.
use novium_emulator.Base.{ℕ, ◌+◌, ◌≡◌, refl, arith, some, [], ◌∷◌, update, length, ◌≤◌}
use novium_emulator.Isa.{Opcode, opcode, opcode_of, opcode_code, rd, ra, rb, func, offset, target}
use novium_emulator.Isa.Enc.{rtype, itype, btype, jtype}
use novium_emulator.Isa.Fields.{
  encode_decode, rtype_fields, itype_fields, btype_fields, jtype_fields,
}
use novium_emulator.Registers.{RegisterFile, read_gpr, write_gpr, cleared}
use novium_emulator.Registers.Laws.{read_gpr-write_gpr, write_gpr-IsValid, IsValid}
use novium_emulator.Memory.{words_bytes}
use novium_emulator.Decoder.{translate_bytes, native, translate_words, translate_one_riscv}
use novium_emulator.Decoder.Laws.{translate_bytes-words_bytes, translate_words-length}

abbrev add_word : ℕ
add_word = 337778688

encode_decode_example :
    rtype Opcode.add (rd add_word) (ra add_word) (rb add_word) (func add_word) ≡ add_word
unfolding opcode opcode_of opcode_code
encode_decode_example = (encode_decode Opcode.add add_word (omega arith) refl).0

rtype_fields_example : opcode (rtype Opcode.add 1 2 3 0) ≡ 5
unfolding opcode_code
rtype_fields_example = (rtype_fields Opcode.add 1 2 3 0).0

itype_fields_example : opcode (itype Opcode.movi 1 0 10) ≡ 11
unfolding opcode_code
itype_fields_example = (itype_fields Opcode.movi 1 0 10).0

btype_fields_example : offset (btype Opcode.beq 1 2 0xFFF8) ≡ 0xFFFFFFF8
btype_fields_example = (btype_fields Opcode.beq 1 2 0xFFF8).3

jtype_fields_example : target (jtype Opcode.jmp 64) ≡ 64
jtype_fields_example = (jtype_fields Opcode.jmp 64).1

-- The cleared registers with 9 in register 5.
abbrev r5_written : RegisterFile
r5_written = record cleared { gpr = update (update cleared.gpr 5 9) 0 0 }

read_gpr-write_gpr_example : read_gpr r5_written 5 ≡ some 9
unfolding read_gpr write_gpr
read_gpr-write_gpr_example = read_gpr-write_gpr cleared 5 5 9 refl

write_gpr-IsValid_example : IsValid r5_written
unfolding write_gpr
write_gpr-IsValid_example = write_gpr-IsValid cleared 5 9 cleared-IsValid (omega arith) refl
  where
    cleared-IsValid : IsValid cleared
    cleared-IsValid =
        unfold cleared in
        record { zero_reg = refl; words = λ i. omega arith; pc_word = omega arith }

translate_bytes-words_bytes_example :
    translate_bytes native (words_bytes (add_word ∷ []))
    ≡ (add_word ∷ [], record { decoded = 1; emitted = 1 })
translate_bytes-words_bytes_example = translate_bytes-words_bytes (add_word ∷ []) (omega arith, tt)

translate_words-length_example :
    let (out, stats) = translate_words translate_one_riscv (0x003100B3 ∷ 0 ∷ []) in
    (length out + stats.decoded ≡ stats.emitted + 2) × (stats.decoded ≤ 2)
translate_words-length_example = translate_words-length translate_one_riscv (0x003100B3 ∷ 0 ∷ [])
