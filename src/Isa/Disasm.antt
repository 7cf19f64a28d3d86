-- ===== src/Isa/Disasm.antt =====
-- include/aiasm/isa.h: `disassemble`. What is printed is the list of the pieces of the format.
use novium_emulator.Base.{ℕ, ◌≤◌, Option, none, some, List, [], ◌∷◌, ◌≡◌, arith}
use novium_emulator.Base.Text.{Text, codes}
use novium_emulator.Base.Print.{Piece, text, int, render, snprintf, widths, snprintf-render}
use novium_emulator.Isa.{Opcode, opcode, opcode_of, rd, ra, rb, func, imm16, simm16, offset, target}

abbrev comma : Piece
comma = text (codes ", ")

abbrev comma_r : Piece
comma_r = text (codes ", r")

abbrev comma_v : Piece
comma_v = text (codes ", v")

-- The format of an opcode with its arguments.
unfoldable pub format : Opcode → ℕ → List Piece
format Opcode.nop w = text (codes "NOP") ∷ []
format Opcode.halt w = text (codes "HALT") ∷ []
format Opcode.jmp w = text (codes "JMP  0x") ∷ Piece.hex8 (target w) ∷ []
format Opcode.beq w =
    text (codes "BEQ  r") ∷ int (rd w) ∷ comma_r ∷ int (ra w) ∷ comma ∷ int (offset w) ∷ []
format Opcode.bne w =
    text (codes "BNE  r") ∷ int (rd w) ∷ comma_r ∷ int (ra w) ∷ comma ∷ int (offset w) ∷ []
format Opcode.add w =
    text (codes "ADD  r") ∷ int (rd w) ∷ comma_r ∷ int (ra w) ∷ comma_r ∷ int (rb w) ∷ []
format Opcode.sub w =
    text (codes "SUB  r") ∷ int (rd w) ∷ comma_r ∷ int (ra w) ∷ comma_r ∷ int (rb w) ∷ []
format Opcode.mul w =
    text (codes "MUL  r") ∷ int (rd w) ∷ comma_r ∷ int (ra w) ∷ comma_r ∷ int (rb w) ∷ []
format Opcode.load w =
    text (codes "LOAD r") ∷ int (rd w) ∷ comma_r ∷ int (ra w) ∷ comma ∷ int (simm16 w) ∷ []
format Opcode.store w =
    text (codes "STORE r") ∷ int (rd w) ∷ comma_r ∷ int (ra w) ∷ comma ∷ int (simm16 w) ∷ []
format Opcode.mov w = text (codes "MOV  r") ∷ int (rd w) ∷ comma_r ∷ int (ra w) ∷ []
format Opcode.movi w = text (codes "MOVI r") ∷ int (rd w) ∷ text (codes ", #") ∷ int (imm16 w) ∷ []
format Opcode.load_vr w =
    text (codes "LOAD_VR  v") ∷ int (rd w) ∷ comma_r ∷ int (ra w) ∷ comma ∷ int (simm16 w) ∷ []
format Opcode.store_vr w =
    text (codes "STORE_VR v") ∷ int (rd w) ∷ comma_r ∷ int (ra w) ∷ comma ∷ int (simm16 w) ∷ []
format Opcode.vec_add w =
    text (codes "VEC_ADD  v") ∷ int (rd w) ∷ comma_v ∷ int (ra w) ∷ comma_v ∷ int (rb w) ∷ []
format Opcode.matmul_tile w =
    text (codes "MATMUL_TILE v")
    ∷ int (rd w)
    ∷ comma_v
    ∷ int (ra w)
    ∷ comma_v
    ∷ int (rb w)
    ∷ text (codes ", N=")
    ∷ int (func w)
    ∷ []
format Opcode.dma_load w =
    text (codes "DMA_LOAD  r")
    ∷ int (rd w)
    ∷ comma_r
    ∷ int (ra w)
    ∷ comma
    ∷ int (func w)
    ∷ text (codes " bytes")
    ∷ []
format Opcode.dma_store w =
    text (codes "DMA_STORE r")
    ∷ int (rd w)
    ∷ comma_r
    ∷ int (ra w)
    ∷ comma
    ∷ int (func w)
    ∷ text (codes " bytes")
    ∷ []

-- What a word says.
unfoldable pub listing : ℕ → List Piece
unfolding format
listing w = elim (opcode_of (opcode w)) [ none ↦ text (codes "???") ∷ [] | some op ↦ format op w ]

-- `disassemble`, through its buffer of 128 bytes.
unfoldable pub disassemble : ℕ → Text
unfolding snprintf listing
disassemble w = snprintf 128 (listing w)

format-widths : (op : Opcode) (w : ℕ) → widths (format op w) ≤ 70
unfolding format widths
format-widths Opcode.nop w = omega arith
format-widths Opcode.halt w = omega arith
format-widths Opcode.jmp w = omega arith
format-widths Opcode.beq w = omega arith
format-widths Opcode.bne w = omega arith
format-widths Opcode.add w = omega arith
format-widths Opcode.sub w = omega arith
format-widths Opcode.mul w = omega arith
format-widths Opcode.load w = omega arith
format-widths Opcode.store w = omega arith
format-widths Opcode.mov w = omega arith
format-widths Opcode.movi w = omega arith
format-widths Opcode.load_vr w = omega arith
format-widths Opcode.store_vr w = omega arith
format-widths Opcode.vec_add w = omega arith
format-widths Opcode.matmul_tile w = omega arith
format-widths Opcode.dma_load w = omega arith
format-widths Opcode.dma_store w = omega arith

listed-widths :
    (o : Option Opcode) (w : ℕ)
    → widths (elim o [ none ↦ text (codes "???") ∷ [] | some op ↦ format op w ]) ≤ 70
unfolding widths
listed-widths none w = omega arith
listed-widths (some op) w = format-widths op w

pub listing-widths : (w : ℕ) → widths (listing w) ≤ 70
unfolding listing
listing-widths w = listed-widths (opcode_of (opcode w)) w

-- No text of an instruction is cut.
pub disassemble-listing : (w : ℕ) → disassemble w ≡ render (listing w)
unfolding disassemble
disassemble-listing w = snprintf-render 128 (listing w) (omega (arith, listing-widths w))
