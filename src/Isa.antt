-- ===== src/Isa.antt =====
-- include/aiasm/isa.h: the opcodes, the fields of an instruction word and the cycle weights.
-- An instruction is its 32-bit word.
pub mod Disasm
pub mod Enc
pub mod Fields
pub mod Halting
use novium_emulator.Base.{
  ℕ, ◌+◌, ◌-◌, ◌/◌, u32, ◌>>>◌, low_bits, sext16, ◌==◌, if◌then◌else◌, Option, none, some,
}
use novium_emulator.Config.{dma_line_size}

pub data Opcode : Type 0 where
  nop halt jmp beq bne : Opcode
  add sub mul load store mov movi load_vr store_vr : Opcode
  vec_add matmul_tile dma_load dma_store : Opcode

-- static_cast<uint8_t>(op)
unfoldable pub opcode_code : Opcode → ℕ
opcode_code nop = 0x00
opcode_code halt = 0x01
opcode_code jmp = 0x02
opcode_code beq = 0x03
opcode_code bne = 0x04
opcode_code add = 0x05
opcode_code sub = 0x06
opcode_code mul = 0x07
opcode_code load = 0x08
opcode_code store = 0x09
opcode_code mov = 0x0A
opcode_code movi = 0x0B
opcode_code load_vr = 0x0C
opcode_code store_vr = 0x0D
opcode_code vec_add = 0x10
opcode_code matmul_tile = 0x11
opcode_code dma_load = 0x12
opcode_code dma_store = 0x13

-- The enumerator that a code names. `none` is a code of no enumerator, for which the dispatch
-- table of the emulator holds a null handler.
unfoldable pub opcode_of : ℕ → Option Opcode
opcode_of n =
    if n == 0x00
    then some nop
    else if n == 0x01
    then some halt
    else if n == 0x02
    then some jmp
    else if n == 0x03
    then some beq
    else if n == 0x04
    then some bne
    else if n == 0x05
    then some add
    else if n == 0x06
    then some sub
    else if n == 0x07
    then some mul
    else if n == 0x08
    then some load
    else if n == 0x09
    then some store
    else if n == 0x0A
    then some mov
    else if n == 0x0B
    then some movi
    else if n == 0x0C
    then some load_vr
    else if n == 0x0D
    then some store_vr
    else if n == 0x10
    then some vec_add
    else if n == 0x11
    then some matmul_tile
    else if n == 0x12
    then some dma_load
    else if n == 0x13
    then some dma_store
    else none

-- The field accessors of `struct Instruction`.
unfoldable pub opcode : ℕ → ℕ
opcode raw = low_bits (raw >>> 26) 6

unfoldable pub rd : ℕ → ℕ
rd raw = low_bits (raw >>> 21) 5

unfoldable pub ra : ℕ → ℕ
ra raw = low_bits (raw >>> 16) 5

unfoldable pub rb : ℕ → ℕ
rb raw = low_bits (raw >>> 11) 5

unfoldable pub func : ℕ → ℕ
func raw = low_bits raw 11

unfoldable pub imm16 : ℕ → ℕ
imm16 raw = low_bits raw 16

-- An int32_t, as its 32-bit pattern. `offset` is the same expression.
unfoldable pub simm16 : ℕ → ℕ
simm16 raw = sext16 (low_bits raw 16)

unfoldable pub offset : ℕ → ℕ
offset raw = sext16 (low_bits raw 16)

unfoldable pub target : ℕ → ℕ
target raw = low_bits raw 26

-- `cycle_weight`; `bytes + DMA_LINE_SIZE - 1` is a size_t, the result a uint32_t.
unfoldable pub cycle_weight : Opcode → ℕ → ℕ
cycle_weight nop f = 1
cycle_weight halt f = 0
cycle_weight jmp f = 2
cycle_weight beq f = 2
cycle_weight bne f = 2
cycle_weight add f = 1
cycle_weight sub f = 1
cycle_weight mul f = 3
cycle_weight load f = 3
cycle_weight store f = 3
cycle_weight mov f = 1
cycle_weight movi f = 1
cycle_weight load_vr f = 5
cycle_weight store_vr f = 5
cycle_weight vec_add f = 4
cycle_weight matmul_tile f = 16
cycle_weight dma_load f = u32 ((f + dma_line_size - 1) / dma_line_size) + 2
cycle_weight dma_store f = u32 ((f + dma_line_size - 1) / dma_line_size) + 2
