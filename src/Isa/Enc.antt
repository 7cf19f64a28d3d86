-- ===== src/Isa/Enc.antt =====
-- include/aiasm/isa.h, namespace enc: the instruction encoders. Register and immediate
-- arguments are any numbers: the masks cut them. The opcode is not masked.
use novium_emulator.Base.{ℕ, u32, ◌<<<◌, low_bits, bit_or}
use novium_emulator.Isa.{Opcode, opcode_code}

-- static_cast<uint32_t>(op) << OPCODE_SHIFT
unfoldable pub make : Opcode → ℕ
make op = u32 (opcode_code op <<< 26)

unfoldable pub rtype : Opcode → ℕ → ℕ → ℕ → ℕ → ℕ
unfolding make
rtype op d a b f =
    bit_or
      (bit_or (bit_or (bit_or (make op) (low_bits d 5 <<< 21)) (low_bits a 5 <<< 16))
        (low_bits b 5 <<< 11))
      (low_bits f 11)

unfoldable pub itype : Opcode → ℕ → ℕ → ℕ → ℕ
unfolding make
itype op d a imm =
    bit_or (bit_or (bit_or (make op) (low_bits d 5 <<< 21)) (low_bits a 5 <<< 16)) (low_bits imm 16)

unfoldable pub jtype : Opcode → ℕ → ℕ
unfolding make
jtype op addr = bit_or (make op) (low_bits addr 26)

-- The offset is an int16_t, as a pattern of 32 bits after widening or of 16: the mask keeps the
-- low 16 of either.
unfoldable pub btype : Opcode → ℕ → ℕ → ℕ → ℕ
unfolding make
btype op s t off =
    bit_or (bit_or (bit_or (make op) (low_bits s 5 <<< 21)) (low_bits t 5 <<< 16)) (low_bits off 16)

unfoldable pub nop : ℕ
unfolding make
nop = make Opcode.nop

unfoldable pub halt : ℕ
unfolding make
halt = make Opcode.halt

unfoldable pub jmp : ℕ → ℕ
unfolding jtype
jmp addr = jtype Opcode.jmp addr

unfoldable pub beq : ℕ → ℕ → ℕ → ℕ
unfolding btype
beq a b off = btype Opcode.beq a b off

unfoldable pub bne : ℕ → ℕ → ℕ → ℕ
unfolding btype
bne a b off = btype Opcode.bne a b off

unfoldable pub add : ℕ → ℕ → ℕ → ℕ
unfolding rtype
add d a b = rtype Opcode.add d a b 0

unfoldable pub sub : ℕ → ℕ → ℕ → ℕ
unfolding rtype
sub d a b = rtype Opcode.sub d a b 0

unfoldable pub mul : ℕ → ℕ → ℕ → ℕ
unfolding rtype
mul d a b = rtype Opcode.mul d a b 0

unfoldable pub mov : ℕ → ℕ → ℕ
unfolding rtype
mov d a = rtype Opcode.mov d a 0 0

unfoldable pub movi : ℕ → ℕ → ℕ
unfolding itype
movi d imm = itype Opcode.movi d 0 imm

unfoldable pub load : ℕ → ℕ → ℕ → ℕ
unfolding itype
load d a imm = itype Opcode.load d a imm

unfoldable pub store : ℕ → ℕ → ℕ → ℕ
unfolding itype
store s a imm = itype Opcode.store s a imm

unfoldable pub load_vr : ℕ → ℕ → ℕ → ℕ
unfolding itype
load_vr v a imm = itype Opcode.load_vr v a imm

unfoldable pub store_vr : ℕ → ℕ → ℕ → ℕ
unfolding itype
store_vr v a imm = itype Opcode.store_vr v a imm

unfoldable pub vec_add : ℕ → ℕ → ℕ → ℕ
unfolding rtype
vec_add d a b = rtype Opcode.vec_add d a b 0

unfoldable pub matmul_tile : ℕ → ℕ → ℕ → ℕ → ℕ
unfolding rtype
matmul_tile d a b n = rtype Opcode.matmul_tile d a b n

unfoldable pub dma_load : ℕ → ℕ → ℕ → ℕ
unfolding rtype
dma_load d a bytes = rtype Opcode.dma_load d a 0 bytes

unfoldable pub dma_store : ℕ → ℕ → ℕ → ℕ
unfolding rtype
dma_store d a bytes = rtype Opcode.dma_store d a 0 bytes
