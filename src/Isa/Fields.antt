-- ===== src/Isa/Fields.antt =====
-- Decoding undoes encoding, field by field, and the opcode codes are those of the enumeration.
use novium_emulator.Base.{
  ℕ, ◌+◌, ◌*◌, ◌/◌, ◌%◌, ◌^◌, ◌<◌, ◌≡◌, some, arith, ◌↔◌, bit_or, sext16, ap, low_bits,
}
use novium_emulator.Base.Bits.{bit_or-shift}
use novium_emulator.Isa.{
  Opcode, opcode_code, opcode_of, opcode, rd, ra, rb, func, imm16, offset, target,
}
use novium_emulator.Isa.Enc.{rtype, itype, jtype, btype, make}

pub opcode_code-lt : (op : Opcode) → opcode_code op < 0x14
unfolding opcode_code
opcode_code-lt op = ground arith

-- The dispatch index of an opcode leads back to the opcode, and to no other code.
pub opcode_of-opcode_code : (op : Opcode) (n : ℕ) → (opcode_of n ≡ some op) ↔ (n ≡ opcode_code op)
unfolding opcode_of opcode_code
opcode_of-opcode_code op n = ground arith

make_lem : (op : Opcode) → make op ≡ opcode_code op * 2 ^ 26
unfolding make
make_lem op = omega (arith, opcode_code-lt op)

-- The fields are joined from the top: each step appends the next one below.
join_rd : (q d : ℕ) → bit_or (q * 2 ^ 26) (d % 32 * 2 ^ 21) ≡ (q * 32 + d % 32) * 2 ^ 21
join_rd q d = omega (arith, bit_or-shift 26 q (d % 32 * 2 ^ 21) (omega arith))

join_ra : (q a : ℕ) → bit_or (q * 2 ^ 21) (a % 32 * 2 ^ 16) ≡ (q * 32 + a % 32) * 2 ^ 16
join_ra q a = omega (arith, bit_or-shift 21 q (a % 32 * 2 ^ 16) (omega arith))

join_rb : (q b : ℕ) → bit_or (q * 2 ^ 16) (b % 32 * 2 ^ 11) ≡ (q * 32 + b % 32) * 2 ^ 11
join_rb q b = omega (arith, bit_or-shift 16 q (b % 32 * 2 ^ 11) (omega arith))

pub rtype_sum :
    (op : Opcode) (d a b f : ℕ)
    → rtype op d a b f
      ≡ opcode_code op * 2 ^ 26 + d % 32 * 2 ^ 21 + a % 32 * 2 ^ 16 + b % 32 * 2 ^ 11 + f % 2048
unfolding rtype
rtype_sum op d a b f =
    rw
      (
        make_lem op,
        join_rd (opcode_code op) d,
        join_ra (opcode_code op * 32 + d % 32) a,
        join_rb ((opcode_code op * 32 + d % 32) * 32 + a % 32) b,
        bit_or-shift 11 (((opcode_code op * 32 + d % 32) * 32 + a % 32) * 32 + b % 32) (f % 2048)
            (omega arith),
      )
      (omega arith)

pub itype_sum :
    (op : Opcode) (d a imm : ℕ)
    → itype op d a imm ≡ opcode_code op * 2 ^ 26 + d % 32 * 2 ^ 21 + a % 32 * 2 ^ 16 + imm % 65536
unfolding itype
itype_sum op d a imm =
    rw
      (
        make_lem op,
        join_rd (opcode_code op) d,
        join_ra (opcode_code op * 32 + d % 32) a,
        bit_or-shift 16 ((opcode_code op * 32 + d % 32) * 32 + a % 32) (imm % 65536) (omega arith),
      )
      (omega arith)

-- A B-type word has the layout of an I-type word.
pub btype_sum :
    (op : Opcode) (s t off : ℕ)
    → btype op s t off ≡ opcode_code op * 2 ^ 26 + s % 32 * 2 ^ 21 + t % 32 * 2 ^ 16 + off % 65536
unfolding btype itype
btype_sum op s t off = itype_sum op s t off

pub jtype_sum : (op : Opcode) (addr : ℕ) → jtype op addr ≡ opcode_code op * 2 ^ 26 + addr % 2 ^ 26
unfolding jtype
jtype_sum op addr = rw (make_lem op, bit_or-shift 26 (opcode_code op) (addr % 2 ^ 26) (omega arith))

-- Every field of an R-type word decodes to the argument of the encoder, cut to the field's width,
-- whatever the arguments; and the word fits 32 bits.
pub rtype_fields :
    (op : Opcode) (d a b f : ℕ)
    → let w = rtype op d a b f in
      (opcode w ≡ opcode_code op)
      × (rd w ≡ d % 32)
      × (ra w ≡ a % 32)
      × (rb w ≡ b % 32)
      × (func w ≡ f % 2048)
      × (w < 2 ^ 32)
unfolding opcode rd ra rb func
rtype_fields op d a b f = omega (arith, rtype_sum op d a b f, opcode_code-lt op)

-- Every field of an I-type word decodes to the argument of the encoder, cut to the field's width,
-- whatever the arguments; and the word fits 32 bits.
pub itype_fields :
    (op : Opcode) (d a imm : ℕ)
    → let w = itype op d a imm in
      (opcode w ≡ opcode_code op)
      × (rd w ≡ d % 32)
      × (ra w ≡ a % 32)
      × (imm16 w ≡ imm % 65536)
      × (w < 2 ^ 32)
unfolding opcode rd ra imm16
itype_fields op d a imm = omega (arith, itype_sum op d a imm, opcode_code-lt op)

-- A J-type word decodes to its opcode and to the low 26 bits of its address.
pub jtype_fields :
    (op : Opcode) (addr : ℕ)
    → let w = jtype op addr in
      (opcode w ≡ opcode_code op) × (target w ≡ addr % 2 ^ 26) × (w < 2 ^ 32)
unfolding opcode target
jtype_fields op addr = omega (arith, jtype_sum op addr, opcode_code-lt op)

-- A B-type word is read by the branch handlers through `rd`, `ra` and `offset`: they get the
-- compared registers, and a 16-bit offset comes back with its sign.
pub btype_fields :
    (op : Opcode) (s t off : ℕ)
    → let w = btype op s t off in
      (opcode w ≡ opcode_code op)
      × (rd w ≡ s % 32)
      × (ra w ≡ t % 32)
      × (offset w ≡ sext16 (off % 65536))
      × (w < 2 ^ 32)
unfolding opcode rd ra offset
btype_fields op s t off =
    let e = btype_sum op s t off in
    let bound = opcode_code-lt op in
    let low : low_bits (btype op s t off) 16 ≡ off % 65536 = omega arith in
    (omega arith, omega arith, omega arith, ap sext16 low, omega arith)

-- Encoding undoes decoding: the fields of a word whose opcode is an enumerator, put back together
-- in the R, I or J layout, give the word.
pub encode_decode :
    (op : Opcode) (w : ℕ)
    → w < 2 ^ 32
    → opcode_of (opcode w) ≡ some op
    → (rtype op (rd w) (ra w) (rb w) (func w) ≡ w)
      × (itype op (rd w) (ra w) (imm16 w) ≡ w)
      × (jtype op (target w) ≡ w)
unfolding opcode rd ra rb func imm16 target
encode_decode op w h e =
    let code = (opcode_of-opcode_code op (w / 2 ^ 26 % 2 ^ 6)).0 e in
    (
      omega (arith, rtype_sum op (w / 2 ^ 21 % 32) (w / 2 ^ 16 % 32) (w / 2 ^ 11 % 32) (w % 2048)),
      omega (arith, itype_sum op (w / 2 ^ 21 % 32) (w / 2 ^ 16 % 32) (w % 65536)),
      omega (arith, jtype_sum op (w % 2 ^ 26)),
    )
