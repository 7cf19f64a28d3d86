-- ===== src/Registers/Laws.antt =====
-- What a write to a general register does to later reads, and the two flag updates.
use novium_emulator.Base.{ℕ, ◌<◌, ◌^◌, ◌==◌, if◌then◌else◌, ◌≡◌, some, arith}
use novium_emulator.Registers.{RegisterFile, read_gpr, write_gpr}

-- The hardwired zero and the width of the registers.
pub record IsValid (r : RegisterFile) : Type 0 where
  pub zero_reg : r.gpr 0 ≡ 0
  pub words : (i : ℕ) → r.gpr i < 2 ^ 32
  pub pc_word : r.pc < 2 ^ 32

-- After a write that succeeds the register reads as the value written, register 0 as zero, and every other
-- register as before.
pub read_gpr-write_gpr :
    (r : RegisterFile) (i j v : ℕ) {r' : RegisterFile}
    → write_gpr r i v ≡ some r'
    → read_gpr r' j ≡ (if j == 0 then some 0 else if i == j then some v else read_gpr r j)
unfolding read_gpr write_gpr
read_gpr-write_gpr r i j v h = ground arith

-- A write of a 32-bit value keeps register 0 zero and every register and the program counter within
-- 32 bits.
pub write_gpr-IsValid :
    (r : RegisterFile) (i v : ℕ) {r' : RegisterFile}
    → IsValid r
    → v < 2 ^ 32
    → write_gpr r i v ≡ some r'
    → IsValid r'
unfolding write_gpr
write_gpr-IsValid r i v ok fits h = grind arith
