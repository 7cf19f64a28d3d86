-- ===== src/Registers.antt =====
-- include/aiasm/registers.h: the register file. A float of a vector register is its 32-bit pattern.
-- A register index of an instruction has five bits, the arrays have 16 and 8 entries: an access
-- beyond an array is undefined in C++, and `none` here.
pub mod Laws
use novium_emulator.Base.{
  ℕ, ◌==◌, ltb, if◌then◌else◌, update, negative32, Bool, true, false, Option, none, some,
}
use novium_emulator.Config.{num_gpr, num_vr}

pub record StatusFlags : Type 0 where
  pub zero : Bool
  pub negative : Bool
  pub overflow : Bool

pub record RegisterFile : Type 0 where
  pub gpr : ℕ → ℕ
  pub vr : ℕ → ℕ → ℕ
  pub pc : ℕ
  pub halt : Bool
  pub status : StatusFlags

abbrev pub no_flags : StatusFlags
no_flags = record { zero = false; negative = false; overflow = false }

-- `reset`, which is also the value after construction.
unfoldable pub cleared : RegisterFile
cleared = record { gpr = λ _. 0; vr = λ _ _. 0; pc = 0; halt = false; status = no_flags }

unfoldable pub read_gpr : RegisterFile → ℕ → Option ℕ
read_gpr r idx = if idx == 0 then some 0 else if ltb idx num_gpr then some (r.gpr idx) else none

-- Register 0 is set to 0 after every write.
unfoldable pub write_gpr : RegisterFile → ℕ → ℕ → Option RegisterFile
write_gpr r idx value =
    if idx == 0
    then some (record r { gpr = update r.gpr 0 0 })
    else if ltb idx num_gpr
    then some (record r { gpr = update (update r.gpr idx value) 0 0 })
    else none

unfoldable pub read_vr : RegisterFile → ℕ → Option (ℕ → ℕ)
read_vr r idx = if ltb idx num_vr then some (r.vr idx) else none

-- `write_vr` gives a pointer to the register; here its new contents go in.
unfoldable pub write_vr : RegisterFile → ℕ → (ℕ → ℕ) → Option RegisterFile
write_vr r idx v = if ltb idx num_vr then some (record r { vr = update r.vr idx v }) else none

unfoldable pub update_flags_u32 : RegisterFile → ℕ → RegisterFile
update_flags_u32 r result = record r {
  status = record { zero = result == 0; negative = negative32 result; overflow = false };
}

-- `update_flags_s32` of the pattern of an int32_t.
unfoldable pub update_flags_s32 : RegisterFile → ℕ → RegisterFile
update_flags_s32 r result = record r {
  status = record { zero = result == 0; negative = negative32 result; overflow = false };
}

unfoldable pub set_overflow : RegisterFile → Bool → RegisterFile
set_overflow r v = record r { status = record r.status { overflow = v } }
