-- ===== src/Csr.antt =====
-- include/aiasm/csr.h: the control and status registers. A register is a 64-bit word.
use novium_emulator.Base.{ℕ, ltb, leb, ◌==◌, if◌then◌else◌, update, test_bit, Bool}

pub data PrivilegeLevel : Type 0 where
  user supervisor machine : PrivilegeLevel

-- The level as the bits of MPP, and the value that `static_cast<PrivilegeLevel>` makes of two
-- bits. 2 is no enumerator: an enum with a fixed underlying type holds it all the same.
pub data Privilege : Type 0 where
  level : PrivilegeLevel → Privilege
  reserved : Privilege

unfoldable pub privilege_code : Privilege → ℕ
privilege_code (level PrivilegeLevel.user) = 0
privilege_code (level PrivilegeLevel.supervisor) = 1
privilege_code (level PrivilegeLevel.machine) = 3
privilege_code reserved = 2

unfoldable pub privilege_of : ℕ → Privilege
privilege_of n =
    if n == 0
    then level PrivilegeLevel.user
    else if n == 1
    then level PrivilegeLevel.supervisor
    else if n == 2
    then reserved
    else level PrivilegeLevel.machine

-- The addresses of `enum CSRAddr` that the emulator uses.
abbrev pub csr_sepc : ℕ
csr_sepc = 0x141

abbrev pub csr_satp : ℕ
csr_satp = 0x180

abbrev pub csr_mstatus : ℕ
csr_mstatus = 0x300

abbrev pub csr_misa : ℕ
csr_misa = 0x301

abbrev pub csr_mie : ℕ
csr_mie = 0x304

abbrev pub csr_mtvec : ℕ
csr_mtvec = 0x305

abbrev pub csr_mepc : ℕ
csr_mepc = 0x341

abbrev pub csr_mcause : ℕ
csr_mcause = 0x342

abbrev pub csr_mtval : ℕ
csr_mtval = 0x343

pub record CsrFile : Type 0 where
  pub regs : ℕ → ℕ
  pub priv : Privilege

abbrev pub num_csrs : ℕ
num_csrs = 4096

unfoldable pub read : CsrFile → ℕ → ℕ
read c addr = if ltb addr num_csrs then c.regs addr else 0

unfoldable pub write : CsrFile → ℕ → ℕ → CsrFile
write c addr val =
    if leb num_csrs addr
    then c
    else if addr == csr_misa
    then c
    else record c { regs = update c.regs addr val }

-- The value of `reset`: all zero but MISA, in machine mode.
unfoldable pub after_reset : CsrFile
after_reset = record {
  regs = update (λ _. 0) csr_misa 0x40001100;
  priv = level PrivilegeLevel.machine;
}

-- `mstatus_mie` and `mie_enabled`.
unfoldable pub mstatus_mie : CsrFile → Bool
unfolding read
mstatus_mie c = test_bit (read c csr_mstatus) 3

unfoldable pub mie_enabled : CsrFile → ℕ → Bool
unfolding read
mie_enabled c irq = test_bit (read c csr_mie) irq

unfoldable pub set_mepc : CsrFile → ℕ → CsrFile
unfolding write
set_mepc c v = write c csr_mepc v
