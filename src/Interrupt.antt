-- ===== src/Interrupt.antt =====
-- include/aiasm/interrupt.h and src/interrupt.cpp: pending interrupts, trap entry and trap return.
-- The CSR file is shared with the emulator: an operation that writes it returns it. `attach_csr`
-- has always been called in the emulator, so the null-pointer branches of the source are left out.
pub mod Laws
use Prim.Native.Nat.{bit_and}
use novium_emulator.Base.{
  ℕ, zero, ◌+◌, ◌*◌, ◌/◌, ◌-◌, ◌%◌, ◌^◌, u32, u64, bit_at, test_bit, set_bit, clear_bit, low_bits,
  ◌<<<◌, ◌>>>◌, ◌==◌, if◌then◌else◌, not, ◌&&◌, Bool, true, false, Option, none, some,
}
use novium_emulator.Csr.{
  CsrFile, read, write, PrivilegeLevel, Privilege, level, reserved, privilege_code, privilege_of,
  csr_mie, csr_mstatus, csr_mepc, csr_mcause, csr_mtval, csr_sepc,
}

pub data TrapCause : Type 0 where
  inst_addr_misaligned inst_access_fault illegal_inst breakpoint : TrapCause
  load_addr_misaligned load_access_fault store_addr_misaligned store_access_fault : TrapCause
  env_call_u env_call_s env_call_m : TrapCause
  inst_page_fault load_page_fault store_page_fault : TrapCause
  supervisor_soft machine_soft supervisor_timer machine_timer : TrapCause
  supervisor_external machine_external : TrapCause

unfoldable pub cause_code : TrapCause → ℕ
cause_code inst_addr_misaligned = 0
cause_code inst_access_fault = 1
cause_code illegal_inst = 2
cause_code breakpoint = 3
cause_code load_addr_misaligned = 4
cause_code load_access_fault = 5
cause_code store_addr_misaligned = 6
cause_code store_access_fault = 7
cause_code env_call_u = 8
cause_code env_call_s = 9
cause_code env_call_m = 11
cause_code inst_page_fault = 12
cause_code load_page_fault = 13
cause_code store_page_fault = 15
cause_code supervisor_soft = 0x8001
cause_code machine_soft = 0x8003
cause_code supervisor_timer = 0x8005
cause_code machine_timer = 0x8007
cause_code supervisor_external = 0x8009
cause_code machine_external = 0x800B

pub record Trap : Type 0 where
  pub cause : TrapCause
  pub tval : ℕ
  pub pc : ℕ
  pub is_interrupt : Bool

pub record InterruptController : Type 0 where
  pub mip : ℕ
  pub external_id : ℕ
  pub trap_count : ℕ

-- `reset`, and the value after construction.
unfoldable pub idle : InterruptController
idle = record { mip = 0; external_id = 0; trap_count = 0 }

unfoldable pub raise_timer : InterruptController → InterruptController
raise_timer i = record i { mip = set_bit i.mip 7 }

unfoldable pub raise_external : InterruptController → ℕ → InterruptController
raise_external i source = record i { mip = set_bit i.mip 11; external_id = source }

unfoldable pub raise_soft : InterruptController → InterruptController
raise_soft i = record i { mip = set_bit i.mip 3 }

unfoldable pub clear_timer : InterruptController → InterruptController
clear_timer i = record i { mip = clear_bit i.mip 7 }

unfoldable pub clear_external : InterruptController → InterruptController
clear_external i = record i { mip = clear_bit i.mip 11 }

unfoldable pub clear_soft : InterruptController → InterruptController
clear_soft i = record i { mip = clear_bit i.mip 3 }

-- (mip & mie) bit k
unfoldable pub enabled_line : InterruptController → CsrFile → ℕ → Bool
unfolding read
enabled_line i c k = test_bit i.mip k && test_bit (read c csr_mie) k

-- `mip_ & mie` is tested as a word by `interrupt_pending`; the native conjunction computes it.
unfoldable pub interrupt_pending : InterruptController → CsrFile → Bool
unfolding read
interrupt_pending i c =
    if not (test_bit (read c csr_mstatus) 3)
    then false
    else not (bit_and i.mip (read c csr_mie) == 0)

abbrev pub interrupt_trap : TrapCause → Trap
interrupt_trap cause = record { cause = cause; tval = 0; pc = 0; is_interrupt = true }

-- External before timer before software, machine before supervisor.
unfoldable pub pending_interrupt : InterruptController → CsrFile → Option Trap
pending_interrupt i c =
    if not (interrupt_pending i c)
    then none
    else if enabled_line i c 11
    then some (interrupt_trap machine_external)
    else if enabled_line i c 7
    then some (interrupt_trap machine_timer)
    else if enabled_line i c 3
    then some (interrupt_trap machine_soft)
    else if enabled_line i c 9
    then some (interrupt_trap supervisor_external)
    else if enabled_line i c 5
    then some (interrupt_trap supervisor_timer)
    else none

-- MSTATUS on trap entry: MPIE takes MIE, MIE is cleared, MPP takes the privilege level.
unfoldable pub entry_status : ℕ → Privilege → ℕ
unfolding privilege_code
entry_status mstatus priv =
    let mie = test_bit mstatus 3 in
    let cleared = clear_bit (clear_bit (clear_bit (clear_bit mstatus 7) 3) 11) 12 in
    let saved = if mie then cleared + 2 ^ 7 else cleared in saved + privilege_code priv <<< 11

unfoldable pub take_trap : InterruptController → CsrFile → Trap → InterruptController × CsrFile
unfolding write read entry_status cause_code
take_trap i c t =
    let cause = cause_code t.cause in
    let trap_cause = if t.is_interrupt then cause + 2 ^ 63 else cause in
    let c1 = write c csr_mepc t.pc in
    let c2 = write c1 csr_mcause trap_cause in
    let c3 = write c2 csr_mtval t.tval in
    let mstatus = entry_status (read c3 csr_mstatus) c3.priv in
    let c4 = write c3 csr_mstatus mstatus in
    (
      record i { trap_count = u64 (i.trap_count + 1) },
      record c4 { priv = level PrivilegeLevel.machine },
    )

unfoldable pub ecall_trap : CsrFile → ℕ → Trap
ecall_trap c pc = record { cause = ecall_cause c.priv; tval = 0; pc = pc; is_interrupt = false }
  where
    ecall_cause : Privilege → TrapCause
    ecall_cause (level PrivilegeLevel.user) = env_call_u
    ecall_cause (level PrivilegeLevel.supervisor) = env_call_s
    ecall_cause other = env_call_m

unfoldable pub ebreak_trap : ℕ → Trap
ebreak_trap pc = record { cause = breakpoint; tval = 0; pc = pc; is_interrupt = false }

unfoldable pub page_fault_trap : ℕ → ℕ → Bool → Trap
page_fault_trap pc va is_store = record {
  cause = if is_store then store_page_fault else load_page_fault;
  tval = va;
  pc = pc;
  is_interrupt = false;
}

unfoldable pub illegal_inst_trap : ℕ → ℕ → Trap
illegal_inst_trap pc inst = record {
  cause = illegal_inst;
  tval = inst;
  pc = pc;
  is_interrupt = false;
}

-- MSTATUS on `mret`: MIE takes MPIE, MPIE and MPP are cleared.
unfoldable pub return_status : ℕ → ℕ
return_status mstatus =
    let mpie = test_bit mstatus 7 in
    let no_mie = clear_bit mstatus 3 in
    let with_mie = if mpie then no_mie + 2 ^ 3 else no_mie in
    clear_bit (clear_bit (clear_bit with_mie 7) 11) 12

-- The result is the address to return to.
unfoldable pub mret : CsrFile → ℕ × CsrFile
unfolding read write return_status privilege_of
mret c =
    let mstatus = read c csr_mstatus in
    let mpp = low_bits (mstatus >>> 11) 2 in
    let c1 = write c csr_mstatus (return_status mstatus) in
    let c2 = record c1 { priv = privilege_of mpp } in (read c2 csr_mepc, c2)

unfoldable pub sret : CsrFile → ℕ × CsrFile
unfolding read write
sret c =
    let mstatus = read c csr_mstatus in
    let spie = test_bit mstatus 5 in
    let spp = bit_at mstatus 8 in
    let no_sie = clear_bit mstatus 1 in
    let with_sie = if spie then no_sie + 2 ^ 1 else no_sie in
    let c1 = write c csr_mstatus (clear_bit (clear_bit with_sie 5) 8) in
    let c2 = record c1 {
      priv = level (if spp == 0 then PrivilegeLevel.user else PrivilegeLevel.supervisor);
    } in
    (read c2 csr_sepc, c2)

unfoldable pub set_mip : InterruptController → ℕ → InterruptController
set_mip i v = record i { mip = v }
