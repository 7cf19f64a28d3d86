-- ===== src/Interrupt/Laws.antt =====
-- Trap entry and return, and the choice among pending interrupts.
use novium_emulator.Base.{
  ℕ, ◌+◌, ◌^◌, ◌/◌, ◌%◌, u64, bit_at, if◌then◌else◌, true, false, Option, none, some, ◌≡◌, refl,
  arith, ap, ◌∙◌, List, [], ◌∷◌, Bool-cases, inl, inr,
}
use novium_emulator.Base.Bits.Conj.{bit_and-ne-zero}
use novium_emulator.Csr.{
  CsrFile, read, write, mstatus_mie, Privilege, PrivilegeLevel, level, reserved, privilege_code,
  privilege_of, csr_mie, csr_mstatus, csr_mepc, csr_mcause, csr_mtval, csr_mtvec,
}
use novium_emulator.Interrupt.{
  InterruptController, Trap, TrapCause, cause_code, take_trap, mret, entry_status, return_status,
  pending_interrupt, machine_external, machine_timer, machine_soft, supervisor_external,
  supervisor_timer, enabled_line, interrupt_pending, interrupt_trap,
}

-- Trap entry clears MIE and saves it in MPIE, and saves the privilege level in MPP.
pub entry_status_fields :
    (mstatus : ℕ) (priv : Privilege)
    → let s = entry_status mstatus priv in
      (bit_at s 3 ≡ 0)
      × (bit_at s 7 ≡ bit_at mstatus 3)
      × (s / 2 ^ 11 % 2 ^ 2 ≡ privilege_code priv)
unfolding entry_status privilege_code
entry_status_fields mstatus (level PrivilegeLevel.user) = ground arith
entry_status_fields mstatus (level PrivilegeLevel.supervisor) = ground arith
entry_status_fields mstatus (level PrivilegeLevel.machine) = ground arith
entry_status_fields mstatus reserved = ground arith

-- Trap return restores MIE from MPIE.
pub return_status_mie : (mstatus : ℕ) → bit_at (return_status mstatus) 3 ≡ bit_at mstatus 7
unfolding return_status
return_status_mie mstatus = ground arith

privilege_of-privilege_code : (p : Privilege) → privilege_of (privilege_code p) ≡ p
unfolding privilege_of privilege_code
privilege_of-privilege_code (level PrivilegeLevel.user) = refl
privilege_of-privilege_code (level PrivilegeLevel.supervisor) = refl
privilege_of-privilege_code (level PrivilegeLevel.machine) = refl
privilege_of-privilege_code reserved = refl

-- MCAUSE after a trap.
abbrev pub trap_code : Trap → ℕ
trap_code t = if t.is_interrupt then cause_code t.cause + 2 ^ 63 else cause_code t.cause

-- A trap saves its program counter, cause and value, enters machine mode with interrupts disabled,
-- and counts.
pub take_trap_state :
    (i : InterruptController) (c : CsrFile) (t : Trap)
    → let (i', c') = take_trap i c t in
      (read c' csr_mepc ≡ t.pc)
      × (read c' csr_mcause ≡ trap_code t)
      × (read c' csr_mtval ≡ t.tval)
      × (mstatus_mie c' ≡ false)
      × (c'.priv ≡ level PrivilegeLevel.machine)
      × (i'.trap_count ≡ u64 (i.trap_count + 1))
unfolding take_trap read write mstatus_mie
take_trap_state i c t = ground (arith, entry_status_fields (c.regs csr_mstatus) c.priv)

-- MRET directly after a trap returns to the trapped program counter, at the privilege level and
-- with the interrupt enable of before the trap.
pub mret-take_trap :
    (i : InterruptController) (c : CsrFile) (t : Trap)
    → let (pc, c') = mret (take_trap i c t).1 in
      (pc ≡ t.pc) × (c'.priv ≡ c.priv) × (mstatus_mie c' ≡ mstatus_mie c)
unfolding take_trap read write mstatus_mie mret
mret-take_trap i c t = (
  refl,
  ap privilege_of (entry_status_fields (c.regs csr_mstatus) c.priv).2
      ∙ privilege_of-privilege_code c.priv,
  ground (
    arith,
    entry_status_fields (c.regs csr_mstatus) c.priv,
    return_status_mie (entry_status (c.regs csr_mstatus) c.priv),
  ),
)

pending_of_line :
    (i : InterruptController) (c : CsrFile) (k : ℕ)
    → mstatus_mie c ≡ true
    → enabled_line i c k ≡ true
    → interrupt_pending i c ≡ true
unfolding mstatus_mie enabled_line interrupt_pending
pending_of_line i c k g h = ground (arith, bit_and-ne-zero k i.mip (read c csr_mie))

-- The lines in the order in which they are served, with their causes.
abbrev pub service_order : List (ℕ × TrapCause)
service_order =
    (11, machine_external)
    ∷ (7, machine_timer)
    ∷ (3, machine_soft)
    ∷ (9, supervisor_external)
    ∷ (5, supervisor_timer)
    ∷ []

abbrev pub first_served : InterruptController → CsrFile → List (ℕ × TrapCause) → Option Trap
first_served i c [] = none
first_served i c ((line, cause) ∷ rest) =
    if enabled_line i c line then some (interrupt_trap cause) else first_served i c rest

-- While interrupts are enabled the pending interrupt is that of the first line of the service order
-- that is both raised and enabled, and while they are disabled there is none.
pub pending_interrupt_order :
    (i : InterruptController) (c : CsrFile)
    → pending_interrupt i c ≡ (if mstatus_mie c then first_served i c service_order else none)
pending_interrupt_order i c = elim (Bool-cases (mstatus_mie c)) [
  | inl on ↦ rw on (
      unfold pending_interrupt in
      ground (
        arith,
        pending_of_line i c 11 on,
        pending_of_line i c 7 on,
        pending_of_line i c 3 on,
        pending_of_line i c 9 on,
        pending_of_line i c 5 on,
      ))
  | inr off ↦ rw off (off_none off)
]
  where
    off_none : mstatus_mie c ≡ false → pending_interrupt i c ≡ none
    off_none off = unfold mstatus_mie pending_interrupt interrupt_pending in ground arith

-- A trap leaves the trap vector alone.
pub take_trap-mtvec :
    (i : InterruptController) (c : CsrFile) (t : Trap)
    → read (take_trap i c t).1 csr_mtvec ≡ read c csr_mtvec
unfolding take_trap read write
take_trap-mtvec i c t = refl

-- The trap of a pending interrupt carries no program counter.
pub pending_interrupt-pc :
    (i : InterruptController) (c : CsrFile) (t : Trap)
    → pending_interrupt i c ≡ some t
    → (t.pc ≡ 0) × (t.is_interrupt ≡ true)
unfolding pending_interrupt
pending_interrupt-pc i c t h = ground arith
