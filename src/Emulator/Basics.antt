-- ===== src/Emulator/Basics.antt =====
-- The accesses that the handlers share: registers, the bus with its two devices, and traps.
use novium_emulator.Base.{
  ℕ, ◌+◌, ◌-◌, ◌%◌, u32, sub32, if◌then◌else◌, ◌&&◌, not, blit, Bool, false, Option, none, some,
  List, [], ◌∷◌,
}
use novium_emulator.Config.{mmio_base, uart_base}
use novium_emulator.Memory.{Memory, load_word, word_bytes, in_bounds}
use novium_emulator.Registers
use novium_emulator.Registers.{RegisterFile}
use novium_emulator.Bus
use novium_emulator.Bus.{Device}
use novium_emulator.Csr
use novium_emulator.Csr.{csr_mtvec}
use novium_emulator.Devices.{timer_read, timer_write, uart_read, uart_write}
use novium_emulator.Interrupt
use novium_emulator.Interrupt.{Trap, page_fault_trap}
use novium_emulator.Mmu.Walk
use novium_emulator.Emulator.{
  Machine, EmulatorError, sram_out_of_bounds, done, threw, undefined_behaviour, M, ◌>>=◌,
}

-- A call whose error is not an exception but undefined behaviour, and one that throws.
abbrev pub or_undefined : {A : Type 0} → Option A → M A
or_undefined none m = undefined_behaviour
or_undefined (some a) m = done a m

abbrev pub or_throw : {A : Type 0} → EmulatorError → Option A → M A
or_throw e none m = threw e m
or_throw e (some a) m = done a m

abbrev pub modify : (Machine → Machine) → M (Unit {0})
modify f m = done tt (f m)

abbrev pub with_regs : Machine → RegisterFile → Machine
with_regs m r = record m { regs = r }

abbrev pub with_pc : Machine → ℕ → Machine
with_pc m pc = record m { regs = record m.regs { pc = pc } }

unfoldable pub get_gpr : ℕ → M ℕ
unfolding Registers.read_gpr
get_gpr idx m = or_undefined (Registers.read_gpr m.regs idx) m

unfoldable pub put_gpr : ℕ → ℕ → M (Unit {0})
unfolding Registers.write_gpr
put_gpr idx v m =
    (or_undefined (Registers.write_gpr m.regs idx v) >>= λ r. modify (λ m'. with_regs m' r)) m

-- The callbacks that the constructor registers: the timer at MMIO_BASE and the UART above it.
unfoldable pub on_timer_read : ℕ → Machine → ℕ × Machine
unfolding timer_read
on_timer_read addr m =
    let (v, t) = timer_read m.timer (sub32 addr mmio_base) in (v, record m { timer = t })

unfoldable pub on_timer_write : ℕ → ℕ → Machine → Machine
unfolding timer_write
on_timer_write addr v m = record m { timer = timer_write m.timer (sub32 addr mmio_base) v }

unfoldable pub on_uart_read : ℕ → Machine → ℕ × Machine
unfolding uart_read
on_uart_read addr m = (uart_read m.uart (sub32 (sub32 addr mmio_base) uart_base), m)

unfoldable pub on_uart_write : ℕ → ℕ → Machine → Machine
unfolding uart_write
on_uart_write addr v m = record m {
  uart = uart_write m.uart (sub32 (sub32 addr mmio_base) uart_base) v;
}

abbrev pub devices : List (Device Machine)
devices =
    record {
      base = mmio_base;
      size = 0x1000;
      on_read = some on_timer_read;
      on_write = some on_timer_write;
    }
    ∷ record {
      base = mmio_base + uart_base;
      size = 0x1000;
      on_read = some on_uart_read;
      on_write = some on_uart_write;
    }
    ∷ []

abbrev pub put_scratchpad : Machine → Memory → Machine
put_scratchpad m s = record m { scratchpad = s }

-- The window that a cluster adds: reads and writes of its shared RAM through pointers, with no bound
-- tested.
abbrev pub shared_base : ℕ
shared_base = 0x80000000

unfoldable pub read_shared : Option Memory → ℕ → ℕ
unfolding load_word
read_shared none addr = 0
read_shared (some r) addr = load_word r.byte (sub32 addr shared_base)

unfoldable pub write_shared : Option Memory → ℕ → ℕ → Option Memory
unfolding word_bytes
write_shared none addr v = none
write_shared (some r) addr v =
    some (record r { byte = blit r.byte (sub32 addr shared_base) (word_bytes v) })

abbrev pub shared_window : Device Machine
shared_window = record {
  base = shared_base;
  size = 0x01000000;
  on_read = some (λ addr m. (read_shared m.shared addr, m));
  on_write = some (λ addr v m. record m { shared = write_shared m.shared addr v });
}

-- The devices on the bus of a core.
unfoldable pub bus_devices : Option Memory → List (Device Machine)
unfolding Bus.add_device
bus_devices none = devices
bus_devices (some r) = Bus.add_device devices shared_window

-- An access of the window beyond the shared RAM. No device of the core claims such an address.
unfoldable pub outside_shared : Option Memory → ℕ → Bool
unfolding Bus.claims in_bounds
outside_shared none addr = false
outside_shared (some r) addr =
    Bus.claims shared_window addr && not (in_bounds r (sub32 addr shared_base) 4)

unfoldable pub bus_read32 : ℕ → M ℕ
unfolding Bus.read32
bus_read32 addr m =
    if outside_shared m.shared addr
    then undefined_behaviour
    else elim (Bus.read32 (λ s. s.scratchpad) put_scratchpad (bus_devices m.shared) addr m) [
      | none ↦ threw sram_out_of_bounds m
      | some (v, m') ↦ done v m'
    ]

unfoldable pub bus_write32 : ℕ → ℕ → M (Unit {0})
unfolding Bus.write32
bus_write32 addr v m =
    if outside_shared m.shared addr
    then undefined_behaviour
    else elim (Bus.write32 (λ s. s.scratchpad) put_scratchpad (bus_devices m.shared) addr v m) [
      | none ↦ threw sram_out_of_bounds m
      | some m' ↦ done tt m'
    ]

-- uint32_t(mtvec & ~0x3)
unfoldable pub trap_base : Machine → ℕ
unfolding Csr.read
trap_base m = u32 (Csr.read m.csr csr_mtvec - Csr.read m.csr csr_mtvec % 4)

-- `intc_.take_trap(t)` followed by the jump to the trap vector.
unfoldable pub enter_trap : Trap → Machine → Machine
unfolding Interrupt.take_trap trap_base
enter_trap t m =
    let (i, c) = Interrupt.take_trap m.intc m.csr t in
    let m' = record m { intc = i; csr = c } in with_pc m' (trap_base m')

-- The translation of a data address; the MMU changes in any case.
unfoldable pub translate_data : ℕ → Bool → Machine → Option ℕ × Machine
unfolding Walk.translate
translate_data va is_write m =
    let t = Walk.translate m.csr m.scratchpad va is_write false m.mmu in
    (t.pa, record m { mmu = t.mmu })

-- The physical address of a load or store, or the trap: `none` says that it was taken.
unfoldable pub data_address : ℕ → Bool → M (Option ℕ)
unfolding translate_data enter_trap page_fault_trap
data_address va is_write m =
    if m.mmu.enabled
    then (let (pa, m') = translate_data va is_write m in
        elim pa [
          | some p ↦ done (some p) m'
          | none ↦ done none (enter_trap (page_fault_trap (sub32 m'.regs.pc 4) va is_write) m')
        ])
    else done (some va) m
