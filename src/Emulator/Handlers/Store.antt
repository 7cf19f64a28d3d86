-- ===== src/Emulator/Handlers/Store.antt =====
-- STORE against the bus: what it writes is read back.
use novium_emulator.Base.{
  ℕ, ◌+◌, ◌<◌, ◌≤◌, ◌^◌, add32, Bool, true, false, ◌≡◌, arith, refl, ap, ◌∙◌, leb, Option, none,
  some, blit,
}
use novium_emulator.Config.{mmio_base}
use novium_emulator.Isa.{rd, ra, simm16, cycle_weight}
use novium_emulator.Bus
use novium_emulator.Memory
use novium_emulator.Memory.{word_bytes, load_word}
use novium_emulator.Memory.Laws.{load_word-blit}
use novium_emulator.Emulator.{Machine, done}
use novium_emulator.Emulator.Basics.{
  bus_read32, bus_write32, put_scratchpad, data_address, outside_shared,
}
use novium_emulator.Emulator.Handlers.{issue_axi, store_to, op_store}
use novium_emulator.Emulator.Handlers.Alu.{reg, get_gpr_in_range}

-- The machine with a word written to its scratchpad.
abbrev pub with_word : Machine → ℕ → ℕ → Machine
with_word m addr v =
    put_scratchpad m (record m.scratchpad { byte = blit m.scratchpad.byte addr (word_bytes v) })

-- An address below the MMIO range is not in the window of a shared RAM.
not_shared :
    (shared : Option Memory.Memory) (addr : ℕ)
    → addr < mmio_base
    → outside_shared shared addr ≡ false
unfolding outside_shared
not_shared none addr low = refl
not_shared (some r) addr low = ground arith

bus_write32_low :
    (m : Machine) (addr v : ℕ)
    → addr < mmio_base
    → addr + 4 ≤ m.scratchpad.size
    → bus_write32 addr v m ≡ done tt (with_word m addr v)
unfolding bus_write32 Bus.route
bus_write32_low m addr v low room =
    let out : leb mmio_base addr ≡ false = ground arith in
    let written : Memory.write32 m.scratchpad addr v ≡ some (with_word m addr v).scratchpad =
      unfold Memory.write32 in ground arith in
    rw (not_shared m.shared addr low) (ground (arith, out, written))

bus_read32_low :
    (m : Machine) (addr : ℕ)
    → addr < mmio_base
    → addr + 4 ≤ m.scratchpad.size
    → bus_read32 addr m ≡ done (load_word m.scratchpad.byte addr) m
unfolding bus_read32 Bus.route
bus_read32_low m addr low room =
    let out : leb mmio_base addr ≡ false = ground arith in
    let found : Memory.read32 m.scratchpad addr ≡ some (load_word m.scratchpad.byte addr) =
      unfold Memory.read32 in ground arith in
    rw (not_shared m.shared addr low) (ground (arith, out, found))

-- The machine after the bus transaction of a store has been issued.
abbrev issued : ℕ → Machine → Machine
issued addr m = elim (issue_axi addr 4 true m) [ done _ m' ↦ m' | _ ↦ m ]

bare_address :
    (va : ℕ) (is_write : Bool) (m : Machine)
    → m.mmu.enabled ≡ false
    → data_address va is_write m ≡ done (some va) m
unfolding data_address
bare_address va is_write m off = rw off refl

module _ (w : ℕ) (m : Machine) where
  -- STORE with the MMU off, of registers that exist, of a 32-bit value to an address below the MMIO
  -- range and within the scratchpad, returns after its three cycles; then the bus reads the value of
  -- the register at the address, and the registers and main RAM are as before.
  pub store_reads_back :
      rd w < 16
      → ra w < 16
      → m.mmu.enabled ≡ false
      → reg m (rd w) < 2 ^ 32
      → add32 (reg m (ra w)) (simm16 w) < mmio_base
      → add32 (reg m (ra w)) (simm16 w) + 4 ≤ m.scratchpad.size
      → let addr = add32 (reg m (ra w)) (simm16 w) in
        (m' : Machine) × (op_store w m ≡ done 3 m')
        × (bus_read32 addr m' ≡ done (reg m (rd w)) m')
        × (m'.regs ≡ m.regs)
        × (m'.main_ram ≡ m.main_ram)
  unfolding issue_axi
  store_reads_back hd ha off word low room =
      let addr = add32 (reg m (ra w)) (simm16 w) in
      let m' = with_word (issued addr m) addr (reg m (rd w)) in
      (
        m',
        unfold op_store store_to cycle_weight in
            ground (
              arith,
              get_gpr_in_range (ra w) m ha,
              get_gpr_in_range (rd w) m hd,
              bare_address addr true m off,
              bus_write32_low (issued addr m) addr (reg m (rd w)) low room,
            ),
        bus_read32_low m' addr low room
            ∙ ap (λ (v : ℕ). done v m') (load_word-blit m.scratchpad.byte addr (reg m (rd w)) word),
        refl,
        refl,
      )
