-- ===== src/Emulator/Typed/Bus.antt =====
-- The accesses of the bus, and the data addresses.
use novium_emulator.Base.{
  ℕ, blit, sub32, All, Bool, Option, none, some, List, [], ◌∷◌, ◌≡◌, refl, arith, if_split,
  Option-cases, ◌⊎◌, inl, inr, leb,
}
use mathlib.Core.Option
use novium_emulator.Config.{mmio_base}
use novium_emulator.Memory
use novium_emulator.Memory.{Memory, word_bytes}
use novium_emulator.Bus
use novium_emulator.Bus.{Device, route, find_device, claims}
use novium_emulator.Devices.{}
use novium_emulator.Interrupt.{Trap, page_fault_trap}
use novium_emulator.Emulator.{Machine, sram_out_of_bounds, done, threw, undefined_behaviour}
use novium_emulator.Emulator.Basics.{
  bus_devices, outside_shared, bus_read32, bus_write32, trap_base, enter_trap, translate_data,
  data_address, put_scratchpad,
}
use novium_emulator.Emulator.Typed.{
  Bytes, IsTyped, Safe, Any, Is32, keeps, with_pc-IsTyped, pad-IsTyped, blit-Bytes,
  word_bytes-Bytes, load_word-Is32,
}
use novium_emulator.Emulator.Typed.Devices.{ReadsTyped, WritesTyped, GoodDevice, devices-Good}

abbrev GoodOption : Option (Device Machine) → Type 0
GoodOption none = Unit
GoodOption (some dev) = GoodDevice dev

find_device-Good :
    (addr : ℕ) (devs : List (Device Machine))
    → All GoodDevice devs
    → GoodOption (find_device addr devs)
unfolding find_device
find_device-Good addr [] h = tt
find_device-Good addr (dev ∷ devs) h =
    if_split GoodOption (claims dev addr) (some dev) (find_device addr devs) (λ _. h.0)
      (λ _. find_device-Good addr devs h.1)

route-Good :
    (addr : ℕ) (devs : List (Device Machine)) → All GoodDevice devs → GoodOption (route addr devs)
unfolding route Bus.is_mmio
route-Good addr devs h =
    if_split GoodOption (leb mmio_base addr) (find_device addr devs) none
      (λ _. find_device-Good addr devs h) (λ _. tt)

abbrev ReadOk : Option (ℕ × Machine) → Type 0
ReadOk none = Unit
ReadOk (some (v, m)) = Is32 v × IsTyped m

abbrev WriteOk : Option Machine → Type 0
WriteOk none = Unit
WriteOk (some m) = IsTyped m

module _ (addr : ℕ) (m : Machine) (t : IsTyped m) where
  word-Is32 : (v : ℕ) → Memory.read32 m.scratchpad addr ≡ some v → Is32 v
  unfolding Memory.read32
  word-Is32 v e = ground (arith, load_word-Is32 m.scratchpad.byte addr t.pad)

  device_read-Ok :
      (f : Option (ℕ → Machine → ℕ × Machine))
      → ReadsTyped f
      → ReadOk (elim f [ none ↦ some (0, m) | some g ↦ some (g addr m) ])
  device_read-Ok none good = (omega arith, t)
  device_read-Ok (some f) good = good addr m t

  memory_read-Ok :
      (Memory.read32 m.scratchpad addr ≡ none)
        ⊎ ((v : ℕ) × (Memory.read32 m.scratchpad addr ≡ some v))
      → ReadOk (Option.map (λ v. (v, m)) (Memory.read32 m.scratchpad addr))
  memory_read-Ok (inl e) = rw e tt
  memory_read-Ok (inr (v, e)) = rw e (word-Is32 v e, t)

  via_read-Ok :
      (o : Option (Device Machine))
      → GoodOption o
      → ReadOk (elim o [
        | none ↦ Option.map (λ v. (v, m)) (Memory.read32 m.scratchpad addr)
        | some dev ↦ elim dev.on_read [ none ↦ some (0, m) | some f ↦ some (f addr m) ]
      ])
  via_read-Ok none good = memory_read-Ok (Option-cases (Memory.read32 m.scratchpad addr))
  via_read-Ok (some dev) good = device_read-Ok dev.on_read good.0

  bus_read-Ok :
      (devs : List (Device Machine))
      → All GoodDevice devs
      → ReadOk (Bus.read32 (λ s. s.scratchpad) put_scratchpad devs addr m)
  unfolding Bus.read32
  bus_read-Ok devs good = via_read-Ok (route addr devs) (route-Good addr devs good)

  read_outcome-Safe :
      (o : Option (ℕ × Machine))
      → ReadOk o
      → Safe Is32 (elim o [ none ↦ threw sram_out_of_bounds m | some (v, m') ↦ done v m' ])
  read_outcome-Safe none h = t
  read_outcome-Safe (some (v, m')) h = h

  pub bus_read32-Safe : Safe Is32 (bus_read32 addr m)
  unfolding bus_read32
  bus_read32-Safe =
      let o = Bus.read32 (λ s. s.scratchpad) put_scratchpad (bus_devices m.shared) addr m in
      if_split (Safe Is32) (outside_shared m.shared addr) undefined_behaviour
        (elim o [ none ↦ threw sram_out_of_bounds m | some (v, m') ↦ done v m' ]) (λ _. tt)
        (λ _. read_outcome-Safe o (bus_read-Ok (bus_devices m.shared) (devices-Good m.shared)))

  module _ (v : ℕ) where
    memory_write-Ok :
        (o : Option Memory)
        → Memory.write32 m.scratchpad addr v ≡ o
        → WriteOk (Option.map (put_scratchpad m) o)
    unfolding Memory.write32
    memory_write-Ok none e = tt
    memory_write-Ok (some s) e =
        let b = blit-Bytes m.scratchpad.byte addr (word_bytes v) t.pad (word_bytes-Bytes v) in
        pad-IsTyped m s (written_bytes s e b) t
      where
        written_bytes :
            (s : Memory)
            → Memory.write32 m.scratchpad addr v ≡ some s
            → Bytes (blit m.scratchpad.byte addr (word_bytes v))
            → Bytes s.byte
        written_bytes s e b i = ground (arith, b i)

    device_write-Ok :
        (f : Option (ℕ → ℕ → Machine → Machine))
        → WritesTyped f
        → WriteOk (elim f [ none ↦ some m | some g ↦ some (g addr v m) ])
    device_write-Ok none good = t
    device_write-Ok (some f) good = good addr v m t

    via_write-Ok :
        (o : Option (Device Machine))
        → GoodOption o
        → WriteOk (elim o [
          | none ↦ Option.map (put_scratchpad m) (Memory.write32 m.scratchpad addr v)
          | some dev ↦ elim dev.on_write [ none ↦ some m | some f ↦ some (f addr v m) ]
        ])
    via_write-Ok none good = memory_write-Ok (Memory.write32 m.scratchpad addr v) refl
    via_write-Ok (some dev) good = device_write-Ok dev.on_write good.1

    bus_write-Ok :
        (devs : List (Device Machine))
        → All GoodDevice devs
        → WriteOk (Bus.write32 (λ s. s.scratchpad) put_scratchpad devs addr v m)
    unfolding Bus.write32
    bus_write-Ok devs good = via_write-Ok (route addr devs) (route-Good addr devs good)

    write_outcome-Safe :
        (o : Option Machine)
        → WriteOk o
        → Safe Any (elim o [ none ↦ threw sram_out_of_bounds m | some m' ↦ done tt m' ])
    write_outcome-Safe none h = t
    write_outcome-Safe (some m') h = (tt, h)

    pub bus_write32-Safe : Safe Any (bus_write32 addr v m)
    unfolding bus_write32
    bus_write32-Safe =
        let o = Bus.write32 (λ s. s.scratchpad) put_scratchpad (bus_devices m.shared) addr v m in
        if_split (Safe Any) (outside_shared m.shared addr) undefined_behaviour
          (elim o [ none ↦ threw sram_out_of_bounds m | some m' ↦ done tt m' ]) (λ _. tt)
          (λ _. write_outcome-Safe o (bus_write-Ok (bus_devices m.shared) (devices-Good m.shared)))

pub enter_trap-IsTyped : (tr : Trap) (m : Machine) → IsTyped m → IsTyped (enter_trap tr m)
unfolding enter_trap trap_base
enter_trap-IsTyped tr m t =
    with_pc-IsTyped (record m { intc = _; csr = _ }) _ (omega arith)
      (keeps m _ refl refl refl refl refl refl refl t)

mapped-Safe :
    (pa : Option ℕ) (tr : Trap) (m : Machine)
    → IsTyped m
    → Safe {A = Option ℕ} Any
        (elim pa [ some p ↦ done (some p) m | none ↦ done none (enter_trap tr m) ])
mapped-Safe none tr m t = (tt, enter_trap-IsTyped tr m t)
mapped-Safe (some p) tr m t = (tt, t)

pub data_address-Safe :
    (va : ℕ) (is_write : Bool) (m : Machine) → IsTyped m → Safe Any (data_address va is_write m)
unfolding data_address translate_data
data_address-Safe va is_write m t =
    let (pa, m') = translate_data va is_write m in
    let tr = page_fault_trap (sub32 m'.regs.pc 4) va is_write in
    let typed : IsTyped m' = keeps m m' refl refl refl refl refl refl refl t in
    if_split (Safe Any) m.mmu.enabled
      (elim pa [ some p ↦ done (some p) m' | none ↦ done none (enter_trap tr m') ])
      (done (some va) m) (λ _. mapped-Safe pa tr m' typed) (λ _. (tt, t))
