-- ===== src/Bus.antt =====
-- include/aiasm/bus.h: 32-bit accesses are routed to the first device whose window holds the
-- address, if the address is in the MMIO range, and to the scratchpad otherwise. A device's
-- callbacks work on a state `S` that holds the scratchpad too. `none` is the error of the
-- scratchpad.
pub mod Laws
use novium_emulator.Base.{
  ℕ, ◌+◌, u32, leb, ltb, ◌&&◌, if◌then◌else◌, Option, none, some, List, [], ◌∷◌, ◌++◌, Bool,
}
use mathlib.Core.Option
use novium_emulator.Config.{mmio_base}
use novium_emulator.Memory
use novium_emulator.Memory.{Memory}

pub record Device (S : Type 0) : Type 0 where
  pub base : ℕ
  pub size : ℕ
  pub on_read : Option (ℕ → S → ℕ × S)
  pub on_write : Option (ℕ → ℕ → S → S)

unfoldable pub is_mmio : ℕ → Bool
is_mmio addr = leb mmio_base addr

unfoldable pub claims : {S : Type 0} → Device S → ℕ → Bool
claims dev addr = leb dev.base addr && ltb addr (u32 (dev.base + dev.size))

unfoldable pub find_device : {S : Type 0} → ℕ → List (Device S) → Option (Device S)
unfolding claims
find_device addr [] = none
find_device addr (dev ∷ devs) = if claims dev addr then some dev else find_device addr devs

-- The device that answers, if any.
unfoldable pub route : {S : Type 0} → ℕ → List (Device S) → Option (Device S)
unfolding find_device is_mmio
route addr devs = if is_mmio addr then find_device addr devs else none

module _ {S : Type 0} (ram : S → Memory) (put_ram : S → Memory → S) where
  unfoldable pub read32 : List (Device S) → ℕ → S → Option (ℕ × S)
  read32 devs addr s = elim (route addr devs) [
    | none ↦ Option.map (λ v. (v, s)) (Memory.read32 (ram s) addr)
    | some dev ↦ elim dev.on_read [ none ↦ some (0, s) | some f ↦ some (f addr s) ]
  ]

  unfoldable pub write32 : List (Device S) → ℕ → ℕ → S → Option S
  write32 devs addr value s = elim (route addr devs) [
    | none ↦ Option.map (put_ram s) (Memory.write32 (ram s) addr value)
    | some dev ↦ elim dev.on_write [ none ↦ some s | some f ↦ some (f addr value s) ]
  ]

unfoldable pub add_device : {S : Type 0} → List (Device S) → Device S → List (Device S)
add_device devs dev = devs ++ (dev ∷ [])
