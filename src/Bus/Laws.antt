-- ===== src/Bus/Laws.antt =====
-- The routing of an access, and round trips through the scratchpad behind the bus.
use novium_emulator.Base.{
  ℕ, ◌+◌, ◌<◌, ◌≤◌, ◌^◌, leb, if_split, leb→le, blit, inl, Option, none, some, List, [], ◌∷◌, ◌≡◌,
  ap, ◌∙◌, arith,
}
use mathlib.Core.Option
use novium_emulator.Config.{mmio_base}
use novium_emulator.Memory
use novium_emulator.Memory.{Memory}
use novium_emulator.Memory.Laws.{read32-write32}
use novium_emulator.Bus.{Device, route, find_device, is_mmio, claims, read32, write32}

-- The address lies in the MMIO range and in the window of the device that answers, if any.
abbrev pub InWindow : {S : Type 0} → ℕ → Option (Device S) → Type 0
InWindow addr none = Unit
InWindow addr (some dev) = (mmio_base ≤ addr) × (dev.base ≤ addr) × (addr < dev.base + dev.size)

find_device-InWindow :
    {S : Type 0} (addr : ℕ) (devs : List (Device S))
    → mmio_base ≤ addr
    → InWindow addr (find_device addr devs)
unfolding find_device claims
find_device-InWindow addr [] h = tt
find_device-InWindow addr (dev ∷ devs) h =
    if_split (InWindow addr) (claims dev addr) (some dev) (find_device addr devs)
      (λ c. ground arith) (λ _. find_device-InWindow addr devs h)

-- A device answers only for an address of the MMIO range in its window.
pub route-InWindow :
    {S : Type 0} (addr : ℕ) (devs : List (Device S)) → InWindow addr (route addr devs)
unfolding route is_mmio
route-InWindow addr devs =
    if_split (InWindow addr) (leb mmio_base addr) (find_device addr devs) none
      (λ above. find_device-InWindow addr devs (leb→le mmio_base addr above)) (λ _. tt)

module _ {S : Type 0} (ram : S → Memory) (put_ram : S → Memory → S) where
  write_free :
      (devs : List (Device S)) (addr v : ℕ) (s : S)
      → route addr devs ≡ none
      → write32 ram put_ram devs addr v s ≡ Option.map (put_ram s) (Memory.write32 (ram s) addr v)
  unfolding write32
  write_free devs addr v s free =
      ap
        (λ o. elim o [
          | none ↦ Option.map (put_ram s) (Memory.write32 (ram s) addr v)
          | some dev ↦ elim dev.on_write [ none ↦ some s | some f ↦ some (f addr v s) ]
        ])
        free

  read_free :
      (devs : List (Device S)) (addr : ℕ) (s : S)
      → route addr devs ≡ none
      → read32 ram put_ram devs addr s ≡ Option.map (λ v. (v, s)) (Memory.read32 (ram s) addr)
  unfolding read32
  read_free devs addr s free = ground (arith, free)

  -- A word written to an address that no device claims, within the scratchpad, reads back, if `ram`
  -- finds what `put_ram` stores.
  pub bus-read32-write32 :
      (devs : List (Device S)) (addr v : ℕ) (s : S)
      → ((t : S) (r : Memory) → ram (put_ram t r) ≡ r)
      → route addr devs ≡ none
      → v < 2 ^ 32
      → addr + 4 ≤ (ram s).size
      → (s' : S) × (write32 ram put_ram devs addr v s ≡ some s')
        × (read32 ram put_ram devs addr s' ≡ some (v, s'))
  unfolding Memory.write32 Memory.read32 Memory.in_bounds
  bus-read32-write32 devs addr v s stored free fits room =
      let r = record (ram s) { byte = blit (ram s).byte addr (Memory.word_bytes v) } in
      let written : Memory.write32 (ram s) addr v ≡ some r = ground arith in
      let back : Memory.read32 r addr ≡ some v =
        (read32-write32 (ram s) addr v (addr + 4) fits (inl (omega arith)) written).0 in
      (
        put_ram s r,
        write_free devs addr v s free ∙ ap (Option.map (put_ram s)) written,
        read_free devs addr (put_ram s r) free
            ∙ ap (Option.map (λ x. (x, put_ram s r)))
                (ap (λ m. Memory.read32 m addr) (stored s r) ∙ back),
      )
