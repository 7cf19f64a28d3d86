-- ===== src/Emulator.antt =====
-- include/aiasm/emulator.h and src/emulator.cpp: the state of the machine and the outcomes of an
-- operation on it. The alias `interconnect_` is an object of its own in the source, and here.
-- `shared` is the memory that a cluster maps on the bus of its cores, if the core is one of them: the
-- constructor of Cluster adds the window to the bus, and no other code adds a device.
pub mod Basics
pub mod Handlers
pub mod Tensor
pub mod Step
pub mod Fast
pub mod Control
pub mod Api
pub mod Typed
pub mod Switched
use novium_emulator.Base.{ℕ, Bool, Option}
use novium_emulator.Memory.{Memory}
use novium_emulator.Registers.{RegisterFile}
use novium_emulator.Csr.{CsrFile}
use novium_emulator.Mmu.{Mmu}
use novium_emulator.Devices.{Timer, Uart}
use novium_emulator.Profiler.{Profiler}
use novium_emulator.Debugger.{Debugger}
use novium_emulator.Interrupt.{InterruptController}
use novium_emulator.Interconnect.{Interconnect}
use novium_emulator.Target.{TargetProfile}
use novium_emulator.Translate.{BlockCache}

pub record Machine : Type 0 where
  pub scratchpad : Memory
  pub main_ram : Memory
  pub regs : RegisterFile
  pub csr : CsrFile
  pub mmu : Mmu
  pub interconnect : Interconnect
  pub axi : Interconnect
  pub pcie : Interconnect
  pub cxi : Interconnect
  pub timer : Timer
  pub uart : Uart
  pub profiler : Profiler
  pub debugger : Debugger
  pub intc : InterruptController
  pub target : TargetProfile
  pub block_cache : BlockCache
  pub accel : Bool
  pub verbose : Bool
  pub tick_accum : ℕ
  pub last_pc : ℕ
  pub last_gpr : ℕ → ℕ
  pub shared : Option Memory

-- The messages of EmulatorError.
pub data EmulatorError : Type 0 where
  sram_out_of_bounds main_ram_out_of_bounds program_too_large : EmulatorError
  dma_scratchpad_out_of_bounds dma_main_ram_out_of_bounds : EmulatorError
  unknown_opcode invalid_tile : ℕ → EmulatorError

-- A call returns, throws, or does what C++ leaves undefined, which is an access outside an array.
-- A thrown error leaves the state as it was when it was thrown.
pub data Outcome (A : Type 0) : Type 0 where
  done : A → Machine → Outcome A
  threw : EmulatorError → Machine → Outcome A
  undefined_behaviour : Outcome A

abbrev pub M : Type 0 → Type 0
M A = Machine → Outcome A

abbrev pub pure : {A : Type 0} → A → M A
pure a m = done a m

infixl 5 ◌>>=◌ ◌>>◌
abbrev pub ◌>>=◌ : {A B : Type 0} → M A → (A → M B) → M B
◌>>=◌ c f m = elim (c m) [
  | done a m' ↦ f a m'
  | threw e m' ↦ threw e m'
  | undefined_behaviour ↦ undefined_behaviour
]

abbrev pub ◌>>◌ : {B : Type 0} → M (Unit {0}) → M B → M B
c >> k = c >>= λ _. k
