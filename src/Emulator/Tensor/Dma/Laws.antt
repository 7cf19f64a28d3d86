-- ===== src/Emulator/Tensor/Dma/Laws.antt =====
-- DMA transfers with the MMU off: what they copy, and what their bounds tests let through.
use novium_emulator.Base.{
  ℕ, ◌+◌, ◌<◌, ◌≤◌, ◌^◌, add32, ltb, leb, if◌then◌else◌, Bool, false, ◌≡◌, ◌⊎◌, arith, refl, slice,
  slice-copy, copy, copy_out,
}
use novium_emulator.Isa.{Opcode}
use novium_emulator.Interconnect.{Interconnect, issue, axi4}
use novium_emulator.Profiler.{record_op}
use novium_emulator.Target.{profile_cycle_weight}
use novium_emulator.Emulator.{Machine, done, undefined_behaviour}
use novium_emulator.Emulator.Handlers.{issue_axi}
use novium_emulator.Emulator.Tensor.{target_weight}
use novium_emulator.Emulator.Tensor.Dma.{note_backpressure, dma_load_run}

-- The transfer that DMA_LOAD issues, and the machine after a load that fits.
abbrev load_request : ℕ → ℕ → Machine → Bool × Interconnect
load_request dest bytes m =
    issue m.axi
      (record {
        id = 0;
        addr = dest;
        bytes = bytes;
        is_write = false;
        issue_cycle = m.profiler.cycle_count;
        complete_cycle = 0;
        proto = axi4;
      })
      m.profiler.cycle_count

abbrev pub loaded : ℕ → ℕ → ℕ → Machine → Machine
loaded dest src bytes m = record m {
  axi = (load_request dest bytes m).1;
  profiler =
      if (load_request dest bytes m).0
      then m.profiler
      else record_op m.profiler Opcode.dma_load 1 0;
  scratchpad = record m.scratchpad { byte = copy m.scratchpad.byte dest m.main_ram.byte src bytes };
}

module _ (dest src bytes : ℕ) (m : Machine) where
  dma_load_fits :
      dest + bytes ≤ m.scratchpad.size
      → src + bytes ≤ m.main_ram.size
      → m.scratchpad.size < 2 ^ 32
      → m.main_ram.size < 2 ^ 32
      → dma_load_run dest src bytes m
        ≡ done (profile_cycle_weight m.target Opcode.dma_load bytes) (loaded dest src bytes m)
  unfolding dma_load_run issue_axi note_backpressure target_weight
  dma_load_fits hd hs fd fs =
      let wd : add32 dest bytes ≡ dest + bytes = omega arith in
      let ws : add32 src bytes ≡ src + bytes = omega arith in
      let td : ltb m.scratchpad.size (add32 dest bytes) ≡ false = ground arith in
      let ts : ltb m.main_ram.size (add32 src bytes) ≡ false = ground arith in ground arith

  -- A load that fits both memories, with no wrap of the 32-bit sums, returns; the scratchpad then
  -- holds the block of main RAM, its other bytes are as before, and main RAM and the registers are
  -- unchanged.
  pub dma_load_copies :
      (i : ℕ)
      → dest + bytes ≤ m.scratchpad.size
      → src + bytes ≤ m.main_ram.size
      → m.scratchpad.size < 2 ^ 32
      → m.main_ram.size < 2 ^ 32
      → (i < dest) ⊎ (dest + bytes ≤ i)
      → (cycles : ℕ) × (m' : Machine) × (dma_load_run dest src bytes m ≡ done cycles m')
        × (slice m'.scratchpad.byte dest bytes ≡ slice m.main_ram.byte src bytes)
        × (m'.scratchpad.byte i ≡ m.scratchpad.byte i)
        × (m'.main_ram ≡ m.main_ram)
        × (m'.regs ≡ m.regs)
  dma_load_copies i hd hs fd fs out = (
    profile_cycle_weight m.target Opcode.dma_load bytes,
    loaded dest src bytes m,
    dma_load_fits hd hs fd fs,
    slice-copy m.scratchpad.byte dest m.main_ram.byte src bytes,
    copy_out m.scratchpad.byte dest m.main_ram.byte src bytes i out,
    refl,
    refl,
  )

  -- A destination so near 2^32 that the 32-bit sum with the length wraps passes both bounds tests of
  -- DMA_LOAD, and the copy then writes beyond the end of the scratchpad.
  pub dma_load_wraps :
      2 ^ 32 ≤ dest + bytes
      → dest < 2 ^ 32
      → bytes < 2 ^ 11
      → 2 ^ 11 ≤ m.scratchpad.size
      → m.scratchpad.size < 2 ^ 32
      → src + bytes ≤ m.main_ram.size
      → m.main_ram.size < 2 ^ 32
      → dma_load_run dest src bytes m ≡ undefined_behaviour
  unfolding dma_load_run issue_axi note_backpressure target_weight
  dma_load_wraps wrap hd hb sp fp hs fm =
      let td : ltb m.scratchpad.size (add32 dest bytes) ≡ false = ground arith in
      let ts : ltb m.main_ram.size (add32 src bytes) ≡ false = ground arith in
      let out : leb (dest + bytes) m.scratchpad.size ≡ false = ground arith in ground arith
