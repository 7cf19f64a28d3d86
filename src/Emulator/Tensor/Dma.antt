-- ===== src/Emulator/Tensor/Dma.antt =====
-- src/emulator.cpp: DMA_LOAD and DMA_STORE. The sums of the bounds tests are uint32_t. The copy
-- itself tests nothing: beyond the end of a memory it is undefined.
pub mod Laws
use novium_emulator.Base.{
  ℕ, ◌+◌, add32, sub32, ltb, if◌then◌else◌, not, ◌&&◌, Bool, true, false, Option, none, some, copy,
}
use novium_emulator.Isa.{Opcode, rd, ra, func}
use novium_emulator.Memory.{Memory, in_bounds}
use novium_emulator.Profiler.{record_op}
use novium_emulator.Interrupt.{page_fault_trap}
use novium_emulator.Emulator.{
  Machine, dma_scratchpad_out_of_bounds, dma_main_ram_out_of_bounds, threw, done,
  undefined_behaviour, M, pure, ◌>>=◌, ◌>>◌,
}
use novium_emulator.Emulator.Basics.{get_gpr, translate_data, enter_trap}
use novium_emulator.Emulator.Handlers.{issue_axi}
use novium_emulator.Emulator.Tensor.{target_weight}

-- The destination and the source after translation; `none` says that a trap was taken. The trap
-- names the destination if that faulted, and the source otherwise.
unfoldable pub dma_addresses : ℕ → ℕ → Bool → M (Option (ℕ × ℕ))
unfolding translate_data enter_trap page_fault_trap
dma_addresses dest src is_load m =
    if m.mmu.enabled
    then (let (pa_dest, m1) = translate_data dest true m in
        let (pa_src, m2) = translate_data src false m1 in
        let pc = sub32 m2.regs.pc 4 in
        elim pa_dest [
          | none ↦ done none (enter_trap (page_fault_trap pc dest true) m2)
          | some d ↦ elim pa_src [
            | none ↦ done none (enter_trap (page_fault_trap pc src (not is_load)) m2)
            | some s ↦ done (some (d, s)) m2
          ]
        ])
    else done (some (dest, src)) m

-- `host::dma_copy_host(to.ptr(dest), from.ptr(src), bytes)`.
unfoldable pub copy_into : Memory → ℕ → Memory → ℕ → ℕ → Option Memory
unfolding in_bounds
copy_into to dest from src bytes =
    if in_bounds to dest bytes && in_bounds from src bytes
    then some (record to { byte = copy to.byte dest from.byte src bytes })
    else none

-- A refused transaction is recorded as one more DMA_LOAD of one cycle.
unfoldable pub note_backpressure : Bool → M (Unit {0})
unfolding record_op
note_backpressure accepted m =
    if accepted
    then done tt m
    else done tt (record m { profiler = record_op m.profiler Opcode.dma_load 1 0 })

unfoldable pub load_copy : ℕ → ℕ → ℕ → M (Unit {0})
unfolding copy_into
load_copy dest src bytes m = elim (copy_into m.scratchpad dest m.main_ram src bytes) [
  | none ↦ undefined_behaviour
  | some s ↦ done tt (record m { scratchpad = s })
]

unfoldable pub store_copy : ℕ → ℕ → ℕ → M (Unit {0})
unfolding copy_into
store_copy dest src bytes m = elim (copy_into m.main_ram dest m.scratchpad src bytes) [
  | none ↦ undefined_behaviour
  | some r ↦ done tt (record m { main_ram = r })
]

-- DMA_LOAD from its bounds tests on.
unfoldable pub dma_load_run : ℕ → ℕ → ℕ → M ℕ
unfolding load_copy
dma_load_run dest src bytes m =
    if ltb m.scratchpad.size (add32 dest bytes)
    then threw dma_scratchpad_out_of_bounds m
    else if ltb m.main_ram.size (add32 src bytes)
    then threw dma_main_ram_out_of_bounds m
    else (do
      accepted ← issue_axi dest bytes false
      note_backpressure accepted
      load_copy dest src bytes
      target_weight Opcode.dma_load bytes)
        m

unfoldable pub dma_store_run : ℕ → ℕ → ℕ → M ℕ
unfolding store_copy
dma_store_run dest src bytes m =
    if ltb m.main_ram.size (add32 dest bytes)
    then threw dma_main_ram_out_of_bounds m
    else if ltb m.scratchpad.size (add32 src bytes)
    then threw dma_scratchpad_out_of_bounds m
    else (do
      _ ← issue_axi src bytes true
      store_copy dest src bytes
      target_weight Opcode.dma_store bytes)
        m

unfoldable pub op_dma_load : ℕ → M ℕ
unfolding get_gpr rd ra func dma_addresses dma_load_run
op_dma_load w = do
  dest ← get_gpr (rd w)
  src ← get_gpr (ra w)
  mapped ← dma_addresses dest src true
  elim mapped [ none ↦ pure 2 | some (d, s) ↦ dma_load_run d s (func w) ]

unfoldable pub op_dma_store : ℕ → M ℕ
unfolding get_gpr rd ra func dma_addresses dma_store_run
op_dma_store w = do
  dest ← get_gpr (rd w)
  src ← get_gpr (ra w)
  mapped ← dma_addresses dest src false
  elim mapped [ none ↦ pure 2 | some (d, s) ↦ dma_store_run d s (func w) ]
