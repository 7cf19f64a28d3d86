-- ===== src/Emulator/Control/Laws.antt =====
-- The saved state, reset, and the loading of programs.
use novium_emulator.Base.{
  ℕ, ◌*◌, ◌<◌, ◌≤◌, false, some, ◌≡◌, ◌⊎◌, inr, refl, arith, length, List, [], ◌∷◌, slice,
  slice-blit, blit, blit_out, fun_ext, ap,
}
use novium_emulator.Config.{text_size}
use novium_emulator.Memory.{Memory, words_bytes, load, in_bounds}
use novium_emulator.Translate.{empty_cache}
use novium_emulator.Emulator.{Machine, done}
use novium_emulator.Emulator.Basics.{put_scratchpad}
use novium_emulator.Emulator.Control.{
  save_state, restore_state, load_program, load_program_bytes, aism_load_program, as_code,
}

-- Restoring a saved state into any machine gives the registers, flags, program counter, cycle
-- accumulator and counters of the machine that was saved, if its register 0 was zero. The memories
-- and the halt flag are those of the machine restored into.
pub restore_state-save_state :
    (m other : Machine)
    → m.regs.gpr 0 ≡ 0
    → let m' = restore_state (save_state m) other in
      (m'.regs ≡ record m.regs { halt = other.regs.halt })
      × (m'.profiler ≡ m.profiler)
      × (m'.tick_accum ≡ m.tick_accum)
      × (m'.scratchpad ≡ other.scratchpad)
unfolding restore_state save_state
restore_state-save_state m other z = (
  ap (λ (g : ℕ → ℕ). record m.regs { gpr = g; halt = other.regs.halt }) (fun_ext λ i. ground arith),
  refl,
  refl,
  refl,
)

pub length-words_bytes : (ws : List ℕ) → length (words_bytes ws) ≡ 4 * length ws
unfolding words_bytes
length-words_bytes [] = omega arith
length-words_bytes (w ∷ ws) = omega (arith, length-words_bytes ws)

abbrev loaded : List ℕ → Memory → Memory
loaded ws mem = record mem { byte = blit mem.byte 0 (words_bytes ws) }

-- A program that fits the text region and the scratchpad loads. Then the scratchpad starts with its
-- words, a byte at an index behind them is as before, the block cache is empty, and the registers
-- and the main memory are unchanged.
pub load_program-fits :
    (ws : List ℕ) (m : Machine) (i : ℕ)
    → 4 * length ws ≤ text_size
    → 4 * length ws ≤ m.scratchpad.size
    → 4 * length ws ≤ i
    → (m' : Machine) × (load_program ws m ≡ done tt m')
      × (slice m'.scratchpad.byte 0 (length (words_bytes ws)) ≡ words_bytes ws)
      × (m'.scratchpad.byte i ≡ m.scratchpad.byte i)
      × (m'.block_cache ≡ empty_cache)
      × (m'.regs ≡ m.regs)
      × (m'.main_ram ≡ m.main_ram)
unfolding load_program load_program_bytes load in_bounds
load_program-fits ws m i fits_text fits_size out =
    let l = length-words_bytes ws in
    (
      record (put_scratchpad m (loaded ws m.scratchpad)) { block_cache = empty_cache },
      ground (arith, l),
      slice-blit m.scratchpad.byte 0 (words_bytes ws),
      blit_out m.scratchpad.byte 0 (words_bytes ws) i (inr (omega (arith, l, out))),
      refl,
      refl,
      refl,
    )

-- A program that is larger than the text region or than the scratchpad is refused: the C interface
-- answers with the error code, and nothing is changed.
pub load_program-refused :
    (ws : List ℕ) (m : Machine)
    → (text_size < 4 * length ws) ⊎ (m.scratchpad.size < 4 * length ws)
    → aism_load_program ws m ≡ some (false, m)
unfolding aism_load_program as_code load_program load_program_bytes load in_bounds
load_program-refused ws m large = let l = length-words_bytes ws in ground (arith, l)
