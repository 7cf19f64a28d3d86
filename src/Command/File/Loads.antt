-- ===== src/Command/File/Loads.antt =====
-- The loads before the run of a source file: what fits is loaded, what is too long is refused.
use novium_emulator.Base.{ℕ, ◌*◌, ◌<◌, ◌≤◌, blit, List, length, ◌≡◌, refl, ap, ◌∙◌, arith}
use novium_emulator.Config.{text_size, scratchpad_size, main_ram_size}
use novium_emulator.Memory.{fresh, in_bounds, words_bytes}
use novium_emulator.Memory
use novium_emulator.Memory.{Memory}
use novium_emulator.Frontend.{LoadResult}
use novium_emulator.Emulator.{
  Machine, program_too_large, Outcome, done, threw, undefined_behaviour, ◌>>◌,
}
use novium_emulator.Emulator.Control.Laws.{length-words_bytes, load_program-fits}
use novium_emulator.Emulator.Control.{
  load_program_bytes, create, set_target, load_program, load_main_ram,
}
use novium_emulator.Command.{identity, counting}
use novium_emulator.Command.File.{prepare}

-- A program that fits the text region.
abbrev pub Fits : LoadResult → Type 0
Fits r = 4 * length r.program ≤ text_size

-- The loads of the two matrices.
abbrev put : Machine → Machine
put m = record m {
  main_ram = record m.main_ram {
    byte = blit (blit m.main_ram.byte 0 (words_bytes identity)) 64 (words_bytes counting);
  };
}

matrices-load :
    (m : Machine)
    → m.main_ram ≡ fresh main_ram_size
    → (m' : Machine) × (m'.scratchpad ≡ m.scratchpad)
      × ((load_main_ram 0 (words_bytes identity) >> load_main_ram 64 (words_bytes counting)) m
          ≡ done tt m')
unfolding load_main_ram Memory.write_bytes in_bounds words_bytes identity counting fresh
matrices-load m e = (put m, refl, ground arith)

load_program-size :
    (ws : List ℕ) (m m' : Machine)
    → load_program ws m ≡ done tt m'
    → m'.scratchpad.size ≡ m.scratchpad.size
unfolding load_program load_program_bytes Memory.load in_bounds
load_program-size ws m m' h = ground arith

-- The machine that the program is loaded into.
abbrev aimed : LoadResult → Machine
aimed r = set_target r.target (create scratchpad_size main_ram_size)

program-Fits :
    (r : LoadResult)
    → Fits r
    → (m : Machine) × (load_program r.program (aimed r) ≡ done tt m)
      × (m.main_ram ≡ fresh main_ram_size)
      × (m.scratchpad.size ≡ scratchpad_size)
unfolding set_target create
program-Fits r fits =
    let (m, e, a, b, c, d, f) =
      load_program-fits r.program (aimed r) text_size fits (omega (arith, fits)) fits in
    (m, e, f, load_program-size r.program (aimed r) m e)

-- The rest of the loads after that of the program.
abbrev matrices : Outcome (Unit {0}) → Outcome (Unit {0})
matrices o = elim o [
  | done _ m ↦ (load_main_ram 0 (words_bytes identity) >> load_main_ram 64 (words_bytes counting)) m
  | threw e m ↦ threw e m
  | undefined_behaviour ↦ undefined_behaviour
]

program_long :
    (r : LoadResult)
    → text_size < 4 * length r.program
    → load_program r.program (aimed r) ≡ threw program_too_large (aimed r)
unfolding load_program load_program_bytes
program_long r long = let l = length-words_bytes r.program in ground (arith, l)

pub prepare-Fits :
    (r : LoadResult)
    → Fits r
    → (m : Machine) × (prepare r (create scratchpad_size main_ram_size) ≡ done tt m)
      × (m.scratchpad.size ≡ scratchpad_size)
unfolding prepare
prepare-Fits r fits =
    let (m, e, ram, size) = program-Fits r fits in
    let (m', kept, e') = matrices-load m ram in
    (m', ap matrices e ∙ e', ap (λ (s : Memory). s.size) kept ∙ size)

pub prepare_long :
    (r : LoadResult)
    → text_size < 4 * length r.program
    → (m : Machine) × (prepare r (create scratchpad_size main_ram_size) ≡ threw program_too_large m)
unfolding prepare
prepare_long r long = (aimed r, ap matrices (program_long r long))
