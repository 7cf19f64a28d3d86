-- ===== src/Tests/Runs.antt =====
-- Whole runs: under other switches, and by blocks.
use mathlib.Core.Path.{subst}
use mathlib.Core.Option
use novium_emulator.Base.{
  ◌+◌, ◌*◌, ◌≡◌, refl, sym, ap, ◌∙◌, arith, Bool, some, none, true, false, [], ◌∷◌, ◌⊎◌, inl, inr,
}
use novium_emulator.Isa.Enc
use novium_emulator.Isa.{opcode_code, opcode_of, opcode}
use novium_emulator.Emulator.Handlers.{op_halt}
use novium_emulator.Bus
use novium_emulator.Memory.{read32}
use novium_emulator.Interrupt
use novium_emulator.Interrupt.{pending_interrupt}
use novium_emulator.Emulator.Basics.{bus_read32, outside_shared}
use novium_emulator.Memory.{fresh, words_bytes}
use novium_emulator.Base.{blit}
use novium_emulator.Frontend.{Patterns}
use novium_emulator.Command.{reference, accelerated}
use novium_emulator.Command.Lanes.{lanes, product}
use novium_emulator.Command.Product.{accelerated-reference}
use novium_emulator.Memory.{words_bytes}
use novium_emulator.Base.{map}
use novium_emulator.Debugger.Listing.{disassemble_range, lines_of, disassemble_range-lines_of}
use novium_emulator.Kernels.{FloatOps, no_simd, avx2}
use novium_emulator.Translate
use novium_emulator.Translate.{BlockCache, empty_cache, is_branch, is_halt}
use novium_emulator.Emulator.{Machine, Outcome, done, threw, undefined_behaviour}
use novium_emulator.Emulator.Control.{create}
use novium_emulator.Emulator.Step.{
  run, step, fetch, note_before, take_interrupt, execute, handler, tick_peripherals, tick_loop,
  account,
}
use novium_emulator.Emulator.Fast.{stopped, replay, fast_round, run_fast}
use novium_emulator.Emulator.Fast.Runs.{Quiet}
use novium_emulator.Emulator.Fast.Whole.{Found, run_fast-run}
use novium_emulator.Emulator.Switched.{Switches, dress, dressed}
use novium_emulator.Emulator.Switched.Run.{bare, run-bare}

-- No pattern matches.
abbrev unmatched : Patterns
unmatched = record {
  annotation = λ _. none;
  sv_tile = λ _. none;
  sv_lanes = λ _. none;
  sv_bw = λ _. none;
  chisel_lanes = λ _. none;
  stoi = λ _. none;
  scan_movi_spaced = λ _. none;
  scan_movi = λ _. none;
  scan_vec_add = λ _. none;
}

-- A float is added and multiplied as if it were an integer.
abbrev whole : FloatOps
whole = record { fadd = λ x y. x + y; fmul = λ x y. x * y }

-- HALT at address 0.
abbrev ready : Machine
ready = record (create 64 64) {
  scratchpad = record (fresh 64) { byte = blit (fresh 64).byte 0 (words_bytes (Enc.halt ∷ [])) };
}

abbrev talking : Switches
talking = record {
  accel = true;
  verbose = true;
  last_pc = 4;
  last_gpr = λ i. i;
  block_cache = empty_cache;
}

run-bare_example :
    Option.map (dressed bare) (run whole avx2 3 (dress talking ready))
    ≡ Option.map (dressed bare) (run whole no_simd 3 ready)
run-bare_example = run-bare whole avx2 no_simd 3 ready talking

-- The run of `ready`.
abbrev ended : Outcome (Unit {0})
ended = elim (run whole no_simd 2 ready) [ some o ↦ o | none ↦ undefined_behaviour ]

abbrev Going : Machine → Type 0
Going m = (m ≡ ready) ⊎ (m.regs.halt ≡ true)

ready-Quiet : (c : BlockCache) → Quiet Enc.halt (record ready { block_cache = c })
unfolding create pending_interrupt bus_read32 Interrupt.interrupt_pending outside_shared Bus.route
    read32 Enc.halt words_bytes opcode_code
ready-Quiet c = record { silent = refl; unmapped = refl; calm = refl; fetched = refl }

ready-Found : Found whole no_simd ready
unfolding create Translate.translate stopped read32 words_bytes Enc.halt opcode_code is_branch
    is_halt
ready-Found = record {
  word = Enc.halt;
  words = [];
  block = _;
  cache = _;
  hit = refl;
  ops_are = refl;
  serves = λ running. (ready-Quiet _, λ m' e b. cc);
}

abbrev halt_of : Outcome (Unit {0}) → Bool
halt_of o = elim o [
  | done _ m ↦ m.regs.halt
  | threw e m ↦ m.regs.halt
  | undefined_behaviour ↦ false
]

ready_halts : halt_of (fast_round whole no_simd ready) ≡ true
unfolding create Translate.translate fast_round replay stopped read32 words_bytes Enc.halt
    opcode_code is_branch is_halt execute opcode_of handler op_halt tick_peripherals tick_loop
    account
ready_halts = refl

Going-kept :
    (m m' : Machine)
    → Going m
    → stopped m ≡ false
    → fast_round whole no_simd m ≡ done tt m'
    → Going m'
unfolding stopped
Going-kept m m' (inl e) running h =
    inr (sym (ap halt_of (ap (fast_round whole no_simd) (sym e) ∙ h)) ∙ ready_halts)
Going-kept m m' (inr e) running h = ground arith

Going-Found : (m : Machine) → Going m → stopped m ≡ false → Found whole no_simd m
unfolding stopped
Going-Found m (inl e) running = subst (Found whole no_simd) (sym e) ready-Found
Going-Found m (inr e) running = absurd (ground arith)

ready_ends : run whole no_simd 2 ready ≡ some ended
unfolding create run step fetch note_before take_interrupt pending_interrupt
    Interrupt.interrupt_pending bus_read32 outside_shared Bus.route read32 execute opcode_of opcode
    words_bytes Enc.halt opcode_code handler op_halt tick_peripherals tick_loop account
ready_ends = refl

run_fast-run_example :
    (p : Outcome (Unit {0})) × (run_fast whole no_simd 2 ready ≡ some p)
    × (dressed bare p ≡ dressed bare ended)
run_fast-run_example =
    run_fast-run whole no_simd (λ _. Going) (λ _. Going-kept) (λ _ m g r v. Going-Found m g r) 2 2
      ready ended (omega arith) (inl refl) ready_ends

-- Every element is 3.
accelerated-reference_example :
    let bytes = words_bytes (product whole (lanes (λ i. 3)) (lanes (λ i. 3))) in
    (m : Machine) × (n : Machine) × (reference whole avx2 40 (lanes (λ i. 3)) (lanes (λ i. 3))
      ≡ some (done bytes m))
    × (accelerated whole no_simd 40 (lanes (λ i. 3)) (lanes (λ i. 3)) ≡ some (done bytes n))
    × (dress bare m ≡ dress bare n)
    × (m.regs.gpr 3 ≡ 15)
    × (m.regs.halt ≡ true)
accelerated-reference_example =
    accelerated-reference whole avx2 no_simd (λ i. 3) (λ i. 3) (λ k. omega arith) (λ k. omega arith)

disassemble_range-lines_of_example :
    disassemble_range ready.scratchpad 0 2 ≡ some (lines_of ready.scratchpad 0 2)
unfolding fresh
disassemble_range-lines_of_example = disassemble_range-lines_of ready.scratchpad 0 2 (omega arith)
