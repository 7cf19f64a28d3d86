-- ===== src/Command/Accuracy.antt =====
-- The accuracy check of src/main.cpp: the same program by `run` and by `run_fast`.
use novium_emulator.Base.{
  ◌&&◌, ◌==◌, ℕ, slice, Bool, true, false, Option, none, some, List, ◌≡◌, refl, ap, sym, ◌∙◌, arith,
}
use mathlib.Core.Option
use novium_emulator.Config.{scratchpad_size, main_ram_size}
use novium_emulator.Memory
use novium_emulator.Memory.{Memory, in_bounds}
use novium_emulator.Emulator.Basics.{outside_shared, bus_read32}
use novium_emulator.Emulator.Handlers.{op_halt, op_bne, op_add, op_movi, issue_axi}
use novium_emulator.Emulator.Tensor.{op_load_vr, op_store_vr, op_vec_add, op_matmul_tile}
use novium_emulator.Emulator.Tensor.Dma.{note_backpressure, op_dma_load, op_dma_store}
use novium_emulator.Emulator.Step.{
  take_interrupt, fetch, handler, account, execute, tick_loop, tick_peripherals, note_before, step,
}
use novium_emulator.Emulator.Fast.{stopped, replay, fast_round}
use novium_emulator.Isa.{opcode_of}
use novium_emulator.Interrupt.{interrupt_pending, pending_interrupt}
use novium_emulator.Bus.{route}
use novium_emulator.Isa.Enc
use novium_emulator.Translate
use novium_emulator.Command.Lanes.{lanes}
use novium_emulator.Kernels.{FloatOps, HostSimd}
use novium_emulator.Emulator.Basics.{or_throw}
use novium_emulator.Translate.{empty_cache}
use novium_emulator.Emulator.Fast.Runs.{if_on}
use novium_emulator.Emulator.{
  Machine, main_ram_out_of_bounds, Outcome, done, threw, undefined_behaviour,
}
use novium_emulator.Emulator.Control.{create, load_program, load_main_ram}
use novium_emulator.Emulator.Step.{run}
use novium_emulator.Emulator.Fast.{run_fast}
use novium_emulator.Emulator.Fast.Check.{fair, fair-run}
use novium_emulator.Emulator.Fast.Whole.{mapped_some}
use novium_emulator.Emulator.Switched.{Switches, dress, dressed}
use novium_emulator.Emulator.Switched.Run.{bare, run-bare}
use novium_emulator.Command.{
  set_acceleration, boot, program, measured, read_result, reference, accelerated, main_result,
}

-- The machine of an outcome that returns.
abbrev pub left_by : {A : Type 0} → Machine → Outcome A → Machine
left_by m o = elim o [ done _ m' ↦ m' | threw e m' ↦ m' | undefined_behaviour ↦ m ]

abbrev pub booted : (ℕ → ℕ) → (ℕ → ℕ) → Machine
booted a b =
    let m = create scratchpad_size main_ram_size in left_by m (boot program (lanes a) (lanes b) m)

done_inj : (m n : Machine) → ◌≡◌ {A = Outcome (Unit {0})} (done tt m) (done tt n) → m ≡ n
done_inj m n e = cc

-- The result of a run that returns.
abbrev pub result_of : Option (Outcome (Unit {0})) → Option (List ℕ)
result_of x = elim x [
  | some o ↦ elim o [
    | done _ m ↦ some (slice m.main_ram.byte main_result 64)
    | threw e m ↦ none
    | undefined_behaviour ↦ none
  ]
  | none ↦ none
]

-- A run that returns halted, with 15 in r3, and with a result in the main RAM.
abbrev sound : Machine → Bool
sound m = m.regs.halt && m.regs.gpr 3 == 15 && in_bounds m.main_ram main_result 64

sound_bounds : (m : Machine) → sound m ≡ true → in_bounds m.main_ram main_result 64 ≡ true
sound_bounds m h = ground arith

sound_facts : (m : Machine) → sound m ≡ true → (m.regs.gpr 3 ≡ 15) × (m.regs.halt ≡ true)
sound_facts m h = (ground arith, ground arith)

abbrev well : Option (Outcome (Unit {0})) → Bool
well x = elim x [
  | some o ↦ elim o [ done _ m ↦ sound m | threw e m ↦ false | undefined_behaviour ↦ false ]
  | none ↦ false
]

returned :
    (x : Option (Outcome (Unit {0})))
    → well x ≡ true
    → (m : Machine) × (x ≡ some (done tt m)) × (sound m ≡ true)
returned (some (done _ m)) h = (m, refl, h)
returned (some (threw e m)) h = cc
returned (some undefined_behaviour) h = cc
returned none h = cc

module _ (fl : FloatOps) (simd : HostSimd) (a b : ℕ → ℕ) where
  -- What the test and the run compute to.
  booted_computes :
      (fair fl simd 40 (booted a b) ≡ true) × (well (run fl simd 40 (booted a b)) ≡ true)
  unfolding boot program create measured outside_shared bus_read32 op_halt op_bne op_add op_movi
      issue_axi op_load_vr op_store_vr op_vec_add op_matmul_tile note_backpressure op_dma_load
      op_dma_store take_interrupt fetch handler account execute tick_loop tick_peripherals
      note_before step run stopped replay fast_round fair load_program load_main_ram opcode_of
      Enc.halt Enc.bne Enc.add Enc.movi Enc.load_vr Enc.store_vr Enc.vec_add Enc.matmul_tile
      Enc.dma_load Enc.dma_store Memory.read32 interrupt_pending pending_interrupt route
      Translate.translate
  booted_computes = (refl, refl)

-- The read after a run that ends as a sound one does, up to the switches.
read_after :
    (x : Option (Outcome (Unit {0}))) (p : Outcome (Unit {0})) (m : Machine)
    → sound m ≡ true
    → x ≡ some p
    → dressed bare p ≡ dressed bare (done tt m)
    → (n : Machine) × (read_result x ≡ some (done (slice m.main_ram.byte main_result 64) n))
      × (dress bare n ≡ dress bare m)
unfolding read_result Memory.read_bytes
read_after x (done _ n) m g e same =
    let alike = done_inj (dress bare n) (dress bare m) same in
    let ram : n.main_ram ≡ m.main_ram = ap (λ (s : Machine). s.main_ram) alike in
    (
      n,
      ap read_result e
          ∙ ap (λ r. some (or_throw main_ram_out_of_bounds (Memory.read_bytes r main_result 64) n))
              ram
          ∙ ap (λ r. some (or_throw main_ram_out_of_bounds r n))
              (if_on _ _ (in_bounds m.main_ram main_result 64) (sound_bounds m g)),
      alike,
    )
read_after x (threw t n) m g e same = absurd (cc)
read_after x undefined_behaviour m g e same = absurd (cc)

-- The acceleration off, on a new machine.
abbrev slow : Switches
slow = record {
  accel = false;
  verbose = false;
  last_pc = 0;
  last_gpr = λ _. 0;
  block_cache = empty_cache;
}

boots :
    (a b : ℕ → ℕ)
    → let m = create scratchpad_size main_ram_size in
      (boot program (lanes a) (lanes b) (set_acceleration true m) ≡ done tt (booted a b))
      × (boot program (lanes a) (lanes b) (set_acceleration false m)
          ≡ done tt (dress slow (booted a b)))
unfolding boot program set_acceleration create load_program load_main_ram Memory.load
    Memory.write_bytes
boots a b = (refl, refl)

-- The run and the read, from what the loads leave.
abbrev measure :
    (Machine → Option (Outcome (Unit {0}))) → Outcome (Unit {0}) → Option (Outcome (List ℕ))
measure go o = elim o [
  | done _ m ↦ read_result (go m)
  | threw e m ↦ some (threw e m)
  | undefined_behaviour ↦ some undefined_behaviour
]

measured_from :
    (go : Machine → Option (Outcome (Unit {0}))) (setup : Machine → Machine) (a b : ℕ → ℕ)
    (m : Machine)
    → boot program (lanes a) (lanes b) (setup (create scratchpad_size main_ram_size)) ≡ done tt m
    → measured go setup (lanes a) (lanes b) ≡ read_result (go m)
unfolding measured
measured_from go setup a b m e = ap (measure go) e

-- For all matrices, float operations and vector widths of the two hosts, both runs of the accuracy
-- check of `main` end within 40 steps, without an error, and read the same result from the main RAM:
-- `run` with the acceleration off, and `run_fast` with it on. The machines are equal up to the
-- switches and the block cache, halted, and hold 15 in r3.
pub runs_alike :
    (fl : FloatOps) (simd simd' : HostSimd) (a b : ℕ → ℕ)
    → (r : List ℕ) × (m : Machine) × (n : Machine) × (reference fl simd 40 (lanes a) (lanes b)
        ≡ some (done r m))
      × (accelerated fl simd' 40 (lanes a) (lanes b) ≡ some (done r n))
      × (dress bare m ≡ dress bare n)
      × (m.regs.gpr 3 ≡ 15)
      × (m.regs.halt ≡ true)
      × (result_of (run fl simd' 40 (booted a b)) ≡ some r)
unfolding reference accelerated
runs_alike fl simd simd' a b =
    let (f, w) = booted_computes fl simd' a b in
    let (m, e, g) = returned (run fl simd' 40 (booted a b)) w in
    let start = booted a b in
    let (p, ran, alike) =
      mapped_some (dressed bare) (run fl simd 40 (dress slow start)) (dressed bare (done tt m))
        (run-bare fl simd simd' 40 start slow ∙ ap (Option.map (dressed bare)) e) in
    let (q, ran', alike') = fair-run fl simd' 40 40 start (done tt m) (omega arith) f e in
    let (n, out, same) = read_after (run fl simd 40 (dress slow start)) p m g ran alike in
    let (n', out', same') = read_after (run_fast fl simd' 40 start) q m g ran' alike' in
    (
      slice m.main_ram.byte main_result 64,
      n,
      n',
      measured_from (run fl simd 40) (set_acceleration false) a b _ (boots a b).1 ∙ out,
      measured_from (run_fast fl simd' 40) (set_acceleration true) a b _ (boots a b).0 ∙ out',
      same ∙ sym same',
      ap (λ (s : Machine). s.regs.gpr 3) same ∙ (sound_facts m g).0,
      ap (λ (s : Machine). s.regs.halt) same ∙ (sound_facts m g).1,
      ap result_of e,
    )
