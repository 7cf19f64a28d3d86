-- ===== src/Emulator/Typed/Run.antt =====
-- Runs: from a machine whose numbers are in range they reach only such machines.
use novium_emulator.Base.{
  ℕ, All, blit, ltb, length, ◌<◌, zero, suc, if◌then◌else◌, ◌||◌, Bool, true, false, Option, none,
  some, List, ◌≡◌, refl, arith, if_split,
}
use mathlib.Core.Path.{subst}
use novium_emulator.Config.{text_base, text_size}
use novium_emulator.Memory
use novium_emulator.Memory.{in_bounds, load_word, words_bytes}
use novium_emulator.Devices.{Uart, uart_flush, uart_emit}
use novium_emulator.Interrupt.{}
use novium_emulator.Translate.{empty_cache}
use novium_emulator.Kernels.{FloatOps, HostSimd}
use novium_emulator.Emulator.{
  Machine, sram_out_of_bounds, program_too_large, Outcome, done, threw, undefined_behaviour, M,
  ◌>>=◌,
}
use novium_emulator.Emulator.Basics.{modify, or_throw, put_scratchpad}
use novium_emulator.Emulator.Step.{step, run}
use novium_emulator.Emulator.Control.{create, load_program, load_program_bytes}
use novium_emulator.Emulator.Typed.{
  IsTyped, Safe, Any, bind-Safe, keeps, pad-IsTyped, blit-Bytes, words_bytes-Bytes,
}
use novium_emulator.Emulator.Typed.Handlers.{}
use novium_emulator.Emulator.Typed.Tensor.{}
use novium_emulator.Emulator.Typed.Step.{step-Safe}

uart_flush-rx : (u : Uart) → (uart_flush u).rx_buffer ≡ u.rx_buffer
unfolding uart_flush uart_emit
uart_flush-rx u = ground arith

-- A run that has ended, and one that is out of fuel.
abbrev pub RunSafe : Option (Outcome (Unit {0})) → Type 0
RunSafe none = Unit
RunSafe (some o) = Safe Any o

after_step :
    (o : Outcome (Unit {0})) (rest : Machine → Option (Outcome (Unit {0})))
    → Safe Any o
    → ((m : Machine) → IsTyped m → RunSafe (rest m))
    → RunSafe (elim o [
      | done _ m ↦ rest m
      | threw e m ↦ some (threw e m)
      | undefined_behaviour ↦ some undefined_behaviour
    ])
after_step (done _ m) rest h k = k m h.1
after_step (threw e m) rest h k = h
after_step undefined_behaviour rest h k = tt

module _ (fl : FloatOps) (simd : HostSimd) where
  -- A number of steps, one after the other.
  unfoldable pub steps : ℕ → M (Unit {0})
  steps zero m = done tt m
  steps (suc k) m =
      let rest = λ (m' : Machine). steps k m' in
      elim (step fl simd m) [
        | done _ m' ↦ rest m'
        | threw e m' ↦ threw e m'
        | undefined_behaviour ↦ undefined_behaviour
      ]

  steps-Safe : (k : ℕ) (m : Machine) → IsTyped m → Safe Any (steps k m)
  unfolding steps
  steps-Safe zero m t = (tt, t)
  steps-Safe (suc k) m t =
      bind-Safe Any Any (step fl simd m) (λ _ m'. steps k m') (step-Safe fl simd m t)
        (λ _ m' _ t'. steps-Safe k m' t')

  pub run-Safe : (fuel : ℕ) (m : Machine) → IsTyped m → RunSafe (run fl simd fuel m)
  unfolding run
  run-Safe zero m t = tt
  run-Safe (suc fuel) m t =
      if_split RunSafe (m.regs.halt || m.debugger.breakpoints m.regs.pc)
        (some (done tt (record m { uart = uart_flush m.uart }))) _
        (λ _. (tt, keeps m _ refl refl refl refl (uart_flush-rx m.uart) refl refl t))
        (λ _.
          after_step (step fl simd m) (λ m'. run fl simd fuel m') (step-Safe fl simd m t)
            (λ m' t'. run-Safe fuel m' t'))

create-IsTyped : (pad ram : ℕ) → IsTyped (create pad ram)
unfolding create
create-IsTyped pad ram = record {
  regs = record { zero_reg = refl; words = λ i. omega arith; pc_word = omega arith };
  pad = λ i. omega arith;
  ram = λ i. omega arith;
  shared = tt;
  rx = tt;
  counters = record {
    instrs = omega arith;
    cycles = omega arith;
    bytes = omega arith;
    dma_cycles = omega arith;
    hist = λ i. omega arith;
  };
  ticks = omega arith;
}

loaded-Safe :
    (b : Bool) (bytes : List ℕ) (m : Machine)
    → All (λ x. x < 256) bytes
    → IsTyped m
    → Safe Any (
        (or_throw sram_out_of_bounds (
              if b
              then some (record m.scratchpad { byte = blit m.scratchpad.byte text_base bytes })
              else none)
            >>= λ s. modify (λ m'. record (put_scratchpad m' s) { block_cache = empty_cache }))
          m)
loaded-Safe true bytes m small t =
    let s = record m.scratchpad { byte = blit m.scratchpad.byte text_base bytes } in
    let typed = pad-IsTyped m s (blit-Bytes m.scratchpad.byte text_base bytes t.pad small) t in
    (tt, keeps (put_scratchpad m s) _ refl refl refl refl refl refl refl typed)
loaded-Safe false bytes m small t = t

load_program-Safe : (prog : List ℕ) (m : Machine) → IsTyped m → Safe Any (load_program prog m)
unfolding load_program load_program_bytes Memory.load
load_program-Safe prog m t =
    let bytes = words_bytes prog in
    if_split (Safe Any) (ltb text_size (length bytes)) (threw program_too_large m) _ (λ _. t)
      (λ _.
        loaded-Safe (in_bounds m.scratchpad text_base (length bytes)) bytes m
          (words_bytes-Bytes prog) t)

-- From a new machine of any sizes, after any program has been loaded, for any float operations and
-- vector width: the machine after any number of steps, the one that `run` returns, and the one that
-- an exception of either leaves, has register 0 zero, all registers and the program counter in 32
-- bits, all bytes of its memories and received characters in 8, and in 64 all counters of the
-- profiler (instructions, cycles, DMA bytes, DMA cycles and one for each opcode) and the accumulator
-- of the ticks.
pub program_run-Safe :
    (fl : FloatOps) (simd : HostSimd) (pad ram k fuel : ℕ) (prog : List ℕ) {m : Machine}
    → load_program prog (create pad ram) ≡ done tt m
    → Safe Any (steps fl simd k m) × RunSafe (run fl simd fuel m)
program_run-Safe fl simd pad ram k fuel prog {m} e =
    let h =
      subst (Safe {A = Unit {0}} Any) e
        (load_program-Safe prog (create pad ram) (create-IsTyped pad ram)) in
    (steps-Safe fl simd k m h.1, run-Safe fl simd fuel m h.1)
