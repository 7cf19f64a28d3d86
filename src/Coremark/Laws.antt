-- ===== src/Coremark/Laws.antt =====
-- What the checks of the benchmark can say.
use novium_emulator.Base.{
  ◌↔◌, leb, ◌≤◌, arith, ℕ, zero, suc, Bool, true, Option, none, some, List, ◌≡◌, refl,
}
use novium_emulator.Kernels.{FloatOps, HostSimd}
use novium_emulator.Registers
use novium_emulator.Memory
use novium_emulator.Memory.{Memory, read_bytes, in_bounds}
use novium_emulator.Emulator.{
  Machine, sram_out_of_bounds, Outcome, done, threw, undefined_behaviour, M,
}
use novium_emulator.Emulator.Basics.{get_gpr, or_throw}
use novium_emulator.Emulator.Control.{reset}
use novium_emulator.Coremark.{
  CoremarkResult, tally, check_run, run_program, prepare, after_run, iterate, loop, preload_both,
  new_result, coremark_run,
}

-- A benchmark that returns, returns with this flag.
abbrev pub MatrixOk : Option (Outcome CoremarkResult) → Type 0
MatrixOk none = Unit
MatrixOk (some (done res m)) = res.matrix_ok ≡ true
MatrixOk (some (threw e m)) = Unit
MatrixOk (some undefined_behaviour) = Unit

through :
    {A : Type 0} (o : Outcome A) (f : A → M CoremarkResult)
    → ((a : A) (m : Machine) → MatrixOk (some (f a m)))
    → MatrixOk (
        some (elim o [
          | done a m ↦ f a m
          | threw e m ↦ threw e m
          | undefined_behaviour ↦ undefined_behaviour
        ]))
through (done a m) f h = h a m
through (threw e m) f h = tt
through undefined_behaviour f h = tt

check_run-MatrixOk :
    (res : CoremarkResult) (m : Machine) → res.matrix_ok ≡ true → MatrixOk (some (check_run res m))
unfolding check_run tally
check_run-MatrixOk res m h = through (get_gpr 3 m) _ λ r3 m1.
    through (or_throw sram_out_of_bounds (read_bytes m1.scratchpad 0x1000 64) m1)
      (λ _ m2. done (tally res r3 m) (reset m2)) λ _ m2. h

module _ (fl : FloatOps) (simd : HostSimd) (use_fast : Bool) where
  after_run-MatrixOk :
      (res : CoremarkResult) (o : Option (Outcome (Unit {0})))
      → res.matrix_ok ≡ true
      → MatrixOk (after_run fl simd use_fast res o)
  unfolding after_run
  after_run-MatrixOk res none h = tt
  after_run-MatrixOk res (some (done _ m)) h = check_run-MatrixOk res m h
  after_run-MatrixOk res (some (threw e m)) h = tt
  after_run-MatrixOk res (some undefined_behaviour) h = tt

  after_prepare :
      (o : Outcome (Unit {0})) (f : Machine → Option (Outcome CoremarkResult))
      → ((m : Machine) → MatrixOk (f m))
      → MatrixOk (elim o [
        | done _ m ↦ f m
        | threw e m ↦ some (threw e m)
        | undefined_behaviour ↦ some undefined_behaviour
      ])
  after_prepare (done _ m) f h = h m
  after_prepare (threw e m) f h = tt
  after_prepare undefined_behaviour f h = tt

  next_round :
      (o : Option (Outcome CoremarkResult))
      (f : CoremarkResult → Machine → Option (Outcome CoremarkResult))
      → MatrixOk o
      → ((res : CoremarkResult) (m : Machine) → res.matrix_ok ≡ true → MatrixOk (f res m))
      → MatrixOk (elim o [
        | none ↦ none
        | some p ↦ elim p [
          | done res m ↦ f res m
          | threw e m ↦ some (threw e m)
          | undefined_behaviour ↦ some undefined_behaviour
        ]
      ])
  next_round none f h k = tt
  next_round (some (done res m)) f h k = k res m h
  next_round (some (threw e m)) f h k = tt
  next_round (some undefined_behaviour) f h k = tt

  loop-MatrixOk :
      (fuel n : ℕ) (res : CoremarkResult) (mat_a mat_b : Option (List ℕ)) (m : Machine)
      → res.matrix_ok ≡ true
      → MatrixOk (loop fl simd use_fast fuel n res mat_a mat_b m)
  unfolding loop iterate
  loop-MatrixOk fuel zero res mat_a mat_b m h = h
  loop-MatrixOk fuel (suc n) res mat_a mat_b m h =
      next_round (iterate fl simd use_fast fuel res mat_a mat_b m)
        (λ res' m'. loop fl simd use_fast fuel n res' mat_a mat_b m')
        (after_prepare (prepare fl simd use_fast mat_a mat_b m) _
          λ m'. after_run-MatrixOk res (run_program fl simd use_fast fuel m') h)
        (λ res' m' h'. loop-MatrixOk fuel n res' mat_a mat_b m' h')

  -- The benchmark reports the matrix check as passed whenever it returns, whatever the product is in
  -- the memory, whatever the float operations do and however many iterations run.
  pub coremark-MatrixOk :
      (fuel n : ℕ) (mat_a mat_b : Option (List ℕ)) (m : Machine)
      → MatrixOk (coremark_run fl simd use_fast fuel n mat_a mat_b m)
  unfolding coremark_run new_result
  coremark-MatrixOk fuel n mat_a mat_b m =
      after_prepare (preload_both fl simd use_fast mat_a mat_b m) _
        λ m'. loop-MatrixOk fuel n (new_result fl simd use_fast n) mat_a mat_b m' refl

-- The check after a run returns on every scratchpad that reaches beyond the product, with the machine
-- reset. Its verdict is the same whatever the scratchpad holds, the product included: the list is
-- judged by register 3, the checksum by the halt flag, and the matrix not at all.
pub check_run_lem :
    (res : CoremarkResult) (m : Machine) (s : Memory)
    → 0x1040 ≤ s.size
    → let m' = record m { scratchpad = s } in
      let res' = tally res (m.regs.gpr 3) m in
      (check_run res m' ≡ done res' (reset m'))
      × (res'.matrix_ok ≡ res.matrix_ok)
      × (res'.list_ok ≡ true ↔ (res.list_ok ≡ true) × (m.regs.gpr 3 ≡ 15))
      × (res'.crc_ok ≡ true ↔ (res.crc_ok ≡ true) × (m.regs.halt ≡ true))
unfolding check_run tally get_gpr Registers.read_gpr Memory.read_bytes in_bounds
check_run_lem res m s room =
    let fits : leb 4160 s.size ≡ true = ground arith in
    (
      ground (arith, fits),
      refl,
      (λ h. (ground arith, ground arith), λ h. ground (arith, h.0, h.1)),
      (λ h. (ground arith, ground arith), λ h. ground (arith, h.0, h.1)),
    )
