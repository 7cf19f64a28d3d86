-- ===== src/Emulator/Fast/Skips.antt =====
-- A run from the machine that its first steps leave.
use novium_emulator.Base.{◌&&◌, ℕ, Bool, true, false, ◌≡◌, ap, ◌∙◌, arith}
use novium_emulator.Emulator.Step.{step}
use novium_emulator.Emulator.Fast.{stopped}
use novium_emulator.Kernels.{FloatOps, HostSimd}
use novium_emulator.Emulator.{Machine, Outcome, done, threw, undefined_behaviour}
use novium_emulator.Emulator.Step.{run}
use novium_emulator.Base.{zero, suc, ◌+◌, not}
use novium_emulator.Emulator.Step.{step}
use novium_emulator.Emulator.Fast.Runs.{}
use novium_emulator.Emulator.Fast.Check.{and_left, and_right}
use novium_emulator.Emulator.Fast.Whole.{onward, run_next}

zero_add : (n : ℕ) → 0 + n ≡ n
zero_add n = omega arith

suc_add : (k n : ℕ) → suc k + n ≡ suc (k + n)
suc_add k n = omega arith

negated : (b : Bool) → not b ≡ true → b ≡ false
negated b h = ground arith

module _ (fl : FloatOps) (simd : HostSimd) where
  unfoldable pub after_steps : ℕ → Machine → Machine
  after_steps zero m = m
  after_steps (suc k) m = elim (step fl simd m) [
    | done _ m' ↦ after_steps k m'
    | threw e m' ↦ m'
    | undefined_behaviour ↦ m
  ]

  -- The next steps are taken and return.
  unfoldable pub going : ℕ → Machine → Bool
  going zero m = true
  going (suc k) m = not (stopped m) && elim (step fl simd m) [
    | done _ m' ↦ going k m'
    | threw e m' ↦ false
    | undefined_behaviour ↦ false
  ]

  abbrev then_going : ℕ → Outcome (Unit {0}) → Bool
  then_going k o = elim o [
    | done _ m' ↦ going k m'
    | threw e m' ↦ false
    | undefined_behaviour ↦ false
  ]

  abbrev then_after : ℕ → Machine → Outcome (Unit {0}) → Machine
  then_after k m o = elim o [
    | done _ m' ↦ after_steps k m'
    | threw e m' ↦ m'
    | undefined_behaviour ↦ m
  ]

  onward-skips :
      (k f : ℕ) (m : Machine) (o : Outcome (Unit {0}))
      → ((m' : Machine)
          → going k m' ≡ true
          → run fl simd (k + f) m' ≡ run fl simd f (after_steps k m'))
      → then_going k o ≡ true
      → onward fl simd (k + f) o ≡ run fl simd f (then_after k m o)
  onward-skips k f m (done _ m') ih h = ih m' h
  onward-skips k f m (threw e m') ih h = absurd (cc)
  onward-skips k f m undefined_behaviour ih h = absurd (cc)

  pub run_skips :
      (k f : ℕ) (m : Machine)
      → going k m ≡ true
      → run fl simd (k + f) m ≡ run fl simd f (after_steps k m)
  unfolding going after_steps
  run_skips zero f m h = ap (λ n. run fl simd n m) (zero_add f)
  run_skips (suc k) f m h =
      ap (λ n. run fl simd n m) (suc_add k f)
      ∙ run_next fl simd (k + f) m (negated (stopped m) (and_left _ _ h))
      ∙ onward-skips k f m (step fl simd m) (run_skips k f)
          (and_right (not (stopped m)) (then_going k (step fl simd m)) h)
