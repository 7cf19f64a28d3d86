-- ===== src/Emulator/Fast/Whole.antt =====
-- The rounds of `run_fast` against `run`.
use novium_emulator.Base.{
  ℕ, zero, suc, ◌+◌, ◌≤◌, true, false, Bool-cases, inl, inr, Option, none, some, List, ◌∷◌, ◌≡◌,
  ◌≢◌, refl, ap, sym, ◌∙◌, arith, ◌||◌,
}
use mathlib.Core.Option
use novium_emulator.Devices.{uart_flush}
use novium_emulator.Translate
use novium_emulator.Translate.{DecodedBlock, BlockCache, is_branch, is_halt}
use novium_emulator.Kernels.{FloatOps, HostSimd}
use novium_emulator.Emulator.{
  Machine, sram_out_of_bounds, Outcome, done, threw, undefined_behaviour,
}
use novium_emulator.Emulator.Step.{step, run}
use novium_emulator.Emulator.Step.Run.{run_more_fuel}
use novium_emulator.Emulator.Switched.{Switches, dress, dressed}
use novium_emulator.Emulator.Switched.Run.{worn, bare, run-bare}
use novium_emulator.Emulator.Fast.{stopped, replay, fast_round, run_fast}
use novium_emulator.Emulator.Fast.Runs.{
  if_off, if_on, steps, Served, next_steps, replay-running, replay-steps,
}

one_more : (n : ℕ) → n + 1 ≡ suc n
one_more n = omega arith

pub mapped_some :
    {A B : Type 0} (f : A → B) (x : Option A) (b : B)
    → Option.map f x ≡ some b
    → (a : A) × (x ≡ some a) × (f a ≡ b)
mapped_some f none b h = cc
mapped_some f (some a) b h = (a, refl, cc)

module _ (fl : FloatOps) (simd : HostSimd) where
  -- What `run` makes of an outcome.
  abbrev pub onward : ℕ → Outcome (Unit {0}) → Option (Outcome (Unit {0}))
  onward n o = elim o [
    | done _ m ↦ run fl simd n m
    | threw e m ↦ some (threw e m)
    | undefined_behaviour ↦ some undefined_behaviour
  ]

  pub run_next :
      (n : ℕ) (m : Machine) → stopped m ≡ false → run fl simd (suc n) m ≡ onward n (step fl simd m)
  unfolding run stopped
  run_next n m e = if_off _ _ (m.regs.halt || m.debugger.breakpoints m.regs.pc) e

  -- `k` steps after an outcome.
  abbrev then_steps : ℕ → Outcome (Unit {0}) → Outcome (Unit {0})
  then_steps k p = elim p [
    | done _ m ↦ steps fl simd k m
    | threw e m ↦ threw e m
    | undefined_behaviour ↦ undefined_behaviour
  ]

  -- Steps after an outcome that `run` goes on from do not change where it ends.
  run_last :
      (n : ℕ) (m : Machine)
      → stopped m ≡ true
      → run fl simd (suc n) m ≡ some (done tt (record m { uart = uart_flush m.uart }))
  unfolding run stopped
  run_last n m e = if_on _ _ (m.regs.halt || m.debugger.breakpoints m.regs.pc) e

  onward-steps :
      (k n : ℕ) (p o : Outcome (Unit {0}))
      → ((n : ℕ) (m : Machine) → run fl simd n m ≡ some o → onward n (steps fl simd k m) ≡ some o)
      → onward n p ≡ some o
      → onward n (then_steps k p) ≡ some o
  onward-steps k n (done _ m) o ih h = ih n m h
  onward-steps k n (threw e m) o ih h = h
  onward-steps k n undefined_behaviour o ih h = h

  onward_more : (n : ℕ) (p o : Outcome (Unit {0})) → onward n p ≡ some o → onward (suc n) p ≡ some o
  onward_more n (done _ m) o h =
      ap (λ k. run fl simd k m) (sym (one_more n)) ∙ run_more_fuel fl simd n 1 m o h
  onward_more n (threw e m) o h = h
  onward_more n undefined_behaviour o h = h

  never : (m : Machine) (o : Outcome (Unit {0})) → run fl simd 0 m ≢ some o
  unfolding run
  never m o h = cc

  steps-run :
      (k n : ℕ) (m : Machine) (o : Outcome (Unit {0}))
      → run fl simd n m ≡ some o
      → onward n (steps fl simd k m) ≡ some o
  unfolding steps
  steps-run zero n m o h = h
  steps-run (suc k) zero m o h = absurd (never m o h)
  steps-run (suc k) (suc n) m o h = elim (Bool-cases (stopped m)) [
    | inl e ↦ ap (onward (suc n)) (if_on _ _ (stopped m) e) ∙ h
    | inr e ↦
        ap (onward (suc n)) (if_off _ _ (stopped m) e)
        ∙ onward_more n (then_steps k (step fl simd m)) o (
            onward-steps k n (step fl simd m) o (λ i x. steps-run k i x o)
              (sym (run_next n m e) ∙ h))
  ]

  -- A run from other switches.
  same_run :
      (s : Switches) (n : ℕ) (m : Machine) (o : Outcome (Unit {0}))
      → run fl simd n m ≡ some o
      → (p : Outcome (Unit {0})) × (run fl simd n (dress s m) ≡ some p)
        × (dressed bare p ≡ dressed bare o)
  same_run s n m o h =
      mapped_some (dressed bare) (run fl simd n (dress s m)) (dressed bare o)
        (run-bare fl simd simd n m s ∙ ap (Option.map (dressed bare)) h)

  -- The block at the program counter is found, is not empty and is served.
  pub record Found (m : Machine) : Type 0 where
    pub word : ℕ
    pub words : List ℕ
    pub block : DecodedBlock
    pub cache : BlockCache
    pub hit : Translate.translate m.block_cache m.scratchpad m.regs.pc ≡ (some block, cache)
    pub ops_are : block.ops ≡ word ∷ words
    pub serves : Served fl simd (word ∷ words) (record m { block_cache = cache })

  -- What a round makes of a look into the cache.
  abbrev replay_found : Machine → Option DecodedBlock × BlockCache → Outcome (Unit {0})
  replay_found m f =
      let (found, cache) = f in
      let m' = record m { block_cache = cache } in
      elim found [ none ↦ threw sram_out_of_bounds m' | some b ↦ replay fl simd b.ops m' ]

  Found-round :
      (m : Machine) (b : Found m)
      → replay_found m (Translate.translate m.block_cache m.scratchpad m.regs.pc)
        ≡ replay fl simd (b.word ∷ b.words) (record m { block_cache = b.cache })
  Found-round m b =
      ap (replay_found m) b.hit
      ∙ ap (λ ops. replay fl simd ops (record m { block_cache = b.cache })) b.ops_are

  -- A round of `run_fast` that `run` has fuel for.
  round-run :
      (n : ℕ) (m : Machine) (o : Outcome (Unit {0}))
      → (m.verbose ≡ false → Found m)
      → stopped m ≡ false
      → run fl simd (suc n) m ≡ some o
      → (p : Outcome (Unit {0})) × (onward n (fast_round fl simd m) ≡ some p)
        × (dressed bare p ≡ dressed bare o)
  unfolding fast_round stopped
  round-run n m o found e h = elim (Bool-cases m.verbose) [
    | inl v ↦ (o, ap (onward n) (if_on _ _ m.verbose v) ∙ sym (run_next n m e) ∙ h, refl)
    | inr v ↦
        let b = found v in
        let m' = record m { block_cache = b.cache } in
        let (k, l, r) =
          replay-running fl simd b.word b.words m' b.serves (replay-steps fl simd b.words) e in
        let (p, h', same) = same_run (record (worn m) { block_cache = b.cache }) (suc n) m o h in
        (
          p,
          ap (onward n)
                (if_off _ _ m.verbose v ∙ Found-round m b ∙ r ∙ next_steps fl simd k m' _ e refl)
              ∙ onward-steps k n (step fl simd m') p (λ i x. steps-run k i x p)
                  (sym (run_next n m' e) ∙ h'),
          same,
        )
  ]

  -- `run_fast` from the outcome of a round.
  abbrev pub fast_onward : ℕ → Outcome (Unit {0}) → Option (Outcome (Unit {0}))
  fast_onward f o = elim o [
    | done _ m ↦ run_fast fl simd f m
    | threw e m ↦ some (threw e m)
    | undefined_behaviour ↦ some undefined_behaviour
  ]

  fast_on :
      (f n : ℕ) (q p : Outcome (Unit {0}))
      → ((m' : Machine)
          → q ≡ done tt m'
          → run fl simd n m' ≡ some p
          → (r : Outcome (Unit {0})) × (run_fast fl simd f m' ≡ some r)
            × (dressed bare r ≡ dressed bare p))
      → onward n q ≡ some p
      → (r : Outcome (Unit {0})) × (fast_onward f q ≡ some r) × (dressed bare r ≡ dressed bare p)
  fast_on f n (done _ m') p ih h = ih m' refl h
  fast_on f n (threw e m) p ih h = (p, h, refl)
  fast_on f n undefined_behaviour p ih h = (p, h, refl)

  no_fuel : {n : ℕ} → suc n ≤ 0 → ⊥
  no_fuel l = omega arith

  -- `run_fast` ends, with no more rounds than `run` takes steps, and as `run` ends up to the block
  -- cache, the acceleration and the verbose mode's copies: if along its rounds an invariant holds,
  -- over the fuel that is left, by which outside the verbose mode the block at the program counter is
  -- found, is not empty, and each word of it that is replayed is the one that a step would fetch, with
  -- the MMU off and no interrupt pending.
  pub run_fast-run :
      (Inv : ℕ → Machine → Type 0)
      → ((f : ℕ) (m m' : Machine)
          → Inv (suc f) m
          → stopped m ≡ false
          → fast_round fl simd m ≡ done tt m'
          → Inv f m')
      → ((f : ℕ) (m : Machine) → Inv (suc f) m → stopped m ≡ false → m.verbose ≡ false → Found m)
      → (f n : ℕ) (m : Machine) (o : Outcome (Unit {0})) → n ≤ f
      → Inv f m
      → run fl simd n m ≡ some o
      → (p : Outcome (Unit {0})) × (run_fast fl simd f m ≡ some p)
        × (dressed bare p ≡ dressed bare o)
  unfolding run_fast
  run_fast-run Inv kept found f zero m o l i h = absurd (never m o h)
  run_fast-run Inv kept found zero (suc n) m o l i h = absurd (no_fuel l)
  run_fast-run Inv kept found (suc f) (suc n) m o l i h = elim (Bool-cases (stopped m)) [
    | inl e ↦ (o, if_on _ _ (stopped m) e ∙ sym (run_last n m e) ∙ h, refl)
    | inr e ↦
        let (p, g, same) = round-run n m o (found f m i e) e h in
        let (r, t, s) =
          fast_on f n (fast_round fl simd m) p
            (λ m' e' g'. run_fast-run Inv kept found f n m' p (omega arith) (kept f m m' i e e') g')
            g in
        (r, if_off _ _ (stopped m) e ∙ t, s ∙ same)
  ]
