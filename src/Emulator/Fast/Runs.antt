-- ===== src/Emulator/Fast/Runs.antt =====
-- The blocks that `run_fast` replays against the steps of `run`.
use novium_emulator.Base.{
  ℕ, zero, suc, ◌≤◌, add32, Bool, true, false, Bool-cases, length, inl, inr, none, List, [], ◌∷◌,
  ◌≡◌, refl, ap, sym, ◌∙◌, arith, if◌then◌else◌, ◌||◌,
}
use novium_emulator.Interrupt.{pending_interrupt}
use novium_emulator.Translate.{is_branch, is_halt}
use novium_emulator.Kernels.{FloatOps, HostSimd}
use novium_emulator.Emulator.{
  Machine, Outcome, done, threw, undefined_behaviour, M, pure, ◌>>=◌, ◌>>◌,
}
use novium_emulator.Emulator.Basics.{modify, with_pc, bus_read32}
use novium_emulator.Emulator.Step.{
  take_interrupt, fetch, execute, tick_peripherals, note_before, step,
}
use novium_emulator.Emulator.Fast.{stopped, replay}

-- The MMU is off, no interrupt is pending, and the bus reads the word at the program counter.
pub record Quiet (w : ℕ) (m : Machine) : Type 0 where
  pub silent : m.verbose ≡ false
  pub unmapped : m.mmu.enabled ≡ false
  pub calm : pending_interrupt m.intc m.csr ≡ none
  pub fetched : bus_read32 m.regs.pc m ≡ done w m

pub if_off : {A : Type 0} (x y : A) (b : Bool) → b ≡ false → (if b then x else y) ≡ y
if_off x y b e = rw e refl

pub if_on : {A : Type 0} (x y : A) (b : Bool) → b ≡ true → (if b then x else y) ≡ x
if_on x y b e = rw e refl

-- The rest of a fetch after its read of the bus.
abbrev read_then : Outcome ℕ → Outcome ℕ
read_then (done w m) = done w (with_pc m (add32 m.regs.pc 4))
read_then (threw e m) = threw e m
read_then undefined_behaviour = undefined_behaviour

module _ (fl : FloatOps) (simd : HostSimd) where
  -- What a step makes of the outcome of its instruction.
  abbrev pub after_execute : Outcome ℕ → Outcome (Unit {0})
  after_execute (done _ m) = done tt (tick_peripherals m)
  after_execute (threw e m) = threw e m
  after_execute undefined_behaviour = undefined_behaviour

  abbrev pub at_next : Machine → Machine
  at_next m = with_pc m (add32 m.regs.pc 4)

  calm_step : (m : Machine) → pending_interrupt m.intc m.csr ≡ none → take_interrupt m ≡ m
  unfolding take_interrupt
  calm_step m c = ground arith

  silent_step : (m : Machine) → m.verbose ≡ false → note_before m ≡ m
  unfolding note_before
  silent_step m c = if_off _ _ m.verbose c

  fetched_step :
      (w : ℕ) (m : Machine)
      → m.mmu.enabled ≡ false
      → bus_read32 m.regs.pc m ≡ done w m
      → fetch m ≡ done w (at_next m)
  unfolding fetch
  fetched_step w m u r = if_off _ _ m.mmu.enabled u ∙ ap (λ (o : Outcome ℕ). read_then o) r

  -- The rest of a step after its fetch.
  abbrev rest_of : Outcome ℕ → Outcome (Unit {0})
  rest_of o = elim o [
    | done w m ↦ (do _ ← execute fl simd w; modify tick_peripherals) m
    | threw e m ↦ threw e m
    | undefined_behaviour ↦ undefined_behaviour
  ]

  finished :
      (o : Outcome ℕ)
      → elim o [
        | done _ m ↦ done tt (tick_peripherals m)
        | threw e m ↦ threw e m
        | undefined_behaviour ↦ undefined_behaviour
      ]
        ≡ after_execute o
  finished (done w m) = refl
  finished (threw e m) = refl
  finished undefined_behaviour = refl

  pub step-Quiet :
      (w : ℕ) (m : Machine)
      → m.regs.halt ≡ false
      → Quiet w m
      → step fl simd m ≡ after_execute (execute fl simd w (at_next m))
  unfolding step
  step-Quiet w m running q =
      let begun : note_before (take_interrupt m) ≡ m =
        ap note_before (calm_step m q.calm) ∙ silent_step m q.silent in
      if_off _ _ m.regs.halt running
      ∙ ap (λ (x : Machine). rest_of (fetch x)) begun
      ∙ ap rest_of (fetched_step w m q.unmapped q.fetched)
      ∙ finished (execute fl simd w (at_next m))

  -- `k` steps of `run`, fewer if it stops before.
  unfoldable pub steps : ℕ → M (Unit {0})
  steps zero m = done tt m
  steps (suc k) m = if stopped m then done tt m else elim (step fl simd m) [
    | done _ m' ↦ steps k m'
    | threw e m' ↦ threw e m'
    | undefined_behaviour ↦ undefined_behaviour
  ]

  -- As the block is replayed, the next word is the one that a step would fetch.
  abbrev pub Served : List ℕ → Machine → Type 0
  Served [] m = Unit {0}
  Served (w ∷ ws) m =
      stopped m ≡ false
      → Quiet w m
        × ((m' : Machine)
            → step fl simd m ≡ done tt m'
            → (is_branch w || is_halt w) ≡ false
            → Served ws m')

  -- What `replay` makes of the outcome of an instruction: `b` tells whether the block ends with it.
  abbrev replayed : List ℕ → Bool → Outcome ℕ → Outcome (Unit {0})
  replayed ws b o = elim o [
    | done _ m ↦
        let rest = λ (s : Machine). replay fl simd ws s in
        (modify tick_peripherals >> (if b then pure tt else rest)) m
    | threw e m ↦ threw e m
    | undefined_behaviour ↦ undefined_behaviour
  ]

  pub next_steps :
      (k : ℕ) (m : Machine) (o : Outcome (Unit {0}))
      → stopped m ≡ false
      → step fl simd m ≡ o
      → steps (suc k) m ≡ elim o [
        | done _ m' ↦ steps k m'
        | threw e m' ↦ threw e m'
        | undefined_behaviour ↦ undefined_behaviour
      ]
  unfolding steps
  next_steps k m o running e = if_off _ _ (stopped m) running ∙ rw e refl

  replayed-steps :
      (ws : List ℕ) (b : Bool) (m : Machine) (o : Outcome ℕ)
      → stopped m ≡ false
      → step fl simd m ≡ after_execute o
      → ((m' : Machine)
          → step fl simd m ≡ done tt m'
          → b ≡ false
          → (k : ℕ) × (k ≤ length ws) × (replay fl simd ws m' ≡ steps k m'))
      → (k : ℕ) × (k ≤ length ws) × (replayed ws b o ≡ steps (suc k) m)
  unfolding steps
  replayed-steps ws true m (done c n) running e h =
      (zero, omega arith, sym (next_steps zero m _ running e))
  replayed-steps ws false m (done c n) running e h =
      let (k, l, q) = h (tick_peripherals n) e refl in (k, l, q ∙ sym (next_steps k m _ running e))
  replayed-steps ws b m (threw x n) running e h =
      (zero, omega arith, sym (next_steps zero m _ running e))
  replayed-steps ws b m undefined_behaviour running e h =
      (zero, omega arith, sym (next_steps zero m _ running e))

  pub halted_stops : (m : Machine) → stopped m ≡ false → m.regs.halt ≡ false
  unfolding stopped
  halted_stops m h = ground arith

  -- The replay of a block that is served takes the steps of `run`, at most one for each word, and
  -- one at least if the machine is not stopped.
  pub replay-running :
      (w : ℕ) (ws : List ℕ) (m : Machine)
      → Served (w ∷ ws) m
      → ((m' : Machine)
          → Served ws m'
          → (k : ℕ) × (k ≤ length ws) × (replay fl simd ws m' ≡ steps k m'))
      → stopped m ≡ false
      → (k : ℕ) × (k ≤ length ws) × (replay fl simd (w ∷ ws) m ≡ steps (suc k) m)
  unfolding replay
  replay-running w ws m s ih e =
      let (q, h) = s e in
      let (k, l, p) =
        replayed-steps ws (is_branch w || is_halt w) m (execute fl simd w (at_next m)) e
          (step-Quiet w m (halted_stops m e) q) (λ m' p b. ih m' (h m' p b)) in
      (k, l, if_off _ _ (stopped m) e ∙ p)

  pub replay-steps :
      (ws : List ℕ) (m : Machine)
      → Served ws m
      → (k : ℕ) × (k ≤ length ws) × (replay fl simd ws m ≡ steps k m)
  unfolding replay steps
  replay-steps [] m s = (zero, omega arith, refl)
  replay-steps (w ∷ ws) m s = elim (Bool-cases (stopped m)) [
    | inl e ↦ (zero, omega arith, if_on _ _ (stopped m) e)
    | inr e ↦ let (k, l, p) = replay-running w ws m s (replay-steps ws) e in (suc k, omega arith, p)
  ]
