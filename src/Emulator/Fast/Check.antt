-- ===== src/Emulator/Fast/Check.antt =====
-- A test of a machine, by running it, that its blocks are the words that `run` would fetch.
use novium_emulator.Base.{
  ℕ, zero, suc, ◌+◌, ◌≤◌, ◌==◌, leb, Bool, true, false, not, Option, none, some, List, [], ◌∷◌, ◌≡◌,
  refl, ap, sym, ◌∙◌, arith, if◌then◌else◌, ◌||◌, ◌&&◌,
}
use novium_emulator.Config.{mmio_base}
use novium_emulator.Memory.{in_bounds, load_word, read32}
use novium_emulator.Bus
use novium_emulator.Interrupt.{pending_interrupt}
use novium_emulator.Translate
use novium_emulator.Translate.{DecodedBlock, BlockCache, is_branch, is_halt}
use novium_emulator.Kernels.{FloatOps, HostSimd}
use novium_emulator.Emulator.{Machine, Outcome, done, threw, undefined_behaviour}
use novium_emulator.Emulator.Basics.{bus_read32, bus_devices, outside_shared}
use novium_emulator.Emulator.Step.{execute, tick_peripherals, run}
use novium_emulator.Emulator.Switched.{dressed}
use novium_emulator.Emulator.Switched.Run.{bare}
use novium_emulator.Emulator.Fast.{stopped, fast_round, run_fast}
use novium_emulator.Emulator.Fast.Runs.{
  Quiet, Served, step-Quiet, after_execute, at_next, halted_stops, if_off,
}
use novium_emulator.Emulator.Fast.Whole.{Found, run_fast-run}

-- The word stands in the scratchpad at the program counter, below the devices.
abbrev pub holds : ℕ → Machine → Bool
holds w m =
    leb (m.regs.pc + 4) mmio_base
    && in_bounds m.scratchpad m.regs.pc 4
    && load_word m.scratchpad.byte m.regs.pc == w

abbrev pub alone : Machine → Bool
alone m = elim m.shared [ none ↦ true | some _ ↦ false ]

abbrev pub idle : Machine → Bool
idle m = elim (pending_interrupt m.intc m.csr) [ none ↦ true | some _ ↦ false ]

abbrev pub quiet : ℕ → Machine → Bool
quiet w m = not m.verbose && not m.mmu.enabled && idle m && alone m && holds w m

holds-fetched :
    (w : ℕ) (m : Machine) → alone m ≡ true → holds w m ≡ true → bus_read32 m.regs.pc m ≡ done w m
unfolding bus_read32 bus_devices outside_shared Bus.read32 Bus.route Bus.is_mmio read32
holds-fetched w m a h = ground arith

pub quiet-Quiet : (w : ℕ) (m : Machine) → quiet w m ≡ true → Quiet w m
quiet-Quiet w m h = record {
  silent = ground arith;
  unmapped = ground arith;
  calm = ground arith;
  fetched = holds-fetched w m (ground arith) (ground arith);
}

done_inj : (m n : Machine) → ◌≡◌ {A = Outcome (Unit {0})} (done tt m) (done tt n) → m ≡ n
done_inj m n e = cc

pub and_left : (a b : Bool) → (a && b) ≡ true → a ≡ true
and_left a b h = ground arith

pub and_right : (a b : Bool) → (a && b) ≡ true → b ≡ true
and_right a b h = ground arith

module _ (fl : FloatOps) (simd : HostSimd) where
  -- `Served`, computed.
  unfoldable pub served : List ℕ → Machine → Bool
  served [] m = true
  served (w ∷ ws) m =
      let rest = λ (s : Machine). served ws s in
      if stopped m
      then true
      else quiet w m && elim (execute fl simd w (at_next fl simd m)) [
        | done _ m' ↦ if is_branch w || is_halt w then true else rest (tick_peripherals m')
        | threw e m' ↦ true
        | undefined_behaviour ↦ true
      ]

  -- `served` of what follows an instruction.
  abbrev goes_on : List ℕ → Bool → Outcome ℕ → Bool
  goes_on ws b o = elim o [
    | done _ m' ↦ if b then true else served ws (tick_peripherals m')
    | threw e m' ↦ true
    | undefined_behaviour ↦ true
  ]

  served-next :
      (ws : List ℕ) (b : Bool) (o : Outcome ℕ) (m' : Machine)
      → after_execute fl simd o ≡ done tt m'
      → b ≡ false
      → goes_on ws b o ≡ true
      → served ws m' ≡ true
  served-next ws true o m' e f h = cc
  served-next ws false (done _ n) m' e f h = ap (served ws) (sym (done_inj _ _ e)) ∙ h
  served-next ws false (threw x n) m' e f h = cc
  served-next ws false undefined_behaviour m' e f h = cc

  served-Served : (ws : List ℕ) (m : Machine) → served ws m ≡ true → Served fl simd ws m
  unfolding served
  served-Served [] m h = tt
  served-Served (w ∷ ws) m h = λ running.
      let b = is_branch w || is_halt w in
      let o = execute fl simd w (at_next fl simd m) in
      let g : (quiet w m && goes_on ws b o) ≡ true =
        sym (if_off true (quiet w m && goes_on ws b o) (stopped m) running) ∙ h in
      let q = quiet-Quiet w m (and_left _ _ g) in
      (
        q,
        λ m' e f. served-Served ws m' (
            served-next ws b o m'
              (sym (step-Quiet fl simd w m (halted_stops fl simd m running) q) ∙ e) f
              (and_right _ _ g)),
      )

  -- The block that is found is not empty and served.
  abbrev found_served : Machine → Option DecodedBlock × BlockCache → Bool
  found_served m f =
      let (found, cache) = f in
      elim found [
        | none ↦ false
        | some b ↦ elim b.ops [
          | [] ↦ false
          | w ∷ ws ↦ served (w ∷ ws) (record m { block_cache = cache })
        ]
      ]

  -- All blocks of the next rounds of `run_fast` are served, as the rounds are run.
  unfoldable pub fair : ℕ → Machine → Bool
  unfolding served
  fair zero m = true
  fair (suc f) m =
      let rest = λ (s : Machine). fair f s in
      if stopped m
      then true
      else found_served m (Translate.translate m.block_cache m.scratchpad m.regs.pc)
        && elim (fast_round fl simd m) [
          | done _ m' ↦ rest m'
          | threw e m' ↦ true
          | undefined_behaviour ↦ true
        ]

  block_Found :
      (m : Machine) (b : DecodedBlock) (c : BlockCache) (ops : List ℕ)
      → Translate.translate m.block_cache m.scratchpad m.regs.pc ≡ (some b, c)
      → b.ops ≡ ops
      → (let t : Bool = elim ops [
        | [] ↦ false
        | w ∷ ws ↦ served (w ∷ ws) (record m { block_cache = c })
      ] in
          t ≡ true)
      → Found fl simd m
  block_Found m b c [] e p h = absurd (cc)
  block_Found m b c (w ∷ ws) e p h = record {
    word = w;
    words = ws;
    block = b;
    cache = c;
    hit = e;
    ops_are = p;
    serves = served-Served (w ∷ ws) (record m { block_cache = c }) h;
  }

  served-Found :
      (m : Machine) (f : Option DecodedBlock × BlockCache)
      → Translate.translate m.block_cache m.scratchpad m.regs.pc ≡ f
      → found_served m f ≡ true
      → Found fl simd m
  served-Found m (none, c) e h = absurd (cc)
  served-Found m (some b, c) e h = block_Found m b c b.ops e refl h

  abbrev fair_after : ℕ → Outcome (Unit {0}) → Bool
  fair_after f o = elim o [ done _ m ↦ fair f m | threw e m ↦ true | undefined_behaviour ↦ true ]

  fair_running :
      (f : ℕ) (m : Machine)
      → stopped m ≡ false
      → fair (suc f) m ≡ true
      → (found_served m (Translate.translate m.block_cache m.scratchpad m.regs.pc)
          && fair_after f (fast_round fl simd m))
        ≡ true
  unfolding fair
  fair_running f m running h =
      sym (
        if_off true
          (found_served m (Translate.translate m.block_cache m.scratchpad m.regs.pc)
            && fair_after f (fast_round fl simd m))
          (stopped m) running)
      ∙ h

  fair-kept :
      (f : ℕ) (m m' : Machine)
      → fair (suc f) m ≡ true
      → stopped m ≡ false
      → fast_round fl simd m ≡ done tt m'
      → fair f m' ≡ true
  unfolding fair
  fair-kept f m m' h running e =
      sym (ap (fair_after f) e) ∙ and_right _ _ (fair_running f m running h)

  fair-Found :
      (f : ℕ) (m : Machine)
      → fair (suc f) m ≡ true
      → stopped m ≡ false
      → m.verbose ≡ false
      → Found fl simd m
  unfolding fair
  fair-Found f m h running v = served-Found m _ refl (and_left _ _ (fair_running f m running h))

  -- `run_fast-run` where the blocks are found to be served by a run of the test.
  pub fair-run :
      (f n : ℕ) (m : Machine) (o : Outcome (Unit {0}))
      → n ≤ f
      → fair f m ≡ true
      → run fl simd n m ≡ some o
      → (p : Outcome (Unit {0})) × (run_fast fl simd f m ≡ some p)
        × (dressed bare p ≡ dressed bare o)
  fair-run = run_fast-run fl simd (λ f m. fair f m ≡ true) fair-kept fair-Found
