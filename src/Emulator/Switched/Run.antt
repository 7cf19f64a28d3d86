-- ===== src/Emulator/Switched/Run.antt =====
-- Steps and runs do alike under all switches and with every vector width.
use novium_emulator.Base.{
  ℕ, zero, suc, Bool-cases, inl, inr, Bool, true, false, Option, none, some, ◌≡◌, refl, ap, sym,
  ◌∙◌, arith, if◌then◌else◌, ◌||◌, ◌==◌, add32, ◌/◌,
}
use mathlib.Core.Option
use novium_emulator.Config.{cycles_per_tick}
use novium_emulator.Isa.Enc
use novium_emulator.Mmu.Walk
use novium_emulator.Interrupt.{Trap, inst_page_fault, page_fault_trap}
use novium_emulator.Isa.{Opcode, opcode, opcode_of}
use novium_emulator.Kernels.{FloatOps, HostSimd}
use novium_emulator.Translate.{empty_cache}
use novium_emulator.Emulator.{
  Machine, Outcome, done, threw, undefined_behaviour, M, pure, ◌>>=◌, ◌>>◌,
}
use novium_emulator.Emulator.Basics.{modify, with_pc, bus_read32, enter_trap, trap_base}
use novium_emulator.Emulator.Step.{
  take_interrupt, fetch_at, fetch, handler, account, dma_bytes_of, illegal, execute, tick_once,
  tick_loop, tick_peripherals, note_before, step, run,
}
use novium_emulator.Emulator.Switched.{
  Switches, dress, dressed, Alike, next, bind-Alike, if-dressed,
}
use novium_emulator.Emulator.Switched.Handlers
use novium_emulator.Emulator.Switched.Tensor

module _ (s : Switches) where
  take_interrupt-dress : (m : Machine) → take_interrupt (dress s m) ≡ dress s (take_interrupt m)
  unfolding take_interrupt enter_trap trap_base
  take_interrupt-dress m = ground arith

  fetch_at-Alike : (pa : ℕ) → Alike s (fetch_at pa) (fetch_at pa)
  unfolding fetch_at
  fetch_at-Alike pa m = ground arith

  bus_fetch-Alike :
      (va : ℕ)
      → let c = bus_read32 va >>= λ raw. modify (λ x. with_pc x (add32 x.regs.pc 4)) >> pure raw in
        Alike s c c
  bus_fetch-Alike va = next s (bus_read32 va) _ _ (Handlers.bus_read32-Alike s va) λ raw m. refl

  -- The fetch after its translation.
  mapped-dress :
      (o : Option ℕ) (t : Trap) (m : Machine)
      → ◌≡◌ {A = Outcome ℕ}
          (elim o [
            | some pa ↦ fetch_at pa (dress s m)
            | none ↦ done Enc.nop (enter_trap t (dress s m))
          ])
          (dressed s (elim o [ some pa ↦ fetch_at pa m | none ↦ done Enc.nop (enter_trap t m) ]))
  unfolding enter_trap trap_base
  mapped-dress none t m = refl
  mapped-dress (some pa) t m = fetch_at-Alike pa m

  fetch-Alike : Alike s fetch fetch
  unfolding fetch
  fetch-Alike m =
      let va = m.regs.pc in
      let t = Walk.translate m.csr m.scratchpad va false true m.mmu in
      if-dressed s m.mmu.enabled _ _ _ _
        (mapped-dress t.pa (record (page_fault_trap va va false) { cause = inst_page_fault })
          (record m { mmu = t.mmu }))
        (bus_fetch-Alike va m)

  tick_once-dress : (m : Machine) → tick_once (dress s m) ≡ dress s (tick_once m)
  unfolding tick_once
  tick_once-dress m = refl

  tick_loop-dress : (n : ℕ) (m : Machine) → tick_loop n (dress s m) ≡ dress s (tick_loop n m)
  unfolding tick_loop
  tick_loop-dress zero m = refl
  tick_loop-dress (suc n) m = ground (arith, tick_once-dress m, tick_loop-dress n (tick_once m))

  tick-dress : (m : Machine) → tick_peripherals (dress s m) ≡ dress s (tick_peripherals m)
  unfolding tick_peripherals
  tick-dress m = tick_loop-dress (m.tick_accum / cycles_per_tick) m

  module _ (fl : FloatOps) (simd simd' : HostSimd) where
    handler-Alike : (op : Opcode) (w : ℕ) → Alike s (handler fl simd op w) (handler fl simd' op w)
    unfolding handler
    handler-Alike Opcode.nop w = Handlers.op_nop-Alike s w
    handler-Alike Opcode.halt w = Handlers.op_halt-Alike s w
    handler-Alike Opcode.jmp w = Handlers.op_jmp-Alike s w
    handler-Alike Opcode.beq w = Handlers.op_beq-Alike s w
    handler-Alike Opcode.bne w = Handlers.op_bne-Alike s w
    handler-Alike Opcode.add w = Handlers.op_add-Alike s w
    handler-Alike Opcode.sub w = Handlers.op_sub-Alike s w
    handler-Alike Opcode.mul w = Handlers.op_mul-Alike s w
    handler-Alike Opcode.load w = Handlers.op_load-Alike s w
    handler-Alike Opcode.store w = Handlers.op_store-Alike s w
    handler-Alike Opcode.mov w = Handlers.op_mov-Alike s w
    handler-Alike Opcode.movi w = Handlers.op_movi-Alike s w
    handler-Alike Opcode.load_vr w = Tensor.op_load_vr-Alike s w
    handler-Alike Opcode.store_vr w = Tensor.op_store_vr-Alike s w
    handler-Alike Opcode.vec_add w = Tensor.op_vec_add-Alike s fl simd simd' w
    handler-Alike Opcode.matmul_tile w = Tensor.op_matmul_tile-Alike s fl simd simd' w
    handler-Alike Opcode.dma_load w = Tensor.op_dma_load-Alike s w
    handler-Alike Opcode.dma_store w = Tensor.op_dma_store-Alike s w

    illegal-Alike : (w : ℕ) → Alike s (illegal fl simd w) (illegal fl simd' w)
    unfolding illegal enter_trap trap_base
    illegal-Alike w m = ground arith

    same_bytes : (op : Opcode) (w : ℕ) → dma_bytes_of fl simd op w ≡ dma_bytes_of fl simd' op w
    unfolding dma_bytes_of
    same_bytes Opcode.dma_load w = refl
    same_bytes Opcode.dma_store w = refl
    same_bytes _ w = refl

    executed-Alike :
        (w : ℕ) (o : Option Opcode)
        → let run_op = λ (host : HostSimd).
          let c : M ℕ = elim o [
            | none ↦ illegal fl host w
            | some op ↦ handler fl host op w >>= λ cycles.
                modify (account fl host op w cycles) >> pure cycles
          ] in
          c in
          Alike s (run_op simd) (run_op simd')
    unfolding account
    executed-Alike w none = illegal-Alike w
    executed-Alike w (some op) =
        bind-Alike s (handler fl simd op w) (handler fl simd' op w) _ _ (handler-Alike op w)
          λ cycles m. rw (same_bytes op w) refl

    execute-Alike : (w : ℕ) → Alike s (execute fl simd w) (execute fl simd' w)
    unfolding execute
    execute-Alike w = executed-Alike w (opcode_of (opcode w))

    -- A step from its fetch on.
    cycle-Alike :
        let c =
          λ (host : HostSimd). fetch >>= λ w. execute fl host w >>= λ _. modify tick_peripherals in
        Alike s (c simd) (c simd')
    cycle-Alike =
        bind-Alike s fetch fetch (λ w. execute fl simd w >>= λ _. modify tick_peripherals)
          (λ w. execute fl simd' w >>= λ _. modify tick_peripherals) fetch-Alike
          λ w.
            bind-Alike s (execute fl simd w) (execute fl simd' w) (λ _. modify tick_peripherals)
              (λ _. modify tick_peripherals) (execute-Alike w) λ _ m. ap (done tt) (tick-dress m)

-- The switches of the machine itself.
abbrev pub worn : Machine → Switches
worn m = record {
  accel = m.accel;
  verbose = m.verbose;
  last_pc = m.last_pc;
  last_gpr = m.last_gpr;
  block_cache = m.block_cache;
}

-- All switches off.
abbrev pub bare : Switches
bare = record {
  accel = false;
  verbose = false;
  last_pc = 0;
  last_gpr = λ _. 0;
  block_cache = empty_cache;
}

pub dressed_twice :
    {A : Type 0} (s t : Switches) (o : Outcome A) → dressed s (dressed t o) ≡ dressed s o
dressed_twice s t (done a m) = refl
dressed_twice s t (threw e m) = refl
dressed_twice s t undefined_behaviour = refl

-- What the verbose mode notes is a change of switches.
noted : (m : Machine) → (s : Switches) × (note_before m ≡ dress s m)
unfolding note_before
noted m = elim (Bool-cases m.verbose) [
  | inl e ↦ (
    record {
      accel = m.accel;
      verbose = m.verbose;
      last_pc = m.regs.pc;
      last_gpr = λ i. if i == 0 then 0 else m.regs.gpr i;
      block_cache = m.block_cache;
    },
    rw e refl,
  )
  | inr e ↦ (worn m, rw e refl)
]

module _ (fl : FloatOps) where
  cycle : HostSimd → M (Unit {0})
  cycle host = fetch >>= λ w. execute fl host w >>= λ _. modify tick_peripherals

  cycle-bare :
      (simd simd' : HostSimd) (s t : Switches) (m : Machine)
      → dressed bare (cycle simd (dress s m)) ≡ dressed bare (cycle simd' (dress t m))
  unfolding cycle
  cycle-bare simd simd' s t m =
      ap (dressed bare) (cycle-Alike s fl simd simd' m)
      ∙ dressed_twice bare s (cycle simd' m)
      ∙ sym (dressed_twice bare t (cycle simd' m))
      ∙ sym (ap (dressed bare) (cycle-Alike t fl simd' simd' m))

  -- A step of a machine that has not halted, from what the interrupt leaves.
  begun :
      (simd simd' : HostSimd) (s : Switches) (m : Machine)
      → dressed bare (cycle simd (note_before (dress s m)))
        ≡ dressed bare (cycle simd' (note_before m))
  begun simd simd' s m =
      let (a, p) = noted (dress s m) in
      let (b, q) = noted m in rw p (rw q (cycle-bare simd simd' a b m))

  if-bare :
      (b : Bool) (o p o' p' : Outcome (Unit {0}))
      → dressed bare o ≡ dressed bare o'
      → dressed bare p ≡ dressed bare p'
      → dressed bare (if b then o else p) ≡ dressed bare (if b then o' else p')
  if-bare true o p o' p' h k = h
  if-bare false o p o' p' h k = k

  step-bare :
      (simd simd' : HostSimd) (s : Switches) (m : Machine)
      → dressed bare (step fl simd (dress s m)) ≡ dressed bare (step fl simd' m)
  unfolding step cycle
  step-bare simd simd' s m = if-bare m.regs.halt _ _ _ _ refl (
      ap (λ x. dressed bare (cycle simd (note_before x))) (take_interrupt-dress s m)
      ∙ begun simd simd' s (take_interrupt m))

  -- Two outcomes that are the same but for switches, and the runs that go on from them.
  after_step :
      (o p : Outcome (Unit {0})) (f g : Machine → Option (Outcome (Unit {0})))
      → dressed bare o ≡ dressed bare p
      → ((m : Machine) (s : Switches)
          → Option.map (dressed bare) (f (dress s m)) ≡ Option.map (dressed bare) (g m))
      → let go = λ (q : Outcome (Unit {0})) (h : Machine → Option (Outcome (Unit {0}))).
        let r : Option (Outcome (Unit {0})) = elim q [
          | done _ m ↦ h m
          | threw e m ↦ some (threw e m)
          | undefined_behaviour ↦ some undefined_behaviour
        ] in
        Option.map (dressed bare) r in
        go o f ≡ go p g
  after_step (done _ m) (done _ n) f g e k =
      let same : dress bare m ≡ dress bare n = cc in rw (ap (dress (worn m)) same) (k n (worn m))
  after_step (done _ m) (threw x n) f g e k = cc
  after_step (done _ m) undefined_behaviour f g e k = cc
  after_step (threw x m) (done _ n) f g e k = cc
  after_step (threw x m) (threw y n) f g e k = ap some e
  after_step (threw x m) undefined_behaviour f g e k = cc
  after_step undefined_behaviour (done _ n) f g e k = cc
  after_step undefined_behaviour (threw y n) f g e k = cc
  after_step undefined_behaviour undefined_behaviour f g e k = refl

  -- Whatever the acceleration, the verbose mode, the block cache and the vector width of the host,
  -- `run` ends after as many steps, and in the same way, with the same machine up to these and to the
  -- copies that the verbose mode keeps: registers, floats, memories, counters and devices are equal.
  pub run-bare :
      (simd simd' : HostSimd) (fuel : ℕ) (m : Machine) (s : Switches)
      → Option.map (dressed bare) (run fl simd fuel (dress s m))
        ≡ Option.map (dressed bare) (run fl simd' fuel m)
  unfolding run
  run-bare simd simd' zero m s = refl
  run-bare simd simd' (suc fuel) m s =
      elim (Bool-cases (m.regs.halt || m.debugger.breakpoints m.regs.pc)) [
        | inl e ↦ rw e refl
        | inr e ↦ rw e (
            after_step (step fl simd (dress s m)) (step fl simd' m) (run fl simd fuel)
              (run fl simd' fuel) (step-bare simd simd' s m) (run-bare simd simd' fuel))
      ]
