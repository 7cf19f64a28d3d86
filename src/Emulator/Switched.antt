-- ===== src/Emulator/Switched.antt =====
-- src/emulator.cpp: what of a machine its guest cannot see, which is the acceleration, the verbose
-- mode with the copies that this keeps, and the block cache. Operations do alike whatever these are.
pub mod Handlers
pub mod Tensor
pub mod Run
use novium_emulator.Base.{
  ℕ, Bool, Option, none, some, ◌≡◌, refl, if◌then◌else◌, true, false, ap, ◌∙◌, sym,
}
use novium_emulator.Translate.{BlockCache}
use novium_emulator.Emulator.{
  Machine, EmulatorError, Outcome, done, threw, undefined_behaviour, M, pure, ◌>>=◌,
}
use novium_emulator.Emulator.Basics.{or_throw, or_undefined, modify}

pub record Switches : Type 0 where
  pub accel : Bool
  pub verbose : Bool
  pub last_pc : ℕ
  pub last_gpr : ℕ → ℕ
  pub block_cache : BlockCache

abbrev pub dress : Switches → Machine → Machine
dress s m = record m {
  accel = s.accel;
  verbose = s.verbose;
  last_pc = s.last_pc;
  last_gpr = s.last_gpr;
  block_cache = s.block_cache;
}

-- The outcome with its machine dressed.
abbrev pub dressed : {A : Type 0} → Switches → Outcome A → Outcome A
dressed s (done a m) = done a (dress s m)
dressed s (threw e m) = threw e (dress s m)
dressed s undefined_behaviour = undefined_behaviour

-- The two calls do alike on a machine and on the same machine with other switches.
abbrev pub Alike : {A : Type 0} → Switches → M A → M A → Type 0
Alike s c d = (m : Machine) → c (dress s m) ≡ dressed s (d m)

-- Two outcomes, one the other dressed, and the calls that go on from them.
pub after-Alike :
    {A B : Type 0} (s : Switches) (o p : Outcome A) (f g : A → M B)
    → o ≡ dressed s p
    → ((a : A) → Alike s (f a) (g a))
    → ◌≡◌ {A = Outcome B}
        (elim o [
          | done a m ↦ f a m
          | threw e m ↦ threw e m
          | undefined_behaviour ↦ undefined_behaviour
        ])
        (dressed s (elim p [
          | done a m ↦ g a m
          | threw e m ↦ threw e m
          | undefined_behaviour ↦ undefined_behaviour
        ]))
after-Alike s o (done a m) f g e h = rw e (h a m)
after-Alike s o (threw x m) f g e h = rw e refl
after-Alike s o undefined_behaviour f g e h = rw e refl

module _ (s : Switches) where
  pub bind-Alike :
      {A B : Type 0} (c d : M A) (f g : A → M B)
      → Alike s c d
      → ((a : A) → Alike s (f a) (g a))
      → Alike s (c >>= f) (d >>= g)
  bind-Alike c d f g h k m = after-Alike s (c (dress s m)) (d m) f g (h m) k

  pub pure-Alike : {A : Type 0} (a : A) → Alike s (pure a) (pure a)
  pure-Alike a m = refl

  pub modify-Alike :
      (f g : Machine → Machine)
      → ((m : Machine) → f (dress s m) ≡ dress s (g m))
      → Alike s (modify f) (modify g)
  modify-Alike f g h m = ap (done tt) (h m)

  -- One branch or the other, on both sides alike.
  pub if-dressed :
      {A : Type 0} (b : Bool) (o p o' p' : Outcome A)
      → o ≡ dressed s o'
      → p ≡ dressed s p'
      → (if b then o else p) ≡ dressed s (if b then o' else p')
  if-dressed true o p o' p' h k = h
  if-dressed false o p o' p' h k = k

  -- A call that is alike, and others after it.
  pub next :
      {A B : Type 0} (c : M A) (f g : A → M B)
      → Alike s c c
      → ((a : A) → Alike s (f a) (g a))
      → Alike s (c >>= f) (c >>= g)
  next c f g h k = bind-Alike c c f g h k

  -- What a handler does with the result of a translation.
  pub option-Alike :
      {A B : Type 0} (o : Option A) (c d : M B) (f g : A → M B)
      → Alike s c d
      → ((a : A) → Alike s (f a) (g a))
      → Alike s
          (let x : M B = elim o [ none ↦ c | some a ↦ f a ] in x)
          (let x : M B = elim o [ none ↦ d | some a ↦ g a ] in x)
  option-Alike none c d f g h k = h
  option-Alike (some a) c d f g h k = k a
