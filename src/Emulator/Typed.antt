-- ===== src/Emulator/Typed.antt =====
-- Ranges of the types in the source: registers and program counter in 32 bits, the bytes of the
-- memories and of the received characters in 8, the counters of the profiler and the accumulator of
-- the ticks in 64.
pub mod Devices
pub mod Bus
pub mod Handlers
pub mod Tensor
pub mod Dma
pub mod Step
pub mod Run
use novium_emulator.Base.{
  ℕ, ◌+◌, ◌-◌, ◌^◌, ◌<◌, u64, ◌&&◌, ltb, leb, if◌then◌else◌, update, blit, copy, get_or, All,
  All-append, length, Bool, true, false, Option, none, some, List, [], ◌∷◌, zero, suc, ◌≡◌, refl,
  arith, if_split, ◌==◌, Option-cases, ◌⊎◌, inl, inr,
}
use novium_emulator.Config.{num_gpr}
use novium_emulator.Memory.{Memory, word_bytes, words_bytes, load_word}
use novium_emulator.Registers.{RegisterFile}
use novium_emulator.Registers.Laws.{IsValid, write_gpr-IsValid}
use novium_emulator.Registers
use novium_emulator.Isa.{Opcode, opcode_code}
use novium_emulator.Profiler.{Profiler, record_op}
use novium_emulator.Emulator.{Machine, EmulatorError, Outcome, done, threw, undefined_behaviour, M}
use novium_emulator.Emulator.Basics.{or_undefined, with_regs, with_pc, get_gpr, put_gpr}

abbrev pub Bytes : (ℕ → ℕ) → Type 0
Bytes b = (i : ℕ) → b i < 256

abbrev pub SharedBytes : Option Memory → Type 0
SharedBytes none = Unit
SharedBytes (some r) = Bytes r.byte

-- The profiler's counters, one for each opcode among them.
pub record CountersFit (p : Profiler) : Type 0 where
  pub instrs : p.instr_count < 2 ^ 64
  pub cycles : p.cycle_count < 2 ^ 64
  pub bytes : p.dma_bytes < 2 ^ 64
  pub dma_cycles : p.dma_cycle_count < 2 ^ 64
  pub hist : (i : ℕ) → p.opcode_hist i < 2 ^ 64

pub record IsTyped (m : Machine) : Type 0 where
  pub regs : IsValid m.regs
  pub pad : Bytes m.scratchpad.byte
  pub ram : Bytes m.main_ram.byte
  pub shared : SharedBytes m.shared
  pub rx : All (λ c. c < 256) m.uart.rx_buffer
  pub counters : CountersFit m.profiler
  pub ticks : m.tick_accum < 2 ^ 64

-- The outcome of an operation on such a machine: the machine that is returned or left by an exception
-- is one too, and the value has the property.
abbrev pub Safe : {A : Type 0} → (A → Type 0) → Outcome A → Type 0
Safe P (done a m) = P a × IsTyped m
Safe P (threw e m) = IsTyped m
Safe P undefined_behaviour = Unit

abbrev pub Any : {A : Type 0} → A → Type 0
Any a = Unit {0}

abbrev pub Is32 : ℕ → Type 0
Is32 v = v < 2 ^ 32

-- What follows a safe operation is safe if it is so from every machine and value that it may return.
pub bind-Safe :
    {A B : Type 0} (P : A → Type 0) (Q : B → Type 0) (o : Outcome A) (f : A → M B)
    → Safe P o
    → ((a : A) (m : Machine) → P a → IsTyped m → Safe Q (f a m))
    → Safe Q (elim o [
      | done a m ↦ f a m
      | threw e m ↦ threw e m
      | undefined_behaviour ↦ undefined_behaviour
    ])
bind-Safe P Q (done a m) f h k = k a m h.0 h.1
bind-Safe P Q (threw e m) f h k = h
bind-Safe P Q undefined_behaviour f h k = tt

-- A last operation, and a value after it.
pub last-Safe :
    {A B : Type 0} (o : Outcome A) (b : B)
    → Safe Any o
    → Safe {A = B} Any (elim o [
      | done a m ↦ done b m
      | threw e m ↦ threw e m
      | undefined_behaviour ↦ undefined_behaviour
    ])
last-Safe (done a m) b h = (tt, h.1)
last-Safe (threw e m) b h = h
last-Safe undefined_behaviour b h = tt

-- A change outside the registers, the memories, the received characters, the counters and the
-- accumulator.
pub keeps :
    (m m' : Machine)
    → m'.regs ≡ m.regs
    → m'.scratchpad ≡ m.scratchpad
    → m'.main_ram ≡ m.main_ram
    → m'.shared ≡ m.shared
    → m'.uart.rx_buffer ≡ m.uart.rx_buffer
    → m'.profiler ≡ m.profiler
    → m'.tick_accum ≡ m.tick_accum
    → IsTyped m
    → IsTyped m'
keeps m m' er es em eh eu ep ea t = record {
  regs = rw er t.regs;
  pad = rw es t.pad;
  ram = rw em t.ram;
  shared = rw eh t.shared;
  rx = rw eu t.rx;
  counters = rw ep t.counters;
  ticks = rw ea t.ticks;
}

pub with_regs-IsTyped :
    (m : Machine) (r : RegisterFile) → IsValid r → IsTyped m → IsTyped (with_regs m r)
with_regs-IsTyped m r v t = record {
  regs = v;
  pad = t.pad;
  ram = t.ram;
  shared = t.shared;
  rx = t.rx;
  counters = t.counters;
  ticks = t.ticks;
}

pub with_pc-IsTyped : (m : Machine) (pc : ℕ) → Is32 pc → IsTyped m → IsTyped (with_pc m pc)
with_pc-IsTyped m pc small t =
    with_regs-IsTyped m (record m.regs { pc = pc })
      (record { zero_reg = t.regs.zero_reg; words = t.regs.words; pc_word = small }) t

pub pad-IsTyped :
    (m : Machine) (s : Memory) → Bytes s.byte → IsTyped m → IsTyped (record m { scratchpad = s })
pad-IsTyped m s b t = record {
  regs = t.regs;
  pad = b;
  ram = t.ram;
  shared = t.shared;
  rx = t.rx;
  counters = t.counters;
  ticks = t.ticks;
}

record_op-CountersFit :
    (p : Profiler) (op : Opcode) (cycles bytes : ℕ)
    → CountersFit p
    → CountersFit (record_op p op cycles bytes)
unfolding record_op
record_op-CountersFit p op cycles bytes fit =
    let hist = λ (i : ℕ).
      if_split (λ n. n < 2 ^ 64) (opcode_code op == i) (u64 (p.opcode_hist (opcode_code op) + 1))
        (p.opcode_hist i) (λ _. omega arith) (λ _. fit.hist i) in
    if_split CountersFit (ltb 0 bytes) _ _
      (λ _. record {
        instrs = omega arith;
        cycles = omega arith;
        bytes = omega arith;
        dma_cycles = omega arith;
        hist = hist;
      })
      (λ _. record {
        instrs = omega arith;
        cycles = omega arith;
        bytes = fit.bytes;
        dma_cycles = fit.dma_cycles;
        hist = hist;
      })

pub ticked-IsTyped :
    (m : Machine) (n : ℕ) → n < 2 ^ 64 → IsTyped m → IsTyped (record m { tick_accum = n })
ticked-IsTyped m n small t = record {
  regs = t.regs;
  pad = t.pad;
  ram = t.ram;
  shared = t.shared;
  rx = t.rx;
  counters = t.counters;
  ticks = small;
}

pub counted-IsTyped :
    (m : Machine) (op : Opcode) (cycles bytes : ℕ)
    → IsTyped m
    → IsTyped (record m { profiler = record_op m.profiler op cycles bytes })
counted-IsTyped m op cycles bytes t = record {
  regs = t.regs;
  pad = t.pad;
  ram = t.ram;
  shared = t.shared;
  rx = t.rx;
  counters = record_op-CountersFit m.profiler op cycles bytes t.counters;
  ticks = t.ticks;
}

pub ram-IsTyped :
    (m : Machine) (s : Memory) → Bytes s.byte → IsTyped m → IsTyped (record m { main_ram = s })
ram-IsTyped m s b t = record {
  regs = t.regs;
  pad = t.pad;
  ram = b;
  shared = t.shared;
  rx = t.rx;
  counters = t.counters;
  ticks = t.ticks;
}

get_or-Byte : (xs : List ℕ) (i d : ℕ) → All (λ x. x < 256) xs → d < 256 → get_or xs i d < 256
get_or-Byte [] i d h small = small
get_or-Byte (x ∷ xs) zero d h small = h.0
get_or-Byte (x ∷ xs) (suc i) d h small = get_or-Byte xs i d h.1 small

pub blit-Bytes :
    (b : ℕ → ℕ) (at : ℕ) (src : List ℕ) → Bytes b → All (λ x. x < 256) src → Bytes (blit b at src)
blit-Bytes b at src h small j =
    if_split (λ v. v < 256) (leb at j && ltb j (at + length src)) (get_or src (j - at) (b j)) (b j)
      (λ _. get_or-Byte src (j - at) (b j) small (h j)) (λ _. h j)

pub copy-Bytes :
    (b : ℕ → ℕ) (at : ℕ) (c : ℕ → ℕ) (from n : ℕ) → Bytes b → Bytes c → Bytes (copy b at c from n)
copy-Bytes b at c from n h k j =
    if_split (λ v. v < 256) (leb at j && ltb j (at + n)) (c (from + (j - at))) (b j) (λ _. k _)
      (λ _. h j)

pub word_bytes-Bytes : (w : ℕ) → All (λ x. x < 256) (word_bytes w)
unfolding word_bytes
word_bytes-Bytes w = (omega arith, (omega arith, (omega arith, (omega arith, tt))))

pub words_bytes-Bytes : (ws : List ℕ) → All (λ x. x < 256) (words_bytes ws)
unfolding words_bytes
words_bytes-Bytes [] = tt
words_bytes-Bytes (w ∷ ws) =
    All-append (λ x. x < 256) (word_bytes w) (words_bytes ws) (word_bytes-Bytes w)
      (words_bytes-Bytes ws)

pub load_word-Is32 : (b : ℕ → ℕ) (addr : ℕ) → Bytes b → Is32 (load_word b addr)
unfolding load_word
load_word-Is32 b addr h = omega (arith, h addr, h (addr + 1), h (addr + 2), h (addr + 3))

pub get_gpr-Safe : (i : ℕ) (m : Machine) → IsTyped m → Safe Is32 (get_gpr i m)
unfolding get_gpr Registers.read_gpr
get_gpr-Safe i m t =
    let P = λ (o : Option ℕ). Safe Is32 (or_undefined o m) in
    if_split P (i == 0) (some 0) (if ltb i num_gpr then some (m.regs.gpr i) else none)
      (λ _. (omega arith, t))
      (λ _.
        if_split P (ltb i num_gpr) (some (m.regs.gpr i)) none (λ _. (t.regs.words i, t)) (λ _. tt))

pub put_gpr-Safe : (i v : ℕ) (m : Machine) → Is32 v → IsTyped m → Safe Any (put_gpr i v m)
unfolding put_gpr
put_gpr-Safe i v m small t = elim (Option-cases (Registers.write_gpr m.regs i v)) [
  | inl e ↦ rw e tt
  | inr (r, e) ↦ rw e (tt, with_regs-IsTyped m r (write_gpr-IsValid m.regs i v t.regs small e) t)
]
