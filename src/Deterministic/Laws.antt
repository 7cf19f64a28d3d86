-- ===== src/Deterministic/Laws.antt =====
-- What the clocks of the engine count, and when a barrier is answered.
use novium_emulator.Base.{
  ℕ, zero, suc, ◌+◌, ◌%◌, ◌^◌, ◌<◌, ◌≤◌, u64, update, ◌≡◌, refl, ap, arith, false, some, List, [],
  ◌∷◌, ◌≢◌,
}
use novium_emulator.Deterministic.{DeterministicEngine, max_cores, new_engine, advance, tick}

-- The sum of the first `n` clocks.
unfoldable pub sum_clocks : ℕ → (ℕ → ℕ) → ℕ
sum_clocks zero f = 0
sum_clocks (suc n) f = sum_clocks n f + f n

sum_clocks-update_out :
    (n i v : ℕ) (f : ℕ → ℕ) → n ≤ i → sum_clocks n (update f i v) ≡ sum_clocks n f
unfolding sum_clocks
sum_clocks-update_out zero i v f h = refl
sum_clocks-update_out (suc n) i v f h = ground (arith, sum_clocks-update_out n i v f)

sum_clocks-update :
    (n i v : ℕ) (f : ℕ → ℕ) → i < n → sum_clocks n (update f i v) + f i ≡ sum_clocks n f + v
unfolding sum_clocks
sum_clocks-update zero i v f h = absurd (omega arith)
sum_clocks-update (suc n) i v f h =
    ground (arith, sum_clocks-update n i v f, sum_clocks-update_out n i v f)

-- The clock of one core is at most the sum.
clock-le-sum : (n i : ℕ) (f : ℕ → ℕ) → i < n → f i ≤ sum_clocks n f
unfolding sum_clocks
clock-le-sum zero i f h = absurd (omega arith)
clock-le-sum (suc n) i f h = ground (arith, clock-le-sum n i f)

-- A run of commits: a core and its cycles each.
unfoldable pub advance_all : DeterministicEngine → List (ℕ × ℕ) → DeterministicEngine
advance_all e [] = e
advance_all e ((core_id, cycles) ∷ rest) = advance_all (advance e core_id cycles) rest

abbrev pub total_cycles : List (ℕ × ℕ) → ℕ
total_cycles [] = 0
total_cycles ((core_id, cycles) ∷ rest) = cycles + total_cycles rest

abbrev pub Counted : DeterministicEngine → ℕ → Type 0
Counted e total = (e.global_clock ≡ total) × (sum_clocks max_cores e.clocks ≡ total)

advance-Counted :
    (e : DeterministicEngine) (total core_id cycles : ℕ)
    → Counted e total
    → total + cycles < 2 ^ 64
    → Counted (advance e core_id cycles) (total + cycles)
unfolding advance
advance-Counted e total core_id cycles (g, s) fits =
    let i = core_id % max_cores in
    let small : i < max_cores = omega arith in
    let below = clock-le-sum max_cores i e.clocks small in
    (
      omega arith,
      omega
          (arith, below, sum_clocks-update max_cores i (u64 (e.clocks i + cycles)) e.clocks small),
    )

advance_all-from :
    (e : DeterministicEngine) (total : ℕ) (ticks : List (ℕ × ℕ))
    → Counted e total
    → total + total_cycles ticks < 2 ^ 64
    → Counted (advance_all e ticks) (total + total_cycles ticks)
unfolding advance_all
advance_all-from e total [] (g, s) fits = (omega arith, omega arith)
advance_all-from e total ((core_id, cycles) ∷ rest) c fits =
    let ih =
      advance_all-from (advance e core_id cycles) (total + cycles) rest
        (advance-Counted e total core_id cycles c (omega arith)) (omega arith) in
    (omega arith, omega arith)

-- From a new engine, whatever cores commit in whatever order, the global clock and the sum of the
-- 16 clocks of the cores are both the number of cycles that were committed, as long as that number
-- fits 64 bits.
pub advance_all-Counted :
    (quantum : ℕ) (ticks : List (ℕ × ℕ))
    → total_cycles ticks < 2 ^ 64
    → Counted (advance_all (new_engine quantum) ticks) (total_cycles ticks)
unfolding new_engine sum_clocks
advance_all-Counted quantum ticks fits =
    let counted = advance_all-from (new_engine quantum) 0 ticks (refl, refl) (omega arith) in
    (omega arith, omega arith)

-- A commit that carries the clock over a multiple of the quantum without ending on one asks for no
-- barrier, however many multiples it passes.
pub tick-skips :
    (e : DeterministicEngine) (core_id cycles : ℕ)
    → e.quantum ≢ 0
    → e.global_clock + cycles < 2 ^ 64
    → (e.global_clock + cycles) % e.quantum ≢ 0
    → tick e core_id cycles ≡ some (false, advance e core_id cycles)
unfolding tick advance
tick-skips e core_id cycles q fits off =
    let w : u64 (e.global_clock + cycles) ≡ e.global_clock + cycles = omega arith in
    ground (arith, ap (λ (n : ℕ). n % e.quantum) w)
