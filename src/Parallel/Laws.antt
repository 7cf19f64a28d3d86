-- ===== src/Parallel/Laws.antt =====
-- The choice of the next warp.
use novium_emulator.Base.{
  ℕ, zero, suc, ◌+◌, ◌-◌, map, ◌<◌, ◌%◌, u64, ◌==◌, Option, none, some, List, [], ◌∷◌, length,
  get_or, ◌≡◌, ◌≢◌, refl, ap, ◌∙◌, arith, if_split,
}
use mathlib.Core.Path.{subst}
use novium_emulator.Parallel.{WarpScheduler, find_ready, schedule, pick, tick, tick_warp}

-- The warp at offset `j` from the round-robin position is stalled.
abbrev pub Stalled : List ℕ → ℕ → ℕ → Type 0
Stalled state rr j = get_or state ((rr + j) % length state) 0 ≢ 0

-- What the loop answers: the first warp from offset `i` on that is ready, or nothing, all the
-- `left` warps being stalled.
abbrev pub Chosen : List ℕ → ℕ → ℕ → ℕ → Option ℕ → Type 0
Chosen state rr i left none = (k : ℕ) → k < left → Stalled state rr (i + k)
Chosen state rr i left (some id) =
    (k : ℕ) × (k < left)
    × (id ≡ (rr + (i + k)) % length state)
    × (get_or state id 0 ≡ 0)
    × ((j : ℕ) → j < k → Stalled state rr (i + j))

-- A property of `i` and of the numbers from `i + 1` on.
extend :
    (P : ℕ → Type 0) (i n : ℕ)
    → P i
    → ((k : ℕ) → k < n → P (i + 1 + k))
    → (k : ℕ) → k < suc n
    → P (i + k)
extend P i n here later zero p = subst P (omega arith) here
extend P i n here later (suc k) p = subst P (omega arith) (later k (omega arith))

step-Chosen :
    (state : List ℕ) (rr i left : ℕ) (r : Option ℕ)
    → Stalled state rr i
    → Chosen state rr (i + 1) left r
    → Chosen state rr i (suc left) r
step-Chosen state rr i left none stalled h = extend (Stalled state rr) i left stalled h
step-Chosen state rr i left (some id) stalled (k, p, same, ready, passed) =
    let e : i + 1 + k ≡ i + suc k = omega arith in
    (
      suc k,
      omega arith,
      same ∙ ap (λ j. (rr + j) % length state) e,
      ready,
      extend (Stalled state rr) i k stalled passed,
    )

find_ready-Chosen :
    (state : List ℕ) (rr i left : ℕ) → Chosen state rr i left (find_ready state rr i left)
unfolding find_ready
find_ready-Chosen state rr i zero = λ k p. elim p [ ]
find_ready-Chosen state rr i (suc left) =
    let id = (rr + i) % length state in
    if_split (Chosen state rr i (suc left)) (get_or state id 0 == 0) (some id)
      (find_ready state rr (i + 1) left)
      (λ t. (
        0,
        omega arith,
        ap (λ j. (rr + j) % length state) (omega arith),
        ground arith,
        λ j p. elim p [ ],
      ))
      (λ f.
        step-Chosen state rr i left (find_ready state rr (i + 1) left) (ground arith)
          (find_ready-Chosen state rr (i + 1) left))

get_or-map :
    (xs : List ℕ) (cycles id : ℕ)
    → get_or (map (tick_warp cycles) xs) id 0 ≡ get_or xs id 0 - cycles
unfolding tick_warp
get_or-map [] cycles id = omega arith
get_or-map (x ∷ xs) cycles zero = ground arith
get_or-map (x ∷ xs) cycles (suc id) = get_or-map xs cycles id

-- What `schedule` answers, and the scheduler after it.
abbrev pub Scheduled : WarpScheduler → Option ℕ × WarpScheduler → Type 0
Scheduled w (none, w') = Chosen w.state w.rr 0 (length w.state) none × (w' ≡ w)
Scheduled w (some id, w') =
    Chosen w.state w.rr 0 (length w.state) (some id)
    × (w'.state ≡ w.state)
    × (w'.rr ≡ (id + 1) % length w.state)
    × (w'.scheduled ≡ u64 (w.scheduled + 1))

pick-Scheduled :
    (w : WarpScheduler) (r : Option ℕ)
    → Chosen w.state w.rr 0 (length w.state) r
    → Scheduled w (pick w r)
unfolding pick
pick-Scheduled w none h = (h, refl)
pick-Scheduled w (some id) h = (h, refl, refl, refl)

-- The warp that `schedule` answers is ready, every warp between the round-robin position and it
-- is stalled, and the position moves behind it. If nothing is answered, every warp in the round is
-- stalled and the scheduler is as before.
pub schedule_lem : (w : WarpScheduler) → Scheduled w (schedule w)
unfolding schedule
schedule_lem w =
    pick-Scheduled w (find_ready w.state w.rr 0 (length w.state))
      (find_ready-Chosen w.state w.rr 0 (length w.state))

-- A tick shortens every stall by the cycles, and a stall that is no longer than them is over.
pub tick_get :
    (w : WarpScheduler) (cycles id : ℕ)
    → get_or (tick w cycles).state id 0 ≡ get_or w.state id 0 - cycles
unfolding tick
tick_get w cycles id = get_or-map w.state cycles id
