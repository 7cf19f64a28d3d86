-- ===== src/Interconnect/Laws.antt =====
-- The capacity of a fabric, and the transactions that it accepts and completes.
use novium_emulator.Base.{
  max, true, refl, ℕ, ◌+◌, ◌<◌, ◌≤◌, ◌^◌, u64, leb, if◌then◌else◌, not, ◌≡◌, arith, List, [], ◌∷◌,
  ◌++◌, length, length-append,
}
use novium_emulator.Interconnect.{Interconnect, Transaction, issue, tick, retire}

length_push : {A : Type 0} (xs : List A) (x : A) → length (xs ++ (x ∷ [])) ≡ length xs + 1
length_push xs x = length-append xs (x ∷ [])

-- A queue that is not above `max_outstanding` stays so; a transaction is refused exactly when the
-- queue is full, and an accepted one makes the queue longer by one.
pub issue_lem :
    (ic : Interconnect) (t : Transaction) (now : ℕ)
    → length ic.pending ≤ ic.cfg.max_outstanding
    → let (accepted, ic') = issue ic t now in
      (length ic'.pending ≤ ic'.cfg.max_outstanding)
      × (length ic'.pending ≡ length ic.pending + (if accepted then 1 else 0))
      × (accepted ≡ not (leb ic.cfg.max_outstanding (length ic.pending)))
unfolding issue
issue_lem ic t now room = let l = length_push ic.pending in grind (arith, l)

-- `retire` only takes from the front: what it leaves and what it counts make up the queue.
retire-length :
    (now : ℕ) (ts : List Transaction) → length (retire now ts).0 + (retire now ts).1 ≡ length ts
unfolding retire
retire-length now [] = omega arith
retire-length now (t ∷ ts) = let ih = retire-length now ts in ground arith

unfoldable pub HeadWaits : ℕ → List Transaction → Type 0
HeadWaits now [] = Unit
HeadWaits now (t ∷ ts) = now < t.complete_cycle

-- The front of what is left after a tick has not completed yet.
pub front_waits : (now : ℕ) (ts : List Transaction) → HeadWaits now (retire now ts).0
unfolding retire HeadWaits
front_waits now [] = tt
front_waits now (t ∷ ts) = let ih = front_waits now ts in ground (arith, ih)

-- A tick loses and invents nothing: what leaves the queue is counted as completed, as long as the
-- count does not wrap, and the transaction then at the front completes after the new time.
pub tick_lem :
    (ic : Interconnect) (cycles : ℕ)
    → ic.completed + length ic.pending < 2 ^ 64
    → let ic' = tick ic cycles in
      (length ic'.pending + ic'.completed ≡ length ic.pending + ic.completed)
      × HeadWaits ic'.cur_cycle ic'.pending
unfolding tick
tick_lem ic cycles fits =
    let now = u64 (ic.cur_cycle + cycles) in
    let e = retire-length now ic.pending in (omega (arith, e), front_waits now ic.pending)

-- The latest completion among some transactions.
abbrev pub latest : List Transaction → ℕ
latest [] = 0
latest (t ∷ ts) = max t.complete_cycle (latest ts)

retire_all : (now : ℕ) (ts : List Transaction) → latest ts ≤ now → retire now ts ≡ ([], length ts)
unfolding retire
retire_all now [] h = refl
retire_all now (t ∷ ts) h =
    let ih = retire_all now ts (omega arith) in
    let passed : leb t.complete_cycle now ≡ true = ground arith in rw passed (rw ih (ground arith))

tick-drains :
    (ic : Interconnect) (cycles : ℕ)
    → latest ic.pending ≤ ic.cur_cycle + cycles
    → ic.cur_cycle + cycles < 2 ^ 64
    → ic.completed + length ic.pending < 2 ^ 64
    → ((tick ic cycles).pending ≡ [])
      × ((tick ic cycles).completed ≡ ic.completed + length ic.pending)
unfolding tick
tick-drains ic cycles late fits counted =
    let now : u64 (ic.cur_cycle + cycles) ≡ ic.cur_cycle + cycles = omega arith in
    let all = retire_all (ic.cur_cycle + cycles) ic.pending late in
    rw now (rw all (refl, omega arith))

latest-retire : (now : ℕ) (ts : List Transaction) → latest (retire now ts).0 ≤ latest ts
unfolding retire
latest-retire now [] = omega arith
latest-retire now (t ∷ ts) = let ih = latest-retire now ts in ground (arith, ih)

-- The clock and the queue after a tick.
tick_clock :
    (ic : Interconnect) (cycles : ℕ)
    → ((tick ic cycles).cur_cycle ≡ u64 (ic.cur_cycle + cycles))
      × (latest (tick ic cycles).pending ≤ latest ic.pending)
unfolding tick
tick_clock ic cycles = (refl, latest-retire (u64 (ic.cur_cycle + cycles)) ic.pending)

-- Ticks one after the other.
unfoldable pub tick_all : Interconnect → List ℕ → Interconnect
tick_all ic [] = ic
tick_all ic (c ∷ cs) = tick_all (tick ic c) cs

abbrev pub total : List ℕ → ℕ
total [] = 0
total (c ∷ cs) = c + total cs

-- Once the ticks, at least one and however the time is cut into them, have reached the latest
-- completion of all transactions in flight, nothing is pending and all that was pending is counted as
-- completed, as long as the clock and the count fit 64 bits.
pub tick_all-drains :
    (ic : Interconnect) (c : ℕ) (cs : List ℕ)
    → latest ic.pending ≤ ic.cur_cycle + (c + total cs)
    → ic.cur_cycle + (c + total cs) < 2 ^ 64
    → ic.completed + length ic.pending < 2 ^ 64
    → ((tick_all ic (c ∷ cs)).pending ≡ [])
      × ((tick_all ic (c ∷ cs)).completed ≡ ic.completed + length ic.pending)
unfolding tick_all
tick_all-drains ic c [] late fits counted = tick-drains ic c (omega arith) (omega arith) counted
tick_all-drains ic c (d ∷ ds) late fits counted =
    let kept = (tick_lem ic c counted).0 in
    let clock = tick_clock ic c in
    let ih =
      tick_all-drains (tick ic c) d ds (omega (arith, clock)) (omega (arith, clock))
        (omega (arith, kept)) in
    (ih.0, omega (arith, ih.1, kept))
