-- ===== src/Pipeline/Laws.antt =====
-- The two-bit counters and the reservation stations.
use novium_emulator.Base.{
  ℕ, ◌+◌, ◌<◌, ◌≤◌, ◌%◌, u64, if◌then◌else◌, Bool, true, Option, none, some, List, [], ◌∷◌, ◌≡◌,
  refl, arith, max,
}
use novium_emulator.Pipeline.{
  Pipeline, ReservationStation, occupy, try_issue, commit_from, commit, predict_taken, next_counter,
  update_predictor,
}

-- The number of occupied stations.
unfoldable pub in_flight : List ReservationStation → ℕ
in_flight [] = 0
in_flight (s ∷ ss) = (if s.occupied then 1 else 0) + in_flight ss

-- Counters of two bits stay so, and with branch prediction on, whatever the counter was, two outcomes
-- that agree decide the next prediction of every branch with the same slot.
pub update_predictor-learns :
    (p : Pipeline) (pc other : ℕ) (taken m1 m2 : Bool)
    → ((i : ℕ) → p.bpred i ≤ 3)
    → p.cfg.branch_prediction ≡ true
    → other % 256 ≡ pc % 256
    → let p' = update_predictor (update_predictor p pc taken m1) pc taken m2 in
      ((i : ℕ) → p'.bpred i ≤ 3) × (predict_taken p' other ≡ taken)
unfolding update_predictor predict_taken next_counter
update_predictor-learns p pc other taken m1 m2 inv on same =
    let h = inv (pc % 256) in ((λ i. let hi = inv i in ground (arith, h, hi)), ground (arith, h))

occupy-in_flight :
    (instr now : ℕ) (ss ss' : List ReservationStation)
    → occupy instr now ss ≡ some ss'
    → in_flight ss' ≡ in_flight ss + 1
unfolding occupy in_flight
occupy-in_flight instr now [] ss' h = cc
occupy-in_flight instr now (s ∷ ss) ss' h =
    let ih = occupy-in_flight instr now ss in grind (arith, ih)

-- A stall of one cycle is the sign that no station was free.
issued :
    (p : Pipeline) (instr now : ℕ) (o : Option (List ReservationStation))
    → occupy instr now p.rs ≡ o
    → let r : ℕ × Pipeline = elim o [
      | some rs ↦ (0, record p { rs = rs })
      | none ↦ (1, record p { stalls = u64 (p.stalls + 1) })
    ] in
      in_flight r.1.rs + r.0 ≡ in_flight p.rs + 1
issued p instr now none e = refl
issued p instr now (some rs) e = omega (arith, occupy-in_flight instr now p.rs rs e)

commit_from-in_flight :
    (width now n : ℕ) (ss : List ReservationStation)
    → (n < max width 1)
    → ((commit_from width now n ss).0 + in_flight (commit_from width now n ss).1 ≡ n + in_flight ss)
      × ((commit_from width now n ss).0 ≤ max width 1)
unfolding commit_from in_flight
commit_from-in_flight width now n [] h = (omega arith, omega arith)
commit_from-in_flight width now n (s ∷ ss) h =
    let more = commit_from-in_flight width now (n + 1) ss in
    let same = commit_from-in_flight width now n ss h in grind (arith, more, same)

-- With out-of-order execution on, an issue answers 0 stall cycles and occupies one more station, or
-- answers 1 and occupies no more. A commit frees as many stations as it answers, which is at most
-- the issue width, or one if the width is zero.
pub issue_commit :
    (p : Pipeline) (instr now : ℕ)
    → p.cfg.out_of_order ≡ true
    → (in_flight (try_issue p instr now).1.rs + (try_issue p instr now).0 ≡ in_flight p.rs + 1)
      × ((commit p now).0 + in_flight (commit p now).1.rs ≡ in_flight p.rs)
      × ((commit p now).0 ≤ max p.cfg.issue_width 1)
unfolding try_issue commit
issue_commit p instr now on =
    let c = commit_from-in_flight p.cfg.issue_width now 0 p.rs (omega arith) in
    (rw on (issued p instr now (occupy instr now p.rs) refl), omega (arith, c), c.1)
