-- ===== src/Pipeline.antt =====
-- include/aiasm/pipeline.h and src/pipeline.cpp: the reservation stations and the table of two-bit
-- branch counters. The reorder buffer and the operand fields of a station are never used.
pub mod Laws
use novium_emulator.Base.{
  ℕ, zero, suc, ◌+◌, ◌-◌, ◌%◌, u64, ltb, leb, ◌==◌, if◌then◌else◌, Bool, true, false, not, ◌&&◌,
  test_bit, Option, none, some, List, [], ◌∷◌, update, replicate,
}

pub record ReservationStation : Type 0 where
  pub occupied : Bool
  pub instr : ℕ
  pub issue_cycle : ℕ

pub record PipelineConfig : Type 0 where
  pub out_of_order : Bool
  pub branch_prediction : Bool
  pub issue_width : ℕ

pub record Pipeline : Type 0 where
  pub cfg : PipelineConfig
  pub rs : List ReservationStation
  pub stalls : ℕ
  pub mispredicts : ℕ
  pub bpred : ℕ → ℕ

abbrev pub free_station : ReservationStation
free_station = record { occupied = false; instr = 0; issue_cycle = 0 }

unfoldable pub new_pipeline : PipelineConfig → Pipeline
new_pipeline cfg = record {
  cfg = cfg;
  rs = replicate 8 free_station;
  stalls = 0;
  mispredicts = 0;
  bpred = λ _. 0;
}

-- The branch counters are kept.
unfoldable pub reset : Pipeline → Pipeline
reset p = record p { rs = replicate 8 free_station; stalls = 0; mispredicts = 0 }

-- The first free station takes the instruction.
unfoldable pub occupy : ℕ → ℕ → List ReservationStation → Option (List ReservationStation)
occupy instr now [] = none
occupy instr now (s ∷ ss) =
    let rest = occupy instr now ss in
    if not s.occupied
    then some (record { occupied = true; instr = instr; issue_cycle = now } ∷ ss)
    else elim rest [ none ↦ none | some ss' ↦ some (s ∷ ss') ]

-- The stall cycles, 0 or 1.
unfoldable pub try_issue : Pipeline → ℕ → ℕ → ℕ × Pipeline
unfolding occupy
try_issue p instr now = if not p.cfg.out_of_order then (0, p) else elim (occupy instr now p.rs) [
  | some rs ↦ (0, record p { rs = rs })
  | none ↦ (1, record p { stalls = u64 (p.stalls + 1) })
]

-- The loop of `commit`; `done` instructions are committed so far.
unfoldable pub commit_from : ℕ → ℕ → ℕ → List ReservationStation → ℕ × List ReservationStation
commit_from width now done [] = (done, [])
commit_from width now done (s ∷ ss) =
    let more = commit_from width now (done + 1) ss in
    let same = commit_from width now done ss in
    if s.occupied && leb (u64 (s.issue_cycle + 1)) now
    then (if leb width (done + 1)
        then (done + 1, record s { occupied = false } ∷ ss)
        else (more.0, record s { occupied = false } ∷ more.1))
    else (same.0, s ∷ same.1)

unfoldable pub commit : Pipeline → ℕ → ℕ × Pipeline
unfolding commit_from
commit p now = let (n, rs) = commit_from p.cfg.issue_width now 0 p.rs in (n, record p { rs = rs })

unfoldable pub predict_taken : Pipeline → ℕ → Bool
predict_taken p pc = p.cfg.branch_prediction && test_bit (p.bpred (pc % 256)) 1

unfoldable pub next_counter : Bool → ℕ → ℕ
next_counter taken ctr =
    if taken then (if ltb ctr 3 then ctr + 1 else 3) else if ltb 0 ctr then ctr - 1 else 0

unfoldable pub update_predictor : Pipeline → ℕ → Bool → Bool → Pipeline
unfolding next_counter
update_predictor p pc taken mispredicted = record p {
  bpred = update p.bpred (pc % 256) (next_counter taken (p.bpred (pc % 256)));
  mispredicts = if mispredicted then u64 (p.mispredicts + 1) else p.mispredicts;
}

unfoldable pub configure_pipeline : Pipeline → PipelineConfig → Pipeline
configure_pipeline p cfg = record p { cfg = cfg }
