-- ===== src/Parallel.antt =====
-- include/aiasm/parallel.h and src/parallel.cpp: the round-robin warp scheduler and the systolic
-- array's count of cycles.
pub mod Laws
use novium_emulator.Base.{
  ℕ, zero, suc, ◌+◌, ◌-◌, ◌*◌, ◌/◌, ◌%◌, u32, u64, ltb, ◌==◌, if◌then◌else◌, Bool, Option, none,
  some, List, [], ◌∷◌, map, length, get_or, set, replicate,
}

-- `state`: 0 is ready, more is the stall cycles that remain.
pub record WarpScheduler : Type 0 where
  pub max_warps_per_sm : ℕ
  pub num_sms : ℕ
  pub state : List ℕ
  pub scheduled : ℕ
  pub stalls : ℕ
  pub rr : ℕ

unfoldable pub reset : WarpScheduler → WarpScheduler
reset w = record w {
  state = replicate (u32 (w.max_warps_per_sm * w.num_sms)) 0;
  scheduled = 0;
  stalls = 0;
  rr = 0;
}

-- The loop of `schedule`, from offset `i` on, with `left` offsets to go.
unfoldable pub find_ready : List ℕ → ℕ → ℕ → ℕ → Option ℕ
find_ready state rr i zero = none
find_ready state rr i (suc left) =
    let rest = find_ready state rr (i + 1) left in
    let id = (rr + i) % length state in if get_or state id 0 == 0 then some id else rest

-- The end of `schedule` with the warp that the loop found, if any. `none` is the answer -1.
unfoldable pub pick : WarpScheduler → Option ℕ → Option ℕ × WarpScheduler
pick w none = (none, w)
pick w (some id) =
    (some id, record w { rr = (id + 1) % length w.state; scheduled = u64 (w.scheduled + 1) })

unfoldable pub schedule : WarpScheduler → Option ℕ × WarpScheduler
unfolding find_ready pick
schedule w = pick w (find_ready w.state w.rr 0 (length w.state))

-- The identifiers are natural numbers here: a negative one is not valid either.
unfoldable pub mark_ready : WarpScheduler → ℕ → WarpScheduler
mark_ready w id = if ltb id (length w.state) then record w { state = set w.state id 0 } else w

unfoldable pub mark_stalled : WarpScheduler → ℕ → ℕ → WarpScheduler
mark_stalled w id cycles =
    if ltb id (length w.state)
    then record w { state = set w.state id cycles; stalls = u64 (w.stalls + 1) }
    else w

unfoldable pub tick_warp : ℕ → ℕ → ℕ
tick_warp cycles s = if ltb 0 s then (if ltb cycles s then s - cycles else 0) else s

unfoldable pub tick : WarpScheduler → ℕ → WarpScheduler
unfolding tick_warp
tick w cycles = record w { state = map (tick_warp cycles) w.state }

unfoldable pub count_ready : List ℕ → ℕ
count_ready [] = 0
count_ready (s ∷ ss) = let rest = count_ready ss in if s == 0 then rest + 1 else rest

unfoldable pub active_warps : WarpScheduler → ℕ
unfolding count_ready
active_warps w = u32 (count_ready w.state)

pub record SystolicArray : Type 0 where
  pub rows : ℕ
  pub cols : ℕ
  pub macs_per_cycle : ℕ
  pub tiles : ℕ
  pub total_cycles : ℕ
  pub pipeline_depth : ℕ

-- The first tiles pay the fill; a later one adds a single cycle. Zero `macs_per_cycle` is a
-- division by zero in the source.
unfoldable pub enqueue_tile : SystolicArray → ℕ × SystolicArray
enqueue_tile a =
    let cycles = u32 (a.rows * a.cols + a.macs_per_cycle + 0xFFFFFFFF) / a.macs_per_cycle in
    let a' = record a { tiles = u64 (a.tiles + 1) } in
    if ltb a.pipeline_depth a.rows
    then (
      cycles,
      record a' {
        pipeline_depth = u32 (a.pipeline_depth + 1);
        total_cycles = u64 (a.total_cycles + cycles);
      },
    )
    else (cycles, record a' { total_cycles = u64 (a.total_cycles + 1) })

-- The first two arguments are the fields of `WarpConfig` that are read.
unfoldable pub configure_warps : ℕ → ℕ → WarpScheduler → WarpScheduler
unfolding reset
configure_warps max_warps_per_sm num_sms w =
    reset (record w { max_warps_per_sm = max_warps_per_sm; num_sms = num_sms })

unfoldable pub configure_array : ℕ → ℕ → ℕ → SystolicArray → SystolicArray
configure_array rows cols macs_per_cycle a = record a {
  rows = rows;
  cols = cols;
  macs_per_cycle = macs_per_cycle;
}

unfoldable pub reset_array : SystolicArray → SystolicArray
reset_array a = record a { tiles = 0; total_cycles = 0; pipeline_depth = 0 }
