-- ===== src/Pmc.antt =====
-- include/aiasm/pmc.h and src/pmc.cpp: the performance counters. The ratios are doubles and are
-- left out with the report.
use novium_emulator.Base.{ℕ, ◌+◌, u64, if◌then◌else◌, update, Bool}

pub data PmcEvent : Type 0 where
  cycles instructions branch_mispredicts cache_misses tlb_misses : PmcEvent
  dma_bandwidth warp_stalls systolic_tiles interconnect_stalls : PmcEvent

unfoldable pub event_code : PmcEvent → ℕ
event_code cycles = 0
event_code instructions = 1
event_code branch_mispredicts = 2
event_code cache_misses = 3
event_code tlb_misses = 4
event_code dma_bandwidth = 5
event_code warp_stalls = 6
event_code systolic_tiles = 7
event_code interconnect_stalls = 8

-- The counters by the code of the event.
pub record Pmc : Type 0 where
  pub ctr : ℕ → ℕ

unfoldable pub reset : Pmc
reset = record { ctr = λ _. 0 }

unfoldable pub get : Pmc → PmcEvent → ℕ
unfolding event_code
get p e = p.ctr (event_code e)

unfoldable pub set : Pmc → PmcEvent → ℕ → Pmc
unfolding event_code
set p e v = record { ctr = update p.ctr (event_code e) v }

unfoldable pub inc : Pmc → PmcEvent → ℕ → Pmc
unfolding get set
inc p e v = set p e (u64 (get p e + v))

unfoldable pub on_commit : Pmc → ℕ → Bool → Bool → Pmc
unfolding inc
on_commit p n is_branch_mispredict is_cache_miss =
    let p1 = inc (inc p cycles n) instructions 1 in
    let p2 = if is_branch_mispredict then inc p1 branch_mispredicts 1 else p1 in
    if is_cache_miss then inc p2 cache_misses 1 else p2

unfoldable pub on_tlb_miss : Pmc → Pmc
unfolding inc
on_tlb_miss p = inc p tlb_misses 1

unfoldable pub on_dma : Pmc → ℕ → Pmc
unfolding inc
on_dma p bytes = inc p dma_bandwidth bytes
