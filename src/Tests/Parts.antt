-- ===== src/Tests/Parts.antt =====
-- The schedulers, the predictor, the fabric and the devices at concrete inputs.
use novium_emulator.Base.{
  ◌≡◌, ◌<◌, ◌≤◌, ◌+◌, refl, arith, true, false, [], ◌∷◌, length, get_or, replicate,
}
use novium_emulator.Parallel.{WarpScheduler, schedule, tick}
use novium_emulator.Parallel.Laws.{schedule_lem, tick_get, Scheduled}
use novium_emulator.Pipeline.{Pipeline, try_issue, update_predictor, predict_taken, free_station}
use novium_emulator.Pipeline.Laws.{update_predictor-learns, issue_commit, in_flight}
use novium_emulator.Interconnect
use novium_emulator.Interconnect.{Interconnect, Transaction, issue, axi4}
use novium_emulator.Interconnect.Laws.{issue_lem, tick_lem}
use novium_emulator.Devices.{Timer, Uart, timer_tick, timer_read, uart_write}
use novium_emulator.Devices.Laws.{timer_tick-lt-limit, timer_irq_read, uart_write-sent, sent}

-- Warp 0 is stalled for 4 cycles, warp 1 is ready.
abbrev warps : WarpScheduler
warps = record {
  max_warps_per_sm = 2;
  num_sms = 1;
  state = 4 ∷ 0 ∷ [];
  scheduled = 0;
  stalls = 1;
  rr = 0;
}

schedule_lem_example : Scheduled warps (schedule warps)
schedule_lem_example = schedule_lem warps

tick_get_example : get_or (tick warps 3).state 0 0 ≡ 1
tick_get_example = tick_get warps 3 0

abbrev pipe : Pipeline
pipe = record {
  cfg = record { out_of_order = true; branch_prediction = true; issue_width = 1 };
  rs = replicate 8 free_station;
  stalls = 0;
  mispredicts = 0;
  bpred = λ _. 0;
}

update_predictor-learns_example :
    predict_taken (update_predictor (update_predictor pipe 64 true true) 64 true true) 320 ≡ true
update_predictor-learns_example =
    (update_predictor-learns pipe 64 320 true true true (λ i. omega arith) refl refl).1

issue_commit_example :
    (in_flight (try_issue pipe 0 5).1.rs + (try_issue pipe 0 5).0 ≡ in_flight pipe.rs + 1)
issue_commit_example = (issue_commit pipe 0 5 refl).0

abbrev fabric : Interconnect
fabric = record {
  cfg = record {
    protocol = axi4;
    data_width = 64;
    latency_cycles = 2;
    max_outstanding = 1;
    burst_len = 16;
  };
  pending = [];
  cur_cycle = 0;
  completed = 0;
  stalled = 0;
}

abbrev request : Transaction
request = record {
  id = 0;
  addr = 64;
  bytes = 4;
  is_write = false;
  issue_cycle = 0;
  complete_cycle = 0;
  proto = axi4;
}

issue_lem_example :
    length (issue fabric request 0).1.pending ≤ (issue fabric request 0).1.cfg.max_outstanding
issue_lem_example = (issue_lem fabric request 0 (omega arith)).0

tick_lem_example :
    length (Interconnect.tick fabric 10).pending + (Interconnect.tick fabric 10).completed ≡ 0
tick_lem_example = (tick_lem fabric 10 (omega arith)).0

abbrev running : Timer
running = record { count = 9990; limit = 10000; ctrl = true; irq_pending = false }

timer_tick-lt-limit_example : (timer_tick running 1000).count < (timer_tick running 1000).limit
timer_tick-lt-limit_example =
    timer_tick-lt-limit running 1000 (omega arith) (omega arith) (omega arith)

timer_irq_read_example : (timer_read (record running { irq_pending = true }) 12).0 ≡ 1
timer_irq_read_example = (timer_irq_read (record running { irq_pending = true })).0

abbrev console : Uart
console = record { tx_buffer = 72 ∷ []; rx_buffer = []; printed = [] }

uart_write-sent_example : sent (uart_write console 0 10) ≡ 72 ∷ 10 ∷ []
uart_write-sent_example = (uart_write-sent console 0 10 (omega arith)).0
