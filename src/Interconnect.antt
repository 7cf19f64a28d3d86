-- ===== src/Interconnect.antt =====
-- include/aiasm/interconnect.h and src/interconnect.cpp: a fabric with a bounded queue of
-- transactions in flight.
pub mod Laws
use novium_emulator.Base.{
  ℕ, zero, suc, ◌+◌, ◌-◌, ◌*◌, ◌/◌, u32, u64, leb, if◌then◌else◌, Bool, true, false, List, [], ◌∷◌,
  ◌++◌, length,
}

pub data FabricProtocol : Type 0 where
  axi4 pcie cxi : FabricProtocol

pub record InterconnectConfig : Type 0 where
  pub protocol : FabricProtocol
  pub data_width : ℕ
  pub latency_cycles : ℕ
  pub max_outstanding : ℕ
  pub burst_len : ℕ

pub record Transaction : Type 0 where
  pub id : ℕ
  pub addr : ℕ
  pub bytes : ℕ
  pub is_write : Bool
  pub issue_cycle : ℕ
  pub complete_cycle : ℕ
  pub proto : FabricProtocol

-- `pending` with the front of the deque first.
pub record Interconnect : Type 0 where
  pub cfg : InterconnectConfig
  pub pending : List Transaction
  pub cur_cycle : ℕ
  pub completed : ℕ
  pub stalled : ℕ

unfoldable pub new_interconnect : InterconnectConfig → Interconnect
new_interconnect cfg = record { cfg = cfg; pending = []; cur_cycle = 0; completed = 0; stalled = 0 }

-- The bytes of one burst, in uint32_t. A zero here is a division by zero in the source.
unfoldable pub burst_bytes : InterconnectConfig → ℕ
burst_bytes cfg = u32 (cfg.data_width * cfg.burst_len)

unfoldable pub bursts_for : InterconnectConfig → ℕ → ℕ
unfolding burst_bytes
bursts_for cfg bytes = u32 (bytes + burst_bytes cfg + 0xFFFFFFFF) / burst_bytes cfg

unfoldable pub latency_for : Interconnect → ℕ → ℕ
unfolding bursts_for
latency_for ic bytes = u32 (ic.cfg.latency_cycles + bursts_for ic.cfg bytes)

-- The Boolean is false under backpressure.
unfoldable pub issue : Interconnect → Transaction → ℕ → Bool × Interconnect
unfolding bursts_for
issue ic t cur_cycle =
    if leb ic.cfg.max_outstanding (length ic.pending)
    then (false, record ic { stalled = u64 (ic.stalled + 1) })
    else (let nt = record t {
      issue_cycle = cur_cycle;
      complete_cycle = u64 (cur_cycle + ic.cfg.latency_cycles + bursts_for ic.cfg t.bytes);
      proto = ic.cfg.protocol;
    } in
        (true, record ic { pending = ic.pending ++ (nt ∷ []); cur_cycle = cur_cycle }))

-- The while loop of `tick`: what is still pending, and how many transactions left the front.
unfoldable pub retire : ℕ → List Transaction → List Transaction × ℕ
retire now [] = ([], 0)
retire now (t ∷ ts) =
    let rest = retire now ts in
    if leb t.complete_cycle now then (rest.0, rest.1 + 1) else (t ∷ ts, 0)

unfoldable pub tick : Interconnect → ℕ → Interconnect
unfolding retire
tick ic cycles =
    let now = u64 (ic.cur_cycle + cycles) in
    let (left, n) = retire now ic.pending in
    record ic { pending = left; cur_cycle = now; completed = u64 (ic.completed + n) }

unfoldable pub outstanding : Interconnect → ℕ
outstanding ic = length ic.pending

unfoldable pub pending_bytes : List Transaction → ℕ
pending_bytes [] = 0
pending_bytes (t ∷ ts) = u64 (t.bytes + pending_bytes ts)

unfoldable pub reset : Interconnect → Interconnect
reset ic = record ic { pending = []; cur_cycle = 0; completed = 0; stalled = 0 }

unfoldable pub configure_fabric : Interconnect → InterconnectConfig → Interconnect
configure_fabric ic cfg = record ic { cfg = cfg }
