-- ===== src/Cache.antt =====
-- include/aiasm/cache.h and src/cache.cpp: a set-associative cache with replacement of the least
-- recently used line, the memory controller's open rows, and the hierarchy of three caches. The
-- coherence protocol and the memory type are only printed, and the `mesi` byte is never used.
pub mod Laws
use novium_emulator.Base.{
  ℕ, zero, suc, ◌+◌, ◌*◌, ◌/◌, ◌%◌, u32, u64, ltb, ◌==◌, if◌then◌else◌, Bool, true, false, ◌&&◌,
  ◌||◌, Option, none, some, List, [], ◌∷◌, length, get_or, set, replicate, map, ◌>>>◌,
}

pub record CacheConfig : Type 0 where
  pub size_bytes : ℕ
  pub line_bytes : ℕ
  pub associativity : ℕ
  pub hit_latency : ℕ
  pub miss_penalty : ℕ

pub record Line : Type 0 where
  pub valid : Bool
  pub dirty : Bool
  pub tag : ℕ
  pub lru : ℕ

pub record CacheStats : Type 0 where
  pub hits : ℕ
  pub misses : ℕ
  pub writebacks : ℕ

pub record Cache : Type 0 where
  pub cfg : CacheConfig
  pub sets : List (List Line)
  pub clock : ℕ
  pub stats : CacheStats

abbrev pub empty_line : Line
empty_line = record { valid = false; dirty = false; tag = 0; lru = 0 }

abbrev pub no_stats : CacheStats
no_stats = record { hits = 0; misses = 0; writebacks = 0 }

-- A configuration with no bytes in a set is a division by zero in the source.
unfoldable pub configure : CacheConfig → Cache
configure cfg = record {
  cfg = cfg;
  sets =
      replicate (cfg.size_bytes / (cfg.line_bytes * cfg.associativity))
        (replicate cfg.associativity empty_line);
  clock = 0;
  stats = no_stats;
}

-- The loop over a set that looks for the tag, with what it does at the first line that has it.
unfoldable pub touch : ℕ → ℕ → Bool → List Line → Option (List Line)
touch tag now is_write [] = none
touch tag now is_write (l ∷ ls) =
    let rest = touch tag now is_write ls in
    if l.valid && l.tag == tag
    then some (record l { lru = now; dirty = l.dirty || is_write } ∷ ls)
    else elim rest [ none ↦ none | some ls' ↦ some (l ∷ ls') ]

-- The loop that looks for the first line with the least `lru`; `best` is the index so far.
unfoldable pub victim_from : List Line → ℕ → ℕ → ℕ → ℕ
victim_from [] i best least = best
victim_from (l ∷ ls) i best least =
    if ltb l.lru least then victim_from ls (i + 1) i l.lru else victim_from ls (i + 1) best least

unfoldable pub victim : List Line → ℕ
unfolding victim_from
victim ls = victim_from ls 0 0 (get_or ls 0 empty_line).lru

abbrev pub filled : ℕ → ℕ → Bool → Line
filled tag now is_write = record { valid = true; dirty = is_write; tag = tag; lru = now }

unfoldable pub set_of : Cache → ℕ → ℕ
set_of c addr = addr / c.cfg.line_bytes % length c.sets

-- The rest of `access` once the loop has found the line or not: a miss replaces the victim.
unfoldable pub finish : Cache → ℕ → Bool → Option (List Line) → Bool × ℕ × Cache
unfolding set_of victim
finish c addr is_write (some ls) = (
  true,
  c.cfg.hit_latency,
  record c {
    sets = set c.sets (set_of c addr) ls;
    clock = u64 (c.clock + 1);
    stats = record c.stats { hits = u64 (c.stats.hits + 1) };
  },
)
finish c addr is_write none =
    let lines = get_or c.sets (set_of c addr) [] in
    let v = victim lines in
    let line = filled (addr / c.cfg.line_bytes) (u64 (c.clock + 1)) is_write in
    (
      false,
      c.cfg.miss_penalty,
      record c {
        sets = set c.sets (set_of c addr) (set lines v line);
        clock = u64 (c.clock + 1);
        stats = record c.stats {
          misses = u64 (c.stats.misses + 1);
          writebacks =
              if (get_or lines v empty_line).dirty
              then u64 (c.stats.writebacks + 1)
              else c.stats.writebacks;
        };
      },
    )

-- `access` with the stall value that the caller passed in, which a cache without sets leaves.
unfoldable pub access : Cache → ℕ → Bool → ℕ → Bool × ℕ × Cache
unfolding set_of finish touch
access c addr is_write stall =
    if length c.sets == 0
    then (true, stall, c)
    else finish c addr is_write (
        touch (addr / c.cfg.line_bytes) (u64 (c.clock + 1)) is_write
          (get_or c.sets (set_of c addr) []))

unfoldable pub flush_line : Line → Line
flush_line l = record l { valid = false; dirty = false }

unfoldable pub flush : Cache → Cache
unfolding flush_line
flush c = record c { sets = map (map flush_line) c.sets }

pub record MemoryController : Type 0 where
  pub t_cas : ℕ
  pub t_rcd : ℕ
  pub t_rp : ℕ
  pub banks : ℕ
  pub row_hits : ℕ
  pub row_misses : ℕ
  pub open_rows : List ℕ

-- The array of open rows starts with zeros, but `reset` fills it with UINT32_MAX.
unfoldable pub new_controller : MemoryController
new_controller = record {
  t_cas = 16;
  t_rcd = 16;
  t_rp = 16;
  banks = 16;
  row_hits = 0;
  row_misses = 0;
  open_rows = replicate 32 0;
}

unfoldable pub reset_controller : MemoryController → MemoryController
reset_controller mc = record mc {
  row_hits = 0;
  row_misses = 0;
  open_rows = replicate 32 0xFFFFFFFF;
}

unfoldable pub access_row : MemoryController → ℕ → ℕ × MemoryController
access_row mc addr =
    let slot = addr / 64 % mc.banks % length mc.open_rows in
    let row = addr >>> 12 in
    if get_or mc.open_rows slot 0 == row
    then (mc.t_cas, record mc { row_hits = u64 (mc.row_hits + 1) })
    else (
      u32 (mc.t_cas + mc.t_rcd + mc.t_rp),
      record mc { row_misses = u64 (mc.row_misses + 1); open_rows = set mc.open_rows slot row },
    )

pub record CacheHierarchy : Type 0 where
  pub l1 : Cache
  pub l2 : Cache
  pub l3 : Cache
  pub mc : MemoryController

unfoldable pub new_hierarchy : CacheHierarchy
unfolding configure new_controller
new_hierarchy = record {
  l1 = configure (config (32 * 1024) 8 1 10);
  l2 = configure (config (256 * 1024) 8 4 20);
  l3 = configure (config (2 * 1024 * 1024) 16 12 40);
  mc = new_controller;
}
  where
    config : ℕ → ℕ → ℕ → ℕ → CacheConfig
    config size ways hit miss = record {
      size_bytes = size;
      line_bytes = 64;
      associativity = ways;
      hit_latency = hit;
      miss_penalty = miss;
    }

-- One access through the levels, with the sum of the stalls.
unfoldable pub access_all : CacheHierarchy → ℕ → Bool → ℕ × CacheHierarchy
access_all h addr is_write =
    let (hit1, s1, l1) = access h.l1 addr is_write 0 in
    let (hit2, s2, l2) = access h.l2 addr is_write s1 in
    let (hit3, s3, l3) = access h.l3 addr is_write s2 in
    let (s4, mc) = access_row h.mc addr in
    if hit1
    then (s1, record h { l1 = l1 })
    else if hit2
    then (u32 (s1 + s2), record h { l1 = l1; l2 = l2 })
    else if hit3
    then (u32 (s1 + s2 + s3), record h { l1 = l1; l2 = l2; l3 = l3 })
    else (u32 (s1 + s2 + s3 + s4), record { l1 = l1; l2 = l2; l3 = l3; mc = mc })

unfoldable pub reset_stats : Cache → Cache
reset_stats c = record c { stats = no_stats }

-- The four arguments are the timings and the number of banks of the configuration.
unfoldable pub configure_controller : ℕ → ℕ → ℕ → ℕ → MemoryController → MemoryController
configure_controller t_cas t_rcd t_rp banks mc = record mc {
  t_cas = t_cas;
  t_rcd = t_rcd;
  t_rp = t_rp;
  banks = banks;
}

unfoldable pub reset_hierarchy : CacheHierarchy → CacheHierarchy
unfolding reset_stats reset_controller
reset_hierarchy h = record {
  l1 = reset_stats h.l1;
  l2 = reset_stats h.l2;
  l3 = reset_stats h.l3;
  mc = reset_controller h.mc;
}
