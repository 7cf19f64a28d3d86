-- ===== src/Translate.antt =====
-- include/aiasm/translate.h: the cache of decoded blocks. A block's key in the map is its first
-- address; the order of the list is of no account.
pub mod Laws
pub mod Exec
use novium_emulator.Base.{
  ℕ, zero, suc, ◌+◌, u32, u64, low_bits, ◌==◌, if◌then◌else◌, Bool, true, false, not, ◌||◌, Option,
  none, some, List, [], ◌∷◌, ◌++◌, length,
}
use novium_emulator.Memory.{Memory, read32}
use novium_emulator.Isa.{Opcode, opcode, opcode_of}

pub record DecodedBlock : Type 0 where
  pub start_pc : ℕ
  pub end_pc : ℕ
  pub ops : List ℕ
  pub ends_with_branch : Bool
  pub ends_with_halt : Bool

pub record BlockCache : Type 0 where
  pub blocks : List DecodedBlock
  pub hits : ℕ
  pub misses : ℕ

-- `clear`, and the value after construction.
unfoldable pub empty_cache : BlockCache
empty_cache = record { blocks = []; hits = 0; misses = 0 }

unfoldable pub find_block : ℕ → List DecodedBlock → Option DecodedBlock
find_block pc [] = none
find_block pc (b ∷ bs) = if b.start_pc == pc then some b else find_block pc bs

unfoldable pub is_halt : ℕ → Bool
unfolding opcode
is_halt w = opcode w == 1

unfoldable pub is_branch : ℕ → Bool
unfolding opcode
is_branch w = (opcode w == 2 || opcode w == 3) || opcode w == 4

unfoldable pub start_block : ℕ → DecodedBlock
start_block pc = record {
  start_pc = pc;
  end_pc = pc;
  ops = [];
  ends_with_branch = false;
  ends_with_halt = false;
}

unfoldable pub push_op : DecodedBlock → ℕ → DecodedBlock
push_op b w = record b { ops = b.ops ++ (w ∷ []); end_pc = u32 (b.end_pc + 4) }

-- The tests after an instruction was added to the block: a halt or a branch ends it, and so does
-- the end of a line of 64 bytes; else `rest` is decoded.
unfoldable pub close_block : ℕ → DecodedBlock → Option DecodedBlock → Option DecodedBlock
unfolding is_halt is_branch
close_block w b rest =
    if is_halt w
    then some (record b { ends_with_halt = true })
    else if is_branch w
    then some (record b { ends_with_branch = true })
    else if low_bits b.end_pc 6 == 0
    then some b
    else rest

-- The loop, with `left` rounds to go; `end_pc` is `cur`. `none` is the error of the memory.
unfoldable pub decode_from : Memory → ℕ → DecodedBlock → Option DecodedBlock
unfolding push_op close_block
decode_from mem zero b = some b
decode_from mem (suc left) b = elim (read32 mem b.end_pc) [
  | none ↦ none
  | some w ↦ close_block w (push_op b w) (decode_from mem left (push_op b w))
]

abbrev pub max_len : ℕ
max_len = 32

-- The end of `translate` on a miss, which is counted before the memory is read.
unfoldable pub store_block : BlockCache → Option DecodedBlock → Option DecodedBlock × BlockCache
store_block c none = (none, record c { misses = u64 (c.misses + 1) })
store_block c (some b) = (some b, record c { misses = u64 (c.misses + 1); blocks = b ∷ c.blocks })

unfoldable pub translate : BlockCache → Memory → ℕ → Option DecodedBlock × BlockCache
unfolding find_block decode_from start_block store_block
translate c mem pc = elim (find_block pc c.blocks) [
  | some b ↦ (some b, record c { hits = u64 (c.hits + 1) })
  | none ↦ store_block c (decode_from mem max_len (start_block pc))
]
