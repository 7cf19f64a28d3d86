-- ===== src/Memory.antt =====
-- include/aiasm/memory.h: VirtualSRAM and MainRAM. Both are a size and the bytes below it; `none`
-- is the EmulatorError that `check_bounds` throws. The host is little-endian, so that the memcpy
-- of a uint32_t stores its low byte first.
pub mod Laws
use novium_emulator.Base.{
  ℕ, zero, suc, ◌+◌, ◌*◌, ◌%◌, ◌/◌, u8, ◌>>>◌, ltb, leb, if◌then◌else◌, ◌&&◌, blit, slice, length,
  Bool, Option, none, some, List, [], ◌∷◌, ◌++◌,
}
use novium_emulator.Config.{text_base, text_size, data_base, data_size, tensor_base, tensor_size}

pub record Memory : Type 0 where
  pub size : ℕ
  pub byte : ℕ → ℕ

-- A vector of `total_bytes` zero bytes; also what `clear` leaves.
unfoldable pub fresh : ℕ → Memory
fresh total_bytes = record { size = total_bytes; byte = λ _. 0 }

unfoldable pub clear : Memory → Memory
clear m = record m { byte = λ _. 0 }

-- `check_bounds` passes. The sum is a size_t: it does not wrap at 32 bits.
unfoldable pub in_bounds : Memory → ℕ → ℕ → Bool
in_bounds m addr count = leb (addr + count) m.size

unfoldable pub word_bytes : ℕ → List ℕ
word_bytes w = u8 w ∷ u8 (w >>> 8) ∷ u8 (w >>> 16) ∷ u8 (w >>> 24) ∷ []

-- The memcpy of four bytes into a uint32_t, no bound tested.
unfoldable pub load_word : (ℕ → ℕ) → ℕ → ℕ
load_word b addr = b addr + b (addr + 1) * 256 + b (addr + 2) * 65536 + b (addr + 3) * 16777216

unfoldable pub write_bytes : Memory → ℕ → List ℕ → Option Memory
unfolding in_bounds
write_bytes m addr src =
    if in_bounds m addr (length src) then some (record m { byte = blit m.byte addr src }) else none

unfoldable pub read_bytes : Memory → ℕ → ℕ → Option (List ℕ)
unfolding in_bounds
read_bytes m addr count = if in_bounds m addr count then some (slice m.byte addr count) else none

unfoldable pub write32 : Memory → ℕ → ℕ → Option Memory
unfolding in_bounds word_bytes
write32 m addr value =
    if in_bounds m addr 4
    then some (record m { byte = blit m.byte addr (word_bytes value) })
    else none

unfoldable pub read32 : Memory → ℕ → Option ℕ
unfolding in_bounds load_word
read32 m addr = if in_bounds m addr 4 then some (load_word m.byte addr) else none

-- `load`, and `load_words` over the bytes of the words.
unfoldable pub load : Memory → ℕ → List ℕ → Option Memory
unfolding in_bounds
load m addr src =
    if in_bounds m addr (length src) then some (record m { byte = blit m.byte addr src }) else none

unfoldable pub words_bytes : List ℕ → List ℕ
unfolding word_bytes
words_bytes [] = []
words_bytes (w ∷ ws) = word_bytes w ++ words_bytes ws

unfoldable pub load_words : Memory → ℕ → List ℕ → Option Memory
unfolding load words_bytes
load_words m addr ws = load m addr (words_bytes ws)

unfoldable pub in_text_region : ℕ → Bool
in_text_region addr = leb text_base addr && ltb addr (text_base + text_size)

unfoldable pub in_data_region : ℕ → Bool
in_data_region addr = leb data_base addr && ltb addr (data_base + data_size)

unfoldable pub in_tensor_region : ℕ → Bool
in_tensor_region addr = leb tensor_base addr && ltb addr (tensor_base + tensor_size)
