-- ===== src/Memory/Laws.antt =====
-- Reads after writes, the error paths, and the regions.
use novium_emulator.Base.{
  ℕ, ◌+◌, ◌^◌, ◌<◌, ◌≤◌, ltb, ◌≡◌, some, none, arith, false, length, List, ◌⊎◌, ◌↔◌, ◌%◌, ◌/◌, blit,
  blit_in, blit_out, sym, ap, ◌∙◌, slice-blit, ◌&&◌, ◌||◌,
}
use native.Mathlib.Nat.{add-zero}
use novium_emulator.Config.{scratchpad_size}
use novium_emulator.Memory.{
  Memory, write32, read32, write_bytes, read_bytes, word_bytes, load_word, in_text_region,
  in_data_region, in_tensor_region,
}

-- The bytes of a stored word, one by one.
word_at :
    (b : ℕ → ℕ) (addr v : ℕ)
    → let stored = blit b addr (word_bytes v) in
      (stored addr ≡ v % 256)
      × (stored (addr + 1) ≡ v / 256 % 256)
      × (stored (addr + 2) ≡ v / 65536 % 256)
      × (stored (addr + 3) ≡ v / 16777216 % 256)
unfolding word_bytes
word_at b addr v = (
  ap (blit b addr (word_bytes v)) (sym (add-zero addr))
      ∙ blit_in b addr (word_bytes v) 0 (omega arith),
  blit_in b addr (word_bytes v) 1 (omega arith),
  blit_in b addr (word_bytes v) 2 (omega arith),
  blit_in b addr (word_bytes v) 3 (omega arith),
)

-- The four bytes of a word make the word.
pub load_word-blit :
    (b : ℕ → ℕ) (addr v : ℕ) → v < 2 ^ 32 → load_word (blit b addr (word_bytes v)) addr ≡ v
unfolding load_word
load_word-blit b addr v fits = omega (arith, word_at b addr v)

pub load_word-blit_apart :
    (b : ℕ → ℕ) (addr v other : ℕ)
    → (addr + 4 ≤ other) ⊎ (other + 4 ≤ addr)
    → load_word (blit b addr (word_bytes v)) other ≡ load_word b other
unfolding load_word word_bytes
load_word-blit_apart b addr v other apart = ground (
  arith,
  blit_out b addr (word_bytes v) other,
  blit_out b addr (word_bytes v) (other + 1),
  blit_out b addr (word_bytes v) (other + 2),
  blit_out b addr (word_bytes v) (other + 3),
)

-- A 32-bit word that a store wrote at an address reads back, a word disjoint from it is as before, and the size
-- does not change.
pub read32-write32 :
    (m : Memory) (addr v other : ℕ) {m' : Memory}
    → v < 2 ^ 32
    → (addr + 4 ≤ other) ⊎ (other + 4 ≤ addr)
    → write32 m addr v ≡ some m'
    → (read32 m' addr ≡ some v) × (read32 m' other ≡ read32 m other) × (m'.size ≡ m.size)
unfolding write32 read32
read32-write32 m addr v other fits apart h = (
  ground (arith, load_word-blit m.byte addr v),
  ground (arith, load_word-blit_apart m.byte addr v other),
  ground arith,
)

-- A word store, a word load and a block write fail exactly when the access does not lie below the
-- size.
pub bounds_iff :
    (m : Memory) (addr v : ℕ) (src : List ℕ)
    → ((write_bytes m addr src ≡ none) ↔ (m.size < addr + length src))
      × ((write32 m addr v ≡ none) ↔ (m.size < addr + 4))
      × ((read32 m addr ≡ none) ↔ (m.size < addr + 4))
unfolding write32 read32 write_bytes
bounds_iff m addr v src = ground arith

-- A block that a write put at an address reads back whole, and every byte outside it is as before.
pub read_bytes-write_bytes :
    (m : Memory) (addr : ℕ) (src : List ℕ) (i : ℕ) {m' : Memory}
    → (i < addr) ⊎ (addr + length src ≤ i)
    → write_bytes m addr src ≡ some m'
    → (read_bytes m' addr (length src) ≡ some src) × (m'.byte i ≡ m.byte i)
unfolding write_bytes read_bytes
read_bytes-write_bytes m addr src i out h =
    (ground (arith, slice-blit m.byte addr src), ground (arith, blit_out m.byte addr src i))

-- Program text, static data and tensors lie apart, and each lies in a scratchpad of the default
-- size.
pub regions_apart :
    (addr : ℕ)
    → ((in_text_region addr && in_data_region addr) ≡ false)
      × ((in_text_region addr && in_tensor_region addr) ≡ false)
      × ((in_data_region addr && in_tensor_region addr) ≡ false)
      × (((in_text_region addr || in_data_region addr) || in_tensor_region addr)
          ≡ ltb addr scratchpad_size)
unfolding in_text_region in_data_region in_tensor_region
regions_apart addr = ground arith
