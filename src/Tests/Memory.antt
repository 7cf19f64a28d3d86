-- ===== src/Tests/Memory.antt =====
-- The memories, the TLB, the caches and the bus at concrete inputs.
use novium_emulator.Base.{◌≡◌, refl, arith, none, some, inl, [], ◌∷◌, true, false, blit}
use novium_emulator.Csr.{after_reset}
use novium_emulator.Memory.{Memory, read32, write32, write_bytes, read_bytes, word_bytes}
use novium_emulator.Memory.Laws.{read32-write32, read_bytes-write_bytes, bounds_iff}
use novium_emulator.Mmu
use novium_emulator.Mmu.{Mmu, tlb_flush, tlb_lookup, find_entry, current_asid}
use novium_emulator.Mmu.Walk.{walk}
use novium_emulator.Mmu.Laws.{tlb_flush_lem, walk_served}
use novium_emulator.Bus
use novium_emulator.Bus.{Device, route}
use novium_emulator.Bus.Laws.{bus-read32-write32}
use novium_emulator.Translate.{
  translate, empty_cache, decode_from, start_block, max_len, DecodedBlock,
}
use novium_emulator.Translate.Laws.{decode_block, translate-translate, AreDecoded}
use novium_emulator.Cache.{Cache, empty_line, set_of, access}
use novium_emulator.Cache.Laws.{access_lem, Answers}

abbrev page : Memory
page = record { size = 64; byte = λ _. 0 }

abbrev word_at_8 : Memory
word_at_8 = record page { byte = blit page.byte 8 (word_bytes 77) }

read32-write32_example : read32 word_at_8 8 ≡ some 77
unfolding write32
read32-write32_example = (read32-write32 page 8 77 12 (omega arith) (inl (omega arith)) refl).0

read_bytes-write_bytes_example :
    read_bytes (record page { byte = blit page.byte 8 (1 ∷ 2 ∷ []) }) 8 2 ≡ some (1 ∷ 2 ∷ [])
unfolding write_bytes
read_bytes-write_bytes_example =
    (read_bytes-write_bytes page 8 (1 ∷ 2 ∷ []) 0 (inl (omega arith)) refl).0

bounds_iff_example : read32 page 61 ≡ none
bounds_iff_example = (bounds_iff page 61 0 []).2.1 (omega arith)

tlb_flush_lem_example :
    tlb_lookup (tlb_flush Mmu.fresh) after_reset 4096 0
    ≡ (none, record (tlb_flush Mmu.fresh) { misses = 1 })
unfolding Mmu.fresh
tlb_flush_lem_example = tlb_flush_lem Mmu.fresh after_reset 4096 0

-- The root table is page 0, and its first entry maps the first gigabyte to page 1: valid, readable,
-- writable and executable.
abbrev tables : Memory
tables = record { size = 4096; byte = blit (λ _. 0) 0 (0x0F ∷ 0x04 ∷ []) }

walk_served_example :
    (tlb_lookup (walk after_reset tables 12 false false Mmu.fresh).mmu after_reset 12 0).0
    ≡ some 4108
unfolding Mmu.fresh walk find_entry after_reset Mmu.need_bit
walk_served_example = walk_served after_reset tables 12 false false Mmu.fresh 4108 refl refl refl

abbrev silent : Device Memory
silent = record { base = 0x3F00000; size = 0x1000; on_read = none; on_write = none }

bus-read32-write32_example :
    (s' : Memory) × (Bus.write32 (λ s. s) (λ _ r. r) (silent ∷ []) 8 77 page ≡ some s')
    × (Bus.read32 (λ s. s) (λ _ r. r) (silent ∷ []) 8 s' ≡ some (77, s'))
unfolding route
bus-read32-write32_example =
    bus-read32-write32 (λ s. s) (λ _ r. r) (silent ∷ []) 8 77 page (λ t r. refl) refl (omega arith)
      (omega arith)

decode_block_example : AreDecoded page 0 max_len (decode_from page max_len (start_block 0))
decode_block_example = decode_block page 0 (omega arith)

-- A block that ends with HALT at once.
abbrev halting : Memory
halting = record page { byte = blit page.byte 0 (0 ∷ 0 ∷ 0 ∷ 4 ∷ []) }

abbrev halt_block : DecodedBlock
halt_block = record {
  start_pc = 0;
  end_pc = 4;
  ops = 0x04000000 ∷ [];
  ends_with_branch = false;
  ends_with_halt = true;
}

translate-translate_example :
    translate (translate empty_cache halting 0).1 page 0
    ≡ (some halt_block, record (translate empty_cache halting 0).1 { hits = 1 })
unfolding translate empty_cache read32
translate-translate_example =
    translate-translate empty_cache halting page 0 halt_block (omega arith) refl

-- Two sets of one line of 64 bytes.
abbrev tiny : Cache
tiny = record {
  cfg = record {
    size_bytes = 128;
    line_bytes = 64;
    associativity = 1;
    hit_latency = 1;
    miss_penalty = 10;
  };
  sets = (empty_line ∷ []) ∷ (empty_line ∷ []) ∷ [];
  clock = 0;
  stats = record { hits = 0; misses = 0; writebacks = 0 };
}

access_lem_example : Answers tiny 100 (access tiny 100 true 0)
unfolding set_of
access_lem_example = access_lem tiny 100 0 true (omega arith) (omega arith)
