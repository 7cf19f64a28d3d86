-- ===== src/Mmu.antt =====
-- include/aiasm/mmu.h and src/mmu.cpp: translation of virtual addresses by the TLB, by the simple
-- map of bare mode, or by a walk of three-level page tables in the scratchpad. The CSR file and
-- the scratchpad are attached at construction of the emulator, so the null-pointer branches are
-- left out, and every caller passes a `cause`.
pub mod Walk
pub mod Laws
use novium_emulator.Base.{
  ℕ, zero, suc, ◌+◌, ◌*◌, ◌-◌, ◌%◌, ◌/◌, ◌^◌, u32, u64, bit_or, test_bit, low_bits, ◌<<<◌, ◌>>>◌,
  ◌==◌, ltb, if◌then◌else◌, not, ◌&&◌, ◌||◌, Bool, true, false, Option, none, some, List, [], ◌∷◌,
  ◌++◌, set, replicate, map,
}
use novium_emulator.Csr.{CsrFile, read, csr_satp}
use novium_emulator.Memory.{Memory, load_word}

pub data PageFaultCause : Type 0 where
  no_fault load_access_fault store_access_fault fetch_access_fault : PageFaultCause
  load_page_fault store_page_fault fetch_page_fault : PageFaultCause

-- `PageTableEntry` is its 64-bit word.
unfoldable pub pte_valid : ℕ → Bool
pte_valid raw = test_bit raw 0

unfoldable pub pte_read : ℕ → Bool
pte_read raw = test_bit raw 1

unfoldable pub pte_write : ℕ → Bool
pte_write raw = test_bit raw 2

unfoldable pub pte_execute : ℕ → Bool
pte_execute raw = test_bit raw 3

unfoldable pub pte_user : ℕ → Bool
pte_user raw = test_bit raw 4

unfoldable pub pte_ppn : ℕ → ℕ
pte_ppn raw = low_bits (raw >>> 10) 44

pub record TlbEntry : Type 0 where
  pub vpn : ℕ
  pub ppn : ℕ
  pub perms : ℕ
  pub valid : Bool
  pub asid : ℕ

pub record SimpleMap : Type 0 where
  pub vpn : ℕ
  pub ppn : ℕ
  pub perms : ℕ
  pub valid : Bool

pub record Mmu : Type 0 where
  pub enabled : Bool
  pub tlb : List TlbEntry
  pub tlb_next : ℕ
  pub hits : ℕ
  pub misses : ℕ
  pub last_fault : PageFaultCause
  pub last_fault_va : ℕ
  pub simple_map : List SimpleMap

abbrev pub tlb_size : ℕ
tlb_size = 32

abbrev pub empty_entry : TlbEntry
empty_entry = record { vpn = 0; ppn = 0; perms = 0; valid = false; asid = 0 }

unfoldable pub fresh : Mmu
fresh = record {
  enabled = false;
  tlb = replicate tlb_size empty_entry;
  tlb_next = 0;
  hits = 0;
  misses = 0;
  last_fault = no_fault;
  last_fault_va = 0;
  simple_map = [];
}

unfoldable pub set_enabled : Mmu → Bool → Mmu
set_enabled m en = record m { enabled = en }

-- What `translate` returns: the physical address, if any, the MMU after the call, and what was
-- stored through `cause` (`no_fault` if nothing).
pub record Translation : Type 0 where
  pub pa : Option ℕ
  pub mmu : Mmu
  pub cause : PageFaultCause

-- The bit of `perms` that an access needs: `need` has this one bit.
unfoldable pub need_bit : Bool → Bool → ℕ
need_bit is_write is_fetch = if is_fetch then 2 else if is_write then 1 else 0

-- (ppn << PAGE_SHIFT) | (va & (PAGE_SIZE - 1)), cut to 32 bits.
unfoldable pub page_address : ℕ → ℕ → ℕ
page_address ppn va = u32 (bit_or (ppn <<< 12) (low_bits va 12))

-- The address space of SATP.
unfoldable pub current_asid : CsrFile → ℕ
unfolding read
current_asid c = low_bits (read c csr_satp >>> 44) 16

unfoldable pub entry_matches : ℕ → ℕ → TlbEntry → Bool
entry_matches vpn asid e = e.valid && e.vpn == vpn && e.asid == asid

-- The first entry of the page in the address space.
unfoldable pub find_entry : ℕ → ℕ → List TlbEntry → Option TlbEntry
unfolding entry_matches
find_entry vpn asid [] = none
find_entry vpn asid (e ∷ es) = if entry_matches vpn asid e then some e else find_entry vpn asid es

-- A hit counts only if the permission is there, a miss only if no entry matches.
unfoldable pub tlb_lookup : Mmu → CsrFile → ℕ → ℕ → Option ℕ × Mmu
unfolding find_entry current_asid page_address
tlb_lookup m c va need = elim (find_entry (va >>> 12) (current_asid c) m.tlb) [
  | none ↦ (none, record m { misses = u64 (m.misses + 1) })
  | some e ↦
      if test_bit e.perms need
      then (some (page_address e.ppn va), record m { hits = u64 (m.hits + 1) })
      else (none, m)
]

-- Replacement goes round the entries.
unfoldable pub tlb_insert : Mmu → TlbEntry → Mmu
tlb_insert m e = record m {
  tlb = set m.tlb (m.tlb_next % tlb_size) e;
  tlb_next = u64 (m.tlb_next + 1);
}

unfoldable pub find_map : ℕ → List SimpleMap → Option SimpleMap
find_map vpn [] = none
find_map vpn (s ∷ ss) = if s.valid && s.vpn == vpn then some s else find_map vpn ss

-- A fault that is recorded in the MMU.
unfoldable pub faulted : Mmu → ℕ → PageFaultCause → Translation
faulted m va why = record {
  pa = none;
  mmu = record m { last_fault = why; last_fault_va = va };
  cause = why;
}

-- Bare mode: the simple map, or the identity.
unfoldable pub translate_bare : Mmu → ℕ → Bool → Bool → Translation
unfolding find_map faulted tlb_insert page_address
translate_bare m va is_write is_fetch = elim (find_map (va >>> 12) m.simple_map) [
  | none ↦ record { pa = some va; mmu = m; cause = no_fault }
  | some s ↦
      if is_write && not (test_bit s.perms 1)
      then faulted m va store_page_fault
      else if is_fetch && not (test_bit s.perms 2)
      then faulted m va fetch_page_fault
      else record {
        pa = some (page_address s.ppn va);
        mmu =
            tlb_insert m
              (record { vpn = va >>> 12; ppn = s.ppn; perms = s.perms; valid = true; asid = 0 });
        cause = no_fault;
      }
]

unfoldable pub invalidate : TlbEntry → TlbEntry
invalidate e = record e { valid = false }

unfoldable pub invalidate_page : ℕ → TlbEntry → TlbEntry
unfolding invalidate
invalidate_page vpn e = if e.valid && e.vpn == vpn then invalidate e else e

unfoldable pub tlb_flush : Mmu → Mmu
unfolding invalidate
tlb_flush m = record m { tlb = map invalidate m.tlb; tlb_next = 0 }

unfoldable pub tlb_flush_va : Mmu → ℕ → Mmu
unfolding invalidate_page
tlb_flush_va m va = record m { tlb = map (invalidate_page (va >>> 12)) m.tlb }

-- The entries that `identity_map` appends, from page `i` on.
unfoldable pub identity_entries : ℕ → ℕ → ℕ → ℕ → ℕ → List SimpleMap
identity_entries va_base pa_base zero i perms = []
identity_entries va_base pa_base (suc left) i perms =
    record {
      vpn = u32 (va_base >>> 12 + u32 i);
      ppn = u32 (pa_base >>> 12 + u32 i);
      perms = perms;
      valid = true;
    }
    ∷ identity_entries va_base pa_base left (i + 1) perms

unfoldable pub identity_map : Mmu → ℕ → ℕ → ℕ → ℕ → Mmu
unfolding identity_entries
identity_map m va_base pa_base pages perms = record m {
  simple_map = m.simple_map ++ identity_entries va_base pa_base pages 0 perms;
}
