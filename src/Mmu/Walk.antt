-- ===== src/Mmu/Walk.antt =====
-- src/mmu.cpp, `walk` and `translate`.
use novium_emulator.Base.{
  ℕ, zero, suc, ◌+◌, ◌*◌, ◌^◌, u32, low_bits, ◌>>>◌, ltb, ◌==◌, if◌then◌else◌, not, ◌&&◌, ◌||◌,
  Bool, true, false, none, some,
}
use novium_emulator.Csr.{CsrFile, read, csr_satp, PrivilegeLevel, Privilege, level}
use novium_emulator.Memory.{Memory, load_word}
use novium_emulator.Mmu.{
  Mmu, Translation, PageFaultCause, no_fault, load_access_fault, load_page_fault, store_page_fault,
  fetch_page_fault, pte_valid, pte_read, pte_write, pte_execute, pte_user, pte_ppn, need_bit,
  page_address, current_asid, tlb_lookup, tlb_insert, faulted, translate_bare,
}

-- The memcpy of a page table entry.
unfoldable pub load_pte : Memory → ℕ → ℕ
unfolding load_word
load_pte ram addr = load_word ram.byte addr + load_word ram.byte (addr + 4) * 2 ^ 32

unfoldable pub is_user : Privilege → Bool
is_user (level PrivilegeLevel.user) = true
is_user other = false

-- The permission bits that the TLB keeps.
unfoldable pub pte_perms : ℕ → ℕ
unfolding pte_read pte_write pte_execute pte_user
pte_perms raw =
    (if pte_read raw then 1 else 0)
    + (if pte_write raw then 2 else 0)
    + (if pte_execute raw then 4 else 0)
    + (if pte_user raw then 8 else 0)

unfoldable pub invalid_cause : Bool → Bool → PageFaultCause
invalid_cause is_write is_fetch =
    if is_fetch then fetch_page_fault else if is_write then store_page_fault else load_page_fault

module _ (c : CsrFile) (ram : Memory) (va : ℕ) (is_write is_fetch : Bool) where
  -- The checks at a leaf, and the TLB entry. The fault of the user bit is not recorded.
  unfoldable pub walk_leaf : Mmu → ℕ → Translation
  unfolding pte_read pte_write pte_execute pte_user pte_ppn pte_perms faulted tlb_insert
      page_address is_user current_asid
  walk_leaf m raw =
      if is_write && not (pte_write raw)
      then faulted m va store_page_fault
      else if is_fetch && not (pte_execute raw)
      then faulted m va fetch_page_fault
      else if (not is_write && not is_fetch) && not (pte_read raw)
      then faulted m va load_page_fault
      else if is_user c.priv && not (pte_user raw)
      then record { pa = none; mmu = m; cause = load_page_fault }
      else record {
        pa = some (page_address (pte_ppn raw) va);
        mmu = tlb_insert m (record {
          vpn = va >>> 12;
          ppn = pte_ppn raw;
          perms = pte_perms raw;
          valid = true;
          asid = current_asid c;
        });
        cause = no_fault;
      }

  -- The loop, with the table of level `below` of the clause at page `cur_ppn`.
  unfoldable pub walk_from : Mmu → ℕ → ℕ → Translation
  unfolding walk_leaf load_pte faulted invalid_cause pte_valid pte_ppn
  walk_from m zero cur_ppn = faulted m va load_page_fault
  walk_from m (suc below) cur_ppn =
      let pte_addr = cur_ppn * 4096 + low_bits (va >>> (12 + 9 * below)) 9 * 8 in
      let raw = load_pte ram (u32 pte_addr) in
      let rest = walk_from m below (pte_ppn raw) in
      if ltb ram.size (pte_addr + 8)
      then faulted m va load_access_fault
      else if not (pte_valid raw)
      then faulted m va (invalid_cause is_write is_fetch)
      else if (pte_read raw || pte_write raw) || pte_execute raw
      then walk_leaf m raw
      else rest

  unfoldable pub walk : Mmu → Translation
  unfolding walk_from read
  walk m = walk_from m 3 (low_bits (read c csr_satp) 44)

  unfoldable pub translate : Mmu → Translation
  unfolding tlb_lookup need_bit walk translate_bare read
  translate m =
      let (hit, m') = tlb_lookup m c va (need_bit is_write is_fetch) in
      elim hit [
        | some pa ↦ record { pa = some pa; mmu = m'; cause = no_fault }
        | none ↦
            if not m'.enabled || read c csr_satp == 0
            then translate_bare m' va is_write is_fetch
            else walk m'
      ]
