-- ===== src/Mmu/Laws.antt =====
-- The flushes of the TLB, the permissions that a walk grants, and what the TLB serves after it.
use novium_emulator.Base.{
  ℕ, zero, suc, ◌+◌, ◌*◌, low_bits, u32, ltb, ◌<◌, ◌%◌, u64, test_bit, ◌>>>◌, if◌then◌else◌,
  if_split, not, ◌&&◌, ◌||◌, Bool, true, false, Option, none, some, List, [], ◌∷◌, map, set, length,
  ◌≡◌, ◌≢◌, refl, arith,
}
use mathlib.Core.Path.{subst}
use novium_emulator.Csr.{CsrFile, read, csr_satp}
use novium_emulator.Memory.{Memory}
use novium_emulator.Mmu.{
  Mmu, TlbEntry, load_access_fault, pte_valid, Translation, PageFaultCause, pte_read, pte_write,
  pte_execute, pte_user, pte_ppn, need_bit, page_address, current_asid, entry_matches, find_entry,
  tlb_lookup, tlb_insert, tlb_size, faulted, invalidate, invalidate_page, tlb_flush,
}
use novium_emulator.Mmu.Walk.{
  is_user, pte_perms, load_pte, invalid_cause, walk_leaf, walk_from, walk,
}

find_entry-invalidate :
    (vpn asid : ℕ) (es : List TlbEntry) → find_entry vpn asid (map invalidate es) ≡ none
unfolding find_entry invalidate
find_entry-invalidate vpn asid [] = refl
find_entry-invalidate vpn asid (e ∷ es) = find_entry-invalidate vpn asid es

-- After a flush no lookup hits, whatever the address, the address space and the permission: each
-- one counts a miss and leaves the TLB alone.
pub tlb_flush_lem :
    (m : Mmu) (c : CsrFile) (va need : ℕ)
    → tlb_lookup (tlb_flush m) c va need
      ≡ (none, record (tlb_flush m) { misses = u64 (m.misses + 1) })
unfolding tlb_lookup tlb_flush
tlb_flush_lem m c va need =
    let e = find_entry-invalidate (va >>> 12) (current_asid c) m.tlb in ground (arith, e)

pub find_entry-flush_page :
    (vpn other asid : ℕ) (es : List TlbEntry)
    → (find_entry vpn asid (map (invalidate_page vpn) es) ≡ none)
      × (other ≢ vpn
          → find_entry other asid (map (invalidate_page vpn) es) ≡ find_entry other asid es)
unfolding find_entry invalidate_page
find_entry-flush_page vpn other asid [] = (refl, λ _. refl)
find_entry-flush_page vpn other asid (e ∷ es) =
    let ih = find_entry-flush_page vpn other asid es in
    (ground (arith, ih.0), λ ne. let f = ih.1 ne in ground (arith, f, ne))

find_entry-set :
    (vpn asid : ℕ) (e : TlbEntry) (es : List TlbEntry) (i : ℕ)
    → find_entry vpn asid es ≡ none
    → entry_matches vpn asid e ≡ true
    → i < length es
    → find_entry vpn asid (set es i e) ≡ some e
unfolding find_entry
find_entry-set vpn asid e [] i miss match_e h = elim h [ ]
find_entry-set vpn asid e (x ∷ es) zero miss match_e h = ground (arith, match_e)
find_entry-set vpn asid e (x ∷ es) (suc i) miss match_e h =
    let ih = find_entry-set vpn asid e es i in ground (arith, ih)

insert-lookup :
    (m : Mmu) (c : CsrFile) (va need : ℕ) (e : TlbEntry)
    → find_entry (va >>> 12) (current_asid c) m.tlb ≡ none
    → length m.tlb ≡ tlb_size
    → entry_matches (va >>> 12) (current_asid c) e ≡ true
    → test_bit e.perms need ≡ true
    → (tlb_lookup (tlb_insert m e) c va need).0 ≡ some (page_address e.ppn va)
unfolding tlb_lookup tlb_insert
insert-lookup m c va need e miss full same granted =
    let found =
      find_entry-set (va >>> 12) (current_asid c) e m.tlb (m.tlb_next % tlb_size) miss same
        (omega arith) in
    ground (arith, found)

packed_bits :
    (r w x u : Bool)
    → let p =
        (if r then 1 else 0) + (if w then 2 else 0) + (if x then 4 else 0) + (if u then 8 else 0) in
      (test_bit p 0 ≡ r) × (test_bit p 1 ≡ w) × (test_bit p 2 ≡ x)
packed_bits r w x u = ground arith

-- The permission bits that the TLB keeps are those of the entry.
perms_bits :
    (raw : ℕ)
    → (test_bit (pte_perms raw) 0 ≡ pte_read raw)
      × (test_bit (pte_perms raw) 1 ≡ pte_write raw)
      × (test_bit (pte_perms raw) 2 ≡ pte_execute raw)
unfolding pte_perms pte_read pte_write pte_execute
perms_bits raw = packed_bits (pte_read raw) (pte_write raw) (pte_execute raw) (pte_user raw)

granted_bits :
    (w f r w' x : Bool) (p : ℕ)
    → (w && not w') ≡ false
    → (f && not x) ≡ false
    → ((not w && not f) && not r) ≡ false
    → test_bit p 0 ≡ r
    → test_bit p 1 ≡ w'
    → test_bit p 2 ≡ x
    → test_bit p (if f then 2 else if w then 1 else 0) ≡ true
granted_bits true true r w' true p hw hf hr b0 b1 b2 = b2
granted_bits false true r w' true p hw hf hr b0 b1 b2 = b2
granted_bits true true r w' false p hw hf hr b0 b1 b2 = cc
granted_bits false true r w' false p hw hf hr b0 b1 b2 = cc
granted_bits true false r true x p hw hf hr b0 b1 b2 = b1
granted_bits true false r false x p hw hf hr b0 b1 b2 = cc
granted_bits false false true w' x p hw hf hr b0 b1 b2 = b0
granted_bits false false false w' x p hw hf hr b0 b1 b2 = cc

-- What the MMU serves from the TLB after a translation that gave an address.
abbrev pub ServedAs : CsrFile → ℕ → ℕ → Mmu → Option ℕ → Type 0
ServedAs c va need m none = Unit
ServedAs c va need m (some pa) = (tlb_lookup m c va need).0 ≡ some pa

unfoldable pub Served : CsrFile → ℕ → ℕ → Translation → Type 0
Served c va need t = ServedAs c va need t.mmu t.pa

none-Served :
    (c : CsrFile) (va need : ℕ) (m : Mmu) (why : PageFaultCause)
    → Served c va need (record { pa = none; mmu = m; cause = why })
unfolding Served
none-Served c va need m why = tt

some-Served :
    (c : CsrFile) (va need pa : ℕ) (m : Mmu) (why : PageFaultCause)
    → (tlb_lookup m c va need).0 ≡ some pa
    → Served c va need (record { pa = some pa; mmu = m; cause = why })
unfolding Served
some-Served c va need pa m why h = h

module _ (c : CsrFile) (ram : Memory) (va : ℕ) (w f : Bool) where
  abbrev leaf_entry : ℕ → TlbEntry
  leaf_entry raw = record {
    vpn = va >>> 12;
    ppn = pte_ppn raw;
    perms = pte_perms raw;
    valid = true;
    asid = current_asid c;
  }

  leaf_entry-matches :
      (raw : ℕ) → entry_matches (va >>> 12) (current_asid c) (leaf_entry raw) ≡ true
  unfolding entry_matches
  leaf_entry-matches raw = ground arith

  -- The entry passed the test of the access.
  granted :
      (raw : ℕ)
      → (w && not (pte_write raw)) ≡ false
      → (f && not (pte_execute raw)) ≡ false
      → ((not w && not f) && not (pte_read raw)) ≡ false
      → test_bit (pte_perms raw) (need_bit w f) ≡ true
  unfolding need_bit
  granted raw hw hf hr =
      let (r, w', x) = perms_bits raw in
      granted_bits w f (pte_read raw) (pte_write raw) (pte_execute raw) (pte_perms raw) hw hf hr r
        w' x

  walk_leaf-Served :
      (m : Mmu) (raw : ℕ)
      → find_entry (va >>> 12) (current_asid c) m.tlb ≡ none
      → length m.tlb ≡ tlb_size
      → Served c va (need_bit w f) (walk_leaf c ram va w f m raw)
  unfolding walk_leaf faulted
  walk_leaf-Served m raw miss full =
      if_split (Served c va (need_bit w f)) (w && not (pte_write raw)) _ _
        (λ _. none-Served c va (need_bit w f) _ _)
        λ hw.
          if_split (Served c va (need_bit w f)) (f && not (pte_execute raw)) _ _
            (λ _. none-Served c va (need_bit w f) _ _)
            λ hf.
              if_split (Served c va (need_bit w f)) ((not w && not f) && not (pte_read raw)) _ _
                (λ _. none-Served c va (need_bit w f) _ _)
                λ hr.
                  if_split (Served c va (need_bit w f)) (is_user c.priv && not (pte_user raw)) _ _
                    (λ _. none-Served c va (need_bit w f) _ _)
                    λ _. some-Served c va (need_bit w f) _ _ _ (
                      insert-lookup m c va (need_bit w f) (leaf_entry raw) miss full
                        (leaf_entry-matches raw) (granted raw hw hf hr))

  walk_from-Served :
      (below : ℕ) (m : Mmu) (ppn : ℕ)
      → find_entry (va >>> 12) (current_asid c) m.tlb ≡ none
      → length m.tlb ≡ tlb_size
      → Served c va (need_bit w f) (walk_from c ram va w f m below ppn)
  unfolding walk_from faulted
  walk_from-Served zero m ppn miss full = none-Served c va (need_bit w f) _ _
  walk_from-Served (suc below) m ppn miss full =
      let pte_addr = ppn * 4096 + low_bits (va >>> (12 + 9 * below)) 9 * 8 in
      let raw = load_pte ram (u32 pte_addr) in
      let unserved = none-Served c va (need_bit w f) in
      let deeper = walk_from c ram va w f m below (pte_ppn raw) in
      let at_leaf =
        if (pte_read raw || pte_write raw) || pte_execute raw
        then walk_leaf c ram va w f m raw
        else deeper in
      let if_valid = if not (pte_valid raw) then faulted m va (invalid_cause w f) else at_leaf in
      if_split (Served c va (need_bit w f)) (ltb ram.size (pte_addr + 8))
        (faulted m va load_access_fault) if_valid (λ _. unserved _ _)
        λ _.
          if_split (Served c va (need_bit w f)) (not (pte_valid raw))
            (faulted m va (invalid_cause w f)) at_leaf (λ _. unserved _ _)
            λ _.
              if_split (Served c va (need_bit w f))
                ((pte_read raw || pte_write raw) || pte_execute raw) (walk_leaf c ram va w f m raw)
                deeper (λ _. walk_leaf-Served m raw miss full)
                λ _. walk_from-Served below m (pte_ppn raw) miss full

  -- A walk that gives an address, of a page that no entry of the full-sized TLB matches, leaves it in
  -- the TLB: the next lookup of the same access in the same address space hits with this address.
  pub walk_served :
      (m : Mmu) (pa : ℕ)
      → find_entry (va >>> 12) (current_asid c) m.tlb ≡ none
      → length m.tlb ≡ tlb_size
      → (walk c ram va w f m).pa ≡ some pa
      → (tlb_lookup (walk c ram va w f m).mmu c va (need_bit w f)).0 ≡ some pa
  unfolding walk Served
  walk_served m pa miss full gives =
      let h = walk_from-Served 3 m (low_bits (read c csr_satp) 44) miss full in
      subst (ServedAs c va (need_bit w f) (walk c ram va w f m).mmu) gives h
