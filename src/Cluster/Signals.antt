-- ===== src/Cluster/Signals.antt =====
-- What one core does to the others: interrupts and page flushes.
use novium_emulator.Base.{
  ℕ, zero, suc, ◌+◌, ◌==◌, ◌>>>◌, if◌then◌else◌, get_elem?, false, Option, none, some, List, [],
  ◌∷◌, ◌≡◌, ◌≢◌, refl, arith, ◌∙◌, ==_iff, if_split,
}
use mathlib.Core.Option
use native.Mathlib.Nat.{add-zero, zero-add}
use novium_emulator.Csr.{CsrFile}
use novium_emulator.Mmu.{Mmu, tlb_lookup, tlb_flush_va, current_asid}
use novium_emulator.Mmu.Laws.{find_entry-flush_page}
use novium_emulator.Interrupt.{raise_soft}
use novium_emulator.Emulator.{Machine}
use novium_emulator.Cluster.{Cluster, on_others, flush_page, tlb_shootdown, raise_at, send_ipi}

-- The core at a position after an operation on the others.
on_others-get :
    (f : Machine → Machine) (skip i j : ℕ) (cs : List Machine)
    → get_elem? (on_others f skip i cs) j
      ≡ Option.map (λ c. if i + j == skip then c else f c) (get_elem? cs j)
unfolding on_others
on_others-get f skip i j [] = refl
on_others-get f skip i zero (c ∷ cs) = rw (add-zero i) refl
on_others-get f skip i (suc j) (c ∷ cs) =
    let e : i + 1 + j ≡ i + suc j = omega arith in rw (← e) (on_others-get f skip (i + 1) j cs)

-- A lookup of the page misses, and of any other page is as before.
flush_page_serves :
    (m : Mmu) (c : CsrFile) (va other need : ℕ)
    → ((tlb_lookup (tlb_flush_va m va) c va need).0 ≡ none)
      × (other >>> 12 ≢ va >>> 12
          → (tlb_lookup (tlb_flush_va m va) c other need).0 ≡ (tlb_lookup m c other need).0)
unfolding tlb_lookup tlb_flush_va
flush_page_serves m c va other need =
    let e = find_entry-flush_page (va >>> 12) (other >>> 12) (current_asid c) m.tlb in
    (ground (arith, e.0), λ ne. let f = e.1 ne in ground (arith, f))

-- What a core serves from its TLB for an address.
abbrev pub served : Machine → ℕ → ℕ → Option ℕ
served m va need = (tlb_lookup m.mmu m.csr va need).0

-- After a shootdown of a page, no core but the initiator serves an address of the page from its TLB,
-- and every core serves the addresses of other pages as before; the initiator is as it was.
pub tlb_shootdown-served :
    (c : Cluster) (va initiator j other need : ℕ) (core : Machine)
    → get_elem? c.cores j ≡ some core
    → other >>> 12 ≢ va >>> 12
    → (core' : Machine) × (get_elem? (tlb_shootdown va initiator c).cores j ≡ some core')
      × (j ≡ initiator → core' ≡ core)
      × (j ≢ initiator → served core' va need ≡ none)
      × (served core' other need ≡ served core other need)
unfolding tlb_shootdown
tlb_shootdown-served c va initiator j other need core there ne =
    let core' = if j == initiator then core else flush_page va core in
    let found : get_elem? (on_others (flush_page va) initiator 0 c.cores) j ≡ some core' =
      on_others-get (flush_page va) initiator 0 j c.cores ∙ rw there (rw (zero-add j) refl) in
    let serves = flush_page_serves core.mmu core.csr va other need in
    (
      core',
      found,
      λ e. rw ((==_iff j initiator).1 e) refl,
      λ apart. let off : (j == initiator) ≡ false = ground arith in rw off serves.0,
      if_split (λ m. served m other need ≡ served core other need) (j == initiator) core
          (flush_page va core) (λ _. refl) (λ _. serves.1 ne),
    )

abbrev raised : Machine → Machine
raised m = record m { intc = raise_soft m.intc }

same_option : (o : Option Machine) → o ≡ Option.map (λ m. m) o
same_option none = refl
same_option (some m) = refl

raise_at-get :
    (i j : ℕ) (cs : List Machine)
    → get_elem? (raise_at i cs) j
      ≡ Option.map (λ m. if i == j then raised m else m) (get_elem? cs j)
unfolding raise_at
raise_at-get i j [] = refl
raise_at-get zero zero (c ∷ cs) = refl
raise_at-get zero (suc j) (c ∷ cs) =
    let e : (0 == suc j) ≡ false = ground arith in rw e (same_option (get_elem? cs j))
raise_at-get (suc i) zero (c ∷ cs) = let e : (suc i == 0) ≡ false = ground arith in rw e refl
raise_at-get (suc i) (suc j) (c ∷ cs) =
    let e : (suc i == suc j) ≡ (i == j) = ground arith in rw e (raise_at-get i j cs)

-- An inter-core interrupt sets the pending bit of the machine's software interrupt in its target and
-- changes no other core; a target that is no core changes nothing.
pub send_ipi-get :
    (c : Cluster) (target j : ℕ)
    → get_elem? (send_ipi target c).cores j
      ≡ Option.map
          (λ m. if target == j then record m { intc = raise_soft m.intc } else m)
          (get_elem? c.cores j)
unfolding send_ipi
send_ipi-get c target j = raise_at-get target j c.cores
