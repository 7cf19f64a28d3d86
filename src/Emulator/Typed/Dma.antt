-- ===== src/Emulator/Typed/Dma.antt =====
-- The handlers of DMA_LOAD and DMA_STORE.
use novium_emulator.Base.{
  ℕ, add32, sub32, ltb, not, Bool, true, false, Option, none, some, ◌≡◌, refl, arith, if_split,
}
use novium_emulator.Isa.{Opcode, rd, ra, func}
use novium_emulator.Memory.{Memory}
use novium_emulator.Interrupt.{Trap, page_fault_trap}
use novium_emulator.Emulator.{
  Machine, dma_scratchpad_out_of_bounds, dma_main_ram_out_of_bounds, done, threw,
  undefined_behaviour, M, pure, ◌>>=◌, ◌>>◌,
}
use novium_emulator.Emulator.Basics.{translate_data, enter_trap}
use novium_emulator.Emulator.Handlers.{issue_axi}
use novium_emulator.Emulator.Tensor.{target_weight}
use novium_emulator.Emulator.Tensor.Dma.{
  dma_addresses, copy_into, note_backpressure, load_copy, store_copy, dma_load_run, dma_store_run,
  op_dma_load, op_dma_store,
}
use novium_emulator.Emulator.Typed.{
  Bytes, IsTyped, Safe, Any, bind-Safe, counted-IsTyped, keeps, pad-IsTyped, ram-IsTyped,
  copy-Bytes,
}
use novium_emulator.Emulator.Typed.Bus.{enter_trap-IsTyped}
use novium_emulator.Emulator.Typed.Handlers.{issue_axi-Safe, two_gprs}
use novium_emulator.Emulator.Typed.Tensor.{target_weight-Safe}

copied-Bytes :
    (to from : Memory) (dest src bytes : ℕ) (r : Memory)
    → Bytes to.byte
    → Bytes from.byte
    → copy_into to dest from src bytes ≡ some r
    → Bytes r.byte
unfolding copy_into
copied-Bytes to from dest src bytes r h k e i =
    let b = copy-Bytes to.byte dest from.byte src bytes h k i in ground (arith, b)

module _ (m : Machine) (t : IsTyped m) where
  load_copied :
      (o : Option Memory)
      → ((r : Memory) → o ≡ some r → Bytes r.byte)
      → Safe Any
          (elim o [ none ↦ undefined_behaviour | some s ↦ done tt (record m { scratchpad = s }) ])
  load_copied none h = tt
  load_copied (some s) h = (tt, pad-IsTyped m s (h s refl) t)

  store_copied :
      (o : Option Memory)
      → ((r : Memory) → o ≡ some r → Bytes r.byte)
      → Safe Any
          (elim o [ none ↦ undefined_behaviour | some r ↦ done tt (record m { main_ram = r }) ])
  store_copied none h = tt
  store_copied (some r) h = (tt, ram-IsTyped m r (h r refl) t)

  load_copy-Safe : (dest src bytes : ℕ) → Safe Any (load_copy dest src bytes m)
  unfolding load_copy
  load_copy-Safe dest src bytes =
      load_copied (copy_into m.scratchpad dest m.main_ram src bytes)
        (λ r. copied-Bytes m.scratchpad m.main_ram dest src bytes r t.pad t.ram)

  store_copy-Safe : (dest src bytes : ℕ) → Safe Any (store_copy dest src bytes m)
  unfolding store_copy
  store_copy-Safe dest src bytes =
      store_copied (copy_into m.main_ram dest m.scratchpad src bytes)
        (λ r. copied-Bytes m.main_ram m.scratchpad dest src bytes r t.ram t.pad)

  note_backpressure-Safe : (accepted : Bool) → Safe Any (note_backpressure accepted m)
  unfolding note_backpressure
  note_backpressure-Safe true = (tt, t)
  note_backpressure-Safe false = (tt, counted-IsTyped m Opcode.dma_load 1 0 t)

module _ (m : Machine) (t : IsTyped m) where
  load_body-Safe :
      (dest src bytes : ℕ)
      → Safe Any (
          (issue_axi dest bytes false >>= λ accepted.
          note_backpressure accepted
          >> (load_copy dest src bytes >> target_weight Opcode.dma_load bytes))
            m)
  load_body-Safe dest src bytes =
      bind-Safe Any Any (issue_axi dest bytes false m) _ (issue_axi-Safe 0 m t dest bytes false)
        λ accepted m1 _ t1.
          bind-Safe Any Any (note_backpressure accepted m1) _
            (note_backpressure-Safe m1 t1 accepted)
            λ _ m2 _ t2.
              bind-Safe Any Any (load_copy dest src bytes m2) _
                (load_copy-Safe m2 t2 dest src bytes)
                λ _ m3 _ t3. target_weight-Safe Opcode.dma_load bytes m3 t3

  store_body-Safe :
      (dest src bytes : ℕ)
      → Safe Any (
          (issue_axi src bytes true >>= λ _.
          (store_copy dest src bytes >> target_weight Opcode.dma_store bytes))
            m)
  store_body-Safe dest src bytes =
      bind-Safe Any Any (issue_axi src bytes true m) _ (issue_axi-Safe 0 m t src bytes true)
        λ _ m1 _ t1.
          bind-Safe Any Any (store_copy dest src bytes m1) _ (store_copy-Safe m1 t1 dest src bytes)
            λ _ m3 _ t3. target_weight-Safe Opcode.dma_store bytes m3 t3

  dma_load_run-Safe : (dest src bytes : ℕ) → Safe Any (dma_load_run dest src bytes m)
  unfolding dma_load_run
  dma_load_run-Safe dest src bytes =
      if_split (Safe Any) (ltb m.scratchpad.size (add32 dest bytes))
        (threw dma_scratchpad_out_of_bounds m) _ (λ _. t)
        (λ _.
          if_split (Safe Any) (ltb m.main_ram.size (add32 src bytes))
            (threw dma_main_ram_out_of_bounds m) _ (λ _. t) (λ _. load_body-Safe dest src bytes))

  dma_store_run-Safe : (dest src bytes : ℕ) → Safe Any (dma_store_run dest src bytes m)
  unfolding dma_store_run
  dma_store_run-Safe dest src bytes =
      if_split (Safe Any) (ltb m.main_ram.size (add32 dest bytes))
        (threw dma_main_ram_out_of_bounds m) _ (λ _. t)
        (λ _.
          if_split (Safe Any) (ltb m.scratchpad.size (add32 src bytes))
            (threw dma_scratchpad_out_of_bounds m) _ (λ _. t) (λ _. store_body-Safe dest src bytes))

-- The two translations, or the trap of the first that fails.
mapped_pair :
    (d s : Option ℕ) (trap_d trap_s : Trap) (m : Machine)
    → IsTyped m
    → Safe {A = Option (ℕ × ℕ)} Any (elim d [
      | none ↦ done none (enter_trap trap_d m)
      | some x ↦ elim s [ none ↦ done none (enter_trap trap_s m) | some y ↦ done (some (x, y)) m ]
    ])
mapped_pair none s trap_d trap_s m t = (tt, enter_trap-IsTyped trap_d m t)
mapped_pair (some x) none trap_d trap_s m t = (tt, enter_trap-IsTyped trap_s m t)
mapped_pair (some x) (some y) trap_d trap_s m t = (tt, t)

dma_addresses-Safe :
    (dest src : ℕ) (is_load : Bool) (m : Machine)
    → IsTyped m
    → Safe Any (dma_addresses dest src is_load m)
unfolding dma_addresses translate_data
dma_addresses-Safe dest src is_load m t =
    let (pa_dest, m1) = translate_data dest true m in
    let (pa_src, m2) = translate_data src false m1 in
    let pc = sub32 m2.regs.pc 4 in
    let typed : IsTyped m2 = keeps m m2 refl refl refl refl refl refl refl t in
    if_split (Safe Any) m.mmu.enabled _ (done (some (dest, src)) m)
      (λ _.
        mapped_pair pa_dest pa_src (page_fault_trap pc dest true)
          (page_fault_trap pc src (not is_load)) m2 typed)
      (λ _. (tt, t))

-- A trap ends the handler, two addresses go on.
pair_or_trap :
    (o : Option (ℕ × ℕ)) (f : ℕ → ℕ → M ℕ) (m : Machine)
    → IsTyped m
    → ((d s : ℕ) → Safe Any (f d s m))
    → Safe Any (let c : M ℕ = elim o [ none ↦ pure 2 | some (d, s) ↦ f d s ] in c m)
pair_or_trap none f m t k = (tt, t)
pair_or_trap (some (d, s)) f m t k = k d s

module _ (w : ℕ) (m : Machine) (t : IsTyped m) where
  pub op_dma_load-Safe : Safe Any (op_dma_load w m)
  unfolding op_dma_load
  op_dma_load-Safe = two_gprs (rd w) (ra w) m _ t λ dest src m1 t1.
      bind-Safe Any Any (dma_addresses dest src true m1) _ (dma_addresses-Safe dest src true m1 t1)
        λ o m2 _ t2.
          pair_or_trap o (λ d s. dma_load_run d s (func w)) m2 t2
            (λ d s. dma_load_run-Safe m2 t2 d s (func w))

  pub op_dma_store-Safe : Safe Any (op_dma_store w m)
  unfolding op_dma_store
  op_dma_store-Safe = two_gprs (rd w) (ra w) m _ t λ dest src m1 t1.
      bind-Safe Any Any (dma_addresses dest src false m1) _
        (dma_addresses-Safe dest src false m1 t1)
        λ o m2 _ t2.
          pair_or_trap o (λ d s. dma_store_run d s (func w)) m2 t2
            (λ d s. dma_store_run-Safe m2 t2 d s (func w))
