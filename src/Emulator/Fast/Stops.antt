-- ===== src/Emulator/Fast/Stops.antt =====
-- How `run_fast` stops.
use novium_emulator.Base.{
  ℕ, zero, suc, true, Bool-cases, inl, inr, Option, some, [], ◌≡◌, ap, sym, ◌∙◌, arith,
}
use novium_emulator.Devices.{uart_flush, uart_emit}
use novium_emulator.Kernels.{FloatOps, HostSimd}
use novium_emulator.Emulator.{Machine, Outcome, done, threw, undefined_behaviour}
use novium_emulator.Emulator.Fast.{stopped, fast_round, run_fast}
use novium_emulator.Emulator.Fast.Runs.{if_off, if_on}
use novium_emulator.Emulator.Fast.Whole.{fast_onward}

module _ (fl : FloatOps) (simd : HostSimd) where
  flushed : (m : Machine) → (uart_flush m.uart).tx_buffer ≡ []
  unfolding uart_flush uart_emit
  flushed m = ground arith

  flushed_stop :
      (m m' : Machine)
      → stopped m ≡ true
      → ◌≡◌ {A = Option (Outcome (Unit {0}))}
          (some (done tt (record m { uart = uart_flush m.uart })))
          (some (done tt m'))
      → (stopped m' ≡ true) × (m'.uart.tx_buffer ≡ [])
  unfolding stopped
  flushed_stop m m' e h =
      let same : record m { uart = uart_flush m.uart } ≡ m' = cc in
      (sym (ap stopped same) ∙ e, sym (ap (λ (s : Machine). s.uart.tx_buffer) same) ∙ flushed m)

  onward_stops :
      (f : ℕ) (o : Outcome (Unit {0})) (m' : Machine)
      → ((s : Machine)
          → run_fast fl simd f s ≡ some (done tt m')
          → (stopped m' ≡ true) × (m'.uart.tx_buffer ≡ []))
      → fast_onward fl simd f o ≡ some (done tt m')
      → (stopped m' ≡ true) × (m'.uart.tx_buffer ≡ [])
  onward_stops f (done _ s) m' ih h = ih s h
  onward_stops f (threw e s) m' ih h = cc
  onward_stops f undefined_behaviour m' ih h = cc

  -- `run_fast` that returns has stopped for one of its reasons, with nothing left in the UART's
  -- buffer.
  pub run_fast_stops :
      (f : ℕ) (m m' : Machine)
      → run_fast fl simd f m ≡ some (done tt m')
      → (stopped m' ≡ true) × (m'.uart.tx_buffer ≡ [])
  unfolding run_fast
  run_fast_stops zero m m' h = cc
  run_fast_stops (suc f) m m' h = elim (Bool-cases (stopped m)) [
    | inl e ↦ flushed_stop m m' e (sym (if_on _ _ (stopped m) e) ∙ h)
    | inr e ↦
        onward_stops f (fast_round fl simd m) m' (λ s. run_fast_stops f s m')
          (sym (if_off _ _ (stopped m) e) ∙ h)
  ]
