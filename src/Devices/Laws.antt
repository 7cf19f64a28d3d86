-- ===== src/Devices/Laws.antt =====
-- The timer's interrupt, and what the UART prints.
use novium_emulator.Base.{
  ℕ, ◌+◌, ◌-◌, ◌<◌, ◌≤◌, ◌^◌, u8, ◌==◌, ltb, if◌then◌else◌, true, ◌≡◌, refl, arith, List, [], ◌∷◌,
  ◌++◌, length,
}
use mathlib.Core.List.{append_assoc, append-nil}
use novium_emulator.Devices.{
  Timer, timer_tick, timer_read, Uart, uart_write, uart_flush, uart_emit, uart_capacity,
}

-- A running timer that does not wrap at 64 bits raises its interrupt exactly when the count reaches
-- the limit, and then counts on from the excess; a stopped timer does not change.
pub timer_tick_lem :
    (t : Timer) (cycles : ℕ)
    → t.count + cycles < 2 ^ 64
    → (timer_tick t cycles ≡ (
        if t.ctrl
        then (if ltb (t.count + cycles) t.limit
            then record t { count = t.count + cycles }
            else record t { count = t.count + cycles - t.limit; irq_pending = true })
        else t))
unfolding timer_tick
timer_tick_lem t cycles fits = ground arith

-- A count below the limit stays below it over a tick that is no longer than the limit and does not
-- wrap the count at 64 bits.
pub timer_tick-lt-limit :
    (t : Timer) (cycles : ℕ)
    → t.count < t.limit
    → cycles ≤ t.limit
    → t.count + cycles < 2 ^ 64
    → (timer_tick t cycles).count < (timer_tick t cycles).limit
unfolding timer_tick
timer_tick-lt-limit t cycles below short fits = ground arith

-- Reading the IRQ register clears it: the first read after an interrupt gives 1, the next gives 0.
pub timer_irq_read :
    (t : Timer)
    → ((timer_read t 12).0 ≡ (if t.irq_pending then 1 else 0))
      × ((timer_read (timer_read t 12).1 12).0 ≡ 0)
      × ((timer_read t 12).1.count ≡ t.count)
unfolding timer_read
timer_irq_read t = ground arith

-- Everything that was written, in order: the printed lines and then the buffer.
abbrev pub all_printed : List (List ℕ) → List ℕ
all_printed [] = []
all_printed (line ∷ older) = all_printed older ++ line

abbrev pub sent : Uart → List ℕ
sent u = all_printed u.printed ++ u.tx_buffer

emit_sent : (u : Uart) (b : List ℕ) → sent (elim b [ [] ↦ u | _ ∷ _ ↦ uart_emit u ]) ≡ sent u
unfolding uart_emit
emit_sent u [] = refl
emit_sent u (x ∷ xs) = append-nil (sent u)

sent_flush : (u : Uart) → sent (uart_flush u) ≡ sent u
unfolding uart_flush uart_emit
sent_flush u = emit_sent u u.tx_buffer

write_sent :
    (u : Uart) (offset value : ℕ)
    → sent (uart_write u offset value) ≡ (if offset == 0 then sent u ++ (u8 value ∷ []) else sent u)
unfolding uart_write uart_emit
write_sent u offset value =
    let a = append_assoc (all_printed u.printed) u.tx_buffer (u8 value ∷ []) in
    let b = append-nil (all_printed u.printed ++ (u.tx_buffer ++ (u8 value ∷ []))) in
    grind (arith, a, b)

write_room :
    (u : Uart) (offset value : ℕ)
    → length u.tx_buffer < uart_capacity
    → length (uart_write u offset value).tx_buffer < uart_capacity
unfolding uart_write uart_emit
write_room u offset value room = grind arith

-- While its buffer is below the capacity the UART drops and reorders nothing: a write to TX appends the low byte of its value to all that
-- was sent, at any other register nothing, and a flush nothing. The buffer stays below its capacity.
pub uart_write-sent :
    (u : Uart) (offset value : ℕ)
    → length u.tx_buffer < uart_capacity
    → (sent (uart_write u offset value)
        ≡ (if offset == 0 then sent u ++ (u8 value ∷ []) else sent u))
      × (length (uart_write u offset value).tx_buffer < uart_capacity)
      × (sent (uart_flush u) ≡ sent u)
unfolding uart_write uart_flush uart_emit
uart_write-sent u offset value room =
    (write_sent u offset value, write_room u offset value room, sent_flush u)
