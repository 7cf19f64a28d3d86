-- ===== src/Devices.antt =====
-- include/aiasm/devices.h: the timer and the UART behind their register windows.
pub mod Laws
use novium_emulator.Base.{
  ℕ, ◌+◌, ◌-◌, u8, u32, u64, ◌==◌, ltb, leb, if◌then◌else◌, not, ◌||◌, Bool, true, false, List, [],
  ◌∷◌, ◌++◌, length, Option, some, none,
}

pub record Timer : Type 0 where
  pub count : ℕ
  pub limit : ℕ
  pub ctrl : Bool
  pub irq_pending : Bool

unfoldable pub new_timer : Timer
new_timer = record { count = 0; limit = 10000; ctrl = false; irq_pending = false }

-- One reload at most, however many cycles pass.
unfoldable pub timer_tick : Timer → ℕ → Timer
timer_tick t cycles =
    if t.ctrl
    then (let count = u64 (t.count + cycles) in
        if leb t.limit count
        then record t { count = count - t.limit; irq_pending = true }
        else record t { count = count })
    else t

-- Offsets 0, 4, 8 and 12 are COUNT, LIMIT, CTRL and IRQ. Reading IRQ clears it.
unfoldable pub timer_read : Timer → ℕ → ℕ × Timer
timer_read t offset =
    if offset == 0
    then (u32 t.count, t)
    else if offset == 4
    then (u32 t.limit, t)
    else if offset == 8
    then (if t.ctrl then 1 else 0, t)
    else if offset == 12
    then (if t.irq_pending then 1 else 0, record t { irq_pending = false })
    else (0, t)

unfoldable pub timer_write : Timer → ℕ → ℕ → Timer
timer_write t offset value =
    if offset == 0
    then record t { count = value }
    else if offset == 4
    then record t { limit = value }
    else if offset == 8
    then record t { ctrl = not (value == 0) }
    else if offset == 12
    then record t { irq_pending = false }
    else t

-- The UART, with the lines that went to standard output, latest first.
pub record Uart : Type 0 where
  pub tx_buffer : List ℕ
  pub rx_buffer : List ℕ
  pub printed : List (List ℕ)

unfoldable pub new_uart : Uart
new_uart = record { tx_buffer = []; rx_buffer = []; printed = [] }

abbrev pub uart_capacity : ℕ
uart_capacity = 256

-- What `printf` of the buffer followed by `clear` leaves.
unfoldable pub uart_emit : Uart → Uart
uart_emit u = record u { tx_buffer = []; printed = u.tx_buffer ∷ u.printed }

-- Offset 0 is TX: a newline or a full buffer is printed at once.
unfoldable pub uart_write : Uart → ℕ → ℕ → Uart
unfolding uart_emit
uart_write u offset value =
    if offset == 0
    then (let u' = record u { tx_buffer = u.tx_buffer ++ (u8 value ∷ []) } in
        if u8 value == 10 || leb uart_capacity (length u'.tx_buffer) then uart_emit u' else u')
    else u

-- The first character of a buffer, as a uint32_t: a char from 128 on is negative.
unfoldable pub front_char : List ℕ → ℕ
front_char [] = 0
front_char (ch ∷ rest) = if ltb ch 128 then ch else ch + 0xFFFFFF00

-- Offsets 4 and 8 are RX and STATUS.
unfoldable pub uart_read : Uart → ℕ → ℕ
unfolding front_char
uart_read u offset = if offset == 4 then front_char u.rx_buffer else if offset == 8 then 1 else 0

unfoldable pub uart_flush : Uart → Uart
unfolding uart_emit
uart_flush u = elim u.tx_buffer [ [] ↦ u | _ ∷ _ ↦ uart_emit u ]

-- The saved state of a timer, which is all of it.
pub record TimerState : Type 0 where
  pub count : ℕ
  pub limit : ℕ
  pub ctrl : Bool
  pub irq_pending : Bool

unfoldable pub timer_save : Timer → TimerState
timer_save t = record {
  count = t.count;
  limit = t.limit;
  ctrl = t.ctrl;
  irq_pending = t.irq_pending;
}

unfoldable pub timer_restore : TimerState → Timer → Timer
timer_restore s t = record {
  count = s.count;
  limit = s.limit;
  ctrl = s.ctrl;
  irq_pending = s.irq_pending;
}

pub record UartState : Type 0 where
  pub tx_buffer : List ℕ
  pub rx_buffer : List ℕ

unfoldable pub uart_save : Uart → UartState
uart_save u = record { tx_buffer = u.tx_buffer; rx_buffer = u.rx_buffer }

-- What was printed stays printed.
unfoldable pub uart_restore : UartState → Uart → Uart
uart_restore s u = record u { tx_buffer = s.tx_buffer; rx_buffer = s.rx_buffer }
