-- ===== src/Emulator/Typed/Devices.antt =====
-- The devices on the bus of a core keep every number in range.
use novium_emulator.Base.{
  ℕ, ◌+◌, ◌<◌, sub32, All, Option, none, some, List, [], ◌∷◌, ◌≡◌, refl, arith,
}
use novium_emulator.Config.{mmio_base, uart_base}
use novium_emulator.Memory.{Memory, word_bytes}
use novium_emulator.Bus.{Device}
use novium_emulator.Devices.{Timer, Uart, timer_read, uart_read, uart_write, uart_emit, front_char}
use novium_emulator.Emulator.{Machine}
use novium_emulator.Emulator.Basics.{
  on_timer_read, on_timer_write, on_uart_read, on_uart_write, shared_window, read_shared,
  write_shared, shared_base, bus_devices,
}
use novium_emulator.Emulator.Typed.{
  SharedBytes, IsTyped, Is32, keeps, blit-Bytes, word_bytes-Bytes, load_word-Is32,
}

abbrev pub ReadsTyped : Option (ℕ → Machine → ℕ × Machine) → Type 0
ReadsTyped none = Unit
ReadsTyped (some f) =
    (addr : ℕ) (m : Machine) → IsTyped m → Is32 (f addr m).0 × IsTyped (f addr m).1

abbrev pub WritesTyped : Option (ℕ → ℕ → Machine → Machine) → Type 0
WritesTyped none = Unit
WritesTyped (some f) = (addr v : ℕ) (m : Machine) → IsTyped m → IsTyped (f addr v m)

abbrev pub GoodDevice : Device Machine → Type 0
GoodDevice dev = ReadsTyped dev.on_read × WritesTyped dev.on_write

timer_read-Is32 : (tm : Timer) (offset : ℕ) → Is32 (timer_read tm offset).0
unfolding timer_read
timer_read-Is32 tm offset = ground arith

timer-Good : GoodDevice (record {
  base = mmio_base;
  size = 0x1000;
  on_read = some on_timer_read;
  on_write = some on_timer_write;
})
unfolding on_timer_read on_timer_write
timer-Good = (
  λ addr m t. (
    timer_read-Is32 m.timer (sub32 addr mmio_base),
    keeps m _ refl refl refl refl refl refl refl t,
  ),
  λ addr v m t. keeps m _ refl refl refl refl refl refl refl t,
)

front_char-Is32 : (cs : List ℕ) → All (λ c. c < 256) cs → Is32 (front_char cs)
unfolding front_char
front_char-Is32 [] h = omega arith
front_char-Is32 (c ∷ cs) h = ground (arith, h.0)

uart_read-Is32 :
    (u : Uart) (offset : ℕ) → All (λ c. c < 256) u.rx_buffer → Is32 (uart_read u offset)
unfolding uart_read
uart_read-Is32 u offset h = ground (arith, front_char-Is32 u.rx_buffer h)

uart_write-rx : (u : Uart) (offset v : ℕ) → (uart_write u offset v).rx_buffer ≡ u.rx_buffer
unfolding uart_write uart_emit
uart_write-rx u offset v = ground arith

uart-Good : GoodDevice (record {
  base = mmio_base + uart_base;
  size = 0x1000;
  on_read = some on_uart_read;
  on_write = some on_uart_write;
})
unfolding on_uart_read on_uart_write
uart-Good = (
  λ addr m t. (uart_read-Is32 m.uart (sub32 (sub32 addr mmio_base) uart_base) t.rx, t),
  λ addr v m t. keeps m _ refl refl refl refl (uart_write-rx m.uart _ v) refl refl t,
)

read_shared-Is32 : (o : Option Memory) (addr : ℕ) → SharedBytes o → Is32 (read_shared o addr)
unfolding read_shared
read_shared-Is32 none addr h = omega arith
read_shared-Is32 (some r) addr h = load_word-Is32 r.byte (sub32 addr shared_base) h

write_shared-Bytes :
    (o : Option Memory) (addr v : ℕ) → SharedBytes o → SharedBytes (write_shared o addr v)
unfolding write_shared
write_shared-Bytes none addr v h = tt
write_shared-Bytes (some r) addr v h =
    blit-Bytes r.byte (sub32 addr shared_base) (word_bytes v) h (word_bytes-Bytes v)

shared-Good : GoodDevice shared_window
shared-Good = (
  λ addr m t. (read_shared-Is32 m.shared addr t.shared, t),
  λ addr v m t. record {
    regs = t.regs;
    pad = t.pad;
    ram = t.ram;
    shared = write_shared-Bytes m.shared addr v t.shared;
    rx = t.rx;
    counters = t.counters;
    ticks = t.ticks;
  },
)

pub devices-Good : (o : Option Memory) → All GoodDevice (bus_devices o)
unfolding bus_devices
devices-Good none = (timer-Good, (uart-Good, tt))
devices-Good (some r) = (timer-Good, (uart-Good, (shared-Good, tt)))
