-- ===== src/Command/Sections/Prints.antt =====
-- The texts that src/main.cpp sends to the UART over the bus.
use novium_emulator.Base.{ℕ, ◌+◌, ◌<◌, ◌≢◌, All, some, length}
use novium_emulator.Base.Text.{Text}
use novium_emulator.Config.{mmio_base, uart_base}
use novium_emulator.Bus
use novium_emulator.Bus.{Device}
use novium_emulator.Memory.{Memory}
use novium_emulator.Devices.{Uart, uart_capacity}
use novium_emulator.Emulator.{Machine}
use novium_emulator.Emulator.Basics.{on_uart_read, on_uart_write}

abbrev tx : ℕ
tx = mmio_base + uart_base

abbrev uart_device : Device Machine
uart_device = record {
  base = tx;
  size = 0x1000;
  on_read = some on_uart_read;
  on_write = some on_uart_write;
}

abbrev Unbroken : ℕ → Type 0
Unbroken c = c ≢ 10

-- What the UART holds back is the start of a line: shorter than its capacity, with no newline.
abbrev pub IsPartial : Uart → Type 0
IsPartial u = (length u.tx_buffer < uart_capacity) × All Unbroken u.tx_buffer
