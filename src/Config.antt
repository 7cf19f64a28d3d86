-- ===== src/Config.antt =====
-- include/aiasm/config.h: the sizes and addresses of the machine. The shifts and masks of the
-- instruction fields are the numerals of module Isa.
use novium_emulator.Base.{ℕ, ◌+◌, ◌-◌, ◌*◌}

abbrev pub scratchpad_size : ℕ
scratchpad_size = 64 * 1024 * 1024

abbrev pub main_ram_size : ℕ
main_ram_size = 64 * 1024 * 1024

abbrev pub text_base : ℕ
text_base = 0

abbrev pub text_size : ℕ
text_size = 8 * 1024 * 1024

abbrev pub data_base : ℕ
data_base = text_base + text_size

abbrev pub data_size : ℕ
data_size = 8 * 1024 * 1024

abbrev pub tensor_base : ℕ
tensor_base = data_base + data_size

abbrev pub tensor_size : ℕ
tensor_size = scratchpad_size - text_size - data_size

abbrev pub mmio_base : ℕ
mmio_base = 0x03F00000

abbrev pub uart_base : ℕ
uart_base = 0x1000

abbrev pub tile_size : ℕ
tile_size = 4

abbrev pub vec_width : ℕ
vec_width = tile_size * tile_size

abbrev pub vr_byte_size : ℕ
vr_byte_size = vec_width * 4

abbrev pub dma_line_size : ℕ
dma_line_size = 64

abbrev pub num_gpr : ℕ
num_gpr = 16

abbrev pub num_vr : ℕ
num_vr = 8

abbrev pub cycles_per_tick : ℕ
cycles_per_tick = 1000
