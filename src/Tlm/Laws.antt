-- ===== src/Tlm/Laws.antt =====
-- Transactions on a memory: what a read gives after a write, and the addresses that are not caught.
use novium_emulator.Base.{
  ℕ, ◌+◌, ◌^◌, ◌<◌, ◌≤◌, ◌∙◌, ap, sym, u32, u64, ltb, length, slice, blit, add32, ◌++◌, ◌≡◌, arith,
  List, slice-blit, length-slice, true, false,
}
use novium_emulator.Base.Window.{take, drop, length-take}
use novium_emulator.Memory.{Memory, in_bounds}
use novium_emulator.Tlm.{
  TlmCommand, TlmPayload, ok, address_error, Sent, returned, TlmAdapter, b_transport, with_delay,
  bind_memory, memory_transport, memory_command, answer, fill, holds,
}

-- A transaction on an adapter that is bound to a memory.
unfoldable pub transact : TlmAdapter Memory → TlmPayload → ℕ → Memory → Sent Memory × ℕ
unfolding b_transport bind_memory
transact a p delay m = b_transport (bind_memory a).initiator p delay m

module _ (p : TlmPayload) (m : Memory) (fits : p.address + p.bytes ≤ m.size)
    (small : m.size < 2 ^ 32) where
  caught : ltb m.size (u64 (p.address + p.bytes)) ≡ false
  caught = ground arith

  cut : u32 p.address ≡ p.address
  cut = omega arith

  inside : in_bounds m p.address p.bytes ≡ true
  unfolding in_bounds
  inside = ground arith

  transport_write :
      p.bytes ≤ length p.buffer
      → memory_transport (record p { command = TlmCommand.write }) m
        ≡ returned
            (answer (record p { command = TlmCommand.write }) ok 1)
            (record m { byte = blit m.byte p.address (take p.bytes p.buffer) })
  unfolding memory_transport memory_command holds
  transport_write enough = rw caught (rw cut (rw inside (ground arith)))

  transport_read :
      p.bytes ≤ length p.buffer
      → memory_transport (record p { command = TlmCommand.read }) m
        ≡ returned
            (answer
              (record p {
                command = TlmCommand.read;
                buffer = slice m.byte p.address p.bytes ++ drop p.bytes p.buffer;
              })
              ok
              1)
            m
  unfolding memory_transport memory_command holds fill
  transport_read enough =
      let e = length-slice m.byte p.address p.bytes in
      rw caught (rw cut (rw inside (rw e (ground arith))))

-- A write of a payload within a memory below 4 GiB is answered OK after one cycle, and a read of the
-- same range then fills the front of its own buffer with the bytes that were written, and leaves the
-- memory alone.
pub transact-transact :
    (a : TlmAdapter Memory) (p : TlmPayload) (buffer : List ℕ) (delay : ℕ) (m : Memory)
    → p.address + p.bytes ≤ m.size
    → m.size < 2 ^ 32
    → p.bytes ≤ length p.buffer
    → p.bytes ≤ length buffer
    → let sent = take p.bytes p.buffer in
      let m' = record m { byte = blit m.byte p.address sent } in
      let w = record p { command = TlmCommand.write } in
      let r = record p { command = TlmCommand.read; buffer = buffer } in
      (transact a w delay m ≡ (returned (answer w ok 1) m', add32 delay 1))
      × (transact a r delay m' ≡ (
        returned (answer (record r { buffer = sent ++ drop p.bytes buffer }) ok 1) m',
        add32 delay 1,
      ))
unfolding transact with_delay answer
transact-transact a p buffer delay m fits small enough enough' =
    let sent = take p.bytes p.buffer in
    let m' = record m { byte = blit m.byte p.address sent } in
    let e : slice m'.byte p.address p.bytes ≡ sent =
      ap (slice m'.byte p.address) (sym (length-take p.bytes p.buffer enough))
      ∙ slice-blit m.byte p.address sent in
    let r = record p { buffer = buffer } in
    (
      ap (with_delay delay) (transport_write p m fits small enough),
      ap (with_delay delay) (transport_read r m' fits small enough')
          ∙ ap
              (λ (front : List ℕ). with_delay delay (
                returned
                  (answer
                    (record r { command = TlmCommand.read; buffer = front ++ drop p.bytes buffer })
                    ok 1)
                  m'))
              e,
    )

-- A transaction beyond the end of the memory whose sum does not wrap is answered with an address
-- error, and changes nothing else, the delay included.
pub transact-refused :
    (a : TlmAdapter Memory) (p : TlmPayload) (delay : ℕ) (m : Memory)
    → m.size < p.address + p.bytes
    → p.address + p.bytes < 2 ^ 64
    → p.delay_cycles ≡ 0
    → delay < 2 ^ 32
    → transact a p delay m ≡ (returned (record p { response = address_error }) m, delay)
unfolding transact with_delay memory_transport
transact-refused a p delay m out fits clean small = ground arith
