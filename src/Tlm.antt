-- ===== src/Tlm.antt =====
-- include/aiasm/tlm.h and src/tlm.cpp: payloads, sockets and the two adapters. The target's state is
-- a type `S`; a transport function works on it. The buffer behind the data pointer travels with the
-- payload.
pub mod Laws
use novium_emulator.Base.{
  ℕ, ◌+◌, ◌*◌, ◌==◌, u32, u64, add32, ltb, leb, if◌then◌else◌, ◌&&◌, ◌||◌, length, set, blit, slice,
  get_or, Bool, true, false, Option, none, some, List, [], ◌∷◌, ◌++◌,
}
use novium_emulator.Base.Window.{drop, take}
use novium_emulator.Memory
use novium_emulator.Memory.{Memory, in_bounds, word_bytes}
use novium_emulator.Bus
use novium_emulator.Bus.{Device}

pub data TlmCommand : Type 0 where
  read write ignore : TlmCommand

pub data TlmResponse : Type 0 where
  ok address_error generic_error : TlmResponse

pub record TlmPayload : Type 0 where
  pub command : TlmCommand
  pub address : ℕ
  pub buffer : List ℕ
  pub bytes : ℕ
  pub streaming_width : ℕ
  pub response : TlmResponse
  pub delay_cycles : ℕ

-- A transport returns, throws the error of the memory behind it, or is undefined, which is an access
-- outside an array. The payload is the caller's: an exception leaves its changes.
pub data Sent (S : Type 0) : Type 0 where
  returned threw : TlmPayload → S → Sent S
  undefined_behaviour : Sent S

abbrev pub TransportFn : Type 0 → Type 0
TransportFn S = TlmPayload → S → Sent S

-- The name of a socket is only printed.
pub record TlmSocket (S : Type 0) : Type 0 where
  pub bound : Bool
  pub transport : Option (TransportFn S)

module _ {S : Type 0} where
  unfoldable pub new_socket : TlmSocket S
  new_socket = record { bound = false; transport = none }

  -- The transport function is copied at the moment of the call.
  unfoldable pub bind : TlmSocket S → TlmSocket S → TlmSocket S
  bind initiator target = record { bound = true; transport = target.transport }

  unfoldable pub set_transport : TlmSocket S → TransportFn S → TlmSocket S
  set_transport socket fn = record socket { transport = some fn }

  -- The accumulated delay grows after a call that returned.
  unfoldable pub with_delay : ℕ → Sent S → Sent S × ℕ
  with_delay delay (returned p s) = (returned p s, add32 delay p.delay_cycles)
  with_delay delay other = (other, delay)

  unfoldable pub b_transport : TlmSocket S → TlmPayload → ℕ → S → Sent S × ℕ
  unfolding with_delay
  b_transport socket p delay s = elim socket.transport [
    | none ↦ (returned (record p { response = address_error }) s, delay)
    | some fn ↦ with_delay delay (fn p s)
  ]

-- memcpy(p.data, src, ...)
unfoldable pub fill : List ℕ → List ℕ → List ℕ
fill buffer src = src ++ drop (length src) buffer

-- The first four bytes of the buffer as a word.
unfoldable pub buffer_word : List ℕ → ℕ
buffer_word b = get_or b 0 0 + get_or b 1 0 * 256 + get_or b 2 0 * 65536 + get_or b 3 0 * 16777216

-- The buffer holds `n` bytes.
unfoldable pub holds : TlmPayload → ℕ → Bool
holds p n = leb n (length p.buffer)

unfoldable pub answer : TlmPayload → TlmResponse → ℕ → TlmPayload
answer p response delay = record p { response = response; delay_cycles = delay }

module _ {S : Type 0} (ram : S → Memory) (put_ram : S → Memory → S) (devs : List (Device S)) where
  -- A write of four bytes goes to the bus; any other write is answered without an effect.
  unfoldable pub bus_write : TransportFn S
  unfolding buffer_word holds answer Bus.write32
  bus_write p s =
      if p.bytes == 4
      then (if holds p 4
          then elim (Bus.write32 ram put_ram devs (u32 p.address) (buffer_word p.buffer) s) [
            | none ↦ threw p s
            | some s' ↦ returned (answer p ok 2) s'
          ]
          else undefined_behaviour)
      else returned (answer p ok 2) s

  -- `p` is the payload with its first byte set to zero.
  unfoldable pub bus_read : TransportFn S
  unfolding fill holds answer Bus.read32 word_bytes
  bus_read p s =
      if p.bytes == 4
      then elim (Bus.read32 ram put_ram devs (u32 p.address) s) [
        | none ↦ threw p s
        | some (v, s') ↦
            if holds p 4
            then returned (answer (record p { buffer = fill p.buffer (word_bytes v) }) ok 2) s'
            else undefined_behaviour
      ]
      else returned (answer p ok 2) s

  unfoldable pub bus_command : TlmCommand → TransportFn S
  unfolding bus_write bus_read holds
  bus_command read p s =
      if holds p 1 then bus_read (record p { buffer = set p.buffer 0 0 }) s else undefined_behaviour
  bus_command write p s = bus_write p s
  bus_command ignore p s = returned (answer p ok 2) s

  -- The transport that `bind_bus` installs.
  unfoldable pub bus_transport : TransportFn S
  unfolding bus_command
  bus_transport p s = bus_command p.command p s

-- The two memcpy of `bind_memory`: the address is cut to 32 bits, and no bound is tested.
unfoldable pub memory_command : TlmCommand → TransportFn Memory
unfolding fill holds answer in_bounds
memory_command read p m =
    if in_bounds m (u32 p.address) p.bytes && holds p p.bytes
    then returned
        (answer (record p { buffer = fill p.buffer (slice m.byte (u32 p.address) p.bytes) }) ok 1) m
    else undefined_behaviour
memory_command write p m =
    if in_bounds m (u32 p.address) p.bytes && holds p p.bytes
    then returned (answer p ok 1)
        (record m { byte = blit m.byte (u32 p.address) (take p.bytes p.buffer) })
    else undefined_behaviour
memory_command ignore p m = returned (answer p ok 1) m

-- The transport that `bind_memory` installs. The sum is a uint64_t.
unfoldable pub memory_transport : TransportFn Memory
unfolding memory_command
memory_transport p m =
    if ltb m.size (u64 (p.address + p.bytes))
    then returned (record p { response = address_error }) m
    else memory_command p.command p m

-- `TLMAdapter`, over the state of what it is bound to.
pub record TlmAdapter (S : Type 0) : Type 0 where
  pub initiator : TlmSocket S
  pub target : TlmSocket S

-- `bind_bus` and `bind_memory`, with their transport function.
unfoldable pub bind_with : {S : Type 0} → TransportFn S → TlmAdapter S → TlmAdapter S
unfolding set_transport bind
bind_with fn a =
    let target = set_transport a.target fn in
    record { initiator = bind a.initiator target; target = target }

unfoldable pub bind_memory : TlmAdapter Memory → TlmAdapter Memory
unfolding bind_with memory_transport
bind_memory = bind_with memory_transport

unfoldable pub bind_bus :
    {S : Type 0} → (S → Memory) → (S → Memory → S) → List (Device S) → TlmAdapter S → TlmAdapter S
unfolding bind_with bus_transport
bind_bus ram put_ram devs = bind_with (bus_transport ram put_ram devs)
