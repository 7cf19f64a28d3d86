-- ===== src/Trace.antt =====
-- include/aiasm/trace.h and src/trace.cpp: the instruction trace, the VCD writer and the GDB stub.
-- A text is the list of its character codes. The file of the writer is the list of the items
-- written to it, each item a line or a group of lines of a fixed form; that a file opens is a
-- parameter.
pub mod Laws
use novium_emulator.Base.{
  ℕ, zero, suc, ◌+◌, ltb, if◌then◌else◌, length, Bool, true, false, List, [], ◌∷◌, ◌++◌,
}
use novium_emulator.Base.Window.{push_bounded}

pub record TraceEntry : Type 0 where
  pub cycle : ℕ
  pub pc : ℕ
  pub instr : ℕ
  pub result : ℕ
  pub is_branch_taken : Bool
  pub mem_addr : ℕ

pub record InstructionTrace : Type 0 where
  pub entries : List TraceEntry
  pub max_entries : ℕ

unfoldable pub new_trace : InstructionTrace
new_trace = record { entries = []; max_entries = 8192 }

unfoldable pub push : InstructionTrace → TraceEntry → InstructionTrace
unfolding push_bounded
push t e = record t { entries = push_bounded t.max_entries t.entries e }

unfoldable pub set_max : InstructionTrace → ℕ → InstructionTrace
set_max t n = record t { max_entries = n }

unfoldable pub clear : InstructionTrace → InstructionTrace
clear t = record t { entries = [] }

abbrev pub Text : Type 0
Text = List ℕ

-- What the writer emits. `signal` is one $var line, `change` the value of a wire in binary.
pub data VcdItem : Type 0 where
  timescale : Text → VcdItem
  signal : ℕ → Text → VcdItem
  end_definitions : VcdItem
  time : ℕ → VcdItem
  change : ℕ → ℕ → VcdItem

pub record VcdWriter : Type 0 where
  pub is_open : Bool
  pub failed : Bool
  pub file : List VcdItem
  pub signals : List Text
  pub header_written : Bool

unfoldable pub new_writer : VcdWriter
new_writer = record {
  is_open = false;
  failed = false;
  file = [];
  signals = [];
  header_written = false;
}

-- `open` of a stream that is open, or of a path that cannot be opened, sets the failure flag of the
-- stream; an `open` that succeeds clears it.
unfoldable pub open_file : Bool → VcdWriter → VcdWriter
open_file opens w =
    if w.is_open
    then record w { failed = true }
    else if opens
    then record w { is_open = true; failed = false; file = [] }
    else record w { failed = true }

-- A stream that has failed takes no output.
unfoldable pub emit : List VcdItem → VcdWriter → VcdWriter
emit items w = if w.failed then w else record w { file = w.file ++ items }

unfoldable pub close : VcdWriter → VcdWriter
close w = if w.is_open then record w { is_open = false } else w

-- The $var lines, from signal `i` on.
unfoldable pub signal_lines : ℕ → List Text → List VcdItem
signal_lines i [] = []
signal_lines i (s ∷ ss) = signal i s ∷ signal_lines (i + 1) ss

unfoldable pub header_items : Text → List Text → List VcdItem
unfolding signal_lines
header_items scale signals = timescale scale ∷ (signal_lines 0 signals ++ (end_definitions ∷ []))

unfoldable pub header : Text → VcdWriter → VcdWriter
unfolding header_items emit
header scale w =
    if w.is_open
    then record (emit (header_items scale w.signals) w) { header_written = true }
    else w

-- The width is ignored.
unfoldable pub add_signal : Text → VcdWriter → VcdWriter
add_signal name w = record w { signals = w.signals ++ (name ∷ []) }

-- "1ns"
abbrev pub default_scale : Text
default_scale = b'1' ∷ b'n' ∷ b's' ∷ []

unfoldable pub dump_items : ℕ → ℕ → ℕ → ℕ → List VcdItem
dump_items cycle pc raw gpr0 = time cycle ∷ change 0 pc ∷ change 1 raw ∷ change 2 gpr0 ∷ []

unfoldable pub dump : ℕ → ℕ → ℕ → ℕ → VcdWriter → VcdWriter
unfolding header dump_items emit
dump cycle pc raw gpr0 w =
    if w.is_open
    then emit (dump_items cycle pc raw gpr0)
        (if w.header_written then w else header default_scale w)
    else w

pub record GdbStub : Type 0 where
  pub running : Bool
  pub port : ℕ

unfoldable pub start : ℕ → GdbStub → GdbStub
start port g = record { running = true; port = port }

unfoldable pub stop : GdbStub → GdbStub
stop g = record g { running = false }
