-- ===== src/Lib.antt =====
-- A verification library for the Novium emulator: a machine with a scratchpad, a main RAM, 16 general
-- and 8 vector registers, an Sv39-like MMU, traps and interrupts, DMA, a timer and a UART, and the
-- layers around it: clusters of such machines, guest decoders, source front ends, checkpoints and a
-- command line.
--
-- How the parts interact. `Emulator::step` takes a pending interrupt, fetches a word over the bus or
-- through the MMU, dispatches it to a handler, records its cycles in the profiler and ticks the
-- peripherals; `run` repeats it, and `run_fast` replays blocks from the block cache. Handlers use the
-- register file, the memories and the AXI fabric. A cluster steps several machines in turn, gives each
-- a window on one shared RAM, and counts their cycles in the deterministic engine. The benchmark loads
-- its program into a machine, runs it and checks the registers. Front ends and decoders produce
-- programs to load. Caches, pipeline, warp scheduler, timing, counters, traces, transactions,
-- checkpoints and the FPGA bridge are components of their own that the emulator's step does not call.
--
-- Files and code:
--   Base              conversions, shifts, lists, texts and bounded queues that all files share;
--                     Base.Print the formats of printf that the listings use
--   Config, Isa       include/aiasm/config.h, isa.h: constants, opcodes, fields; Isa.Enc the encoders;
--                     Isa.Disasm the disassembler; Isa.Halting the HALT that programs are closed with
--   Registers, Csr    include/aiasm/registers.h, csr.h
--   Memory            include/aiasm/memory.h: VirtualSRAM and MainRAM, as a size and bytes
--   Interrupt         src/interrupt.cpp: pending interrupts, trap entry, MRET, SRET
--   Mmu, Mmu.Walk     src/mmu.cpp: TLB, simple map, page-table walk
--   Devices, Bus      include/aiasm/devices.h, bus.h
--   Interconnect      src/interconnect.cpp: the fabrics
--   Profiler, Target, Debugger, Translate
--                     include/aiasm/profiler.h, target.h, debugger.h, translate.h; Debugger.Listing the
--                     listings of src/emulator.cpp
--   Kernels           include/aiasm/host.h and the scalar loops of src/emulator.cpp
--   Emulator          src/emulator.cpp: Basics (bus, registers, traps), Handlers and Tensor (one function
--                     per instruction), Step (fetch, execute, step, run), Fast (run_fast), Control
--                     (construction, loading, saved states), Api (the C interface); Typed follows the
--                     ranges of registers, bytes and counters through all of them, Switched what the
--                     acceleration, the verbose mode, the block cache and the host do not change, and
--                     Fast.Whole the rounds of `run_fast` against the steps of `run`
--   Cluster           src/cluster.cpp: cores and signals; Cluster.Run the rounds; Reach, Frozen, Clock
--                     and Signals what they keep
--   Deterministic, Checkpoint, Timing, Pmc
--                     include/aiasm/deterministic.h, checkpoint.h, timing.h, pmc.h and their sources
--   Tlm, Fpga, Trace  src/tlm.cpp, fpga.cpp, trace.cpp
--   Frontend          src/frontend.cpp: the lowerings of C++, SystemVerilog, Chisel and assembly
--   Coremark          src/coremark.cpp: the benchmark's program and its loop
--   Command           src/main.cpp: the test program and the accuracy check, with its matrices in Lanes and
--                     the product in Product; Command.File the run of a source file; Command.Sections
--                     some sections of the test run
--   Cache, Pipeline, Parallel, Decoder
--                     src/cache.cpp, pipeline.cpp, parallel.cpp, decoder.cpp
-- A `Laws` module, or one named for what it proves, holds the theorems on the module above it; Tests
-- applies them to concrete inputs.
--
-- How the code is read. An operation on the emulator is a function of a machine that returns, throws
-- one of the errors, or is undefined, which is an access outside an array. Machine integers are natural
-- numbers with the wrap written out; signed values and floats are their bit patterns. Float addition
-- and multiplication and the vector instructions of the host are parameters, about which nothing is
-- assumed. So are the regular expressions, std::stoi and sscanf of the front end; one theorem assumes of
-- sscanf that a format with a literal # reads nothing from a line without one. Arrays are functions of
-- the index with their length beside them where the code tests it. The shared RAM of a cluster is handed
-- to a core for its turn and taken back after it.
--
-- Bounds and fuel. A walk has three levels, a block at most 32 words, and the other loops run over a
-- list or a count. The loop of the peripheral ticks has one round of fuel for each whole tick in the
-- accumulator, which is what it takes. `run` may go on for ever, on a machine, in a cluster or in the
-- benchmark, so that it takes fuel and says when it ran out. The test program of src/main.cpp halts after
-- 33 steps, so that 40 are enough for each of its runs.
--
-- Not modelled: printed text but for the listings (reports, logs, dumps, diagnostics, the CSV export),
-- ratios and times in floating point, the sections of src/main.cpp that call one component each, the
-- declarations of include/aiasm/aism.h, and the file that CMake generated to identify the compiler. What
-- a compiler makes of the bytes of a register file in a checkpoint's blob is not in the source: a
-- blob is its size and the registers.
pub mod Base
pub mod Command
pub mod Config
pub mod Isa
pub mod Registers
pub mod Memory
pub mod Csr
pub mod Interrupt
pub mod Mmu
pub mod Devices
pub mod Interconnect
pub mod Profiler
pub mod Target
pub mod Kernels
pub mod Bus
pub mod Translate
pub mod Debugger
pub mod Emulator
pub mod Cache
pub mod Pipeline
pub mod Parallel
pub mod Decoder
pub mod Tests
pub mod Deterministic
pub mod Checkpoint
pub mod Timing
pub mod Pmc
pub mod Trace
pub mod Tlm
pub mod Fpga
pub mod Frontend
pub mod Cluster
pub mod Coremark
