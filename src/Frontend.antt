-- ===== src/Frontend.antt =====
-- include/aiasm/frontend.h and src/frontend.cpp: source texts lowered to guest programs. The regular
-- expressions, std::stoi and sscanf are the standard library's, and are parameters. Diagnostics and
-- the name of a target are only printed and are left out. Characters are ASCII.
mod Programs
pub mod Laws
unfoldable pub use Programs.{kernel_program, demo_program, asic_program, chisel_program}
use novium_emulator.Base.{
  ℕ, ◌+◌, u8, u16, ltb, ◌==◌, if◌then◌else◌, ◌||◌, Bool, true, false, Option, none, some, List, [],
  ◌∷◌, ◌++◌, length,
}
use novium_emulator.Base.Text.{
  Text, codes, lowered, starts_with, contains, same, cut_at, trim, is_empty, lines,
}
use novium_emulator.Isa.Enc
use novium_emulator.Isa.Halting.{ensure_halt}
use novium_emulator.Target.{TargetProfile, make_cpu_profile, make_asic_profile}

pub data SourceKind : Type 0 where
  unknown cpp system_verilog chisel guest_asm : SourceKind

unfoldable pub kind_of : Text → SourceKind
unfolding same
kind_of ext =
    if same ext (codes ".cpp")
      || same ext (codes ".cc")
      || same ext (codes ".c")
      || same ext (codes ".hpp")
      || same ext (codes ".h")
    then cpp
    else if same ext (codes ".sv") || same ext (codes ".v") || same ext (codes ".svh")
    then system_verilog
    else if same ext (codes ".scala") || same ext (codes ".sc")
    then chisel
    else if same ext (codes ".asm") || same ext (codes ".s")
    then guest_asm
    else unknown

-- The extension of the path, in lower case.
unfoldable pub kind_from_extension : Text → SourceKind
unfolding kind_of lowered
kind_from_extension ext = kind_of (lowered ext)

pub record LoadResult : Type 0 where
  pub program : List ℕ
  pub target : TargetProfile
  pub kind : SourceKind
  pub ok : Bool

-- The searches give the digits or the command that the pattern captures, `stoi` the number of a text
-- of digits unless it throws, and the scans the integers when all were read.
pub record Patterns : Type 0 where
  pub annotation : Text → Option Text
  pub sv_tile : Text → Option Text
  pub sv_lanes : Text → Option Text
  pub sv_bw : Text → Option Text
  pub chisel_lanes : Text → Option Text
  pub stoi : Text → Option ℕ
  pub scan_movi_spaced : Text → Option (ℕ × ℕ)
  pub scan_movi : Text → Option (ℕ × ℕ)
  pub scan_vec_add : Text → Option (ℕ × ℕ × ℕ)

-- The instruction of an annotation in lower case.
unfoldable pub annotated_op : Text → Option ℕ
unfolding contains
annotated_op low =
    if contains (codes "vec_add") low
    then some (Enc.vec_add 2 0 1)
    else if contains (codes "matmul") low
    then some (Enc.matmul_tile 3 0 1 4)
    else if contains (codes "dma_load") low
    then some (Enc.dma_load 5 7 64)
    else if contains (codes "dma_store") low
    then some (Enc.dma_store 9 5 64)
    else if contains (codes "halt") low
    then some Enc.halt
    else none

abbrev pub prepend : Option ℕ → List ℕ → List ℕ
prepend none ws = ws
prepend (some w) ws = w ∷ ws

-- The instruction of `// novium: halt` and the like in a line.
unfoldable pub annotated_line : Option Text → Option ℕ
unfolding annotated_op lowered
annotated_line none = none
annotated_line (some cmd) = annotated_op (lowered cmd)

unfoldable pub annotated_program : Patterns → List Text → List ℕ
unfolding annotated_line
annotated_program px [] = []
annotated_program px (l ∷ ls) = prepend (annotated_line (px.annotation l)) (annotated_program px ls)

unfoldable pub is_kernel : Text → Bool
unfolding contains
is_kernel src = contains (codes "novium::kernel") src || contains (codes "novium kernel") src

-- `found` is set by the first instruction that is added: it says that the program is not empty.
unfoldable pub cpp_program : Patterns → Text → List ℕ
unfolding annotated_program lines is_kernel ensure_halt
cpp_program px src =
    let ws = annotated_program px (lines src) in
    if is_empty ws then (if is_kernel src then kernel_program else demo_program) else ensure_halt ws

unfoldable pub load_cpp : Patterns → Text → LoadResult
unfolding cpp_program
load_cpp px src = record {
  program = cpp_program px src;
  target = make_cpu_profile;
  kind = cpp;
  ok = true;
}

-- The number that a pattern captures, or the default; `none` is the exception of std::stoi.
unfoldable pub number_or : (Text → Option ℕ) → ℕ → Option Text → Option ℕ
number_or stoi default none = some default
number_or stoi default (some digits) = stoi digits

-- The C++ lowering of the source, unless it has one instruction or none.
unfoldable pub program_or : List ℕ → Patterns → Text → List ℕ
unfolding load_cpp
program_or default px src =
    let ws = (load_cpp px src).program in if ltb 1 (length ws) then ws else default

-- `none` is a number that throws.
unfoldable pub sv_result : Patterns → Text → Option ℕ → Option ℕ → Option ℕ → Option LoadResult
unfolding program_or asic_program
sv_result px src none lanes bw = none
sv_result px src (some tile) none bw = none
sv_result px src (some tile) (some lanes) none = none
sv_result px src (some tile) (some lanes) (some bw) = some (record {
  program = program_or asic_program px src;
  target = record make_asic_profile { vector_lanes = lanes; dma_bandwidth = bw };
  kind = system_verilog;
  ok = true;
})

-- The number of TILE is read and not used.
unfoldable pub load_systemverilog : Patterns → Text → Option LoadResult
unfolding number_or sv_result
load_systemverilog px src =
    sv_result px src (number_or px.stoi 0 (px.sv_tile src))
      (number_or px.stoi make_asic_profile.vector_lanes (px.sv_lanes src))
      (number_or px.stoi make_asic_profile.dma_bandwidth (px.sv_bw src))

unfoldable pub chisel_result : Patterns → Text → Option ℕ → Option LoadResult
unfolding program_or chisel_program
chisel_result px src none = none
chisel_result px src (some lanes) = some (record {
  program = program_or chisel_program px src;
  target = record make_asic_profile { vector_lanes = lanes };
  kind = chisel;
  ok = true;
})

unfoldable pub load_chisel : Patterns → Text → Option LoadResult
unfolding number_or chisel_result
load_chisel px src =
    chisel_result px src (number_or px.stoi make_asic_profile.vector_lanes (px.chisel_lanes src))

-- Both formats are tried, the second one where the first reads less than two numbers.
unfoldable pub movi_of : Option (ℕ × ℕ) → Option (ℕ × ℕ) → Option ℕ
movi_of (some (rd, imm)) second = some (Enc.movi (u8 rd) (u16 imm))
movi_of none (some (rd, imm)) = some (Enc.movi (u8 rd) (u16 imm))
movi_of none none = none

unfoldable pub vec_add_of : Option (ℕ × ℕ × ℕ) → Option ℕ
vec_add_of none = none
vec_add_of (some (d, a, b)) = some (Enc.vec_add (u8 d) (u8 a) (u8 b))

-- The mnemonic is tested in lower case, the operands are read from the line as it is.
unfoldable pub asm_op : Patterns → Text → Text → Option ℕ
unfolding starts_with movi_of vec_add_of
asm_op px line low =
    if starts_with (codes "halt") low
    then some Enc.halt
    else if starts_with (codes "nop") low
    then some Enc.nop
    else if starts_with (codes "movi") low
    then movi_of (px.scan_movi_spaced line) (px.scan_movi line)
    else if starts_with (codes "vec_add") low
    then vec_add_of (px.scan_vec_add line)
    else if starts_with (codes "matmul") low
    then some (Enc.matmul_tile 3 0 1 4)
    else none

-- A line without its comment and outer white space.
unfoldable pub asm_text : Text → Text
unfolding cut_at trim
asm_text raw = trim (cut_at (codes "#") (cut_at (codes "//") raw))

unfoldable pub asm_line : Patterns → Text → Option ℕ
unfolding asm_op asm_text lowered
asm_line px raw =
    let line = asm_text raw in if is_empty line then none else asm_op px line (lowered line)

unfoldable pub asm_words : Patterns → List Text → List ℕ
unfolding asm_line
asm_words px [] = []
asm_words px (l ∷ ls) = prepend (asm_line px l) (asm_words px ls)

unfoldable pub load_guest_asm : Patterns → Text → LoadResult
unfolding asm_words ensure_halt lines
load_guest_asm px src = record {
  program = ensure_halt (asm_words px (lines src));
  target = make_asic_profile;
  kind = guest_asm;
  ok = true;
}

-- What a load that fails leaves: the defaults of the fields.
unfoldable pub refused : LoadResult
refused = record { program = []; target = make_asic_profile; kind = unknown; ok = false }

unfoldable pub load_string : Patterns → Text → SourceKind → Option LoadResult
unfolding load_cpp load_guest_asm refused
load_string px src cpp = some (load_cpp px src)
load_string px src system_verilog = load_systemverilog px src
load_string px src chisel = load_chisel px src
load_string px src guest_asm = some (load_guest_asm px src)
load_string px src unknown = some refused

-- `load`, with the content of the file, if it opens, and the extension of its path.
unfoldable pub load : Patterns → Option Text → Text → Option LoadResult
unfolding refused
load px none ext = some refused
load px (some src) ext = load_string px src (kind_from_extension ext)
