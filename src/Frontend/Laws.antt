-- ===== src/Frontend/Laws.antt =====
-- What every load gives, and what the C++ lowering finds.
use novium_emulator.Base.{
  ℕ, ltb, if◌then◌else◌, if_split, true, false, Option, none, some, List, [], ◌∷◌, length, ◌≡◌,
  refl, arith, ◌≢◌, All, ◌==◌, ◌&&◌,
}
use novium_emulator.Base.Text.{
  Text, codes, lowered, starts_with, contains, cut_at, is_space, trim_front, trim_end, trim,
  is_empty, lines,
}
use novium_emulator.Isa.Enc
use novium_emulator.Isa.Halting.{ends_in_halt, ensure_halt, ensure_halt-ends}
use novium_emulator.Frontend.{
  SourceKind, unknown, cpp, system_verilog, chisel, guest_asm, LoadResult, Patterns,
  annotated_program, is_kernel, kernel_program, demo_program, cpp_program, load_cpp, program_or,
  asic_program, chisel_program, load_systemverilog, load_chisel, sv_result, chisel_result, asm_text,
  asm_op, movi_of, asm_line, asm_words, load_guest_asm, load_string, refused, load,
  kind_from_extension,
}

abbrev Halts : List ℕ → Type 0
Halts ws = ends_in_halt ws ≡ true

-- A test of the fixed programs, by evaluation.
fixed_programs :
    Halts kernel_program × Halts demo_program × Halts asic_program × Halts chisel_program
unfolding ends_in_halt kernel_program demo_program asic_program chisel_program Enc.halt
fixed_programs = (refl, refl, refl, refl)

cpp_program-Halts : (px : Patterns) (src : Text) → Halts (cpp_program px src)
unfolding cpp_program
cpp_program-Halts px src =
    let ws = annotated_program px (lines src) in
    if_split Halts (is_empty ws) (if is_kernel src then kernel_program else demo_program)
      (ensure_halt ws)
      (λ _.
        if_split Halts (is_kernel src) kernel_program demo_program (λ _. fixed_programs.0)
          (λ _. fixed_programs.1))
      (λ _. ensure_halt-ends ws)

program_or-Halts :
    (default : List ℕ) (px : Patterns) (src : Text)
    → Halts default
    → Halts (program_or default px src)
unfolding program_or load_cpp
program_or-Halts default px src h =
    let ws = cpp_program px src in
    if_split Halts (ltb 1 (length ws)) ws default (λ _. cpp_program-Halts px src) (λ _. h)

-- What a load answers: a program that ends in HALT, or a refusal without one.
unfoldable pub Answered : Option LoadResult → Type 0
Answered none = Unit
Answered (some r) = (r.ok ≡ true → ends_in_halt r.program ≡ true) × (r.ok ≡ false → r.program ≡ [])

Halts-Answered : (r : LoadResult) → r.ok ≡ true → Halts r.program → Answered (some r)
unfolding Answered
Halts-Answered r o h = (λ _. h, λ e. cc)

sv_result-Answered :
    (px : Patterns) (src : Text) (tile lanes bw : Option ℕ)
    → Answered (sv_result px src tile lanes bw)
unfolding sv_result Answered
sv_result-Answered px src none lanes bw = tt
sv_result-Answered px src (some tile) none bw = tt
sv_result-Answered px src (some tile) (some lanes) none = tt
sv_result-Answered px src (some tile) (some lanes) (some bw) =
    (λ _. program_or-Halts asic_program px src fixed_programs.2, λ e. cc)

chisel_result-Answered :
    (px : Patterns) (src : Text) (lanes : Option ℕ) → Answered (chisel_result px src lanes)
unfolding chisel_result Answered
chisel_result-Answered px src none = tt
chisel_result-Answered px src (some lanes) =
    (λ _. program_or-Halts chisel_program px src fixed_programs.3, λ e. cc)

refused-Answered : Answered (some refused)
unfolding Answered refused
refused-Answered = (λ e. cc, λ _. refl)

load_string-Answered :
    (px : Patterns) (src : Text) (kind : SourceKind) → Answered (load_string px src kind)
unfolding load_string load_cpp load_guest_asm load_systemverilog load_chisel
load_string-Answered px src cpp = Halts-Answered (load_cpp px src) refl (cpp_program-Halts px src)
load_string-Answered px src system_verilog = sv_result-Answered px src _ _ _
load_string-Answered px src chisel = chisel_result-Answered px src _
load_string-Answered px src guest_asm =
    Halts-Answered (load_guest_asm px src) refl (ensure_halt-ends (asm_words px (lines src)))
load_string-Answered px src unknown = refused-Answered

-- Every load that returns, of a file of any kind and content, and whatever the patterns find, either
-- is ok with a program that ends in HALT, or is not ok and has no program.
pub load-Answered : (px : Patterns) (src : Option Text) (ext : Text) → Answered (load px src ext)
unfolding load
load-Answered px none ext = refused-Answered
load-Answered px (some src) ext = load_string-Answered px src (kind_from_extension ext)

-- No character of the text is `c`.
abbrev Without : ℕ → Text → Type 0
Without c s = All (λ d. d ≢ c) s

cut_at-Without : (s : Text) → Without b'#' (cut_at (codes "#") s)
unfolding cut_at starts_with
cut_at-Without [] = tt
cut_at-Without (d ∷ ds) =
    if_split (Without b'#') (b'#' == d && true) [] (d ∷ cut_at (codes "#") ds) (λ _. tt)
      (λ h. (λ e. ground arith, cut_at-Without ds))

trim_front-Without : (c : ℕ) (s : Text) → Without c s → Without c (trim_front s)
unfolding trim_front
trim_front-Without c [] h = tt
trim_front-Without c (d ∷ ds) h =
    if_split (Without c) (is_space d) (trim_front ds) (d ∷ ds) (λ _. trim_front-Without c ds h.1)
      (λ _. h)

trim_end-Without : (c : ℕ) (s : Text) → Without c s → Without c (trim_end s)
unfolding trim_end
trim_end-Without c [] h = tt
trim_end-Without c (d ∷ ds) h =
    if_split (Without c) (is_space d && is_empty (trim_end ds)) [] (d ∷ trim_end ds) (λ _. tt)
      (λ _. (h.0, trim_end-Without c ds h.1))

not-contains : (s : Text) → Without b'#' s → contains (codes "#") s ≡ false
unfolding contains starts_with
not-contains [] h = refl
not-contains (d ∷ ds) h = ground (arith, h.0, not-contains ds h.1)

-- sscanf reads two numbers from a text by a format with a `#` in it only if the text has one.
abbrev pub NeedsHash : (Text → Option (ℕ × ℕ)) → Type 0
NeedsHash scan = (s : Text) → contains (codes "#") s ≡ false → scan s ≡ none

asm_text-Without : (raw : Text) → Without b'#' (asm_text raw)
unfolding asm_text trim
asm_text-Without raw =
    let cut = cut_at (codes "#") (cut_at (codes "//") raw) in
    trim_end-Without b'#' (trim_front cut)
      (trim_front-Without b'#' cut (cut_at-Without (cut_at (codes "//") raw)))

movi_first :
    (low : Text)
    → starts_with (codes "movi") low ≡ true
    → (starts_with (codes "halt") low ≡ false) × (starts_with (codes "nop") low ≡ false)
unfolding starts_with
movi_first [] h = cc
movi_first (c ∷ cs) h = ground arith

asm_op-movi :
    (px : Patterns) (line low : Text)
    → Without b'#' line
    → NeedsHash px.scan_movi_spaced
    → NeedsHash px.scan_movi
    → starts_with (codes "movi") low ≡ true
    → asm_op px line low ≡ none
unfolding asm_op movi_of
asm_op-movi px line low free spaced plain movi =
    let (halt, nop) = movi_first low movi in
    let absent = not-contains line free in
    rw (halt) (rw nop (rw movi (rw (spaced line absent) (rw (plain line absent) refl))))

-- The assembler takes everything from a `#` on for a comment, and its two formats of MOVI want a `#`
-- before the number: no line whose text begins with "movi" gives an instruction.
pub asm_line-movi :
    (px : Patterns) (raw : Text)
    → NeedsHash px.scan_movi_spaced
    → NeedsHash px.scan_movi
    → starts_with (codes "movi") (lowered (asm_text raw)) ≡ true
    → asm_line px raw ≡ none
unfolding asm_line
asm_line-movi px raw spaced plain movi =
    let line = asm_text raw in
    let op = asm_op-movi px line (lowered line) (asm_text-Without raw) spaced plain movi in
    if_split (λ o. o ≡ none) (is_empty line) none (asm_op px line (lowered line)) (λ _. refl)
      (λ _. op)
