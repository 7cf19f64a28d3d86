-- ===== src/Command/Product.antt =====
-- The product that the test program of src/main.cpp stores.
use novium_emulator.Base.{ℕ, true, false, some, List, ◌≡◌, refl, ap, sym, ◌∙◌, arith}
use novium_emulator.Memory
use novium_emulator.Memory.{Memory, in_bounds}
use novium_emulator.Emulator.Basics.{outside_shared, bus_read32}
use novium_emulator.Emulator.Handlers.{op_halt, op_bne, op_add, op_movi, issue_axi}
use novium_emulator.Emulator.Tensor.{op_load_vr, op_store_vr, op_vec_add, op_matmul_tile}
use novium_emulator.Emulator.Tensor.Dma.{note_backpressure, op_dma_load, op_dma_store}
use novium_emulator.Emulator.Step.{
  take_interrupt, fetch, handler, account, execute, tick_loop, tick_peripherals, note_before, step,
}
use novium_emulator.Emulator.Fast.{stopped, replay, fast_round}
use novium_emulator.Isa.{opcode_of}
use novium_emulator.Interrupt.{interrupt_pending, pending_interrupt}
use novium_emulator.Bus.{route}
use novium_emulator.Isa.Enc
use novium_emulator.Translate
use novium_emulator.Kernels.{FloatOps, HostSimd}
use novium_emulator.Translate.{empty_cache}
use novium_emulator.Emulator.{Machine, done}
use novium_emulator.Emulator.Control.{create, load_program, load_main_ram}
use novium_emulator.Emulator.Step.{run}
use novium_emulator.Emulator.Fast.Check.{fair}
use novium_emulator.Emulator.Switched.{dress}
use novium_emulator.Emulator.Switched.Run.{bare}
use novium_emulator.Command.{boot, program, measured, reference, accelerated}
use novium_emulator.Memory.{words_bytes}
use novium_emulator.Base.{◌+◌}
use novium_emulator.Kernels.{matmul_tile, VectorFile}
use novium_emulator.Emulator.Step.{step}
use novium_emulator.Emulator.Fast.Runs.{halted_stops, after_execute, at_next, step-Quiet}
use novium_emulator.Emulator.Fast.Check.{quiet, quiet-Quiet}
use novium_emulator.Emulator.Fast.Whole.{onward, run_next}
use novium_emulator.Target.{profile_cycle_weight}
use novium_emulator.Kernels.{avx2, avx512, neon, no_simd}
use novium_emulator.Base.{fun_ext, low_bits, ◌*◌, ◌/◌, ◌%◌, ◌<◌}
use novium_emulator.Isa.{Opcode, opcode_code, opcode, rd, ra, rb, func}
use novium_emulator.Emulator.Tensor.{lanes_at, with_vr}
use novium_emulator.Command.Accuracy.{booted, result_of, runs_alike}
use novium_emulator.Emulator.Fast.Skips.{after_steps, going, run_skips}
use novium_emulator.Emulator.Tensor.Tile.{tile_size, below, tile_execute}
use novium_emulator.Command.Lanes.{lanes, product, tile-product}

-- The bytes of a word together.
abbrev whole : ℕ → ℕ
whole w = w % 256 + w / 256 % 256 * 256 + w / 65536 % 256 * 65536 + w / 16777216 % 256 * 16777216

whole_lem : (w : ℕ) → w < 0x100000000 → whole w ≡ w
whole_lem w l = omega arith

module _ (fl : FloatOps) (simd : HostSimd) (a b : ℕ → ℕ) where
  -- The machine before the product.
  abbrev ready : Machine
  ready = after_steps fl simd 28 (booted a b)

  abbrev tile_word : ℕ
  tile_word = Enc.matmul_tile 3 0 1 4

  abbrev before : VectorFile
  before = (at_next fl simd ready).regs.vr

  -- The machine after the product, with these vector registers.
  abbrev tiled : VectorFile → Machine
  tiled vr =
      let m = at_next fl simd ready in
      let c = profile_cycle_weight m.target Opcode.matmul_tile (low_bits (func tile_word) 4) in
      tick_peripherals (account fl simd Opcode.matmul_tile tile_word c (with_vr m vr))

  ready_computes :
      (going fl simd 28 (booted a b) ≡ true)
      × (quiet tile_word ready ≡ true)
      × (stopped ready ≡ false)
  unfolding boot program create measured outside_shared bus_read32 op_halt op_bne op_add op_movi
      issue_axi op_load_vr op_store_vr op_vec_add op_matmul_tile note_backpressure op_dma_load
      op_dma_store take_interrupt fetch handler account execute tick_loop tick_peripherals
      note_before step run stopped replay fast_round fair load_program load_main_ram opcode_of
      Enc.halt Enc.bne Enc.add Enc.movi Enc.load_vr Enc.store_vr Enc.vec_add Enc.matmul_tile
      Enc.dma_load Enc.dma_store Memory.read32 interrupt_pending pending_interrupt route
      Translate.translate going after_steps
  ready_computes = (refl, refl, refl)

  result_computes :
      (vr : VectorFile) → result_of (run fl simd 11 (tiled vr)) ≡ some (words_bytes (lanes (vr 3)))
  unfolding boot program create measured outside_shared bus_read32 op_halt op_bne op_add op_movi
      issue_axi op_load_vr op_store_vr op_vec_add op_matmul_tile note_backpressure op_dma_load
      op_dma_store take_interrupt fetch handler account execute tick_loop tick_peripherals
      note_before step run stopped replay fast_round fair load_program load_main_ram opcode_of
      Enc.halt Enc.bne Enc.add Enc.movi Enc.load_vr Enc.store_vr Enc.vec_add Enc.matmul_tile
      Enc.dma_load Enc.dma_store Memory.read32 interrupt_pending pending_interrupt route
      Translate.translate after_steps words_bytes profile_cycle_weight func
  result_computes vr = refl

  word_fields :
      (opcode_of (opcode tile_word) ≡ some Opcode.matmul_tile)
      × (rd tile_word ≡ 3)
      × (ra tile_word ≡ 0)
      × (rb tile_word ≡ 1)
      × (low_bits (func tile_word) 4 ≡ 4)
  unfolding opcode opcode_of rd ra rb func Enc.matmul_tile opcode_code
  word_fields = (refl, refl, refl, refl, refl)

-- VEC_ADD leaves the operands, on each host.
operands_loaded :
    (fl : FloatOps) (simd : HostSimd) (a b : ℕ → ℕ)
    → (lanes (before fl simd a b 0) ≡ lanes (λ k. whole (a k)))
      × (lanes (before fl simd a b 1) ≡ lanes (λ k. whole (b k)))
unfolding boot program create measured outside_shared bus_read32 op_halt op_bne op_add op_movi
    issue_axi op_load_vr op_store_vr op_vec_add op_matmul_tile note_backpressure op_dma_load
    op_dma_store take_interrupt fetch handler account execute tick_loop tick_peripherals note_before
    step run stopped replay fast_round fair load_program load_main_ram opcode_of Enc.halt Enc.bne
    Enc.add Enc.movi Enc.load_vr Enc.store_vr Enc.vec_add Enc.matmul_tile Enc.dma_load Enc.dma_store
    Memory.read32 interrupt_pending pending_interrupt route Translate.translate after_steps
    words_bytes lanes_at
operands_loaded fl avx2 a b = (refl, refl)
operands_loaded fl avx512 a b = (refl, refl)
operands_loaded fl neon a b = (refl, refl)
operands_loaded fl no_simd a b = (refl, refl)

module _ (fl : FloatOps) (simd : HostSimd) (a b : ℕ → ℕ) where
  tile_at :
      (vr : VectorFile) (d x y n : ℕ)
      → d ≡ 3
      → x ≡ 0
      → y ≡ 1
      → n ≡ 4
      → matmul_tile fl vr d x y n ≡ matmul_tile fl vr 3 0 1 4
  tile_at vr d x y n e f g h = cc

  step-tiled :
      step fl simd (ready fl simd a b)
      ≡ done tt (tiled fl simd a b (matmul_tile fl (before fl simd a b) 3 0 1 4))
  step-tiled =
      let m = ready fl simd a b in
      let w = tile_word fl simd a b in
      let (g, q, s) = ready_computes fl simd a b in
      let (o, d, x, y, n) = word_fields fl simd a b in
      step-Quiet fl simd w m (halted_stops fl simd m s) (quiet-Quiet w m q)
      ∙ ap (after_execute fl simd) (
          tile_execute fl simd w (at_next fl simd m) o (tile_size n) (below d refl) (below x refl)
            (below y refl))
      ∙ ap (λ vr. done tt (tiled fl simd a b vr)) (tile_at (before fl simd a b) _ _ _ _ d x y n)

  run_result :
      result_of (run fl simd 40 (booted a b))
      ≡ some
          (words_bytes (product fl (lanes (before fl simd a b 0)) (lanes (before fl simd a b 1))))
  run_result =
      let m = ready fl simd a b in
      let (g, q, s) = ready_computes fl simd a b in
      let vr = matmul_tile fl (before fl simd a b) 3 0 1 4 in
      ap result_of (
        run_skips fl simd 28 12 (booted a b) g
        ∙ run_next fl simd 11 m s
        ∙ ap (onward fl simd 11) step-tiled)
      ∙ result_computes fl simd a b vr
      ∙ ap (λ xs. some (words_bytes xs)) (tile-product fl (before fl simd a b))

  product_loaded :
      ((k : ℕ) → a k < 0x100000000)
      → ((k : ℕ) → b k < 0x100000000)
      → product fl (lanes (before fl simd a b 0)) (lanes (before fl simd a b 1))
        ≡ product fl (lanes a) (lanes b)
  product_loaded u v =
      let (p, q) = operands_loaded fl simd a b in
      ap (λ xs. product fl xs (lanes (before fl simd a b 1)))
        (p ∙ ap lanes (fun_ext λ k. whole_lem (a k) (u k)))
      ∙ ap (product fl (lanes a)) (q ∙ ap lanes (fun_ext λ k. whole_lem (b k) (v k)))

some_inj : (xs ys : List ℕ) → some xs ≡ some ys → xs ≡ ys
some_inj xs ys e = cc

-- For all matrices of words, float operations and vector widths of the two hosts, both runs of the
-- accuracy check of `main` end within 40 steps, without an error: `run` with the acceleration off,
-- and `run_fast` with it on. Both read the product of the matrices from the main RAM, row by row:
-- element (i, j) is the sum over k, from the left and from zero, of a[i, k] · b[k, j]. The machines are equal up to the switches and the block cache, halted, and
-- hold 15 in r3.
pub accelerated-reference :
    (fl : FloatOps) (simd simd' : HostSimd) (a b : ℕ → ℕ)
    → ((k : ℕ) → a k < 0x100000000)
    → ((k : ℕ) → b k < 0x100000000)
    → let bytes = words_bytes (product fl (lanes a) (lanes b)) in
      (m : Machine) × (n : Machine) × (reference fl simd 40 (lanes a) (lanes b)
        ≡ some (done bytes m))
      × (accelerated fl simd' 40 (lanes a) (lanes b) ≡ some (done bytes n))
      × (dress bare m ≡ dress bare n)
      × (m.regs.gpr 3 ≡ 15)
      × (m.regs.halt ≡ true)
accelerated-reference fl simd simd' a b u v =
    let (r, m, n, p, q, same, sum, halted, out) = runs_alike fl simd simd' a b in
    let e : r ≡ words_bytes (product fl (lanes a) (lanes b)) =
      some_inj _ _ (sym out ∙ run_result fl simd' a b)
      ∙ ap words_bytes (product_loaded fl simd' a b u v) in
    (m, n, p ∙ ap (λ t. some (done t m)) e, q ∙ ap (λ t. some (done t n)) e, same, sum, halted)
