-- ===== src/Frontend/Programs.antt =====
-- src/frontend.cpp: the fixed programs, which stand in where a source has no annotations.
use novium_emulator.Base.{ℕ, List, [], ◌∷◌}
use novium_emulator.Isa.Enc

unfoldable pub kernel_program : List ℕ
kernel_program =
    Enc.load_vr 0 5 0
    ∷ Enc.load_vr 1 6 0
    ∷ Enc.vec_add 2 0 1
    ∷ Enc.matmul_tile 3 0 1 4
    ∷ Enc.store_vr 3 5 0
    ∷ Enc.halt
    ∷ []

-- The branch goes back by 12 bytes: uint16_t(-12).
unfoldable pub demo_program : List ℕ
demo_program =
    Enc.movi 1 0
    ∷ Enc.movi 2 5
    ∷ Enc.movi 4 1
    ∷ Enc.movi 3 0
    ∷ Enc.add 1 1 4
    ∷ Enc.add 3 3 1
    ∷ Enc.bne 1 2 0xFFF4
    ∷ Enc.movi 5 0x1000
    ∷ Enc.movi 6 0x1040
    ∷ Enc.movi 7 0
    ∷ Enc.movi 8 64
    ∷ Enc.dma_load 5 7 64
    ∷ Enc.dma_load 6 8 64
    ∷ Enc.load_vr 0 5 0
    ∷ Enc.load_vr 1 6 0
    ∷ Enc.vec_add 2 0 1
    ∷ Enc.matmul_tile 3 0 1 4
    ∷ Enc.store_vr 3 5 0
    ∷ Enc.halt
    ∷ []

unfoldable pub asic_program : List ℕ
asic_program =
    Enc.movi 5 0x1000
    ∷ Enc.movi 7 0
    ∷ Enc.dma_load 5 7 64
    ∷ Enc.load_vr 0 5 0
    ∷ Enc.load_vr 1 5 0
    ∷ Enc.vec_add 2 0 1
    ∷ Enc.matmul_tile 3 0 1 4
    ∷ Enc.store_vr 3 5 0
    ∷ Enc.halt
    ∷ []

unfoldable pub chisel_program : List ℕ
chisel_program = Enc.load_vr 0 5 0 ∷ Enc.load_vr 1 6 0 ∷ Enc.matmul_tile 3 0 1 4 ∷ Enc.halt ∷ []
