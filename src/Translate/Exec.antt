-- ===== src/Translate/Exec.antt =====
-- include/aiasm/translate.h: the host execution helpers, which nothing in the source calls. The
-- arrays behind the pointers are arrays of a `VectorFile`, by number; the profiler is optional.
use novium_emulator.Base.{ℕ, Option, none, some}
use novium_emulator.Isa.{Opcode}
use novium_emulator.Kernels.{FloatOps, HostSimd, VectorFile, vec_add_host, matmul_tile}
use novium_emulator.Profiler.{Profiler, record_op}
use novium_emulator.Target.{TargetProfile, profile_cycle_weight}

unfoldable pub record_in : Opcode → ℕ → Option Profiler → Option Profiler
unfolding record_op
record_in op cycles none = none
record_in op cycles (some p) = some (record_op p op cycles 0)

unfoldable pub exec_vec_add :
    FloatOps
    → HostSimd
    → VectorFile
    → ℕ
    → ℕ
    → ℕ
    → TargetProfile
    → Option Profiler
    → ℕ × VectorFile × Option Profiler
unfolding record_in vec_add_host profile_cycle_weight
exec_vec_add fl simd arrays dst a b prof p =
    let cycles = profile_cycle_weight prof Opcode.vec_add 0 in
    (cycles, vec_add_host fl simd arrays dst a b, record_in Opcode.vec_add cycles p)

unfoldable pub exec_matmul_tile :
    FloatOps
    → VectorFile
    → ℕ
    → ℕ
    → ℕ
    → ℕ
    → TargetProfile
    → Option Profiler
    → ℕ × VectorFile × Option Profiler
unfolding record_in matmul_tile profile_cycle_weight
exec_matmul_tile fl arrays d a b n prof p =
    let cycles = profile_cycle_weight prof Opcode.matmul_tile n in
    (cycles, matmul_tile fl arrays d a b n, record_in Opcode.matmul_tile cycles p)
