-- ===== src/Isa/Tests.antt =====
-- The theorem on `parse_op` at one name.
use accelsim_lite.Prelude.{◌≡◌, refl, ◌↔◌}
use accelsim_lite.Isa.{matmul_op, parse_op, parse_op_lem}
use accelsim_lite.Instruction.Parse.{SameUpToCase}
use accelsim_lite.Prelude.Text.{codes}

matmul_in_mixed_case :
    (parse_op (codes "MatMul") ≡ matmul_op) ↔ SameUpToCase (codes "MatMul") (codes "MATMUL")
matmul_in_mixed_case = parse_op_lem (codes "MatMul") (codes "MATMUL") matmul_op refl
