-- ===== src/Instruction/Tests.antt =====
-- Spellings of operations, and the witness of the theorem on them.
use accelsim_lite.Prelude.{◌≡◌, refl, ◌↔◌, none, some}
use accelsim_lite.Instruction.{load, store, op_to_string}
use accelsim_lite.Instruction.Parse.{
  to_upper, parse_op_type, SameUpToCase, parse_op_type-op_to_string,
}
use accelsim_lite.Prelude.Text.{codes}

parse_op_type-op_to_string_example :
    (parse_op_type (codes "Load") ≡ some load) ↔ SameUpToCase (codes "Load") (op_to_string load)
parse_op_type-op_to_string_example = parse_op_type-op_to_string (codes "Load") load

mixed_case : parse_op_type (codes "sTore") ≡ some store
unfolding parse_op_type to_upper
mixed_case = refl

unknown_type : parse_op_type (codes "ADD") ≡ none
unfolding parse_op_type to_upper
unknown_type = refl
