-- ===== src/Isa.antt =====
-- src/instruction.cpp and the enumeration `Op` of include/accelsim/instruction.h.
mod Tests
use accelsim_lite.Prelude.{ℕ, ◌≡◌, ◌↔◌, true, Option, none, some, map, arith, if◌then◌else◌}
use accelsim_lite.Instruction.Parse.{to_upper, SameUpToCase}
use accelsim_lite.Prelude.Text.{Text, codes, text_eq, text_eq_iff}

pub data Op : Type 0 where
  add_op matmul_op load_op store_op unknown_op : Op

-- The loop of `std::transform` is `to_upper` on each character.
unfoldable pub parse_op : Text → Op
unfolding to_upper
parse_op s =
    let t = map to_upper s in
    if text_eq t (codes "ADD")
    then add_op
    else if text_eq t (codes "MATMUL")
    then matmul_op
    else if text_eq t (codes "LOAD")
    then load_op
    else if text_eq t (codes "STORE")
    then store_op
    else unknown_op

unfoldable pub default_compute_latency : Op → ℕ
default_compute_latency add_op = 1
default_compute_latency matmul_op = 6
default_compute_latency load_op = 1
default_compute_latency store_op = 1
default_compute_latency unknown_op = 1

-- The spelling that `parse_op` compares with.
abbrev pub op_name : Op → Option Text
op_name add_op = some (codes "ADD")
op_name matmul_op = some (codes "MATMUL")
op_name load_op = some (codes "LOAD")
op_name store_op = some (codes "STORE")
op_name unknown_op = none

op_spells :
    (upper : Text)
    → ((text_eq upper (codes "ADD") ≡ true) ↔ (upper ≡ codes "ADD"))
      × ((text_eq upper (codes "MATMUL") ≡ true) ↔ (upper ≡ codes "MATMUL"))
      × ((text_eq upper (codes "LOAD") ≡ true) ↔ (upper ≡ codes "LOAD"))
      × ((text_eq upper (codes "STORE") ≡ true) ↔ (upper ≡ codes "STORE"))
op_spells upper =
    (text_eq_iff upper _, text_eq_iff upper _, text_eq_iff upper _, text_eq_iff upper _)

-- `parse_op` recognises an operation exactly where the text spells its name up to case.
pub parse_op_lem :
    (s name : Text) (op : Op) → op_name op ≡ some name → (parse_op s ≡ op) ↔ SameUpToCase s name
unfolding parse_op
parse_op_lem s name add_op e = ground (arith, op_spells (map to_upper s))
parse_op_lem s name matmul_op e = ground (arith, op_spells (map to_upper s))
parse_op_lem s name load_op e = ground (arith, op_spells (map to_upper s))
parse_op_lem s name store_op e = ground (arith, op_spells (map to_upper s))
parse_op_lem s name unknown_op e = absurd (cc)
