-- ===== src/Instruction/Parse.antt =====
-- `parse_op_type` of include/accelsim/model/instruction.hpp.
use accelsim_lite.Prelude.{
  ℕ, ◌-◌, ◌≡◌, ◌↔◌, ◌&&◌, Option, none, some, map, leb, if◌then◌else◌, true, arith,
}
use accelsim_lite.Instruction.{OpType, compute, load, store, op_to_string}
use accelsim_lite.Prelude.Text.{Text, codes, text_eq, text_eq_iff}

-- `std::toupper` in the "C" locale.
unfoldable pub to_upper : ℕ → ℕ
to_upper c = if leb b'a' c && leb c b'z' then c - 32 else c

-- `none` is the exception "unsupported op_type".
unfoldable pub parse_op_type : Text → Option OpType
unfolding to_upper
parse_op_type value =
    let upper = map to_upper value in
    if text_eq upper (codes "COMPUTE")
    then some compute
    else if text_eq upper (codes "LOAD")
    then some load
    else if text_eq upper (codes "STORE")
    then some store
    else none

-- Two spellings that differ at most in the case of their letters.
abbrev pub SameUpToCase : Text → Text → Type 0
SameUpToCase s t = map to_upper s ≡ map to_upper t

spells :
    (upper : Text)
    → ((text_eq upper (codes "COMPUTE") ≡ true) ↔ (upper ≡ codes "COMPUTE"))
      × ((text_eq upper (codes "LOAD") ≡ true) ↔ (upper ≡ codes "LOAD"))
      × ((text_eq upper (codes "STORE") ≡ true) ↔ (upper ≡ codes "STORE"))
spells upper = (text_eq_iff upper _, text_eq_iff upper _, text_eq_iff upper _)

-- `parse_op_type` inverts `to_string`, whatever the case of the letters, and accepts nothing else:
-- it returns an operation exactly when the text spells that operation up to case.
pub parse_op_type-op_to_string :
    (s : Text) (op : OpType) → (parse_op_type s ≡ some op) ↔ SameUpToCase s (op_to_string op)
unfolding parse_op_type op_to_string
parse_op_type-op_to_string s compute = ground (arith, spells (map to_upper s))
parse_op_type-op_to_string s load = ground (arith, spells (map to_upper s))
parse_op_type-op_to_string s store = ground (arith, spells (map to_upper s))
