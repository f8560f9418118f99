-- ===== src/Workload/Tests.antt =====
-- Workload files, and the witnesses of the theorems on them.
use accelsim_lite.Prelude.{ℕ, ◌≡◌, refl, false, List, [], ◌∷◌, ◌++◌, contains, All, succeed, throw}
use accelsim_lite.Workload.{
  is_blank, get_items, ends_in, split, trim_front, trim_back, trim, missing_dependency, is_space,
  is_digit, skip_space, read_digits, magnitude, stoull, to_u32,
}
use accelsim_lite.Instruction.{OpType, compute, load, store, Instruction, blank}
use accelsim_lite.Pipeline.Finished.{latency}
use accelsim_lite.Workload.Split.{join, join-split}
use accelsim_lite.Workload.Load.{
  column, parse_tokens, parse_deps, parse_type, clamp_latency, parse_fields, parse_row, starts_with,
  load_line, load_lines, check_deps, check_all, load_content,
}
use accelsim_lite.Workload.Loading.{IsWorkload, load_content-IsWorkload}
use accelsim_lite.Workload.Trim.{AllBlank, IsTrimmed, trim-IsTrimmed}
use accelsim_lite.Instruction.Parse.{to_upper, parse_op_type}
use accelsim_lite.Prelude.Text.{Text, codes}

abbrev line : Text
line = codes "3,LOAD,4,64,"

join-split_example :
    (join b',' (split line b',') ≡ line)
    × All (λ token. contains token b',' ≡ false) (split line b',')
join-split_example = join-split line b','

five_columns : split line b',' ≡ codes "3" ∷ codes "LOAD" ∷ codes "4" ∷ codes "64" ∷ [] ∷ []
unfolding split get_items ends_in
five_columns = refl

abbrev padded : Text
padded = codes "  store\r"

trim-IsTrimmed_example :
    IsTrimmed (trim padded)
    × ((before : Text) × (after : Text) × AllBlank before
        × AllBlank after
        × (padded ≡ before ++ (trim padded ++ after)))
trim-IsTrimmed_example = trim-IsTrimmed padded

abbrev content : Text
content = codes "id,op_type,latency,bytes,deps\n1,LOAD,4,64,\n\n2,compute,0,0,1\n3,STORE,2,8,1|2\n"

abbrev row : ℕ → OpType → ℕ → ℕ → List ℕ → Instruction
row id type latency bytes deps = record blank {
  id = id;
  type = type;
  execute_latency = latency;
  memory_bytes = bytes;
  deps = deps;
}

abbrev workload : List Instruction
workload = row 1 load 4 64 [] ∷ row 2 compute 1 0 (1 ∷ []) ∷ row 3 store 2 8 (1 ∷ 2 ∷ []) ∷ []

accepted : load_content content ≡ succeed workload
unfolding load_content load_lines load_line parse_row parse_fields parse_type parse_deps
    parse_tokens column clamp_latency to_u32 starts_with check_all check_deps split get_items
    ends_in trim trim_front trim_back is_blank stoull magnitude read_digits skip_space is_space
    is_digit parse_op_type to_upper
accepted = refl

load_content-IsWorkload_example : IsWorkload workload
load_content-IsWorkload_example = load_content-IsWorkload content workload accepted

unknown_dependency : load_content (codes "1,LOAD,4,64,9") ≡ throw (missing_dependency 9)
unfolding load_content load_lines load_line parse_row parse_fields parse_type parse_deps
    parse_tokens column clamp_latency to_u32 starts_with check_all check_deps split get_items
    ends_in trim trim_front trim_back is_blank stoull magnitude read_digits skip_space is_space
    is_digit parse_op_type to_upper
unknown_dependency = refl
