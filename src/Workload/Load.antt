-- ===== src/Workload/Load.antt =====
-- `load_workload_csv` of src/workload_runner.cpp.
use accelsim_lite.Prelude.{
  ℕ, Bool, true, false, ◌&&◌, ◌||◌, Option, none, some, List, [], ◌∷◌, ◌++◌, ltb, leb, ◌==◌,
  if◌then◌else◌, contains, insert, length, get_or, is_empty, Result, succeed, throw, ◌>>=◌,
}
use accelsim_lite.Workload.{
  get_items, split, trim, LoadError, cannot_open, too_few_columns, duplicate_id, missing_dependency,
  unsupported_type, stoull, to_u32,
}
use accelsim_lite.Config.{SimulatorConfig}
use accelsim_lite.Instruction.{OpType, Instruction, blank}
use accelsim_lite.Pipeline.Finished.{latency}
use accelsim_lite.Instruction.Parse.{parse_op_type}
use accelsim_lite.Prelude.Text.{Text, codes, text_eq}
use mathlib.Core.Option

-- `cols[i]`.
unfoldable pub column : List Text → ℕ → Text
column cols i = get_or cols i []

-- The loop over the tokens of the dependency column.
unfoldable pub parse_tokens : List Text → Result LoadError (List ℕ)
parse_tokens [] = succeed []
parse_tokens (token ∷ tokens) =
    let dep = trim token in
    let rest = parse_tokens tokens in
    if is_empty dep || text_eq dep (codes "0")
    then rest
    else do d ← stoull dep; deps ← rest; succeed (d ∷ deps)

unfoldable pub parse_deps : Text → Result LoadError (List ℕ)
parse_deps deps_raw =
    if is_empty deps_raw || text_eq deps_raw (codes "0")
    then succeed []
    else parse_tokens (split deps_raw (if contains deps_raw b'|' then b'|' else b';'))

unfoldable pub parse_type : Text → Result LoadError OpType
parse_type value = elim (parse_op_type value) [
  | none ↦ throw (unsupported_type value)
  | some type ↦ succeed type
]

-- `execute_latency`, where 0 counts as 1.
unfoldable pub clamp_latency : ℕ → ℕ
clamp_latency latency = if latency == 0 then 1 else latency

-- The rest of the loop's body for a line that is no header, once its identifier is known as new.
unfoldable pub parse_fields : List Text → ℕ → Result LoadError Instruction
unfolding column parse_deps parse_type clamp_latency
parse_fields cols id = do
  type ← parse_type (trim (column cols 1))
  latency ← stoull (trim (column cols 2))
  memory_bytes ← stoull (trim (column cols 3))
  deps ← parse_deps (if leb 5 (length cols) then trim (column cols 4) else [])
  succeed (record blank {
    id = id;
    type = type;
    execute_latency = clamp_latency (to_u32 latency);
    memory_bytes = to_u32 memory_bytes;
    deps = deps;
  })

unfoldable pub parse_row : List Text → List ℕ → Result LoadError Instruction
unfolding column
parse_row cols ids = do
  id ← stoull (trim (column cols 0))
  if contains ids id then throw (duplicate_id id) else parse_fields cols id

unfoldable pub starts_with : Text → Text → Bool
starts_with [] value = true
starts_with (c ∷ cs) [] = false
starts_with (c ∷ cs) (d ∷ ds) = (c == d) && starts_with cs ds

-- The instructions so far, with the set of their identifiers.
pub record Loading : Type 0 where
  pub instructions : List Instruction
  pub ids : List ℕ

-- One turn of the loop for a line that is neither empty nor the header.
unfoldable pub load_line : Text → Loading → Result LoadError Loading
load_line line l =
    let cols = split line b',' in
    if ltb (length cols) 4 then throw (too_few_columns line) else do
      instruction ← parse_row cols l.ids
      succeed (record {
        instructions = l.instructions ++ instruction ∷ [];
        ids = insert instruction.id l.ids;
      })

-- The loop over the lines. The flag is `first_line`.
unfoldable pub load_lines : List Text → Bool → Loading → Result LoadError Loading
load_lines [] first_line l = succeed l
load_lines (raw ∷ lines) first_line l = elim (is_empty (trim raw)) [
  | true ↦ load_lines lines first_line l
  | false ↦ elim (first_line && starts_with (codes "id,") (trim raw)) [
    | true ↦ load_lines lines false l
    | false ↦ elim (load_line (trim raw) l) [
      | throw e ↦ throw e
      | succeed l' ↦ load_lines lines false l'
    ]
  ]
]

-- The inner loop of the check of the dependencies.
unfoldable pub check_deps : List ℕ → List ℕ → Result LoadError (Unit {0})
check_deps ids [] = succeed tt
check_deps ids (dep ∷ deps) =
    if contains ids dep then check_deps ids deps else throw (missing_dependency dep)

unfoldable pub check_all : List ℕ → List Instruction → Result LoadError (Unit {0})
check_all ids [] = succeed tt
check_all ids (instruction ∷ instructions) = do
  _ ← check_deps ids instruction.deps
  check_all ids instructions

-- What `load_workload_csv` does with the content of the file.
unfoldable pub load_content : Text → Result LoadError (List Instruction)
load_content content = do
  l ← load_lines (get_items b'\n' [] content) true (record { instructions = []; ids = [] })
  _ ← check_all l.ids l.instructions
  succeed l.instructions

-- The result of `load_workload_csv` with the configuration it leaves. `read_file` gives the content
-- of a file that can be opened, and `stem` is `std::filesystem::path::stem`.
unfoldable pub load_workload_csv :
    (read_file : Text → Option Text) (stem : Text → Text)
    → Text
    → Option SimulatorConfig
    → Result LoadError (List Instruction) × Option SimulatorConfig
load_workload_csv read_file stem path config = elim (read_file path) [
  | none ↦ (throw (cannot_open path), config)
  | some content ↦ (
    load_content content,
    Option.map (λ (c : SimulatorConfig). record c { workload_name = stem path }) config,
  )
]
