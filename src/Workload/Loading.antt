-- ===== src/Workload/Loading.antt =====
-- What `load_workload_csv` of src/workload_runner.cpp accepts.
use accelsim_lite.Prelude.{
  ℕ, ◌≤◌, ◌<◌, ◌≡◌, refl, inl, inr, Bool, true, false, List, [], ◌∷◌, ◌++◌, arith, count, contains,
  All, List-cases, u32_mod, u64_mod, succeed, Result-cases, sym, subst, ◌∙◌, ◌&&◌, ◌||◌, ◌==◌,
  Bool-cases, insert, count-concat, contains-insert, is_empty, All-append, succeed_injective,
  All-map,
}
use accelsim_lite.Workload.{skip_space, magnitude, stoull, to_u32, trim, get_items, split}
use accelsim_lite.Instruction.{fetch, Instruction}
use accelsim_lite.Workload.Load.{
  clamp_latency, parse_fields, parse_row, Loading, column, starts_with, load_line, load_lines,
  check_deps, check_all, load_content,
}
use accelsim_lite.Prelude.Text.{Text, codes}

abbrev pub ids_of : List Instruction → List ℕ
ids_of [] = []
ids_of (x ∷ xs) = x.id ∷ ids_of xs

-- What a line of the file gives: numbers that fit their words, and a latency of at least 1.
pub record IsRow (x : Instruction) : Type 0 where
  pub id_fits : x.id < u64_mod
  pub latency_positive : 1 ≤ x.execute_latency
  pub latency_fits : x.execute_latency < u32_mod
  pub bytes_fit : x.memory_bytes < u32_mod
  pub unfetched : x.stage ≡ fetch

pub record IsWorkload (workload : List Instruction) : Type 0 where
  pub unique_ids : (id : ℕ) → count id (ids_of workload) ≤ 1
  pub known_deps : All (λ x. All (λ dep. contains (ids_of workload) dep ≡ true) x.deps) workload
  pub rows : All IsRow workload

-- The identifiers are all different, and those of the set.
record IsLoading (l : Loading) : Type 0 where
  unique : (id : ℕ) → count id (ids_of l.instructions) ≤ 1
  same_ids : (id : ℕ) → contains l.ids id ≡ contains (ids_of l.instructions) id
  rows : All IsRow l.instructions

magnitude-lt :
    (negative : Bool) (value : Text) (n : ℕ) → magnitude negative value ≡ succeed n → n < u64_mod
unfolding magnitude
magnitude-lt negative [] n h = absurd (cc)
magnitude-lt negative (c ∷ cs) n h = ground arith

stoull-lt : (value : Text) (n : ℕ) → stoull value ≡ succeed n → n < u64_mod
unfolding stoull
stoull-lt value n h = elim (List-cases (skip_space value)) [
  | inl e ↦ ground arith
  | inr (c, cs, e) ↦
      ground (arith, magnitude-lt true cs n, magnitude-lt false cs n, magnitude-lt false (c ∷ cs) n)
]

parse_fields-IsRow :
    (cols : List Text) (id : ℕ) (x : Instruction)
    → id < u64_mod
    → parse_fields cols id ≡ succeed x
    → IsRow x × (x.id ≡ id)
unfolding parse_fields clamp_latency to_u32
parse_fields-IsRow cols id x small h = (
  record {
    id_fits = ground arith;
    latency_positive = ground arith;
    latency_fits = ground arith;
    bytes_fit = ground arith;
    unfetched = ground arith;
  },
  ground arith,
)

parse_row-IsRow :
    (cols : List Text) (ids : List ℕ) (x : Instruction)
    → parse_row cols ids ≡ succeed x
    → IsRow x × (contains ids x.id ≡ false)
unfolding parse_row
parse_row-IsRow cols ids x h = elim (Result-cases (stoull (trim (column cols 0)))) [
  | inl (id, e) ↦
      let parsed : parse_fields cols id ≡ succeed x = ground arith in
      let (row, same) = parse_fields-IsRow cols id x (stoull-lt _ id e) parsed in
      (row, ground arith)
  | inr (x, e) ↦ absurd (ground arith)
]

ids_of-append :
    (xs : List Instruction) (x : Instruction) → ids_of (xs ++ x ∷ []) ≡ ids_of xs ++ x.id ∷ []
ids_of-append [] x = refl
ids_of-append (y ∷ xs) x = ground (arith, ids_of-append xs x)

-- The state after a line that gives the instruction.
abbrev add_row : Loading → Instruction → Loading
add_row l x = record { instructions = l.instructions ++ x ∷ []; ids = insert x.id l.ids }

count_of_absent : (a : ℕ) (xs : List ℕ) → contains xs a ≡ false → count a xs ≡ 0
count_of_absent a [] h = refl
count_of_absent a (x ∷ xs) h = ground (arith, count_of_absent a xs)

contains-concat : (xs : List ℕ) (x a : ℕ) → contains (xs ++ x ∷ []) a ≡ (contains xs a || (x == a))
contains-concat [] x a = ground arith
contains-concat (y ∷ xs) x a = ground (arith, contains-concat xs x a)

add_row-IsLoading :
    (l : Loading) (x : Instruction)
    → IsRow x
    → contains l.ids x.id ≡ false
    → IsLoading l
    → IsLoading (add_row l x)
add_row-IsLoading l x row fresh v = record {
  unique = λ id. ground (
    arith,
    ids_of-append l.instructions x,
    count-concat id (ids_of l.instructions) x.id,
    count_of_absent id (ids_of l.instructions),
    v.unique id,
    v.same_ids id,
  );
  same_ids = λ id. ground (
    arith,
    ids_of-append l.instructions x,
    contains-concat (ids_of l.instructions) x.id id,
    contains-insert x.id id l.ids,
    v.same_ids id,
  );
  rows = All-append IsRow l.instructions (x ∷ []) v.rows (row, tt);
}

load_line-IsLoading :
    (line : Text) (l l' : Loading) → load_line line l ≡ succeed l' → IsLoading l → IsLoading l'
unfolding load_line
load_line-IsLoading line l l' h v = elim (Result-cases (parse_row (split line b',') l.ids)) [
  | inl (x, e) ↦
      let (row, fresh) = parse_row-IsRow (split line b',') l.ids x e in
      let next : l' ≡ add_row l x = ground arith in
      subst IsLoading (sym next) (add_row-IsLoading l x row fresh v)
  | inr (x, e) ↦ absurd (ground arith)
]

load_lines-IsLoading :
    (lines : List Text) (first_line : Bool) (l l' : Loading)
    → load_lines lines first_line l ≡ succeed l'
    → IsLoading l
    → IsLoading l'
unfolding load_lines
load_lines-IsLoading [] first_line l l' h v = subst IsLoading (succeed_injective refl refl h) v
load_lines-IsLoading (raw ∷ lines) first_line l l' h v = elim (Bool-cases (is_empty (trim raw))) [
  | inl skip ↦ load_lines-IsLoading lines first_line l l' (ground arith) v
  | inr line ↦ elim (Bool-cases (first_line && starts_with (codes "id,") (trim raw))) [
    | inl header ↦ load_lines-IsLoading lines false l l' (ground arith) v
    | inr row ↦ elim (Result-cases (load_line (trim raw) l)) [
      | inl (m, e) ↦
          load_lines-IsLoading lines false m l' (ground arith)
            (load_line-IsLoading (trim raw) l m e v)
      | inr (x, e) ↦ absurd (ground arith)
    ]
  ]
]

check_deps-All :
    (ids deps : List ℕ)
    → check_deps ids deps ≡ succeed tt
    → All (λ dep. contains ids dep ≡ true) deps
unfolding check_deps
check_deps-All ids [] h = tt
check_deps-All ids (dep ∷ deps) h = ground (arith, check_deps-All ids deps)

check_all-All :
    (ids : List ℕ) (xs : List Instruction)
    → check_all ids xs ≡ succeed tt
    → All (λ x. All (λ dep. contains ids dep ≡ true) x.deps) xs
unfolding check_all
check_all-All ids [] h = tt
check_all-All ids (x ∷ xs) h = elim (Result-cases (check_deps ids x.deps)) [
  | inl (u, e) ↦ (check_deps-All ids x.deps e, check_all-All ids xs (ground arith))
  | inr (e, p) ↦ absurd (ground arith)
]

IsLoading-IsWorkload :
    (l : Loading)
    → IsLoading l
    → check_all l.ids l.instructions ≡ succeed tt
    → IsWorkload l.instructions
IsLoading-IsWorkload l v c = record {
  unique_ids = v.unique;
  known_deps =
      All-map (λ x. All (λ dep. contains l.ids dep ≡ true) x.deps)
        (λ x. All (λ dep. contains (ids_of l.instructions) dep ≡ true) x.deps) l.instructions
        (λ x.
          All-map (λ dep. contains l.ids dep ≡ true)
            (λ dep. contains (ids_of l.instructions) dep ≡ true) x.deps
            (λ dep h. sym (v.same_ids dep) ∙ h))
        (check_all-All l.ids l.instructions c);
  rows = v.rows;
}

-- A workload that `load_workload_csv` accepts has different identifiers, only dependencies on its
-- own instructions, latencies of at least 1, and numbers that fit their words.
pub load_content-IsWorkload :
    (content : Text) (workload : List Instruction)
    → load_content content ≡ succeed workload
    → IsWorkload workload
unfolding load_content
load_content-IsWorkload content workload h =
    let begin : Loading = record { instructions = []; ids = [] } in
    elim (Result-cases (load_lines (get_items b'\n' [] content) true begin)) [
      | inl (l, e) ↦ elim (Result-cases (check_all l.ids l.instructions)) [
        | inl (u, c) ↦
            let v =
              load_lines-IsLoading (get_items b'\n' [] content) true begin l e
                (record { unique = λ id. omega arith; same_ids = λ id. refl; rows = tt }) in
            let same : l.instructions ≡ workload = ground arith in
            subst IsWorkload same (IsLoading-IsWorkload l v c)
        | inr (x, c) ↦ absurd (ground arith)
      ]
      | inr (x, e) ↦ absurd (ground arith)
    ]
