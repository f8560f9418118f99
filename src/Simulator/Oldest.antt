-- ===== src/Simulator/Oldest.antt =====
-- The oldest waiting instruction can wake up, if dependencies go backwards.
use accelsim_lite.Prelude.{
  ℕ, ◌+◌, ◌<◌, ◌≡◌, ap, subst, ◌∙◌, ◌≢◌, inl, inr, true, List, [], ◌∷◌, arith, ltb, Bool-cases,
  count, contains, count-append, length, get_or, All,
}
use native.Mathlib.Decide.{dec_lt}
use accelsim_lite.Config.{SimulatorConfig, FitsWords}
use accelsim_lite.Simulator.{start}
use accelsim_lite.Scheduler.{deps_satisfied, deps_satisfied_iff}
use accelsim_lite.Pipeline.{State, at}
use accelsim_lite.Instruction.{stage_rank, Instruction, blank}
use accelsim_lite.Pipeline.Moves.{Moves, one-Move, Moves_keep}
use accelsim_lite.Pipeline.Program.{SameProgram, SameProgram-trans, Move-SameProgram}
use accelsim_lite.Pipeline.Resources.{IsAccounted, Move-IsAccounted}
use accelsim_lite.Pipeline.Placement.{slot_indices, IsPlaced}
use accelsim_lite.Pipeline.Order.{
  count-range, count-range-ne, IsOrdered, Move-IsOrdered, AreRetired, Move-AreRetired,
}
use accelsim_lite.Pipeline.Work.{WithinBound, Moves-WithinBound}
use accelsim_lite.Pipeline.Placement.Steps.{Move-IsPlaced}
use accelsim_lite.Simulator.Safety.{start-length, start-SameOperation}

-- Each dependency names an earlier instruction.
abbrev pub GoesBackwards : List Instruction → Type 0
GoesBackwards workload =
    (i : ℕ)
    → i < length workload
    → (dep : ℕ) → count dep (get_or workload i blank).deps ≢ 0
    → (j : ℕ) × (j < i) × ((get_or workload j blank).id ≡ dep)

pub record IsRunning (config : SimulatorConfig) (bound : ℕ) (workload : List Instruction)
    (s : State) : Type 0 where
  pub placed : IsPlaced s
  pub accounted : IsAccounted config s
  pub ordered : IsOrdered s
  pub known : AreRetired s
  pub within : WithinBound bound s
  pub same : SameProgram (start workload) s

pub Moves-IsRunning :
    {config : SimulatorConfig} {bound : ℕ} {workload : List Instruction} {s t : State}
    → FitsWords config
    → Moves config s t
    → IsRunning config bound workload s
    → IsRunning config bound workload t
Moves-IsRunning {config} {bound} {workload} fits ms v =
    Moves_keep (IsRunning config bound workload)
      (λ s t m r. record {
        placed = Move-IsPlaced s t m r.placed;
        accounted = Move-IsAccounted fits s t m r.accounted;
        ordered = Move-IsOrdered s t m r.ordered;
        known = Move-AreRetired s t m r.placed r.known;
        within = Moves-WithinBound bound (one-Move m) r.within;
        same = SameProgram-trans r.same (Move-SameProgram m);
      })
      ms v

-- A smallest number of the list.
least :
    (x : ℕ) (xs : List ℕ)
    → (m : ℕ) × (count m (x ∷ xs) ≢ 0) × ((j : ℕ) → j < m → count j (x ∷ xs) ≡ 0)
least x [] = (x, ground arith, λ j h. ground arith)
least x (y ∷ ys) =
    let (m, is_in, is_least) = least y ys in
    elim (Bool-cases (ltb x m)) [
      | inl less ↦ (x, ground arith, λ j h. ground (arith, is_least j))
      | inr more ↦ (m, ground arith, λ j h. ground (arith, is_least j))
    ]

All-of_count : (P : ℕ → Type 0) (xs : List ℕ) → ((a : ℕ) → count a xs ≢ 0 → P a) → All P xs
All-of_count P [] f = tt
All-of_count P (x ∷ xs) f = (f x (ground arith), All-of_count P xs (λ a h. f a (ground arith)))

dispatched-lt :
    (s : State) (i : ℕ)
    → IsPlaced s
    → (order : IsOrdered s) → count i s.dispatch_q ≢ 0
    → (i < order.first) × (i < s.next_to_fetch)
dispatched-lt s i placed order h = elim (dec_lt i order.first) [
  | yes lt ↦ (lt, omega (arith, order.reaches))
  | no ge ↦
      let held_i : (i < s.next_to_fetch) × (stage_rank (at s i).stage ≡ 2) =
        ground (arith, (placed.places i).in_dispatch) in
      let in_queue : count i s.decode_q + count i s.fetch_q ≢ 0 = ground (
        arith,
        count-range-ne i order.first order.waiting (omega arith) (omega (arith, order.reaches)),
        ap (count i) order.in_order,
        count-append i s.decode_q s.fetch_q,
      ) in
      absurd (ground (arith, (placed.places i).in_decode, (placed.places i).in_fetch))
]

-- With nothing past dispatch, what is older than all of `dispatch_q` is done.
older_done :
    (s : State) (i : ℕ)
    → IsPlaced s
    → (order : IsOrdered s) → s.ready_q ≡ []
    → s.retire_q ≡ []
    → s.exec_slots ≡ []
    → i < order.first
    → i < s.next_to_fetch
    → count i s.dispatch_q ≡ 0
    → stage_rank (at s i).stage ≡ 6
older_done s i placed order r t e lt next none_in = ground (
  arith,
  placed.places i,
  ap (count i) r,
  ap (count i) t,
  ap (λ slots. count i (slot_indices slots)) e,
  count-range i order.first order.waiting lt,
  ap (count i) order.in_order,
  count-append i s.decode_q s.fetch_q,
)

pub oldest_ready :
    {config : SimulatorConfig} {bound : ℕ} {workload : List Instruction} (s : State)
    → IsRunning config bound workload s
    → GoesBackwards workload
    → (idx : ℕ) (rest : List ℕ) → s.dispatch_q ≡ idx ∷ rest
    → s.ready_q ≡ []
    → s.retire_q ≡ []
    → s.exec_slots ≡ []
    → (m : ℕ) × (count m s.dispatch_q ≢ 0) × (deps_satisfied (at s m) s.retired_ids ≡ true)
oldest_ready {workload} s v back idx rest e r t x =
    let (m, is_in, is_least) = least idx rest in
    let here : count m s.dispatch_q ≢ 0 = ground (arith, ap (count m) e) in
    let (first, next) = dispatched-lt s m v.placed v.ordered here in
    let range : m < length workload =
      omega (arith, v.placed.in_range, v.same.same_length, start-length workload) in
    let program = λ (i : ℕ). start-SameOperation workload i (v.same.same_at i) in
    let retired = λ (dep : ℕ) (h : count dep (at s m).deps ≢ 0).
      let (j, older, id) =
        back m range dep (subst (λ deps. count dep deps ≢ 0) (program m).same_deps h) in
      let out : count j s.dispatch_q ≡ 0 = ap (count j) e ∙ is_least j older in
      let over = older_done s j v.placed v.ordered r t x (omega arith) (omega arith) out in
      subst (λ d. contains s.retired_ids d ≡ true) ((program j).same_id ∙ id)
        (v.known j (omega arith) over) in
    (
      m,
      here,
      (deps_satisfied_iff (at s m) s.retired_ids).1
          (All-of_count (λ dep. contains s.retired_ids dep ≡ true) (at s m).deps retired),
    )
