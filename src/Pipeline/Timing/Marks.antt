-- ===== src/Pipeline/Timing/Marks.antt =====
-- A round of a loop that marks one instruction keeps the stamps.
use accelsim_lite.Prelude.{
  ℕ, ◌≤◌, ◌<◌, ◌≡◌, ◌≢◌, refl, sym, ap, subst, ◌∙◌, List, [], arith, length, modify, get_or,
  get_or-modify_self, get_or-modify_ne, All, All-map,
}
use accelsim_lite.Pipeline.{State, at}
use accelsim_lite.Instruction.{Stage, Instruction, blank, stage_rank}
use accelsim_lite.Pipeline.Placement.{IsPlaced, IsPlacedBut}
use accelsim_lite.Pipeline.Timing.{
  Clock, IsStamped, IsDue, IsOver, IsFinishedBefore, IsTimedBut, IsTimed, get_or-modify_field,
  SameIssue, SameIssue-IsDue, SameIssue-IsOver, still-IsFinishedBefore,
}
use native.Mathlib.Decide.{ℕ_discrete}

-- A state with one instruction written, that has been fetched and is not done.
pub record Marks (s t : State) (idx : ℕ) (f : Instruction → Instruction) : Type 0 where
  pub written : t.instructions ≡ modify s.instructions idx f
  pub same_next : t.next_to_fetch ≡ s.next_to_fetch
  pub same_cycle : t.cycle ≡ s.cycle
  pub in_flight : idx < s.next_to_fetch
  pub unfinished : stage_rank (at s idx).stage ≢ 6

module _ (k : Clock) (s t : State) (idx : ℕ) (f : Instruction → Instruction) (ended : List ℕ)
    (v : IsTimedBut k ended s) (m : Marks s t idx f) where
  in_bounds : idx < length s.instructions
  in_bounds = omega (arith, m.in_flight, v.placed.in_range)

  pub marked : at t idx ≡ f (at s idx)
  marked =
      ap (λ xs. get_or xs idx blank) m.written
      ∙ get_or-modify_self s.instructions idx f blank in_bounds

  pub unmarked : (i : ℕ) → idx ≢ i → at t i ≡ at s i
  unmarked i ne =
      ap (λ xs. get_or xs i blank) m.written ∙ get_or-modify_ne s.instructions f blank ne

  kept_done : (j : ℕ) → j < s.next_to_fetch → stage_rank (at s j).stage ≡ 6 → at t j ≡ at s j
  kept_done j lt d =
      unmarked j (λ e. m.unfinished (subst (λ i. stage_rank (at s i).stage ≡ 6) (sym e) d))

  kept_deps :
      (cycle : ℕ) (deps : List ℕ)
      → All (IsFinishedBefore s cycle) deps
      → All (IsFinishedBefore t cycle) deps
  kept_deps cycle deps =
      All-map (IsFinishedBefore s cycle) (IsFinishedBefore t cycle) deps
        (λ dep. still-IsFinishedBefore s t cycle dep (omega (arith, m.same_next)) kept_done)

  mark-SameIssue :
      ((x : Instruction) → (f x).issue_cycle ≡ x.issue_cycle)
      → ((x : Instruction) → (f x).execute_latency ≡ x.execute_latency)
      → (i : ℕ) → SameIssue s t i
  mark-SameIssue keeps_issue keeps_latency i = record {
    same_issue =
        ap (λ xs. (get_or xs i blank).issue_cycle) m.written
        ∙ get_or-modify_field (λ x. x.issue_cycle) s.instructions idx i f blank in_bounds
            keeps_issue;
    same_latency =
        ap (λ xs. (get_or xs i blank).execute_latency) m.written
        ∙ get_or-modify_field (λ x. x.execute_latency) s.instructions idx i f blank in_bounds
            keeps_latency;
  }

  pub mark-IsTimed :
      (rest : List ℕ)
      → IsPlacedBut rest t
      → IsStamped k (f (at s idx))
      → (4 ≤ stage_rank (f (at s idx)).stage
          → All (IsFinishedBefore s (f (at s idx)).issue_cycle) (f (at s idx)).deps)
      → All (IsDue k.since t) t.exec_slots
      → All (IsOver k.now t) rest
      → IsTimedBut k rest t
  mark-IsTimed rest placed stamped before due over = record {
    placed = placed;
    on_time = m.same_cycle ∙ v.on_time;
    stamps = λ i lt. elim (ℕ_discrete idx i) [
      | yes e ↦ subst (λ j. IsStamped k (at t j)) e (subst (IsStamped k) (sym marked) stamped)
      | no ne ↦
          subst (IsStamped k) (sym (unmarked i ne)) (v.stamps i (omega (arith, lt, m.same_next)))
    ];
    due = due;
    over = over;
    deps_before = λ i lt. elim (ℕ_discrete idx i) [
      | yes e ↦
          subst (λ j. Before t (at t j)) e
            (subst (Before t) (sym marked) (λ up. kept_deps _ _ (before up)))
      | no ne ↦
          subst (Before t) (sym (unmarked i ne))
            (λ up. kept_deps _ _ (v.deps_before i (omega (arith, lt, m.same_next)) up))
    ];
  }
    where
      Before : State → Instruction → Type 0
      Before u x = 4 ≤ stage_rank x.stage → All (IsFinishedBefore u x.issue_cycle) x.deps

  -- The issue and the latency are not written, so that the slots and ended indices stay timed.
  pub mark-IsDue :
      ((x : Instruction) → (f x).issue_cycle ≡ x.issue_cycle)
      → ((x : Instruction) → (f x).execute_latency ≡ x.execute_latency)
      → t.exec_slots ≡ s.exec_slots
      → All (IsDue k.since t) t.exec_slots
  mark-IsDue keeps_issue keeps_latency e = subst (All (IsDue k.since t)) (sym e) (
      All-map (IsDue k.since s) (IsDue k.since t) s.exec_slots
        (λ slot.
          SameIssue-IsDue k.since s t slot (mark-SameIssue keeps_issue keeps_latency slot.index))
        v.due)

  pub mark-IsOver :
      ((x : Instruction) → (f x).issue_cycle ≡ x.issue_cycle)
      → ((x : Instruction) → (f x).execute_latency ≡ x.execute_latency)
      → (rest : List ℕ) → All (IsOver k.now s) rest
      → All (IsOver k.now t) rest
  mark-IsOver keeps_issue keeps_latency rest =
      All-map (IsOver k.now s) (IsOver k.now t) rest
        (λ i. SameIssue-IsOver k.now s t i (mark-SameIssue keeps_issue keeps_latency i))

-- The same, where the stage is all that is written.
pub restage-IsTimed :
    (k : Clock) (s t : State) (idx : ℕ) (stage : Stage)
    → IsTimed k s
    → Marks s t idx (λ x. record x { stage = stage })
    → IsPlaced t
    → t.exec_slots ≡ s.exec_slots
    → (4 ≤ stage_rank stage → 4 ≤ stage_rank (at s idx).stage)
    → IsStamped k (record (at s idx) { stage = stage })
    → IsTimed k t
restage-IsTimed k s t idx stage v m placed slots up stamped =
    let f = λ (x : Instruction). record x { stage = stage } in
    mark-IsTimed k s t idx f [] v m [] placed stamped (λ r. v.deps_before idx m.in_flight (up r))
      (mark-IsDue k s t idx f [] v m (λ x. refl) (λ x. refl) slots) tt
