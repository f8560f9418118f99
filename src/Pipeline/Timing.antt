-- ===== src/Pipeline/Timing.antt =====
-- The cycle stamps of the instructions of `run_workload`. The bounds move on within a turn of the
-- main loop, so they are part of the statement.
pub mod Marks
pub mod Front
pub mod Back
pub mod Issue
use accelsim_lite.Prelude.{
  ℕ, ◌+◌, ◌≤◌, ◌<◌, ◌≡◌, ◌≢◌, max, refl, sym, ap, subst, ◌∙◌, List, [], arith, length, modify,
  get_or, get_or-modify_self, get_or-modify_ne, All, All-map,
}
use accelsim_lite.Pipeline.{ExecSlot, State, at}
use accelsim_lite.Instruction.{Instruction, blank, stage_rank}
use accelsim_lite.Pipeline.Placement.{IsPlacedBut}
use native.Mathlib.Decide.{ℕ_discrete}

-- Bounds of the stamps: of the instructions in fetch, decode and dispatch, of those in the queue for
-- retirement, of those that are done, and of those in the slots; and the number of the cycle.
pub record Clock : Type 0 where
  pub fetched : ℕ
  pub decoded : ℕ
  pub dispatched : ℕ
  pub retired : ℕ
  pub finished : ℕ
  pub since : ℕ
  pub now : ℕ

-- The cycles that an instruction spends in its slot.
abbrev pub occupancy_time : Instruction → ℕ
occupancy_time x = max 1 x.execute_latency

-- An instruction is issued three cycles after its fetch at the earliest, and completed when its
-- latency is over, after one cycle at least.
pub record IsStamped (k : Clock) (x : Instruction) : Type 0 where
  pub in_fetch : stage_rank x.stage ≡ 0 → x.enqueue_cycle + 1 ≤ k.fetched
  pub in_decode : stage_rank x.stage ≡ 1 → x.enqueue_cycle + 2 ≤ k.decoded
  pub in_dispatch : stage_rank x.stage ≡ 2 → x.enqueue_cycle + 3 ≤ k.dispatched
  pub in_ready : stage_rank x.stage ≡ 3 → x.enqueue_cycle + 3 ≤ k.now
  pub issued : 4 ≤ stage_rank x.stage → x.enqueue_cycle + 3 ≤ x.issue_cycle
  pub completed : 5 ≤ stage_rank x.stage → x.complete_cycle ≡ x.issue_cycle + occupancy_time x
  pub in_retire : stage_rank x.stage ≡ 5 → x.complete_cycle + 1 ≤ k.retired
  pub in_done : stage_rank x.stage ≡ 6 → x.complete_cycle + 2 ≤ k.finished

-- The cycles that are left of an instruction in a slot are those to the end of its latency.
pub record IsDue (since : ℕ) (s : State) (slot : ExecSlot) : Type 0 where
  pub started : (at s slot.index).issue_cycle + 1 ≤ since
  pub left :
      since + slot.remaining ≡ (at s slot.index).issue_cycle + (at s slot.index).execute_latency + 1
  pub at_once : slot.remaining ≡ 0 → (at s slot.index).execute_latency ≡ 0

-- The latency of an instruction is over in this cycle.
abbrev pub IsOver : ℕ → State → ℕ → Type 0
IsOver now s idx = now ≡ (at s idx).issue_cycle + occupancy_time (at s idx)

-- An instruction with this identifier was completed before the cycle.
abbrev pub IsFinishedBefore : State → ℕ → ℕ → Type 0
IsFinishedBefore s cycle dep =
    (j : ℕ) × (j < s.next_to_fetch)
    × ((at s j).id ≡ dep)
    × (stage_rank (at s j).stage ≡ 6)
    × ((at s j).complete_cycle < cycle)

-- The list `ended` holds the indices that have left the slots and wait to be marked.
pub record IsTimedBut (k : Clock) (ended : List ℕ) (s : State) : Type 0 where
  pub placed : IsPlacedBut ended s
  pub on_time : s.cycle ≡ k.now
  pub stamps : (i : ℕ) → i < s.next_to_fetch → IsStamped k (at s i)
  pub due : All (IsDue k.since s) s.exec_slots
  pub over : All (IsOver k.now s) ended
  pub deps_before :
      (i : ℕ)
      → i < s.next_to_fetch
      → 4 ≤ stage_rank (at s i).stage
      → All (IsFinishedBefore s (at s i).issue_cycle) (at s i).deps

abbrev pub IsTimed : Clock → State → Type 0
IsTimed k s = IsTimedBut k [] s

pub get_or-modify_field {ℓ κ} :
    {A : Type ℓ} {B : Type κ} (g : A → B) (xs : List A) (idx i : ℕ) (f : A → A) (d : A)
    → idx < length xs
    → ((x : A) → g (f x) ≡ g x)
    → g (get_or (modify xs idx f) i d) ≡ g (get_or xs i d)
get_or-modify_field g xs idx i f d h same = elim (ℕ_discrete idx i) [
  | yes e ↦
      subst (λ j. g (get_or (modify xs idx f) j d) ≡ g (get_or xs j d)) e
        (ap g (get_or-modify_self xs idx f d h) ∙ same (get_or xs idx d))
  | no ne ↦ ap g (get_or-modify_ne xs f d ne)
]

-- Slots and ended indices depend on the issue and the latency of their instructions only.
pub record SameIssue (s t : State) (i : ℕ) : Type 0 where
  pub same_issue : (at t i).issue_cycle ≡ (at s i).issue_cycle
  pub same_latency : (at t i).execute_latency ≡ (at s i).execute_latency

pub SameIssue-IsDue :
    (since : ℕ) (s t : State) (slot : ExecSlot)
    → SameIssue s t slot.index
    → IsDue since s slot
    → IsDue since t slot
SameIssue-IsDue since s t slot h v = record {
  started = omega (arith, h.same_issue, v.started);
  left = omega (arith, h.same_issue, h.same_latency, v.left);
  at_once = λ e. h.same_latency ∙ v.at_once e;
}

pub SameIssue-IsOver :
    (now : ℕ) (s t : State) (idx : ℕ) → SameIssue s t idx → IsOver now s idx → IsOver now t idx
SameIssue-IsOver now s t idx h v = v ∙ omega (arith, h.same_issue, ap (max 1) h.same_latency)

pub still-IsFinishedBefore :
    (s t : State) (cycle dep : ℕ)
    → s.next_to_fetch ≤ t.next_to_fetch
    → ((j : ℕ) → j < s.next_to_fetch → stage_rank (at s j).stage ≡ 6 → at t j ≡ at s j)
    → IsFinishedBefore s cycle dep
    → IsFinishedBefore t cycle dep
still-IsFinishedBefore s t cycle dep more same (j, lt, e, d, before) =
    let eq = same j lt d in
    (
      j,
      omega arith,
      ap (λ x. x.id) eq ∙ e,
      ap (λ x. stage_rank x.stage) eq ∙ d,
      omega (arith, ap (λ x. x.complete_cycle) eq, before),
    )
