-- ===== src/Pipeline/Timing/Issue.antt =====
-- The issue and the fetch of an instruction keep the stamps within their bounds.
use accelsim_lite.Prelude.{
  ℕ, ◌+◌, ◌≤◌, ◌<◌, ◌≡◌, ◌≢◌, refl, sym, ap, subst, ◌∙◌, true, List, [], ◌∷◌, ◌++◌, arith, length,
  count, contains, get_or-modify_self, get_or-modify_ne, All, All-map, All-append, false,
}
use accelsim_lite.Pipeline.{ExecSlot, State, at}
use accelsim_lite.Instruction.{Instruction, blank, stage_rank, fetch, ready, execute}
use accelsim_lite.Pipeline.Front.{begin_execution, fetch_one}
use accelsim_lite.Pipeline.Placement.{IsPlaced, slot_indices}
use accelsim_lite.Pipeline.Dependencies.{RespectsDeps}
use accelsim_lite.Pipeline.Timing.{
  Clock, IsStamped, IsDue, IsFinishedBefore, IsTimed, get_or-modify_field, SameIssue-IsDue,
  still-IsFinishedBefore,
}
use accelsim_lite.Pipeline.Timing.Marks.{Marks, mark-IsTimed, unmarked, marked}
use accelsim_lite.Pipeline.Timing.Front.{front-Marks}
use native.Mathlib.Decide.{ℕ_discrete}

-- A predicate holds of every slot if it holds of those whose index is found among the slots.
pub All-slots {ℓ κ} :
    (P : ExecSlot → Type ℓ) (Q : ExecSlot → Type κ) (slots : List ExecSlot)
    → ((slot : ExecSlot) → 0 < count slot.index (slot_indices slots) → P slot → Q slot)
    → All P slots
    → All Q slots
All-slots P Q [] f h = tt
All-slots P Q (x ∷ xs) f (h, hs) =
    (f x (ground arith) h, All-slots P Q xs (λ slot c. f slot (ground (arith, c))) hs)

-- All dependencies of an instruction that is ready were completed before.
ready-All :
    (k : Clock) (s : State) (deps : List ℕ)
    → k.finished ≤ k.now + 1
    → IsTimed k s
    → RespectsDeps s
    → All (λ dep. contains s.retired_ids dep ≡ true) deps
    → All (IsFinishedBefore s s.cycle) deps
ready-All k s deps past v d =
    All-map (λ dep. contains s.retired_ids dep ≡ true) (IsFinishedBefore s s.cycle) deps
      (λ dep h.
        let (j, lt, e, r) = d.retired_finished dep h in
        (j, lt, e, r, omega (arith, (v.stamps j lt).in_done r, v.on_time, past)))

begin-IsTimed :
    (k : Clock) (s t : State) (idx : ℕ) (slot : ExecSlot)
    → k.since ≡ k.now + 1
    → k.finished ≤ k.now + 1
    → IsTimed k s
    → RespectsDeps s
    → Marks s t idx (λ x. record x { stage = execute; issue_cycle = s.cycle })
    → stage_rank (at s idx).stage ≡ 3
    → t.exec_slots ≡ s.exec_slots ++ slot ∷ []
    → slot.index ≡ idx
    → slot.remaining ≡ (at s idx).execute_latency
    → IsPlaced t
    → IsTimed k t
begin-IsTimed k s t idx slot bound past v d m g slots same_index left placed =
    mark-IsTimed k s t idx f [] v m [] placed
      (ground (arith, g, v.on_time, v.stamps idx m.in_flight))
      (λ up.
        ready-All k s (at s idx).deps past v d (d.awake_deps idx m.in_flight (omega (arith, g))))
      (subst (All (IsDue k.since t)) (sym slots)
        (All-append (IsDue k.since t) s.exec_slots (slot ∷ []) old (new, tt)))
      tt
  where
    f : Instruction → Instruction
    f x = record x { stage = execute; issue_cycle = s.cycle }

    old : All (IsDue k.since t) s.exec_slots
    old =
        All-slots (IsDue k.since s) (IsDue k.since t) s.exec_slots
          (λ other c.
            let ne : idx ≢ other.index =
              λ e. absurd (ground (arith, v.placed.places other.index, g, e, c)) in
            let same = unmarked k s t idx f [] v m other.index ne in
            SameIssue-IsDue k.since s t other (record {
              same_issue = ap (λ x. x.issue_cycle) same;
              same_latency = ap (λ x. x.execute_latency) same;
            }))
          v.due

    here : at t slot.index ≡ f (at s idx)
    here = ap (at t) same_index ∙ marked k s t idx f [] v m

    new : IsDue k.since t slot
    new = record {
      started = omega (arith, ap (λ x. x.issue_cycle) here, v.on_time);
      left = omega (
        arith,
        ap (λ x. x.issue_cycle) here,
        ap (λ x. x.execute_latency) here,
        v.on_time,
        left,
        bound,
      );
      at_once = λ e. ap (λ x. x.execute_latency) here ∙ (sym left ∙ e);
    }

pub issue_memory-IsTimed :
    (k : Clock) (s : State) (idx : ℕ) (rest : List ℕ) (in_use : ℕ)
    → k.since ≡ k.now + 1
    → k.finished ≤ k.now + 1
    → s.ready_q ≡ idx ∷ rest
    → IsTimed k s
    → RespectsDeps s
    → IsPlaced (begin_execution idx true (record s { ready_q = rest; memory_in_use = in_use }))
    → IsTimed k (begin_execution idx true (record s { ready_q = rest; memory_in_use = in_use }))
unfolding begin_execution
issue_memory-IsTimed k s idx rest in_use bound past e v d placed =
    let (m, g) =
      front-Marks s (begin_execution idx true (record s { ready_q = rest; memory_in_use = in_use }))
        ready idx s.ready_q rest (λ x. record x { stage = execute; issue_cycle = s.cycle })
        (omega arith) e (v.placed.places idx).in_ready refl refl refl in
    begin-IsTimed k s _ idx _ bound past v d m g refl refl refl placed

pub issue_compute-IsTimed :
    (k : Clock) (s : State) (idx : ℕ) (rest : List ℕ) (in_use : ℕ)
    → k.since ≡ k.now + 1
    → k.finished ≤ k.now + 1
    → s.ready_q ≡ idx ∷ rest
    → IsTimed k s
    → RespectsDeps s
    → IsPlaced (begin_execution idx false (record s { ready_q = rest; compute_in_use = in_use }))
    → IsTimed k (begin_execution idx false (record s { ready_q = rest; compute_in_use = in_use }))
unfolding begin_execution
issue_compute-IsTimed k s idx rest in_use bound past e v d placed =
    let (m, g) =
      front-Marks s
        (begin_execution idx false (record s { ready_q = rest; compute_in_use = in_use })) ready idx
        s.ready_q rest (λ x. record x { stage = execute; issue_cycle = s.cycle }) (omega arith) e
        (v.placed.places idx).in_ready refl refl refl in
    begin-IsTimed k s _ idx _ bound past v d m g refl refl refl placed

pub fetch_one-IsTimed :
    (k : Clock) (s : State)
    → k.now + 1 ≤ k.fetched
    → s.next_to_fetch < length s.instructions
    → IsTimed k s
    → IsPlaced (fetch_one s)
    → IsTimed k (fetch_one s)
unfolding fetch_one
fetch_one-IsTimed k s bound more v placed = record {
  placed = placed;
  on_time = v.on_time;
  stamps = λ i lt. elim (ℕ_discrete n i) [
    | yes e ↦
        subst (λ j. IsStamped k (at t j)) e
          (subst (IsStamped k) (sym new) (ground (arith, v.on_time)))
    | no ne ↦ subst (IsStamped k) (sym (same i ne)) (v.stamps i (omega arith))
  ];
  due =
      All-map (IsDue k.since s) (IsDue k.since t) s.exec_slots
        (λ slot. SameIssue-IsDue k.since s t slot (record {
          same_issue =
              get_or-modify_field (λ x. x.issue_cycle) s.instructions n slot.index f blank more
                (λ x. refl);
          same_latency =
              get_or-modify_field (λ x. x.execute_latency) s.instructions n slot.index f blank more
                (λ x. refl);
        }))
        v.due;
  over = tt;
  deps_before = λ i lt. elim (ℕ_discrete n i) [
    | yes e ↦ subst (λ j. Before (at t j)) e (subst Before (sym new) (λ up. absurd (omega arith)))
    | no ne ↦ subst Before (sym (same i ne)) (λ up.
        All-map (IsFinishedBefore s (at s i).issue_cycle) (IsFinishedBefore t (at s i).issue_cycle)
          (at s i).deps
          (λ dep.
            still-IsFinishedBefore s t (at s i).issue_cycle dep (omega arith)
              (λ j ltj d. same j (omega arith)))
          (v.deps_before i (omega arith) up))
  ];
}
  where
    n : ℕ
    n = s.next_to_fetch

    t : State
    t = fetch_one s

    f : Instruction → Instruction
    f x = record x { stage = fetch; enqueue_cycle = s.cycle }

    new : at t n ≡ f (at s n)
    new = get_or-modify_self s.instructions n f blank more

    same : (i : ℕ) → n ≢ i → at t i ≡ at s i
    same i ne = get_or-modify_ne s.instructions f blank ne

    Before : Instruction → Type 0
    Before x = 4 ≤ stage_rank x.stage → All (IsFinishedBefore t x.issue_cycle) x.deps
