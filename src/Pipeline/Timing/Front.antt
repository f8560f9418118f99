-- ===== src/Pipeline/Timing/Front.antt =====
-- The moves of an instruction to the next queue keep the stamps within their bounds.
use accelsim_lite.Prelude.{
  ℕ, ◌+◌, ◌≤◌, ◌<◌, ◌≡◌, ◌≢◌, refl, sym, ap, subst, ◌∙◌, List, ◌∷◌, arith, modify, get_or, count,
  All, All-map,
}
use accelsim_lite.Pipeline.{State, at, retire_one}
use accelsim_lite.Instruction.{
  Stage, retire, done, Instruction, blank, stage_rank, fetch, decode, dispatch, ready,
}
use accelsim_lite.Pipeline.Front.{wake_up, dispatch_one, decode_one}
use accelsim_lite.Pipeline.Placement.{IsPlaced, front-stage, held}
use accelsim_lite.Pipeline.Timing.{
  Clock, IsStamped, IsDue, IsFinishedBefore, IsTimed, SameIssue-IsDue, still-IsFinishedBefore,
}
use accelsim_lite.Pipeline.Timing.Marks.{Marks, restage-IsTimed}

-- A state with the same instructions, slots and cycle.
pub record SameTimes (s t : State) : Type 0 where
  pub same_instructions : t.instructions ≡ s.instructions
  pub same_next : t.next_to_fetch ≡ s.next_to_fetch
  pub same_cycle : t.cycle ≡ s.cycle
  pub same_slots : t.exec_slots ≡ s.exec_slots

pub SameTimes-IsTimed :
    (k : Clock) (s t : State) → SameTimes s t → IsPlaced t → IsTimed k s → IsTimed k t
SameTimes-IsTimed k s t h placed v = record {
  placed = placed;
  on_time = h.same_cycle ∙ v.on_time;
  stamps = λ i lt. subst (IsStamped k) (sym (same i)) (v.stamps i (omega (arith, lt, h.same_next)));
  due = subst (All (IsDue k.since t)) (sym h.same_slots) (
      All-map (IsDue k.since s) (IsDue k.since t) s.exec_slots
        (λ slot. SameIssue-IsDue k.since s t slot (record {
          same_issue = ap (λ x. x.issue_cycle) (same slot.index);
          same_latency = ap (λ x. x.execute_latency) (same slot.index);
        }))
        v.due);
  over = tt;
  deps_before = λ i lt up.
      let lt' : i < s.next_to_fetch = omega (arith, lt, h.same_next) in
      subst (λ x. All (IsFinishedBefore t x.issue_cycle) x.deps) (sym (same i))
        (All-map (IsFinishedBefore s (at s i).issue_cycle) (IsFinishedBefore t (at s i).issue_cycle)
          (at s i).deps
          (λ dep.
            still-IsFinishedBefore s t (at s i).issue_cycle dep (omega (arith, h.same_next))
              (λ j ltj d. same j))
          (v.deps_before i lt' (subst (λ x. 4 ≤ stage_rank x.stage) (same i) up)));
}
  where
    same : (i : ℕ) → at t i ≡ at s i
    same i = ap (λ xs. get_or xs i blank) h.same_instructions

-- The front of a queue other than the last one can be marked.
pub front-Marks :
    (s t : State) (stage : Stage) (idx : ℕ) (q rest : List ℕ) (f : Instruction → Instruction)
    → stage_rank stage ≢ 6
    → q ≡ idx ∷ rest
    → count idx q ≡ held s stage idx
    → t.instructions ≡ modify s.instructions idx f
    → t.next_to_fetch ≡ s.next_to_fetch
    → t.cycle ≡ s.cycle
    → Marks s t idx f × (stage_rank (at s idx).stage ≡ stage_rank stage)
front-Marks s t stage idx q rest f ne e h w n c =
    let (lt, g) = front-stage s stage idx q rest e h in
    (
      record {
        written = w;
        same_next = n;
        same_cycle = c;
        in_flight = lt;
        unfinished = omega (arith, g, ne);
      },
      g,
    )

module _ (k : Clock) (s : State) (idx : ℕ) (rest : List ℕ) (v : IsTimed k s) where
  pub wake_up-IsTimed :
      k.dispatched ≤ k.now
      → s.dispatch_q ≡ idx ∷ rest
      → IsPlaced (wake_up idx (record s { dispatch_q = rest }))
      → IsTimed k (wake_up idx (record s { dispatch_q = rest }))
  unfolding wake_up
  wake_up-IsTimed bound e placed =
      let (m, g) =
        front-Marks s (wake_up idx (record s { dispatch_q = rest })) dispatch idx s.dispatch_q rest
          (λ x. record x { stage = ready }) (omega arith) e (v.placed.places idx).in_dispatch refl
          refl refl in
      restage-IsTimed k s _ idx ready v m placed refl (λ up. absurd (omega arith))
        (ground (arith, g, v.stamps idx m.in_flight))

  pub dispatch_one-IsTimed :
      k.decoded + 1 ≤ k.dispatched
      → s.decode_q ≡ idx ∷ rest
      → IsPlaced (dispatch_one idx (record s { decode_q = rest }))
      → IsTimed k (dispatch_one idx (record s { decode_q = rest }))
  unfolding dispatch_one
  dispatch_one-IsTimed bound e placed =
      let (m, g) =
        front-Marks s (dispatch_one idx (record s { decode_q = rest })) decode idx s.decode_q rest
          (λ x. record x { stage = dispatch }) (omega arith) e (v.placed.places idx).in_decode refl
          refl refl in
      restage-IsTimed k s _ idx dispatch v m placed refl (λ up. absurd (omega arith))
        (ground (arith, g, v.stamps idx m.in_flight))

  pub decode_one-IsTimed :
      k.fetched + 1 ≤ k.decoded
      → s.fetch_q ≡ idx ∷ rest
      → IsPlaced (decode_one idx (record s { fetch_q = rest }))
      → IsTimed k (decode_one idx (record s { fetch_q = rest }))
  unfolding decode_one
  decode_one-IsTimed bound e placed =
      let (m, g) =
        front-Marks s (decode_one idx (record s { fetch_q = rest })) fetch idx s.fetch_q rest
          (λ x. record x { stage = decode }) (omega arith) e (v.placed.places idx).in_fetch refl
          refl refl in
      restage-IsTimed k s _ idx decode v m placed refl (λ up. absurd (omega arith))
        (ground (arith, g, v.stamps idx m.in_flight))

  pub retire_one-IsTimed :
      k.retired + 1 ≤ k.finished
      → s.retire_q ≡ idx ∷ rest
      → IsPlaced (retire_one idx (record s { retire_q = rest }))
      → IsTimed k (retire_one idx (record s { retire_q = rest }))
  unfolding retire_one
  retire_one-IsTimed bound e placed =
      let (m, g) =
        front-Marks s (retire_one idx (record s { retire_q = rest })) retire idx s.retire_q rest
          (λ x. record x { stage = done }) (omega arith) e (v.placed.places idx).in_retire refl refl
          refl in
      restage-IsTimed k s _ idx done v m placed refl (λ up. omega (arith, g))
        (ground (arith, g, v.stamps idx m.in_flight))
