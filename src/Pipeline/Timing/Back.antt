-- ===== src/Pipeline/Timing/Back.antt =====
-- A tick of the slots, and the marking of those that end, keep the stamps within their bounds.
use accelsim_lite.Prelude.{
  ℕ, ◌+◌, ◌≤◌, ◌≡◌, refl, sym, subst, ◌∙◌, List, [], ◌∷◌, ◌++◌, arith, inl, inr, ◌==◌, Bool-cases,
  All, All-append, succeed, >>=-succeeds, ◌<◌, false, succeed_injective, All-map,
}
use accelsim_lite.Pipeline.{
  ExecSlot, State, at, Tick, tick_remaining, release, tick_slot, tick_slots, start_tick, after_tick,
  complete_one, complete_all, resume,
}
use accelsim_lite.Pipeline.Placement.Back.{complete_one-IsPlaced, resume-IsPlaced}
use accelsim_lite.Pipeline.Timing.{
  Clock, IsStamped, IsDue, IsOver, IsTimedBut, IsTimed, SameIssue-IsDue,
}
use accelsim_lite.Pipeline.Timing.Marks.{Marks, mark-IsTimed, mark-IsDue, mark-IsOver}
use accelsim_lite.Instruction.{retire, stage_rank, Instruction}

-- No bound is earlier.
pub record Later (k k' : Clock) : Type 0 where
  pub later_fetched : k.fetched ≤ k'.fetched
  pub later_decoded : k.decoded ≤ k'.decoded
  pub later_dispatched : k.dispatched ≤ k'.dispatched
  pub later_retired : k.retired ≤ k'.retired
  pub later_finished : k.finished ≤ k'.finished
  pub later_now : k.now ≤ k'.now

pub Later-IsStamped : (k k' : Clock) (x : Instruction) → Later k k' → IsStamped k x → IsStamped k' x
Later-IsStamped k k' x h v = ground (arith, h, v)

pub Later-IsTimed :
    (k k' : Clock) (s : State)
    → Later k k'
    → k'.now ≡ k.now
    → k'.since ≡ k.since
    → IsTimed k s
    → IsTimed k' s
Later-IsTimed k k' s h n e v = record {
  placed = v.placed;
  on_time = v.on_time ∙ sym n;
  stamps = λ i lt. Later-IsStamped k k' (at s i) h (v.stamps i lt);
  due = subst (λ since. All (IsDue since s) s.exec_slots) (sym e) v.due;
  over = tt;
  deps_before = v.deps_before;
}

-- The slots that go on and the indices that have ended in the middle of a tick.
record IsTicked (s : State) (since : ℕ) (t : Tick) : Type 0 where
  on_due : All (IsDue (since + 1) s) t.remaining_slots
  ended_over : All (IsOver since s) t.finished

release-same :
    (slot : ExecSlot) (t t' : Tick)
    → release slot t ≡ succeed t'
    → (t'.remaining_slots ≡ t.remaining_slots) × (t'.finished ≡ t.finished)
unfolding release
release-same slot t t' h = ground arith

ends-IsOver :
    (s : State) (since : ℕ) (slot : ExecSlot)
    → IsDue since s slot
    → tick_remaining slot.remaining ≡ 0
    → IsOver since s slot.index
unfolding tick_remaining
ends-IsOver s since slot v h = ground (arith, h, v)

goes_on-IsDue :
    (s : State) (since : ℕ) (slot : ExecSlot)
    → IsDue since s slot
    → (tick_remaining slot.remaining == 0) ≡ false
    → IsDue (since + 1) s (record slot { remaining = tick_remaining slot.remaining })
unfolding tick_remaining
goes_on-IsDue s since slot v h = ground (arith, h, v)

tick_slot-IsTicked :
    (s : State) (since : ℕ) (slot : ExecSlot) (t t' : Tick)
    → IsDue since s slot
    → IsTicked s since t
    → tick_slot slot t ≡ succeed t'
    → IsTicked s since t'
unfolding tick_slot
tick_slot-IsTicked s since slot t t' due v h =
    let on = record slot { remaining = tick_remaining slot.remaining } in
    elim (Bool-cases (tick_remaining slot.remaining == 0)) [
      | inl over ↦
          let (same_slots, ends) =
            release-same slot (record t { finished = t.finished ++ slot.index ∷ [] }) t'
              (simp over at h) in
          record {
            on_due = subst (All (IsDue (since + 1) s)) (sym same_slots) v.on_due;
            ended_over = subst (All (IsOver since s)) (sym ends) (
                All-append (IsOver since s) t.finished (slot.index ∷ []) v.ended_over
                  (ends-IsOver s since slot due (ground (arith, over)), tt));
          }
      | inr more ↦
          let e = succeed_injective (simp more at h) refl refl in
          subst (IsTicked s since) e (record {
            on_due =
                All-append (IsDue (since + 1) s) t.remaining_slots (on ∷ []) v.on_due
                  (goes_on-IsDue s since slot due more, tt);
            ended_over = v.ended_over;
          })
    ]

tick_slots-IsTicked :
    (s : State) (since : ℕ) (slots : List ExecSlot) (t t' : Tick)
    → All (IsDue since s) slots
    → IsTicked s since t
    → tick_slots slots t ≡ succeed t'
    → IsTicked s since t'
unfolding tick_slots
tick_slots-IsTicked s since [] t t' due v h =
    subst (IsTicked s since) (succeed_injective h refl refl) v
tick_slots-IsTicked s since (slot ∷ slots) t t' (d, ds) v h =
    let (u, p, q) = >>=-succeeds (tick_slot slot t) (tick_slots slots) h in
    tick_slots-IsTicked s since slots u t' ds (tick_slot-IsTicked s since slot t u d v p) q

complete_one-IsTimed :
    (k : Clock) (s : State) (idx : ℕ) (ended : List ℕ)
    → k.now + 1 ≤ k.retired
    → IsTimedBut k (idx ∷ ended) s
    → IsTimedBut k ended (complete_one idx s)
unfolding complete_one
complete_one-IsTimed k s idx ended bound v =
    let (now_over, later_over) = v.over in
    let f = λ (x : Instruction). record x { complete_cycle = s.cycle; stage = retire } in
    let (lt, g) : (idx < s.next_to_fetch) × (stage_rank (at s idx).stage ≡ 4) =
      ground (arith, v.placed.places idx) in
    let m : Marks s (complete_one idx s) idx f = record {
      written = refl;
      same_next = refl;
      same_cycle = refl;
      in_flight = lt;
      unfinished = omega (arith, g);
    } in
    mark-IsTimed k s _ idx f (idx ∷ ended) v m ended (complete_one-IsPlaced s idx ended v.placed)
      (ground (arith, g, v.on_time, v.stamps idx lt, now_over))
      (λ up. v.deps_before idx lt (omega (arith, g)))
      (mark-IsDue k s _ idx f (idx ∷ ended) v m (λ x. refl) (λ x. refl) refl)
      (mark-IsOver k s _ idx f (idx ∷ ended) v m (λ x. refl) (λ x. refl) ended later_over)

complete_all-IsTimed :
    (k : Clock) (ended : List ℕ) (s : State)
    → k.now + 1 ≤ k.retired
    → IsTimedBut k ended s
    → IsTimed k (complete_all ended s)
unfolding complete_all
complete_all-IsTimed k [] s bound v = v
complete_all-IsTimed k (idx ∷ ended) s bound v =
    complete_all-IsTimed k ended (complete_one idx s) bound
      (complete_one-IsTimed k s idx ended bound v)

-- After the slots have been advanced, what they have left is counted from the next cycle.
pub after_tick-IsTimed :
    (k k' : Clock) (s : State) (t : Tick)
    → tick_slots s.exec_slots (start_tick s) ≡ succeed t
    → k.since ≡ k.now
    → Later k k'
    → k'.now ≡ k.now
    → k'.since ≡ k.now + 1
    → k'.now + 1 ≤ k'.retired
    → IsTimed k s
    → IsTimed k' (after_tick s t)
unfolding after_tick start_tick
after_tick-IsTimed k k' s t h at_start later now since bound v =
    let ticked : IsTicked s k.since t =
      tick_slots-IsTicked s k.since s.exec_slots (start_tick s) t v.due
        (record { on_due = tt; ended_over = tt }) h in
    complete_all-IsTimed k' t.finished (resume s t) bound (record {
      placed = resume-IsPlaced s t h v.placed;
      on_time = v.on_time ∙ sym now;
      stamps = λ i lt. Later-IsStamped k k' (at s i) later (v.stamps i lt);
      due =
          subst (λ n. All (IsDue n (resume s t)) t.remaining_slots) (omega (arith, at_start, since))
            (All-map (IsDue (k.since + 1) s) (IsDue (k.since + 1) (resume s t)) t.remaining_slots
              (λ slot.
                SameIssue-IsDue (k.since + 1) s (resume s t) slot
                  (record { same_issue = refl; same_latency = refl }))
              ticked.on_due);
      over =
          subst (λ n. All (IsOver n (resume s t)) t.finished) (omega (arith, at_start, now))
            ticked.ended_over;
      deps_before = v.deps_before;
    })
