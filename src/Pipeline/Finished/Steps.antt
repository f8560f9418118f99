-- ===== src/Pipeline/Finished/Steps.antt =====
-- Every move keeps the counters of finished instructions.
use accelsim_lite.Prelude.{
  ℕ, ◌≤◌, ◌<◌, ◌≡◌, refl, ap, ◌∙◌, inl, inr, List, [], ◌∷◌, arith, count, length, get_or, modify,
  length-modify, get_or-modify_ne, get_or-modify_read, ◌+◌, sym, if◌then◌else◌, sum_below,
  sum_below-eq, sum_below_change, sum_below-add_one, get_or-modify_self, succeed,
}
use native.Mathlib.Decide.{ℕ_discrete}
use accelsim_lite.Pipeline.{
  State, at, retire_one, Tick, tick_slots, complete_one, complete_all, start_tick, after_tick,
  resume,
}
use accelsim_lite.Instruction.{
  retire, stage_rank, Instruction, blank, fetch, done, decode, dispatch, ready, execute,
}
use accelsim_lite.Pipeline.Finished.{
  IsCounted, SameFinished, latency, is_done, SameFinished-IsCounted,
}
use accelsim_lite.Pipeline.Front.{
  fetch_one, wake_up, requeue, begin_execution, postpone, dispatch_one, decode_one, end_cycle,
}
use accelsim_lite.Pipeline.Placement.{IsPlaced, front-stage}
use accelsim_lite.Pipeline.Forward.{complete_all-stage, complete_all-eq}
use accelsim_lite.Pipeline.Placement.Back.{tick_slots-Splits}
use accelsim_lite.Config.{SimulatorConfig}
use accelsim_lite.Pipeline.Moves.{
  Move, retires, advances, wakes, requeues, postpones, issues_memory, issues_compute, stalls,
  dispatches, decodes, fetches, ticks,
}

modify-SameFinished :
    (s t : State) (idx : ℕ) (f : Instruction → Instruction)
    → t.instructions ≡ modify s.instructions idx f
    → t.stats.completed_ops ≡ s.stats.completed_ops
    → t.stats.total_latency ≡ s.stats.total_latency
    → t.next_to_fetch ≡ s.next_to_fetch
    → s.next_to_fetch ≤ length s.instructions
    → stage_rank (at s idx).stage < 6
    → stage_rank (f (at s idx)).stage < 6
    → SameFinished s t
modify-SameFinished s t idx f e o l n h before after = record {
  same_ops = o;
  same_latency = l;
  same_next = n;
  same_finished = λ i lt.
      let read =
        ap (λ xs. get_or xs i blank) e
        ∙ get_or-modify_read s.instructions idx i f blank (omega arith) in
      elim (ℕ_discrete idx i) [
        | yes hit ↦ inl (ground (arith, read), ground arith)
        | no miss ↦ inr (ground (arith, read))
      ];
}

unchanged :
    (s t : State)
    → t.instructions ≡ s.instructions
    → t.stats.completed_ops ≡ s.stats.completed_ops
    → t.stats.total_latency ≡ s.stats.total_latency
    → t.next_to_fetch ≡ s.next_to_fetch
    → SameFinished s t
unchanged s t e o l n = record {
  same_ops = o;
  same_latency = l;
  same_next = n;
  same_finished = λ i lt. inr (ap (λ xs. get_or xs i blank) e);
}

-- An instruction that no finished slot holds stays as it is.
complete_all-at :
    (ended : List ℕ) (s : State) (i : ℕ)
    → i < length s.instructions
    → count i ended ≡ 0
    → at (complete_all ended s) i ≡ at s i
unfolding complete_all complete_one
complete_all-at [] s i h k = refl
complete_all-at (idx ∷ ended) s i h k =
    let f = λ (x : Instruction). record x { complete_cycle = s.cycle; stage = retire } in
    complete_all-at ended (complete_one idx s) i (omega (arith, length-modify s.instructions idx f))
      (omega arith)
    ∙ get_or-modify_ne s.instructions {i = idx} {j = i} f blank (ground arith)

after_tick-SameFinished :
    (s : State) (t : Tick)
    → tick_slots s.exec_slots (start_tick s) ≡ succeed t
    → IsPlaced s
    → SameFinished s (after_tick s t)
unfolding after_tick start_tick
after_tick-SameFinished s t h v =
    let base = resume s t in
    let e = complete_all-eq t.finished base in
    record {
      same_ops = ap (λ u. u.stats.completed_ops) e;
      same_latency = ap (λ u. u.stats.total_latency) e;
      same_next = ap (λ u. u.next_to_fetch) e;
      same_finished = λ i lt.
          let stage = complete_all-stage t.finished base i (omega (arith, v.in_range)) in
          let split = tick_slots-Splits i s.exec_slots (start_tick s) t h in
          elim (ℕ_discrete (count i t.finished) 0) [
            | yes none_ended ↦
                inr (complete_all-at t.finished base i (omega (arith, v.in_range)) none_ended)
            | no some_ended ↦ inl (ground (arith, stage), ground (arith, split, v.places i))
          ];
    }

-- The retirement of `idx` adds the weight of that instruction to a sum over the finished ones.
retire_one-sum :
    (w : Instruction → ℕ) (s : State) (idx : ℕ)
    → s.next_to_fetch ≤ length s.instructions
    → idx < s.next_to_fetch
    → stage_rank (at s idx).stage ≡ 5
    → sum_below s.next_to_fetch (λ i.
      let x = get_or (modify s.instructions idx (λ x. record x { stage = done })) i blank in
      if is_done x then w x else 0)
      ≡ sum_below s.next_to_fetch (λ i. if is_done (at s i) then w (at s i) else 0)
        + w (record (at s idx) { stage = done })
retire_one-sum w s idx h lt g =
    let f = λ (x : Instruction). record x { stage = done } in
    let xs = modify s.instructions idx f in
    let old = λ (i : ℕ). if is_done (at s i) then w (at s i) else 0 in
    let new = λ (i : ℕ). if is_done (get_or xs i blank) then w (get_or xs i blank) else 0 in
    let change = sum_below_change s.next_to_fetch old new idx lt (λ i lti ne.
      rw (get_or-modify_ne s.instructions {i = idx} {j = i} f blank (λ e. ne (sym e))) refl) in
    let was : old idx ≡ 0 = ground arith in
    let is : new idx ≡ w (f (at s idx)) =
      rw (get_or-modify_self s.instructions idx f blank (omega arith)) refl in
    omega (arith, change, was, is)

retire_one-IsCounted :
    (s : State) (idx : ℕ) (rest : List ℕ)
    → s.retire_q ≡ idx ∷ rest
    → IsPlaced s
    → IsCounted s
    → IsCounted (retire_one idx (record s { retire_q = rest }))
unfolding retire_one
retire_one-IsCounted s idx rest e p v =
    let (lt, g) = front-stage s retire idx s.retire_q rest e (p.places idx).in_retire in
    record {
      counted_ops = omega (arith, v.counted_ops, retire_one-sum (λ x. 1) s idx p.in_range lt g);
      counted_latency =
          omega (arith, v.counted_latency, retire_one-sum latency s idx p.in_range lt g);
    }

-- A fetched instruction is not finished.
fetch_one-sum :
    (w : Instruction → ℕ) (s : State)
    → s.next_to_fetch < length s.instructions
    → sum_below (s.next_to_fetch + 1) (λ i.
      let x =
        get_or
          (modify s.instructions s.next_to_fetch
            (λ x. record x { stage = fetch; enqueue_cycle = s.cycle }))
          i
          blank in
      if is_done x then w x else 0)
      ≡ sum_below s.next_to_fetch (λ i. if is_done (at s i) then w (at s i) else 0)
fetch_one-sum w s h =
    let n = s.next_to_fetch in
    let f = λ (x : Instruction). record x { stage = fetch; enqueue_cycle = s.cycle } in
    let xs = modify s.instructions n f in
    let old = λ (i : ℕ). if is_done (at s i) then w (at s i) else 0 in
    let new = λ (i : ℕ). if is_done (get_or xs i blank) then w (get_or xs i blank) else 0 in
    let below =
      sum_below-eq n old new
        (λ i lt. rw (get_or-modify_ne s.instructions {i = n} {j = i} f blank (omega arith)) refl) in
    let last : new n ≡ 0 = rw (get_or-modify_self s.instructions n f blank h) refl in
    omega (arith, sum_below-add_one n new, below, last)

fetch_one-IsCounted :
    (s : State) → s.next_to_fetch < length s.instructions → IsCounted s → IsCounted (fetch_one s)
unfolding fetch_one
fetch_one-IsCounted s lt v = record {
  counted_ops = omega (arith, v.counted_ops, fetch_one-sum (λ x. 1) s lt);
  counted_latency = omega (arith, v.counted_latency, fetch_one-sum latency s lt);
}

-- Every move keeps the counters exact.
pub Move-IsCounted :
    {config : SimulatorConfig} (s t : State)
    → Move config s t
    → IsPlaced s
    → IsCounted s
    → IsCounted t
unfolding wake_up requeue begin_execution postpone dispatch_one decode_one end_cycle
Move-IsCounted _ _ (retires s idx rest e) p v = retire_one-IsCounted s idx rest e p v
Move-IsCounted _ _ (advances s u e) p v =
    SameFinished-IsCounted s _ (after_tick-SameFinished s u e p) v
Move-IsCounted _ _ (wakes s idx rest e sat room) p v =
    let (_, g) = front-stage s dispatch idx s.dispatch_q rest e (p.places idx).in_dispatch in
    SameFinished-IsCounted s _
      (modify-SameFinished s _ idx (λ x. record x { stage = ready }) refl refl refl refl p.in_range
        (omega arith) (omega arith))
      v
Move-IsCounted _ _ (requeues s idx rest stats e same) p v =
    SameFinished-IsCounted s _ (unchanged s _ refl same.0 same.1 refl) v
Move-IsCounted _ _ (postpones s idx rest stats e same) p v =
    SameFinished-IsCounted s _ (unchanged s _ refl same.0 same.1 refl) v
Move-IsCounted _ _ (issues_memory s idx rest e m free) p v =
    let (_, g) = front-stage s ready idx s.ready_q rest e (p.places idx).in_ready in
    SameFinished-IsCounted s _
      (modify-SameFinished s _ idx (λ x. record x { stage = execute; issue_cycle = s.cycle }) refl
        refl refl refl p.in_range (omega arith) (omega arith))
      v
Move-IsCounted _ _ (issues_compute s idx rest e c free) p v =
    let (_, g) = front-stage s ready idx s.ready_q rest e (p.places idx).in_ready in
    SameFinished-IsCounted s _
      (modify-SameFinished s _ idx (λ x. record x { stage = execute; issue_cycle = s.cycle }) refl
        refl refl refl p.in_range (omega arith) (omega arith))
      v
Move-IsCounted _ _ (stalls s stats same) p v =
    SameFinished-IsCounted s _ (unchanged s _ refl same.0 same.1 refl) v
Move-IsCounted _ _ (dispatches s idx rest e room) p v =
    let (_, g) = front-stage s decode idx s.decode_q rest e (p.places idx).in_decode in
    SameFinished-IsCounted s _
      (modify-SameFinished s _ idx (λ x. record x { stage = dispatch }) refl refl refl refl
        p.in_range (omega arith) (omega arith))
      v
Move-IsCounted _ _ (decodes s idx rest e) p v =
    let (_, g) = front-stage s fetch idx s.fetch_q rest e (p.places idx).in_fetch in
    SameFinished-IsCounted s _
      (modify-SameFinished s _ idx (λ x. record x { stage = decode }) refl refl refl refl p.in_range
        (omega arith) (omega arith))
      v
Move-IsCounted _ _ (fetches s lt) p v = fetch_one-IsCounted s lt v
Move-IsCounted _ _ (ticks s) p v = SameFinished-IsCounted s _ (unchanged s _ refl refl refl refl) v
