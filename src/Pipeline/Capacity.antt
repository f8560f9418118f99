-- ===== src/Pipeline/Capacity.antt =====
-- The bounded queues, and the width of the issue stage.
use accelsim_lite.Prelude.{
  ℕ, zero, suc, ◌+◌, ◌≤◌, ◌<◌, ◌≡◌, ap, inl, inr, Bool, true, false, [], ◌∷◌, arith, length,
  length-append, List-cases, u32_mod,
}
use accelsim_lite.Config.{SimulatorConfig}
use accelsim_lite.Pipeline.{ExecSlot, State, at, retire_one, Tick, after_tick, resume}
use accelsim_lite.Pipeline.Moves.{
  Move, retires, advances, wakes, requeues, postpones, issues_memory, issues_compute, stalls,
  dispatches, decodes, fetches, ticks,
}
use accelsim_lite.Pipeline.Front.{
  wake_up, requeue, begin_execution, postpone, issue, issue_loop, issue_all, dispatch_one,
  decode_one, fetch_one, end_cycle,
}
use accelsim_lite.Pipeline.Forward.{complete_all-eq}

pub record WithinCapacity (config : SimulatorConfig) (s : State) : Type 0 where
  pub dispatch_within : length s.dispatch_q ≤ config.dispatch_queue_capacity
  pub ready_within : length s.ready_q ≤ config.ready_queue_capacity

after_tick-WithinCapacity :
    (config : SimulatorConfig) (s : State) (t : Tick)
    → WithinCapacity config s
    → WithinCapacity config (after_tick s t)
unfolding after_tick
after_tick-WithinCapacity config s t v =
    let e = complete_all-eq t.finished (resume s t) in
    record {
      dispatch_within = omega (arith, v.dispatch_within, ap (λ u. length u.dispatch_q) e);
      ready_within = omega (arith, v.ready_within, ap (λ u. length u.ready_q) e);
    }

-- Every move keeps the bounded queues within their capacities.
pub Move-WithinCapacity :
    {config : SimulatorConfig} (s t : State)
    → Move config s t
    → WithinCapacity config s
    → WithinCapacity config t
unfolding retire_one wake_up requeue begin_execution postpone dispatch_one decode_one fetch_one
    end_cycle
Move-WithinCapacity _ _ (retires s idx rest e) v = omega (arith, v.dispatch_within, v.ready_within)
Move-WithinCapacity {config} _ _ (advances s u e) v = after_tick-WithinCapacity config s u v
Move-WithinCapacity _ _ (wakes s idx rest e sat room) v =
    omega (arith, ap length e, length-append s.ready_q (idx ∷ []))
Move-WithinCapacity _ _ (requeues s idx rest stats e same) v =
    omega (arith, ap length e, length-append rest (idx ∷ []))
Move-WithinCapacity _ _ (postpones s idx rest stats e same) v =
    omega (arith, ap length e, length-append rest (idx ∷ []))
Move-WithinCapacity _ _ (issues_memory s idx rest e m free) v = omega (arith, ap length e)
Move-WithinCapacity _ _ (issues_compute s idx rest e c free) v = omega (arith, ap length e)
Move-WithinCapacity _ _ (stalls s stats same) v = omega arith
Move-WithinCapacity _ _ (dispatches s idx rest e room) v =
    omega (arith, length-append s.dispatch_q (idx ∷ []))
Move-WithinCapacity _ _ (decodes s idx rest e) v = omega arith
Move-WithinCapacity _ _ (fetches s lt) v = omega arith
Move-WithinCapacity _ _ (ticks s) v = omega arith

-- One turn of the issue loop puts at most one instruction into execution, counts it, and does so
-- only below the issue width.
issue_width :
    (config : SimulatorConfig) (idx issued : ℕ) (s : State)
    → issued ≤ config.issue_width
    → config.issue_width < u32_mod
    → (length (issue config idx issued s).0.exec_slots + issued
        ≡ length s.exec_slots + (issue config idx issued s).1)
      × ((issue config idx issued s).1 ≤ config.issue_width)
unfolding issue
issue_width config idx issued s h fits =
    let slot = λ (memory : Bool).
      let x : ExecSlot = record {
        index = idx;
        remaining = (at s idx).execute_latency;
        uses_memory = memory;
      } in
      x in
    ground (
      arith,
      length-append s.exec_slots (slot true ∷ []),
      length-append s.exec_slots (slot false ∷ []),
    )

issue_loop_width :
    (config : SimulatorConfig) (n : ℕ) (s : State) (issued : ℕ)
    → issued ≤ config.issue_width
    → config.issue_width < u32_mod
    → (length (issue_loop config n (s, issued)).0.exec_slots + issued
        ≡ length s.exec_slots + (issue_loop config n (s, issued)).1)
      × ((issue_loop config n (s, issued)).1 ≤ config.issue_width)
unfolding issue_loop
issue_loop_width config zero s issued h fits = omega arith
issue_loop_width config (suc n) s issued h fits = elim (List-cases s.ready_q) [
  | inl e ↦ simp (e, issue_loop) (issue_loop_width config n s issued h fits)
  | inr (idx, rest, e) ↦
      let step = issue_width config idx issued (record s { ready_q = rest }) h fits in
      let next = issue config idx issued (record s { ready_q = rest }) in
      simp (e, issue_loop)
        (omega (arith, issue_loop_width config n next.0 next.1 step.1 fits, step))
]

-- The issue stage of one cycle starts at most `issue_width` instructions, if the width fits its word.
pub issue_all_width :
    (config : SimulatorConfig) (s : State)
    → config.issue_width < u32_mod
    → (length s.exec_slots ≤ length (issue_all config s).exec_slots)
      × (length (issue_all config s).exec_slots ≤ length s.exec_slots + config.issue_width)
unfolding issue_all
issue_all_width config s fits =
    omega (arith, issue_loop_width config (length s.ready_q) s 0 (omega arith) fits)
