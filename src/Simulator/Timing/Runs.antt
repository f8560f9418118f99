-- ===== src/Simulator/Timing/Runs.antt =====
-- The stamps that a run of `run_workload` leaves, and how many cycles it needs at least.
use accelsim_lite.Prelude.{
  ℕ, zero, suc, ◌+◌, ◌≤◌, ◌<◌, ◌≡◌, refl, sym, subst, ap, List, arith, inl, inr, Bool-cases,
  Result-cases, length, All, All-map, u64_mod, succeed, succeed_injective, >>=-succeeds,
}
use accelsim_lite.Config.{SimulatorConfig}
use accelsim_lite.Instruction.{Instruction, stage_rank}
use accelsim_lite.Pipeline.{
  State, at, has_work_left, retire_all, advance, tick_slots, start_tick, after_tick,
}
use accelsim_lite.Pipeline.Front.{
  wake_all, issue_all, end_cycle, wake_loop, issue_loop, dispatch_loop, decode_loop,
}
use accelsim_lite.Pipeline.Moves.{Move, advances, ticks}
use accelsim_lite.Pipeline.Placement.Steps.{Move-IsPlaced}
use accelsim_lite.Pipeline.Dependencies.Steps.{Move-RespectsDeps}
use accelsim_lite.Pipeline.Timing.{Clock, IsDue, IsFinishedBefore, SameIssue-IsDue, occupancy_time}
use accelsim_lite.Pipeline.Timing.Back.{Later, Later-IsStamped, Later-IsTimed, after_tick-IsTimed}
use accelsim_lite.Simulator.{front, step, start, returned, main_loop, run_workload, result_of}
use accelsim_lite.Simulator.Timing.{
  OnTime, retire_loop-OnTime, wake_loop-OnTime, issue_loop-OnTime, dispatch_loop-OnTime,
  decode_loop-OnTime, fetch_loop-OnTime,
}
use accelsim_lite.Simulator.Completion.{run_completes}
use accelsim_lite.Simulator.Safety.{start-IsPlaced, start-RespectsDeps}

-- The bounds between two turns, before cycle `n`.
abbrev boundary : ℕ → Clock
boundary n = record {
  fetched = n;
  decoded = n;
  dispatched = n;
  retired = n;
  finished = n;
  since = n;
  now = n;
}

Later-OnTime :
    (k k' : Clock) (s : State)
    → Later k k'
    → k'.now ≡ k.now
    → k'.since ≡ k.since
    → OnTime k s
    → OnTime k' s
Later-OnTime k k' s h n e (v, d) = (Later-IsTimed k k' s h n e v, d)

end_cycle-OnTime :
    (config : SimulatorConfig) (k k' : Clock) (s : State)
    → Later k k'
    → k'.now ≡ k.now + 1
    → k'.now < u64_mod
    → k'.since ≡ k.since
    → OnTime k s
    → OnTime k' (end_cycle s)
unfolding end_cycle
end_cycle-OnTime config k k' s h n small e (v, d) =
    let m : Move config s (end_cycle s) = ticks s in
    (
      record {
        placed = Move-IsPlaced s (end_cycle s) m v.placed;
        on_time = omega (arith, v.on_time, n, small);
        stamps = λ i lt. Later-IsStamped k k' (at s i) h (v.stamps i lt);
        due =
            All-map (IsDue k.since s) (IsDue k'.since (end_cycle s)) s.exec_slots
              (λ slot due.
                SameIssue-IsDue k'.since s (end_cycle s) slot
                  (record { same_issue = refl; same_latency = refl })
                  (subst (λ since. IsDue since s slot) (sym e) due))
              v.due;
        over = tt;
        deps_before = v.deps_before;
      },
      Move-RespectsDeps s (end_cycle s) m v.placed d,
    )

module _ (config : SimulatorConfig) where
  advance-OnTime :
      (k k' : Clock) (s t : State)
      → advance s ≡ succeed t
      → k.since ≡ k.now
      → Later k k'
      → k'.now ≡ k.now
      → k'.since ≡ k.now + 1
      → k'.now + 1 ≤ k'.retired
      → OnTime k s
      → OnTime k' t
  unfolding advance
  advance-OnTime k k' s t h at_start later now since bound (v, d) =
      let (u, p, q) =
        >>=-succeeds (tick_slots s.exec_slots (start_tick s)) (λ u. succeed (after_tick s u)) h in
      let m : Move config s (after_tick s u) = advances s u p in
      subst (OnTime k') (succeed_injective q refl refl) (
        after_tick-IsTimed k k' s u p at_start later now since bound v,
        Move-RespectsDeps s (after_tick s u) m v.placed d,
      )

  front-OnTime :
      (n : ℕ) (s : State)
      → OnTime (record (boundary n) { retired = n + 1; finished = n + 1; since = n + 1 }) s
      → OnTime (record (boundary (n + 1)) { now = n }) (front config s)
  unfolding front wake_all issue_all
  front-OnTime n s v =
      let k1 = record (boundary n) { retired = n + 1; finished = n + 1; since = n + 1 } in
      let k2 = record k1 { dispatched = n + 1 } in
      let k3 = record k2 { decoded = n + 1 } in
      let k4 = record k3 { fetched = n + 1 } in
      let s1 = wake_loop config (length s.dispatch_q) s in
      let s2 = (issue_loop config (length s1.ready_q) (s1, 0)).0 in
      let s3 = dispatch_loop config config.dispatch_width s2 in
      let s4 = decode_loop config.decode_width s3 in
      let woken = wake_loop-OnTime config k1 (length s.dispatch_q) s (omega arith) v in
      let issued = issue_loop-OnTime config k1 (length s1.ready_q) s1 0 refl (omega arith) woken in
      let dispatched =
        dispatch_loop-OnTime config k2 config.dispatch_width s2 (omega arith)
          (Later-OnTime k1 k2 s2 (omega arith) refl refl issued) in
      let decoded =
        decode_loop-OnTime config k3 config.decode_width s3 (omega arith)
          (Later-OnTime k2 k3 s3 (omega arith) refl refl dispatched) in
      fetch_loop-OnTime config k4 config.fetch_width s4 (omega arith)
        (Later-OnTime k3 k4 s4 (omega arith) refl refl decoded)

  step-OnTime :
      (n : ℕ) (s t : State)
      → n + 1 < u64_mod
      → step config s ≡ succeed t
      → OnTime (boundary n) s
      → OnTime (boundary (n + 1)) t
  unfolding step retire_all
  step-OnTime n s t small h v =
      let (u, p, q) =
        >>=-succeeds (advance (retire_all s)) (λ s'. succeed (end_cycle (front config s'))) h in
      let k0 = record (boundary n) { finished = n + 1 } in
      let k1 = record k0 { retired = n + 1; since = n + 1 } in
      let retired =
        retire_loop-OnTime config k0 s.retire_q s (omega arith) refl
          (Later-OnTime (boundary n) k0 s (omega arith) refl refl v) in
      let advanced =
        advance-OnTime k0 k1 (retire_all s) u p refl (omega arith) refl refl (omega arith)
          retired in
      subst (OnTime (boundary (n + 1))) (succeed_injective q refl refl) (
        end_cycle-OnTime config (record (boundary (n + 1)) { now = n }) (boundary (n + 1))
          (front config u) (omega arith) refl small refl (front-OnTime n u advanced))

  main_loop-OnTime :
      (fuel n : ℕ) (s t : State)
      → n + fuel < u64_mod
      → OnTime (boundary n) s
      → main_loop config fuel s ≡ returned t
      → (m : ℕ) × OnTime (boundary m) t
  unfolding main_loop
  main_loop-OnTime zero n s t small v h =
      let e : s ≡ t = ground arith in (n, subst (OnTime (boundary n)) e v)
  main_loop-OnTime (suc fuel) n s t small v h = elim (Bool-cases (has_work_left s)) [
    | inl more ↦ elim (Result-cases (step config s)) [
      | inl (u, p) ↦
          main_loop-OnTime fuel (n + 1) u t (omega arith) (step-OnTime n s u (omega arith) p v)
            (simp (more, p, main_loop) at h)
      | inr (e, p) ↦ absurd (ground arith)
    ]
    | inr over ↦ let e : s ≡ t = ground arith in (n, subst (OnTime (boundary n)) e v)
  ]

start-OnTime : (workload : List Instruction) → OnTime (boundary 0) (start workload)
unfolding start
start-OnTime workload = (
  record {
    placed = start-IsPlaced workload;
    on_time = refl;
    stamps = λ i lt. absurd (omega arith);
    due = tt;
    over = tt;
    deps_before = λ i lt up. absurd (omega arith);
  },
  start-RespectsDeps workload,
)

-- What an instruction's stamps and those of the others say after a run.
pub record IsTimely (config : SimulatorConfig) (s : State) (i : ℕ) : Type 0 where
  pub issued_after : (at s i).enqueue_cycle + 3 ≤ (at s i).issue_cycle
  pub completed_after : (at s i).complete_cycle ≡ (at s i).issue_cycle + occupancy_time (at s i)
  pub within_run : (at s i).complete_cycle + 2 ≤ (result_of config s).stats.total_cycles
  pub after_deps : All (IsFinishedBefore s (at s i).issue_cycle) (at s i).deps

-- In a run that returns within 2 ^ 64 turns of the main loop each instruction is issued three cycles
-- after its fetch at the earliest, and after each of its dependencies was completed; it is completed
-- when exactly its latency is over, or one cycle where the latency is 0; and the run takes two cycles
-- more than that. The workload has fewer than 2 ^ 64 instructions.
pub run_timing :
    (config : SimulatorConfig) (fuel : ℕ) (workload : List Instruction) (s : State)
    → length workload < u64_mod
    → fuel < u64_mod
    → run_workload config fuel workload ≡ returned s
    → (i : ℕ) → i < length workload
    → IsTimely config s i
unfolding run_workload result_of
run_timing config fuel workload s small enough h i lt =
    let whole = run_completes config fuel workload s small h in
    let (m, (v, d)) =
      main_loop-OnTime config fuel 0 (start workload) s (omega (arith, enough))
        (start-OnTime workload) h in
    let fetched : i < s.next_to_fetch = omega (arith, whole.all_fetched, lt) in
    let rank : stage_rank (at s i).stage ≡ 6 = ap stage_rank (whole.all_done i lt) in
    let x = v.stamps i fetched in
    record {
      issued_after = x.issued (omega (arith, rank));
      completed_after = x.completed (omega (arith, rank));
      within_run = omega (arith, x.in_done rank, v.on_time);
      after_deps = v.deps_before i fetched (omega (arith, rank));
    }
