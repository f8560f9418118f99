-- ===== src/Simulator/Deadlock.antt =====
-- Workloads whose dependencies go round in a circle never finish.
use accelsim_lite.Prelude.{
  ℕ, ◌≤◌, ◌<◌, ◌≡◌, refl, subst, ◌≢◌, List, [], ◌∷◌, arith, count, get_or, All, sym, ap, ◌∙◌, inl,
  inr, true, contains, length, u64_mod,
}
use native.Mathlib.Decide.{ℕ_discrete, dec_lt}
use accelsim_lite.Config.{SimulatorConfig, default_config, FitsWords}
use accelsim_lite.Simulator.{start, out_of_fuel, run_workload}
use accelsim_lite.Pipeline.{State, at}
use accelsim_lite.Instruction.{stage_rank, Instruction, blank}
use accelsim_lite.Pipeline.Moves.{Move, no_move, Moves_keep}
use accelsim_lite.Pipeline.Program.{
  SameProgram, SameProgram-trans, Move-SameProgram, SameProgram-refl,
}
use accelsim_lite.Pipeline.Dependencies.{RespectsDeps}
use accelsim_lite.Pipeline.Placement.{IsPlaced}
use accelsim_lite.Pipeline.Dependencies.Steps.{Move-RespectsDeps}
use accelsim_lite.Pipeline.Placement.Steps.{Move-IsPlaced}
use accelsim_lite.Pipeline.Forward.{Move-Forward, Move-Fresh}
use accelsim_lite.Simulator.Completion.{run_completes}
use accelsim_lite.Simulator.Safety.{
  Reachable-IsPlaced, Reachable-RespectsDeps, run_never_fails, start-length, start-SameOperation,
  start-next,
}
use accelsim_lite.Simulator.Steps.{returned-Moves, Outcome-cases}

-- Each index of the set has a dependency that only indices of the set provide.
pub record IsCircular (workload : List Instruction) (Blocked : ℕ → Type 0) : Type 0 where
  pub waits_for : ℕ → ℕ
  pub waits : (i : ℕ) → Blocked i → count (waits_for i) (get_or workload i blank).deps ≢ 0
  pub provided :
      (i : ℕ)
      → Blocked i
      → (j : ℕ) → j < length workload
      → (get_or workload j blank).id ≡ waits_for i
      → Blocked j

-- No instruction of the set has left the dispatch queue.
record IsStuck (Blocked : ℕ → Type 0) (workload : List Instruction) (s : State) : Type 0 where
  placed : IsPlaced s
  respects : RespectsDeps s
  same : SameProgram (start workload) s
  asleep : (i : ℕ) → Blocked i → i < s.next_to_fetch → stage_rank (at s i).stage ≤ 2

member : (P : ℕ → Type 0) (a : ℕ) (xs : List ℕ) → count a xs ≢ 0 → All P xs → P a
member P a [] h all = absurd (h refl)
member P a (x ∷ xs) h (p, ps) = elim (ℕ_discrete x a) [
  | yes e ↦ subst P e p
  | no ne ↦ member P a xs (ground arith) ps
]

module _ (workload : List Instruction) (Blocked : ℕ → Type 0)
    (c : IsCircular workload Blocked) where
  -- A move takes no instruction of the set past the ready queue.
  not_finished :
      {config : SimulatorConfig} (s t : State)
      → Move config s t
      → IsStuck Blocked workload s
      → (j : ℕ) → Blocked j
      → j < t.next_to_fetch
      → stage_rank (at t j).stage ≤ 3
  not_finished s t m v j b lt = elim (dec_lt j s.next_to_fetch) [
    | yes old ↦ omega (arith, Move-Forward s t j m v.placed old, v.asleep j b old)
    | no new ↦ omega (arith, Move-Fresh s t j m lt (omega arith))
  ]

  Move-IsStuck :
      {config : SimulatorConfig} (s t : State)
      → Move config s t
      → IsStuck Blocked workload s
      → IsStuck Blocked workload t
  Move-IsStuck s t m v =
      let respects = Move-RespectsDeps s t m v.placed v.respects in
      let same = SameProgram-trans v.same (Move-SameProgram m) in
      let placed = Move-IsPlaced s t m v.placed in
      let operation = λ (i : ℕ). start-SameOperation workload i (same.same_at i) in
      record {
        placed = placed;
        respects = respects;
        same = same;
        asleep = λ i b lt. elim (dec_lt 2 (stage_rank (at t i).stage)) [
          | yes up ↦
              let waits =
                subst (λ deps. count (c.waits_for i) deps ≢ 0) (sym (operation i).same_deps)
                  (c.waits i b) in
              let retired =
                member (λ dep. contains t.retired_ids dep ≡ true) (c.waits_for i) (at t i).deps
                  waits (respects.awake_deps i lt up) in
              let (j, ltj, id, finished) = respects.retired_finished (c.waits_for i) retired in
              let range : j < length workload = omega (
                arith,
                placed.in_range,
                same.same_length,
                ap (λ (n : ℕ). n) (start-length workload),
              ) in
              let bj = c.provided i b j range (sym (operation j).same_id ∙ id) in
              absurd (omega (arith, not_finished s t m v j bj ltj))
          | no low ↦ omega arith
        ];
      }

  start-IsStuck : IsStuck Blocked workload (start workload)
  start-IsStuck = record {
    placed = Reachable-IsPlaced default_config workload (start workload) (no_move (start workload));
    respects =
        Reachable-RespectsDeps default_config workload (start workload) (no_move (start workload));
    same = SameProgram-refl (start workload);
    asleep = λ i b lt. absurd (start_unfetched i lt);
  }
    where
      start_unfetched : (i : ℕ) → ¬ (i < (start workload).next_to_fetch)
      start_unfetched i lt = omega (arith, start-next workload)

-- A workload in which some instructions wait for each other in a circle makes `run_workload` loop
-- for ever: no number of turns of the main loop is enough. The configuration fits its words and
-- the workload has fewer than 2 ^ 64 instructions.
pub circular_never_returns :
    (config : SimulatorConfig) (workload : List Instruction) (Blocked : ℕ → Type 0)
    → FitsWords config
    → length workload < u64_mod
    → IsCircular workload Blocked
    → (i : ℕ) → i < length workload
    → Blocked i
    → (fuel : ℕ) → run_workload config fuel workload ≡ out_of_fuel
circular_never_returns config workload Blocked fits small c i lt b fuel =
    elim (Outcome-cases (run_workload config fuel workload)) [
      | inl e ↦ e
      | inr (inl (s, e)) ↦
          let complete = run_completes config fuel workload s small e in
          let stuck =
            Moves_keep (IsStuck Blocked workload) (Move-IsStuck workload Blocked c)
              (returned-Moves config fuel workload s e) (start-IsStuck workload Blocked c) in
          let low = stuck.asleep i b (omega (arith, complete.all_fetched)) in
          absurd (omega (arith, low, ap stage_rank (complete.all_done i lt)))
      | inr (inr (x, e)) ↦ absurd (run_never_fails config fuel workload x fits e)
    ]
