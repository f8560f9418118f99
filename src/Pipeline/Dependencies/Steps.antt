-- ===== src/Pipeline/Dependencies/Steps.antt =====
-- Every move respects the dependencies.
use accelsim_lite.Prelude.{
  ℕ, ◌≡◌, sym, subst, ◌∙◌, inl, inr, true, List, [], ◌∷◌, arith, ◌==◌, ==_iff, Bool-cases, contains,
  insert, contains-insert, get_or-modify, All, get_or-modify_ne, refl,
}
use accelsim_lite.Config.{SimulatorConfig}
use accelsim_lite.Pipeline.{State, at, retire_one}
use accelsim_lite.Instruction.{retire, done, blank, ready, fetch, decode, dispatch, execute}
use accelsim_lite.Pipeline.Moves.{
  Move, retires, advances, wakes, requeues, postpones, issues_memory, issues_compute, stalls,
  dispatches, decodes, fetches, ticks,
}
use accelsim_lite.Pipeline.Front.{
  wake_up, requeue, begin_execution, postpone, dispatch_one, decode_one, end_cycle,
}
use accelsim_lite.Pipeline.Program.{SameProgram, Move-SameProgram}
use accelsim_lite.Pipeline.Dependencies.{
  RespectsDeps, still-IsFinished, Keeps-RespectsDeps, modify-Keeps, unchanged, fetch-Keeps,
  after_tick-Keeps,
}
use accelsim_lite.Pipeline.Placement.{IsPlaced, front-stage}
use accelsim_lite.Pipeline.Forward.{Forward, Move-Forward}
use native.Mathlib.Decide.{ℕ_discrete}
use accelsim_lite.Scheduler.{deps_satisfied, DepsRetired, deps_satisfied_iff}

All-insert :
    (deps ids : List ℕ) (id : ℕ)
    → All (λ dep. contains ids dep ≡ true) deps
    → All (λ dep. contains (insert id ids) dep ≡ true) deps
All-insert [] ids id h = tt
All-insert (dep ∷ deps) ids id (h, hs) =
    (ground (arith, contains-insert id dep ids), All-insert deps ids id hs)

retire_one-RespectsDeps :
    (s : State) (idx : ℕ) (rest : List ℕ)
    → s.retire_q ≡ idx ∷ rest
    → IsPlaced s
    → SameProgram s (retire_one idx (record s { retire_q = rest }))
    → ((i : ℕ) → Forward s (retire_one idx (record s { retire_q = rest })) i)
    → RespectsDeps s
    → RespectsDeps (retire_one idx (record s { retire_q = rest }))
unfolding retire_one
retire_one-RespectsDeps s idx rest e p same forward v =
    let (lt, g) = front-stage s retire idx s.retire_q rest e (p.places idx).in_retire in
    let id = (at s idx).id in
    let t = retire_one idx (record s { retire_q = rest }) in
    let stage_of =
      λ (i : ℕ). get_or-modify s.instructions idx i (λ x. record x { stage = done }) blank in
    record {
      awake_deps = λ i lti up.
          subst (λ deps. All (λ dep. contains (insert id s.retired_ids) dep ≡ true) deps)
            (sym (same.same_at i).same_deps)
            (All-insert (at s i).deps s.retired_ids id
              (v.awake_deps i lti (ground (arith, stage_of i, p.in_range))));
      retired_finished = λ dep h. elim (Bool-cases (id == dep)) [
        | inl hit ↦ (
          idx,
          lt,
          (same.same_at idx).same_id ∙ (==_iff id dep).0 hit,
          ground (arith, stage_of idx, p.in_range),
        )
        | inr other ↦
            still-IsFinished s t (omega arith) same forward dep
              (v.retired_finished dep (ground (arith, contains-insert id dep s.retired_ids)))
      ];
    }

wake_up-RespectsDeps :
    (s : State) (idx : ℕ) (rest : List ℕ)
    → deps_satisfied (at s idx) s.retired_ids ≡ true
    → IsPlaced s
    → SameProgram s (wake_up idx (record s { dispatch_q = rest }))
    → ((i : ℕ) → Forward s (wake_up idx (record s { dispatch_q = rest })) i)
    → RespectsDeps s
    → RespectsDeps (wake_up idx (record s { dispatch_q = rest }))
unfolding wake_up
wake_up-RespectsDeps s idx rest sat p same forward v =
    let t = wake_up idx (record s { dispatch_q = rest }) in
    record {
      awake_deps = λ i lti up.
          subst (λ deps. All (λ dep. contains s.retired_ids dep ≡ true) deps)
            (sym (same.same_at i).same_deps)
            (elim (ℕ_discrete idx i) [
              | yes e ↦
                  subst (λ k. DepsRetired (at s k) s.retired_ids) e
                    ((deps_satisfied_iff (at s idx) s.retired_ids).0 sat)
              | no ne ↦ v.awake_deps i lti (
                  ground (
                    arith,
                    get_or-modify_ne s.instructions {i = idx} {j = i}
                        (λ x. record x { stage = ready }) blank ne,
                  ))
            ]);
      retired_finished =
          λ dep h. still-IsFinished s t (omega arith) same forward dep (v.retired_finished dep h);
    }

Move-RespectsDeps_of :
    {config : SimulatorConfig} (s t : State)
    → Move config s t
    → IsPlaced s
    → SameProgram s t
    → ((i : ℕ) → Forward s t i)
    → RespectsDeps s
    → RespectsDeps t
unfolding begin_execution requeue postpone dispatch_one decode_one end_cycle
Move-RespectsDeps_of _ _ (retires s idx rest e) p same forward v =
    retire_one-RespectsDeps s idx rest e p same forward v
Move-RespectsDeps_of _ _ (advances s u e) p same forward v =
    Keeps-RespectsDeps s _ same forward (after_tick-Keeps s u e p) v
Move-RespectsDeps_of _ _ (wakes s idx rest e sat room) p same forward v =
    wake_up-RespectsDeps s idx rest sat p same forward v
Move-RespectsDeps_of _ _ (requeues s idx rest stats e _) p same forward v =
    Keeps-RespectsDeps s _ same forward (unchanged _ _ refl refl refl) v
Move-RespectsDeps_of _ _ (postpones s idx rest stats e _) p same forward v =
    Keeps-RespectsDeps s _ same forward (unchanged _ _ refl refl refl) v
Move-RespectsDeps_of _ _ (issues_memory s idx rest e m free) p same forward v =
    let (_, g) = front-stage s ready idx s.ready_q rest e (p.places idx).in_ready in
    Keeps-RespectsDeps s _ same forward
      (modify-Keeps s _ idx (λ x. record x { stage = execute; issue_cycle = s.cycle }) refl refl
        refl p.in_range (omega arith) (omega arith))
      v
Move-RespectsDeps_of _ _ (issues_compute s idx rest e c free) p same forward v =
    let (_, g) = front-stage s ready idx s.ready_q rest e (p.places idx).in_ready in
    Keeps-RespectsDeps s _ same forward
      (modify-Keeps s _ idx (λ x. record x { stage = execute; issue_cycle = s.cycle }) refl refl
        refl p.in_range (omega arith) (omega arith))
      v
Move-RespectsDeps_of _ _ (stalls s stats _) p same forward v =
    Keeps-RespectsDeps s _ same forward (unchanged _ _ refl refl refl) v
Move-RespectsDeps_of _ _ (dispatches s idx rest e room) p same forward v =
    let (_, g) = front-stage s decode idx s.decode_q rest e (p.places idx).in_decode in
    Keeps-RespectsDeps s _ same forward
      (modify-Keeps s _ idx (λ x. record x { stage = dispatch }) refl refl refl p.in_range
        (omega arith) (omega arith))
      v
Move-RespectsDeps_of _ _ (decodes s idx rest e) p same forward v =
    let (_, g) = front-stage s fetch idx s.fetch_q rest e (p.places idx).in_fetch in
    Keeps-RespectsDeps s _ same forward
      (modify-Keeps s _ idx (λ x. record x { stage = decode }) refl refl refl p.in_range
        (omega arith) (omega arith))
      v
Move-RespectsDeps_of _ _ (fetches s lt) p same forward v =
    Keeps-RespectsDeps s _ same forward (fetch-Keeps s lt) v
Move-RespectsDeps_of _ _ (ticks s) p same forward v =
    Keeps-RespectsDeps s _ same forward (unchanged _ _ refl refl refl) v

-- Every move keeps the dependencies respected.
pub Move-RespectsDeps :
    {config : SimulatorConfig} (s t : State)
    → Move config s t
    → IsPlaced s
    → RespectsDeps s
    → RespectsDeps t
Move-RespectsDeps s t m p v =
    Move-RespectsDeps_of s t m p (Move-SameProgram m) (λ i. Move-Forward s t i m p) v
