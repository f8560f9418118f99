-- ===== src/Simulator/Stages.antt =====
-- When a stage of a cycle does something.
use accelsim_lite.Prelude.{
  ℕ, zero, suc, ◌<◌, ◌≡◌, refl, ap, subst, inl, inr, List, ◌∷◌, arith, leb, Bool-cases, length,
  succeed, >>=-succeeds, succeed_injective, sym, ◌≢◌, true, false, [], ◌++◌, ltb, count,
  length-append, ◌∙◌, List-cases,
}
use accelsim_lite.Config.{SimulatorConfig}
use accelsim_lite.Pipeline.{
  ExecSlot, State, at, retire_one, retire_loop, retire_all, tick_slots, start_tick, after_tick,
  advance, bump_stall,
}
use accelsim_lite.Instruction.{is_memory_op}
use accelsim_lite.Pipeline.Moves.{
  Move, retires, advances, issues_memory, issues_compute, no_move, retire_loop-Moves,
  issue_loop-Moves, wakes, dispatches, decodes, fetches, wake_loop-Moves, dispatch_loop-Moves,
  decode_loop-Moves, fetch_loop-Moves,
}
use accelsim_lite.Pipeline.Front.{
  issue, issue_loop, issue_all, wake_up, requeue, wake, wake_loop, dispatch_one, dispatch_loop,
  decode_one, decode_loop, fetch_one, fetch_loop,
}
use accelsim_lite.Pipeline.Work.{work, WithinBound, Move-first}
use mathlib.Core.List.{append_assoc, append-nil}
use accelsim_lite.Scheduler.{deps_satisfied}
use accelsim_lite.Prelude.Text.{codes}

-- Each stage can do something in a cycle.
pub record IsLive (config : SimulatorConfig) : Type 0 where
  pub fetches_some : 0 < config.fetch_width
  pub decodes_some : 0 < config.decode_width
  pub dispatches_some : 0 < config.dispatch_width
  pub issues_some : 0 < config.issue_width
  pub has_unit : 0 < config.compute_units
  pub has_port : 0 < config.memory_ports
  pub has_dispatch_room : 0 < config.dispatch_queue_capacity
  pub has_ready_room : 0 < config.ready_queue_capacity

pub positive_suc : (n : ℕ) → 0 < n → (m : ℕ) × (n ≡ suc m)
positive_suc zero h = absurd (omega arith)
positive_suc (suc n) h = (n, refl)

module _ (config : SimulatorConfig) (bound : ℕ) where
  pub retire_all-works :
      (s : State) (idx : ℕ) (rest : List ℕ)
      → s.retire_q ≡ idx ∷ rest
      → WithinBound bound s
      → work bound (retire_all s) < work bound s
  unfolding retire_all retire_loop retire_one
  retire_all-works s idx rest e w =
      let m : Move config s (retire_one idx (record s { retire_q = rest })) =
        retires s idx rest e in
      simp (e, retire_loop)
        (Move-first bound m (omega arith)
          (retire_loop-Moves config rest (retire_one idx (record s { retire_q = rest })) refl) w)

  pub advance-works :
      (s t : State) (slot : ExecSlot) (slots : List ExecSlot)
      → s.exec_slots ≡ slot ∷ slots
      → advance s ≡ succeed t
      → WithinBound bound s
      → work bound t < work bound s
  unfolding advance
  advance-works s t slot slots e h w =
      let (u, p, q) =
        >>=-succeeds (tick_slots s.exec_slots (start_tick s)) (λ u. succeed (after_tick s u)) h in
      let m : Move config s (after_tick s u) = advances s u p in
      subst (λ t. work bound t < work bound s) (succeed_injective q refl refl)
        (Move-first bound m (omega (arith, ap length e)) (no_move (after_tick s u)) w)

  -- With no slot taken, the instruction at the front of `ready_q` is issued.
  issue-works :
      (s : State) (idx : ℕ) (rest : List ℕ)
      → IsLive config
      → s.ready_q ≡ idx ∷ rest
      → s.compute_in_use ≡ 0
      → s.memory_in_use ≡ 0
      → WithinBound bound s
      → (n : ℕ)
      → work bound (issue_loop config n (issue config idx 0 (record s { ready_q = rest }))).0
        < work bound s
  unfolding issue
  issue-works s idx rest live e c m w n = elim (Bool-cases (leb config.issue_width 0)) [
    | inl none_left ↦ absurd (ground (arith, live.issues_some))
    | inr some_left ↦ rw some_left (elim (Bool-cases (is_memory_op (at s idx).type)) [
      | inl memory ↦ rw memory (elim (Bool-cases (leb config.memory_ports s.memory_in_use)) [
        | inl full ↦ absurd (ground (arith, live.has_port))
        | inr free ↦ rw free (
            Move-first {config = config} bound (issues_memory s idx rest e memory (ground arith))
              (omega arith) (issue_loop-Moves config n _ _) w)
      ])
      | inr compute_op ↦
          rw compute_op (elim (Bool-cases (leb config.compute_units s.compute_in_use)) [
            | inl full ↦ absurd (ground (arith, live.has_unit))
            | inr free ↦ rw free (
                Move-first {config = config} bound
                  (issues_compute s idx rest e compute_op (ground arith)) (omega arith)
                  (issue_loop-Moves config n _ _) w)
          ])
    ])
  ]

  issue_loop-works :
      (s : State) (idx : ℕ) (rest : List ℕ) (n : ℕ)
      → IsLive config
      → s.ready_q ≡ idx ∷ rest
      → s.compute_in_use ≡ 0
      → s.memory_in_use ≡ 0
      → WithinBound bound s
      → work bound (issue_loop config (suc n) (s, 0)).0 < work bound s
  unfolding issue_loop
  issue_loop-works s idx rest n live e c m w =
      simp (e, issue_loop) (issue-works s idx rest live e c m w n)

  pub issue_all-works :
      (s : State) (idx : ℕ) (rest : List ℕ)
      → IsLive config
      → s.ready_q ≡ idx ∷ rest
      → s.compute_in_use ≡ 0
      → s.memory_in_use ≡ 0
      → WithinBound bound s
      → work bound (issue_all config s) < work bound s
  unfolding issue_all
  issue_all-works s idx rest live e c m w =
      subst (λ n. work bound (issue_loop config n (s, 0)).0 < work bound s) (sym (ap length e))
        (issue_loop-works s idx rest (length rest) live e c m w)

  wake-works :
      (s : State) (idx : ℕ) (rest : List ℕ) (n : ℕ)
      → s.dispatch_q ≡ idx ∷ rest
      → deps_satisfied (at s idx) s.retired_ids ≡ true
      → length s.ready_q < config.ready_queue_capacity
      → WithinBound bound s
      → work bound (wake_loop config n (wake config idx (record s { dispatch_q = rest })))
        < work bound s
  unfolding wake
  wake-works s idx rest n e sat room w =
      let m : Move config s (wake_up idx (record s { dispatch_q = rest })) =
        wakes s idx rest e sat room in
      let free : ltb (length s.ready_q) config.ready_queue_capacity ≡ true = ground arith in
      rw sat (rw free (Move-first bound m (omega arith) (wake_loop-Moves config n _) w))

  -- An instruction that still waits goes to the back of the queue, with the work unchanged.
  wake-waits :
      (s : State) (idx : ℕ) (rest : List ℕ) (n : ℕ)
      → s.dispatch_q ≡ idx ∷ rest
      → deps_satisfied (at s idx) s.retired_ids ≡ false
      → (wake config idx (record s { dispatch_q = rest }) ≡ record s {
        dispatch_q = rest ++ idx ∷ [];
        stats = bump_stall s (codes "WaitingDependency");
      })
        × (work bound (record s {
          dispatch_q = rest ++ idx ∷ [];
          stats = bump_stall s (codes "WaitingDependency");
        })
            ≡ work bound s)
  unfolding wake requeue work
  wake-waits s idx rest n e later =
      let q : length (rest ++ idx ∷ []) ≡ length s.dispatch_q =
        omega (arith, ap length e, length-append rest (idx ∷ [])) in
      (simp later, simp q)

  wake_loop-first :
      (s : State) (idx : ℕ) (rest : List ℕ) (n : ℕ)
      → s.dispatch_q ≡ idx ∷ rest
      → wake_loop config (suc n) s
        ≡ wake_loop config n (wake config idx (record s { dispatch_q = rest }))
  unfolding wake_loop
  wake_loop-first s idx rest n e = simp (e, wake_loop) refl

  -- Wake-up does something where an instruction in `dispatch_q` has its dependencies retired.
  pub wake_loop-works :
      (before after : List ℕ) (s : State) (ready_one : ℕ)
      → IsLive config
      → s.dispatch_q ≡ before ++ after
      → s.ready_q ≡ []
      → count ready_one before ≢ 0
      → deps_satisfied (at s ready_one) s.retired_ids ≡ true
      → WithinBound bound s
      → work bound (wake_loop config (length before) s) < work bound s
  wake_loop-works [] after s r live e none_ready c sat w = absurd (c refl)
  wake_loop-works (idx ∷ before) after s r live e none_ready c sat w =
      let first = wake_loop-first s idx (before ++ after) (length before) e in
      elim (Bool-cases (deps_satisfied (at s idx) s.retired_ids)) [
        | inl now ↦
            let room : length s.ready_q < config.ready_queue_capacity =
              omega (arith, ap length none_ready, live.has_ready_room) in
            subst (λ t. work bound t < work bound s) (sym first)
              (wake-works s idx (before ++ after) (length before) e now room w)
        | inr later ↦
            let next : State = record s {
              dispatch_q = (before ++ after) ++ idx ∷ [];
              stats = bump_stall s (codes "WaitingDependency");
            } in
            let (same, kept) = wake-waits s idx (before ++ after) 0 e later in
            let other : count r before ≢ 0 = ground arith in
            let less =
              wake_loop-works before (after ++ idx ∷ []) next r live
                (append_assoc before after (idx ∷ [])) none_ready other sat w in
            omega (
              arith,
              less,
              kept,
              ap (work bound) (first ∙ ap (wake_loop config (length before)) same),
            )
      ]

  pub dispatch_loop-works :
      (s : State) (idx : ℕ) (rest : List ℕ) (n : ℕ)
      → s.decode_q ≡ idx ∷ rest
      → length s.dispatch_q < config.dispatch_queue_capacity
      → WithinBound bound s
      → work bound (dispatch_loop config (suc n) s) < work bound s
  unfolding dispatch_loop
  dispatch_loop-works s idx rest n e room w =
      let m : Move config s (dispatch_one idx (record s { decode_q = rest })) =
        dispatches s idx rest e room in
      elim (Bool-cases (leb config.dispatch_queue_capacity (length s.dispatch_q))) [
        | inl full ↦ absurd (ground arith)
        | inr free ↦
            simp (e, dispatch_loop)
              (rw free (Move-first bound m (omega arith) (dispatch_loop-Moves config n _) w))
      ]

  pub decode_loop-works :
      (s : State) (idx : ℕ) (rest : List ℕ) (n : ℕ)
      → s.fetch_q ≡ idx ∷ rest
      → WithinBound bound s
      → work bound (decode_loop (suc n) s) < work bound s
  unfolding decode_loop
  decode_loop-works s idx rest n e w =
      let m : Move config s (decode_one idx (record s { fetch_q = rest })) = decodes s idx rest e in
      simp (e, decode_loop) (Move-first bound m (omega arith) (decode_loop-Moves config n _) w)

  pub fetch_loop-works :
      (s : State) (n : ℕ)
      → s.next_to_fetch < length s.instructions
      → WithinBound bound s
      → work bound (fetch_loop (suc n) s) < work bound s
  unfolding fetch_loop
  fetch_loop-works s n lt w =
      let m : Move config s (fetch_one s) = fetches s lt in
      let more : ltb s.next_to_fetch (length s.instructions) ≡ true = ground arith in
      rw (more, fetch_loop) (Move-first bound m (omega arith) (fetch_loop-Moves config n _) w)

module _ (config : SimulatorConfig) where
  wake-keeps :
      (idx : ℕ) (s : State)
      → ((wake config idx s).compute_in_use ≡ s.compute_in_use)
        × ((wake config idx s).memory_in_use ≡ s.memory_in_use)
        × ((more : List ℕ) × ((wake config idx s).ready_q ≡ s.ready_q ++ more))
  unfolding wake wake_up requeue
  wake-keeps idx s = elim (Bool-cases (deps_satisfied (at s idx) s.retired_ids)) [
    | inl sat ↦ rw sat (elim (Bool-cases (ltb (length s.ready_q) config.ready_queue_capacity)) [
      | inl room ↦ rw room (refl, refl, (idx ∷ [], refl))
      | inr full ↦ rw full (refl, refl, ([], sym (append-nil s.ready_q)))
    ])
    | inr later ↦ rw later (refl, refl, ([], sym (append-nil s.ready_q)))
  ]

  -- Wake-up changes the units and slots in use nowhere, and `ready_q` at its back only.
  pub wake_loop-keeps :
      (n : ℕ) (s : State)
      → ((wake_loop config n s).compute_in_use ≡ s.compute_in_use)
        × ((wake_loop config n s).memory_in_use ≡ s.memory_in_use)
        × ((more : List ℕ) × ((wake_loop config n s).ready_q ≡ s.ready_q ++ more))
  unfolding wake_loop
  wake_loop-keeps zero s = (refl, refl, ([], sym (append-nil s.ready_q)))
  wake_loop-keeps (suc n) s = elim (List-cases s.dispatch_q) [
    | inl e ↦ simp (e, wake_loop) (wake_loop-keeps n s)
    | inr (idx, rest, e) ↦
        let next = wake config idx (record s { dispatch_q = rest }) in
        let (c, m, (more, q)) = wake_loop-keeps n next in
        let (c', m', (more', q')) = wake-keeps idx (record s { dispatch_q = rest }) in
        simp (e, wake_loop)
          (
            c ∙ c',
            m ∙ m',
            (more' ++ more, q ∙ (ap (λ xs. xs ++ more) q' ∙ append_assoc s.ready_q more' more)),
          )
  ]
