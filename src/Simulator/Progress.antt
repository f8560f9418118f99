-- ===== src/Simulator/Progress.antt =====
-- Each turn of the main loop with work left leaves less work.
use accelsim_lite.Prelude.{
  ℕ, zero, suc, ◌<◌, ◌≡◌, refl, sym, ap, ◌∙◌, inl, inr, List, [], ◌∷◌, ◌++◌, length, List-cases,
  subst, true, false, arith,
}
use mathlib.Core.List.{append-nil}
use accelsim_lite.Config.{SimulatorConfig}
use accelsim_lite.Pipeline.{State, has_work_left}
use accelsim_lite.Instruction.{Instruction}
use accelsim_lite.Pipeline.Front.{
  wake_loop, wake_all, issue_loop, issue_all, dispatch_loop, decode_loop, fetch_loop,
}
use accelsim_lite.Pipeline.Work.{work, WithinBound, Moves-WithinBound, Moves-work}
use accelsim_lite.Simulator.Oldest.{GoesBackwards, IsRunning, oldest_ready}
use accelsim_lite.Simulator.Stages.{
  IsLive, wake_loop-works, positive_suc, issue_all-works, dispatch_loop-works, decode_loop-works,
  fetch_loop-works, wake_loop-keeps,
}
use accelsim_lite.Simulator.{front}
use accelsim_lite.Pipeline.Moves.{
  Moves, Moves-trans, wake_loop-Moves, issue_loop-Moves, dispatch_loop-Moves, decode_loop-Moves,
  fetch_loop-Moves,
}
use accelsim_lite.Pipeline.Resources.{occupied}

module _ (config : SimulatorConfig) (bound : ℕ) where
  -- Dispatch, decode and fetch.
  abbrev later : State → State
  later s =
      fetch_loop config.fetch_width
        (decode_loop config.decode_width (dispatch_loop config config.dispatch_width s))

  later-Moves : (s : State) → Moves config s (later s)
  later-Moves s =
      let d = dispatch_loop config config.dispatch_width s in
      Moves-trans (dispatch_loop-Moves config config.dispatch_width s) (
        Moves-trans (decode_loop-Moves config config.decode_width d)
          (fetch_loop-Moves config config.fetch_width (decode_loop config.decode_width d)))

  dispatch_loop-idle : (n : ℕ) (s : State) → s.decode_q ≡ [] → dispatch_loop config n s ≡ s
  unfolding dispatch_loop
  dispatch_loop-idle zero s e = refl
  dispatch_loop-idle (suc n) s e = simp (e, dispatch_loop) refl

  decode_loop-idle : (n : ℕ) (s : State) → s.fetch_q ≡ [] → decode_loop n s ≡ s
  unfolding decode_loop
  decode_loop-idle zero s e = refl
  decode_loop-idle (suc n) s e = simp (e, decode_loop) refl

  fetches-work :
      (s : State)
      → IsLive config
      → WithinBound bound s
      → s.next_to_fetch < length s.instructions
      → work bound (fetch_loop config.fetch_width s) < work bound s
  fetches-work s live w lt =
      let (n, e) = positive_suc config.fetch_width live.fetches_some in
      subst (λ m. work bound (fetch_loop m s) < work bound s) (sym e)
        (fetch_loop-works config bound s n lt w)

  decodes-work :
      (s : State) (idx : ℕ) (rest : List ℕ)
      → IsLive config
      → WithinBound bound s
      → s.fetch_q ≡ idx ∷ rest
      → work bound (decode_loop config.decode_width s) < work bound s
  decodes-work s idx rest live w q =
      let (n, e) = positive_suc config.decode_width live.decodes_some in
      subst (λ m. work bound (decode_loop m s) < work bound s) (sym e)
        (decode_loop-works config bound s idx rest n q w)

  dispatches-work :
      (s : State) (idx : ℕ) (rest : List ℕ)
      → IsLive config
      → WithinBound bound s
      → s.decode_q ≡ idx ∷ rest
      → s.dispatch_q ≡ []
      → work bound (dispatch_loop config config.dispatch_width s) < work bound s
  dispatches-work s idx rest live w q d =
      let (n, e) = positive_suc config.dispatch_width live.dispatches_some in
      let room : length s.dispatch_q < config.dispatch_queue_capacity =
        omega (arith, ap length d, live.has_dispatch_room) in
      subst (λ m. work bound (dispatch_loop config m s) < work bound s) (sym e)
        (dispatch_loop-works config bound s idx rest n q room w)

  -- Where nothing is past decode, something is dispatched, decoded or fetched.
  later-works :
      (s : State)
      → IsLive config
      → WithinBound bound s
      → has_work_left s ≡ true
      → s.dispatch_q ≡ []
      → s.ready_q ≡ []
      → s.retire_q ≡ []
      → s.exec_slots ≡ []
      → work bound (later s) < work bound s
  unfolding has_work_left
  later-works s live w more d r t x = elim (List-cases s.decode_q) [
    | inr (idx, rest, q) ↦
        let u = dispatch_loop config config.dispatch_width s in
        let m = dispatch_loop-Moves config config.dispatch_width s in
        let next =
          Moves-trans (decode_loop-Moves config config.decode_width u)
            (fetch_loop-Moves config config.fetch_width (decode_loop config.decode_width u)) in
        omega (
          arith,
          dispatches-work s idx rest live w q d,
          Moves-work bound next (Moves-WithinBound bound m w),
        )
    | inl q ↦ simp (dispatch_loop-idle config.dispatch_width s q) (elim (List-cases s.fetch_q) [
      | inr (idx, rest, f) ↦
          let m = decode_loop-Moves config config.decode_width s in
          let next =
            fetch_loop-Moves config config.fetch_width (decode_loop config.decode_width s) in
          omega (
            arith,
            decodes-work s idx rest live w f,
            Moves-work bound next (Moves-WithinBound bound m w),
          )
      | inl f ↦
          simp (decode_loop-idle config.decode_width s f) (fetches-work s live w (ground arith))
    ])
  ]

  module _ (workload : List Instruction) (live : IsLive config)
      (back : GoesBackwards workload) where
    -- Where nothing executes, something wakes up, is issued, or comes from decode or before.
    pub front-works :
        (s : State)
        → IsRunning config bound workload s
        → has_work_left s ≡ true
        → s.retire_q ≡ []
        → s.exec_slots ≡ []
        → work bound (front config s) < work bound s
    unfolding front wake_all issue_all wake_loop issue_loop
    front-works s v more t x =
        let woken = wake_all config s in
        let moved = wake_loop-Moves config (length s.dispatch_q) s in
        let within = Moves-WithinBound bound moved v.within in
        let issued = issue_loop-Moves config (length woken.ready_q) woken 0 in
        let rest_moves =
          Moves-work bound (later-Moves (issue_all config woken))
            (Moves-WithinBound bound issued within) in
        elim (List-cases s.ready_q) [
          | inr (idx, rest, r) ↦
              let (c, m, (others, q)) = wake_loop-keeps config (length s.dispatch_q) s in
              let no_unit : woken.compute_in_use ≡ 0 =
                omega (arith, c, v.accounted.compute_count, ap (occupied false) x) in
              let no_port : woken.memory_in_use ≡ 0 =
                omega (arith, m, v.accounted.memory_count, ap (occupied true) x) in
              let starts =
                issue_all-works config bound woken idx (rest ++ others) live
                  (q ∙ ap (λ xs. xs ++ others) r) no_unit no_port within in
              omega (arith, Moves-work bound moved v.within, starts, rest_moves)
          | inl r ↦ elim (List-cases s.dispatch_q) [
            | inr (idx, rest, d) ↦
                let (m, here, sat) = oldest_ready s v back idx rest d r t x in
                let wakes_one =
                  wake_loop-works config bound s.dispatch_q [] s m live
                    (sym (append-nil s.dispatch_q)) r here sat v.within in
                omega (arith, wakes_one, Moves-work bound issued within, rest_moves)
            | inl d ↦
                let same : wake_all config s ≡ s = ap (λ q. wake_loop config (length q) s) d in
                let same' : issue_all config s ≡ s =
                  ap (λ q. (issue_loop config (length q) (s, 0)).0) r in
                simp (same, same') (later-works s live v.within more d r t x)
          ]
        ]
