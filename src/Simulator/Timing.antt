-- ===== src/Simulator/Timing.antt =====
-- The stamps within one turn of the main loop of `run_workload`: each loop leaves them within the
-- bounds that the next one needs.
pub mod Runs
pub mod CriticalPath
mod Tests
use accelsim_lite.Prelude.{
  ℕ, zero, suc, ◌+◌, ◌≤◌, ◌≡◌, refl, List, [], ◌∷◌, arith, inl, inr, Bool-cases, List-cases, ltb,
  leb, length,
}
use accelsim_lite.Config.{SimulatorConfig}
use accelsim_lite.Pipeline.{State, at, retire_one, retire_loop}
use accelsim_lite.Pipeline.Front.{
  wake, wake_loop, issue, issue_loop, dispatch_loop, decode_loop, fetch_loop,
}
use accelsim_lite.Scheduler.{deps_satisfied}
use accelsim_lite.Instruction.{is_memory_op}
use accelsim_lite.Pipeline.Moves.{
  Move, retires, wakes, requeues, postpones, issues_memory, issues_compute, stalls, dispatches,
  decodes, fetches,
}
use accelsim_lite.Pipeline.Placement.{IsPlaced}
use accelsim_lite.Pipeline.Placement.Steps.{Move-IsPlaced}
use accelsim_lite.Pipeline.Dependencies.{RespectsDeps}
use accelsim_lite.Pipeline.Dependencies.Steps.{Move-RespectsDeps}
use accelsim_lite.Pipeline.Timing.{Clock, IsTimed}
use accelsim_lite.Pipeline.Timing.Front.{
  SameTimes-IsTimed, wake_up-IsTimed, dispatch_one-IsTimed, decode_one-IsTimed, retire_one-IsTimed,
}
use accelsim_lite.Pipeline.Timing.Issue.{
  issue_memory-IsTimed, issue_compute-IsTimed, fetch_one-IsTimed,
}

abbrev pub OnTime : Clock → State → Type 0
OnTime k s = IsTimed k s × RespectsDeps s

module _ (config : SimulatorConfig) (k : Clock) where
  moved : (s t : State) → Move config s t → OnTime k s → (IsPlaced t → IsTimed k t) → OnTime k t
  moved s t m (v, d) timed =
      (timed (Move-IsPlaced s t m v.placed), Move-RespectsDeps s t m v.placed d)

  -- A move that writes no instruction, slot or cycle.
  unmoved :
      (s t : State)
      → t.instructions ≡ s.instructions
      → t.next_to_fetch ≡ s.next_to_fetch
      → t.cycle ≡ s.cycle
      → t.exec_slots ≡ s.exec_slots
      → Move config s t
      → OnTime k s
      → OnTime k t
  unmoved s t i n c e m v = moved s t m v (λ placed.
      SameTimes-IsTimed k s t
        (record { same_instructions = i; same_next = n; same_cycle = c; same_slots = e }) placed
        v.0)

  pub retire_loop-OnTime :
      (q : List ℕ) (s : State)
      → k.retired + 1 ≤ k.finished
      → s.retire_q ≡ q
      → OnTime k s
      → OnTime k (retire_loop q s)
  unfolding retire_loop retire_one
  retire_loop-OnTime [] s bound e v = v
  retire_loop-OnTime (idx ∷ rest) s bound e v =
      retire_loop-OnTime rest (retire_one idx (record s { retire_q = rest })) bound refl
        (moved s _ (retires s idx rest e) v (retire_one-IsTimed k s idx rest v.0 bound e))

  wake-OnTime :
      (s : State) (idx : ℕ) (rest : List ℕ)
      → k.dispatched ≤ k.now
      → s.dispatch_q ≡ idx ∷ rest
      → OnTime k s
      → OnTime k (wake config idx (record s { dispatch_q = rest }))
  unfolding wake
  wake-OnTime s idx rest bound e v = elim (Bool-cases (deps_satisfied (at s idx) s.retired_ids)) [
    | inl sat ↦ rw sat (elim (Bool-cases (ltb (length s.ready_q) config.ready_queue_capacity)) [
      | inl room ↦ rw room (
          moved s _ (wakes s idx rest e sat (ground arith)) v
            (wake_up-IsTimed k s idx rest v.0 bound e))
      | inr full ↦
          rw full (unmoved s _ refl refl refl refl (requeues s idx rest _ e (refl, refl)) v)
    ])
    | inr unmet ↦
        rw unmet (unmoved s _ refl refl refl refl (requeues s idx rest _ e (refl, refl)) v)
  ]

  pub wake_loop-OnTime :
      (n : ℕ) (s : State) → k.dispatched ≤ k.now → OnTime k s → OnTime k (wake_loop config n s)
  unfolding wake_loop
  wake_loop-OnTime zero s bound v = v
  wake_loop-OnTime (suc n) s bound v = elim (List-cases s.dispatch_q) [
    | inl e ↦ simp (e, wake_loop) (wake_loop-OnTime n s bound v)
    | inr (idx, rest, e) ↦
        simp (e, wake_loop) (wake_loop-OnTime n _ bound (wake-OnTime s idx rest bound e v))
  ]

  issue-OnTime :
      (s : State) (issued idx : ℕ) (rest : List ℕ)
      → k.since ≡ k.now + 1
      → k.finished ≤ k.now + 1
      → s.ready_q ≡ idx ∷ rest
      → OnTime k s
      → OnTime k (issue config idx issued (record s { ready_q = rest })).0
  unfolding issue
  issue-OnTime s issued idx rest bound past e v =
      elim (Bool-cases (leb config.issue_width issued)) [
        | inl w ↦
            rw w (unmoved s _ refl refl refl refl (postpones s idx rest s.stats e (refl, refl)) v)
        | inr w ↦ rw w (elim (Bool-cases (is_memory_op (at s idx).type)) [
          | inl m ↦ rw m (elim (Bool-cases (leb config.memory_ports s.memory_in_use)) [
            | inl full ↦
                rw full (unmoved s _ refl refl refl refl (postpones s idx rest _ e (refl, refl)) v)
            | inr free ↦ rw free (
                moved s _ (issues_memory s idx rest e m (ground arith)) v
                  (issue_memory-IsTimed k s idx rest _ bound past e v.0 v.1))
          ])
          | inr c ↦ rw c (elim (Bool-cases (leb config.compute_units s.compute_in_use)) [
            | inl full ↦
                rw full (unmoved s _ refl refl refl refl (postpones s idx rest _ e (refl, refl)) v)
            | inr free ↦ rw free (
                moved s _ (issues_compute s idx rest e c (ground arith)) v
                  (issue_compute-IsTimed k s idx rest _ bound past e v.0 v.1))
          ])
        ])
      ]

  pub issue_loop-OnTime :
      (n : ℕ) (s : State) (issued : ℕ)
      → k.since ≡ k.now + 1
      → k.finished ≤ k.now + 1
      → OnTime k s
      → OnTime k (issue_loop config n (s, issued)).0
  unfolding issue_loop
  issue_loop-OnTime zero s issued bound past v = v
  issue_loop-OnTime (suc n) s issued bound past v = elim (List-cases s.ready_q) [
    | inl e ↦ simp (e, issue_loop) (issue_loop-OnTime n s issued bound past v)
    | inr (idx, rest, e) ↦
        simp (e, issue_loop)
          (issue_loop-OnTime n _ _ bound past (issue-OnTime s issued idx rest bound past e v))
  ]

  pub dispatch_loop-OnTime :
      (n : ℕ) (s : State)
      → k.decoded + 1 ≤ k.dispatched
      → OnTime k s
      → OnTime k (dispatch_loop config n s)
  unfolding dispatch_loop
  dispatch_loop-OnTime zero s bound v = v
  dispatch_loop-OnTime (suc n) s bound v = elim (List-cases s.decode_q) [
    | inl e ↦ simp (e, dispatch_loop) v
    | inr (idx, rest, e) ↦
        elim (Bool-cases (leb config.dispatch_queue_capacity (length s.dispatch_q))) [
          | inl full ↦
              simp (e, dispatch_loop)
                (rw full (unmoved s _ refl refl refl refl (stalls s _ (refl, refl)) v))
          | inr room ↦
              simp (e, dispatch_loop)
                (rw room (
                  dispatch_loop-OnTime n _ bound (
                    moved s _ (dispatches s idx rest e (ground arith)) v
                      (dispatch_one-IsTimed k s idx rest v.0 bound e))))
        ]
  ]

  pub decode_loop-OnTime :
      (n : ℕ) (s : State) → k.fetched + 1 ≤ k.decoded → OnTime k s → OnTime k (decode_loop n s)
  unfolding decode_loop
  decode_loop-OnTime zero s bound v = v
  decode_loop-OnTime (suc n) s bound v = elim (List-cases s.fetch_q) [
    | inl e ↦ simp (e, decode_loop) v
    | inr (idx, rest, e) ↦
        simp (e, decode_loop)
          (decode_loop-OnTime n _ bound
            (moved s _ (decodes s idx rest e) v (decode_one-IsTimed k s idx rest v.0 bound e)))
  ]

  pub fetch_loop-OnTime :
      (n : ℕ) (s : State) → k.now + 1 ≤ k.fetched → OnTime k s → OnTime k (fetch_loop n s)
  unfolding fetch_loop
  fetch_loop-OnTime zero s bound v = v
  fetch_loop-OnTime (suc n) s bound v =
      elim (Bool-cases (ltb s.next_to_fetch (length s.instructions))) [
        | inl more ↦
            rw (more, fetch_loop)
              (fetch_loop-OnTime n _ bound (
                moved s _ (fetches s (ground arith)) v
                  (fetch_one-IsTimed k s bound (ground arith) v.0)))
        | inr none_left ↦ rw (none_left, fetch_loop) v
      ]
