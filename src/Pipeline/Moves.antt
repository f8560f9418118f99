-- ===== src/Pipeline/Moves.antt =====
-- The stages of a cycle as a step relation: each constructor is one round of one of the loops.
use accelsim_lite.Prelude.{
  ℕ, zero, suc, ◌<◌, ◌≡◌, refl, subst, inl, inr, true, false, List, [], ◌∷◌, arith, ltb, leb,
  Bool-cases, length, List-cases, add32, succeed, >>=-succeeds, succeed_injective,
}
use accelsim_lite.Stats.{Stats}
use accelsim_lite.Config.{SimulatorConfig}
use accelsim_lite.Pipeline.{
  State, at, retire_one, retire_loop, Tick, tick_slots, start_tick, after_tick, advance, retire_all,
}
use accelsim_lite.Instruction.{is_memory_op}
use accelsim_lite.Pipeline.Front.{
  wake, wake_loop, begin_execution, postpone, issue, issue_loop, dispatch_one, dispatch_loop,
  decode_one, decode_loop, fetch_one, fetch_loop, end_cycle, wake_up, requeue,
}
use accelsim_lite.Scheduler.{deps_satisfied}

-- Two statistics that differ at most in their maps.
abbrev pub SameCounts : Stats → Stats → Type 0
SameCounts a b = (b.completed_ops ≡ a.completed_ops) × (b.total_latency ≡ a.total_latency)

pub data Move (config : SimulatorConfig) : State → State → Type 0 where
  retires :
      (s : State) (idx : ℕ) (rest : List ℕ)
      → s.retire_q ≡ idx ∷ rest
      → Move config s (retire_one idx (record s { retire_q = rest }))
  advances :
      (s : State) (t : Tick)
      → tick_slots s.exec_slots (start_tick s) ≡ succeed t
      → Move config s (after_tick s t)
  wakes :
      (s : State) (idx : ℕ) (rest : List ℕ)
      → s.dispatch_q ≡ idx ∷ rest
      → deps_satisfied (at s idx) s.retired_ids ≡ true
      → length s.ready_q < config.ready_queue_capacity
      → Move config s (wake_up idx (record s { dispatch_q = rest }))
  requeues :
      (s : State) (idx : ℕ) (rest : List ℕ) (stats : Stats)
      → s.dispatch_q ≡ idx ∷ rest
      → SameCounts s.stats stats
      → Move config s (requeue idx (record s { dispatch_q = rest; stats = stats }))
  postpones :
      (s : State) (idx : ℕ) (rest : List ℕ) (stats : Stats)
      → s.ready_q ≡ idx ∷ rest
      → SameCounts s.stats stats
      → Move config s (postpone idx (record s { ready_q = rest; stats = stats }))
  issues_memory :
      (s : State) (idx : ℕ) (rest : List ℕ)
      → s.ready_q ≡ idx ∷ rest
      → is_memory_op (at s idx).type ≡ true
      → s.memory_in_use < config.memory_ports
      → Move config s (
          begin_execution idx true
            (record s { ready_q = rest; memory_in_use = add32 s.memory_in_use 1 }))
  issues_compute :
      (s : State) (idx : ℕ) (rest : List ℕ)
      → s.ready_q ≡ idx ∷ rest
      → is_memory_op (at s idx).type ≡ false
      → s.compute_in_use < config.compute_units
      → Move config s (
          begin_execution idx false
            (record s { ready_q = rest; compute_in_use = add32 s.compute_in_use 1 }))
  stalls :
      (s : State) (stats : Stats)
      → SameCounts s.stats stats
      → Move config s (record s { stats = stats })
  dispatches :
      (s : State) (idx : ℕ) (rest : List ℕ)
      → s.decode_q ≡ idx ∷ rest
      → length s.dispatch_q < config.dispatch_queue_capacity
      → Move config s (dispatch_one idx (record s { decode_q = rest }))
  decodes :
      (s : State) (idx : ℕ) (rest : List ℕ)
      → s.fetch_q ≡ idx ∷ rest
      → Move config s (decode_one idx (record s { fetch_q = rest }))
  fetches : (s : State) → s.next_to_fetch < length s.instructions → Move config s (fetch_one s)
  ticks : (s : State) → Move config s (end_cycle s)

pub data Moves (config : SimulatorConfig) : State → State → Type 0 where
  no_move : (s : State) → Moves config s s
  and_then : {s t u : State} → Move config s t → Moves config t u → Moves config s u

pub Moves-trans :
    {config : SimulatorConfig} {s t u : State}
    → Moves config s t
    → Moves config t u
    → Moves config s u
Moves-trans (no_move s) n = n
Moves-trans (and_then m ms) n = and_then m (Moves-trans ms n)

pub one-Move : {config : SimulatorConfig} {s t : State} → Move config s t → Moves config s t
one-Move {t} m = and_then m (no_move t)

-- A property that each move keeps is kept by all of them.
pub Moves_keep {ℓ} :
    (P : State → Type ℓ) {config : SimulatorConfig}
    → ((s t : State) → Move config s t → P s → P t)
    → {s t : State} → Moves config s t
    → P s
    → P t
Moves_keep P keep (no_move s) v = v
Moves_keep P keep (and_then {s} {t} m ms) v = Moves_keep P keep ms (keep s t m v)

-- Each loop is a sequence of moves.

module _ (config : SimulatorConfig) where
  pub retire_loop-Moves :
      (q : List ℕ) (s : State) → s.retire_q ≡ q → Moves config s (retire_loop q s)
  unfolding retire_loop retire_one
  retire_loop-Moves [] s e = no_move s
  retire_loop-Moves (idx ∷ rest) s e =
      and_then (retires s idx rest e) (retire_loop-Moves rest _ refl)

  pub retire_all-Moves : (s : State) → Moves config s (retire_all s)
  unfolding retire_all
  retire_all-Moves s = retire_loop-Moves s.retire_q s refl

  pub advance-Moves : (s t : State) → advance s ≡ succeed t → Moves config s t
  unfolding advance
  advance-Moves s t h =
      let (u, p, q) =
        >>=-succeeds (tick_slots s.exec_slots (start_tick s)) (λ u. succeed (after_tick s u)) h in
      subst (Moves config s) (succeed_injective q refl refl) (one-Move (advances s u p))

  wake-Move :
      (s : State) (idx : ℕ) (rest : List ℕ)
      → s.dispatch_q ≡ idx ∷ rest
      → Move config s (wake config idx (record s { dispatch_q = rest }))
  unfolding wake
  wake-Move s idx rest e = elim (Bool-cases (deps_satisfied (at s idx) s.retired_ids)) [
    | inl sat ↦ rw sat (elim (Bool-cases (ltb (length s.ready_q) config.ready_queue_capacity)) [
      | inl room ↦ rw room (wakes s idx rest e sat (ground arith))
      | inr full ↦ rw full (requeues s idx rest _ e (refl, refl))
    ])
    | inr waiting ↦ rw waiting (requeues s idx rest _ e (refl, refl))
  ]

  pub wake_loop-Moves : (n : ℕ) (s : State) → Moves config s (wake_loop config n s)
  unfolding wake_loop
  wake_loop-Moves zero s = no_move s
  wake_loop-Moves (suc n) s = elim (List-cases s.dispatch_q) [
    | inl e ↦ simp (e, wake_loop) (wake_loop-Moves n s)
    | inr (idx, rest, e) ↦
        simp (e, wake_loop) (and_then (wake-Move s idx rest e) (wake_loop-Moves n _))
  ]

  issue-Move :
      (s : State) (issued idx : ℕ) (rest : List ℕ)
      → s.ready_q ≡ idx ∷ rest
      → Move config s (issue config idx issued (record s { ready_q = rest })).0
  unfolding issue
  issue-Move s issued idx rest e = elim (Bool-cases (leb config.issue_width issued)) [
    | inl w ↦ rw w (postpones s idx rest s.stats e (refl, refl))
    | inr w ↦ rw w (elim (Bool-cases (is_memory_op (at s idx).type)) [
      | inl m ↦ rw m (elim (Bool-cases (leb config.memory_ports s.memory_in_use)) [
        | inl full ↦ rw full (postpones s idx rest _ e (refl, refl))
        | inr free ↦ rw free (issues_memory s idx rest e m (ground arith))
      ])
      | inr c ↦ rw c (elim (Bool-cases (leb config.compute_units s.compute_in_use)) [
        | inl full ↦ rw full (postpones s idx rest _ e (refl, refl))
        | inr free ↦ rw free (issues_compute s idx rest e c (ground arith))
      ])
    ])
  ]

  pub issue_loop-Moves :
      (n : ℕ) (s : State) (issued : ℕ) → Moves config s (issue_loop config n (s, issued)).0
  unfolding issue_loop
  issue_loop-Moves zero s issued = no_move s
  issue_loop-Moves (suc n) s issued = elim (List-cases s.ready_q) [
    | inl e ↦ simp (e, issue_loop) (issue_loop-Moves n s issued)
    | inr (idx, rest, e) ↦
        simp (e, issue_loop) (and_then (issue-Move s issued idx rest e) (issue_loop-Moves n _ _))
  ]

  pub dispatch_loop-Moves : (n : ℕ) (s : State) → Moves config s (dispatch_loop config n s)
  unfolding dispatch_loop
  dispatch_loop-Moves zero s = no_move s
  dispatch_loop-Moves (suc n) s = elim (List-cases s.decode_q) [
    | inl e ↦ simp (e, dispatch_loop) (no_move s)
    | inr (idx, rest, e) ↦
        elim (Bool-cases (leb config.dispatch_queue_capacity (length s.dispatch_q))) [
          | inl full ↦ simp (e, dispatch_loop) (rw full (one-Move (stalls s _ (refl, refl))))
          | inr room ↦
              simp (e, dispatch_loop)
                (rw room
                  (and_then (dispatches s idx rest e (ground arith)) (dispatch_loop-Moves n _)))
        ]
  ]

  pub decode_loop-Moves : (n : ℕ) (s : State) → Moves config s (decode_loop n s)
  unfolding decode_loop
  decode_loop-Moves zero s = no_move s
  decode_loop-Moves (suc n) s = elim (List-cases s.fetch_q) [
    | inl e ↦ simp (e, decode_loop) (no_move s)
    | inr (idx, rest, e) ↦
        simp (e, decode_loop) (and_then (decodes s idx rest e) (decode_loop-Moves n _))
  ]

  pub fetch_loop-Moves : (n : ℕ) (s : State) → Moves config s (fetch_loop n s)
  unfolding fetch_loop
  fetch_loop-Moves zero s = no_move s
  fetch_loop-Moves (suc n) s = elim (Bool-cases (ltb s.next_to_fetch (length s.instructions))) [
    | inl more ↦ rw (more, fetch_loop) (and_then (fetches s (ground arith)) (fetch_loop-Moves n _))
    | inr none_left ↦ rw (none_left, fetch_loop) (no_move s)
  ]
