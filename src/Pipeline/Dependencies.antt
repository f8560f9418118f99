-- ===== src/Pipeline/Dependencies.antt =====
-- An instruction becomes ready only when every dependency has retired, and the set of retired
-- identifiers holds those of finished instructions only.
pub mod Steps
use accelsim_lite.Prelude.{
  ℕ, ◌+◌, ◌≤◌, ◌<◌, ◌≡◌, refl, sym, ap, subst, ◌∙◌, ◌≢◌, true, arith, contains, length, modify,
  get_or-modify, get_or-modify_read, All, get_or, succeed,
}
use accelsim_lite.Scheduler.{DepsRetired}
use accelsim_lite.Pipeline.{State, at, Tick, tick_slots, start_tick, after_tick, resume}
use accelsim_lite.Instruction.{Stage, fetch, stage_rank, Instruction, blank}
use accelsim_lite.Pipeline.Front.{fetch_one}
use accelsim_lite.Pipeline.Program.{SameProgram}
use accelsim_lite.Pipeline.Placement.{IsPlaced}
use accelsim_lite.Pipeline.Forward.{Forward, complete_all-stage, complete_all-eq}
use accelsim_lite.Pipeline.Placement.Back.{tick_slots-Splits}
use mathlib.Core.Path.{subst₂}

-- The instruction with the identifier that is meant has been fetched and is done.
abbrev pub IsFinished : State → ℕ → Type 0
IsFinished s dep =
    (j : ℕ) × (j < s.next_to_fetch) × ((at s j).id ≡ dep) × (stage_rank (at s j).stage ≡ 6)

pub record RespectsDeps (s : State) : Type 0 where
  pub awake_deps :
      (i : ℕ)
      → i < s.next_to_fetch
      → 3 ≤ stage_rank (at s i).stage
      → DepsRetired (at s i) s.retired_ids
  pub retired_finished : (dep : ℕ) → contains s.retired_ids dep ≡ true → IsFinished s dep

-- What a move leaves of this, unless it wakes or retires an instruction.
pub record Keeps (s t : State) : Type 0 where
  pub same_retired : t.retired_ids ≡ s.retired_ids
  pub fetched_more : s.next_to_fetch ≤ t.next_to_fetch
  pub was_awake :
      (i : ℕ)
      → i < t.next_to_fetch
      → 3 ≤ stage_rank (at t i).stage
      → (i < s.next_to_fetch) × (3 ≤ stage_rank (at s i).stage)

stage_rank-le : (stage : Stage) → stage_rank stage ≤ 6
stage_rank-le stage = ground arith

pub still-IsFinished :
    (s t : State)
    → s.next_to_fetch ≤ t.next_to_fetch
    → SameProgram s t
    → ((i : ℕ) → Forward s t i)
    → (dep : ℕ) → IsFinished s dep
    → IsFinished t dep
still-IsFinished s t more same forward dep (j, lt, e, d) = (
  j,
  omega arith,
  (same.same_at j).same_id ∙ e,
  omega (arith, forward j lt, stage_rank-le (at t j).stage),
)

pub Keeps-RespectsDeps :
    (s t : State)
    → SameProgram s t
    → ((i : ℕ) → Forward s t i)
    → Keeps s t
    → RespectsDeps s
    → RespectsDeps t
Keeps-RespectsDeps s t same forward k v = record {
  awake_deps = λ i lt up.
      let (lt', up') = k.was_awake i lt up in
      subst₂ (λ deps ids. All (λ dep. contains ids dep ≡ true) deps)
        (sym (same.same_at i).same_deps) (sym k.same_retired) (v.awake_deps i lt' up');
  retired_finished = λ dep h.
      still-IsFinished s t k.fetched_more same forward dep
        (v.retired_finished dep (subst (λ ids. contains ids dep ≡ true) k.same_retired h));
}

pub modify-Keeps :
    (s t : State) (idx : ℕ) (f : Instruction → Instruction)
    → t.instructions ≡ modify s.instructions idx f
    → t.retired_ids ≡ s.retired_ids
    → t.next_to_fetch ≡ s.next_to_fetch
    → s.next_to_fetch ≤ length s.instructions
    → stage_rank (at s idx).stage + 1 ≡ stage_rank (f (at s idx)).stage
    → stage_rank (at s idx).stage ≢ 2
    → Keeps s t
modify-Keeps s t idx f e r n h k ne = record {
  same_retired = r;
  fetched_more = omega arith;
  was_awake = λ i lt up. ground (
    arith,
    ap (λ xs. get_or xs i blank) e,
    get_or-modify_read s.instructions idx i f blank (omega arith),
  );
}

pub unchanged :
    (s t : State)
    → t.instructions ≡ s.instructions
    → t.retired_ids ≡ s.retired_ids
    → t.next_to_fetch ≡ s.next_to_fetch
    → Keeps s t
unchanged s t e r n = record {
  same_retired = r;
  fetched_more = omega arith;
  was_awake = λ i lt up. ground (arith, ap (λ xs. get_or xs i blank) e);
}

pub fetch-Keeps : (s : State) → s.next_to_fetch < length s.instructions → Keeps s (fetch_one s)
unfolding fetch_one
fetch-Keeps s h = record {
  same_retired = refl;
  fetched_more = omega arith;
  was_awake = λ i lt up. ground (
    arith,
    get_or-modify s.instructions s.next_to_fetch i
        (λ x. record x { stage = fetch; enqueue_cycle = s.cycle }) blank h,
  );
}

pub after_tick-Keeps :
    (s : State) (t : Tick)
    → tick_slots s.exec_slots (start_tick s) ≡ succeed t
    → IsPlaced s
    → Keeps s (after_tick s t)
unfolding after_tick start_tick
after_tick-Keeps s t h v =
    let base = resume s t in
    let e = complete_all-eq t.finished base in
    record {
      same_retired = ap (λ u. u.retired_ids) e;
      fetched_more = omega (arith, ap (λ u. u.next_to_fetch) e);
      was_awake = λ i lt up. ground (
        arith,
        v.places i,
        v.in_range,
        ap (λ u. u.next_to_fetch) e,
        tick_slots-Splits i s.exec_slots (start_tick s) t h,
        complete_all-stage t.finished base i,
      );
    }
