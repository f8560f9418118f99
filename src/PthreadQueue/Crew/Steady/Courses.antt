-- ===== src/PthreadQueue/Crew/Steady/Courses.antt =====
-- Every course of the threads keeps the invariant.
use accelsim_lite.PthreadQueue.Crew.{
  Step, pushes, blocks, closes, pops, sleeps, leaves, handles, Course, stays, steps, stirs,
  stirs_main, WorkerContext, new_context, new_contexts, Crew, start_crew, is_asleep,
}
use accelsim_lite.PthreadQueue.Usage.{made, InUse-IsSound}
use accelsim_lite.PthreadQueue.Refined.{contents, IsSound}
use accelsim_lite.PthreadQueue.Crew.Steady.{IsSteady, is_gone}
use accelsim_lite.PthreadQueue.Crew.Steady.Moves.{
  pushes-IsSteady, closes-IsSteady, pops-IsSteady, sleeps-IsSteady, leaves-IsSteady,
  handles-IsSteady, blocks-IsSteady, stirs-IsSteady, stirs_main-IsSteady,
}
use accelsim_lite.Prelude.{
  ℕ, zero, suc, ◌*◌, ◌≡◌, refl, subst, inl, inr, false, Option, none, some, [], arith, ◌==◌,
  Bool-cases,
}
use accelsim_lite.PthreadQueue.{WorkQueue, queue_init}
use accelsim_lite.PthreadQueue.Refined.{IsSound}
use accelsim_lite.Prelude.Multisets.{sum_of}

Step-IsSteady : (s t : Crew) → Step s t → IsSteady s → IsSteady t
Step-IsSteady _ _ (pushes s item rest queued_at r cs can e h signal) v =
    pushes-IsSteady s (record item { queued_at_ns = queued_at }) rest r cs can h signal v
Step-IsSteady _ _ (blocks s item rest can e h) v = blocks-IsSteady s item rest e h v
Step-IsSteady _ _ (closes s p e) v = closes-IsSteady s e v
Step-IsSteady _ _ (pops s before context after q r item e enter h) v =
    pops-IsSteady s before context after q r item e enter h v
Step-IsSteady _ _ (sleeps s before context after q e enter h) v =
    sleeps-IsSteady s before context after q e enter h v
Step-IsSteady _ _ (leaves s before context after q e enter h) v =
    leaves-IsSteady s before context after q e enter h v
Step-IsSteady _ _ (handles s before context after item end_ns e p) v =
    handles-IsSteady s before context after item end_ns e p v

pub Course-IsSteady : {n m : ℕ} {s t : Crew} → Course n m s t → IsSteady s → IsSteady t
Course-IsSteady (stays s) v = v
Course-IsSteady (steps {t} {u} course act) v = Step-IsSteady t u act (Course-IsSteady course v)
Course-IsSteady (stirs {t} before context after course e p) v =
    stirs-IsSteady t before context after e p (Course-IsSteady course v)
Course-IsSteady (stirs_main {t} course) v = stirs_main-IsSteady t (Course-IsSteady course v)

abbrev MadeFresh : ℕ × Option WorkQueue → Type 0
MadeFresh (code, none) = Unit {0}
MadeFresh (code, some q) = (q.closed ≡ false) × (contents q ≡ [])

init-fresh : (room : ℕ) → MadeFresh (queue_init room)
unfolding queue_init
init-fresh room = elim (Bool-cases (room == 0)) [ inl e ↦ simp e tt | inr e ↦ simp e (refl, refl) ]

pub new_queue :
    (room : ℕ) (q : WorkQueue)
    → queue_init room ≡ (0, some q)
    → IsSound q × (q.closed ≡ false) × (contents q ≡ [])
new_queue room q e =
    let (open_, empty) = subst MadeFresh e (init-fresh room) in
    (InUse-IsSound (made room e), open_, empty)

pub sum_of-new_contexts :
    (g : WorkerContext → ℕ) (n : ℕ) → sum_of g (new_contexts n) ≡ n * g new_context
sum_of-new_contexts g zero = grind arith
sum_of-new_contexts g (suc n) = grind (arith, sum_of-new_contexts g n)

pub start_crew-IsSteady :
    (workers workload_size room : ℕ) (q : WorkQueue)
    → queue_init room ≡ (0, some q)
    → IsSteady (start_crew workers workload_size q)
unfolding start_crew
start_crew-IsSteady workers workload_size room q e =
    let (sound, open_, empty) = new_queue room q e in
    record {
      sound = sound;
      opened = λ n. open_;
      ended = λ n. absurd (omega (arith, n));
      has_item = λ low high. absurd (omega (arith, low));
      heard = λ found. absurd (omega (arith, found, sum_of-new_contexts is_asleep workers));
      full_when_blocked = λ b. absurd (omega (arith, b));
      all_gone = λ found. absurd (omega (arith, found, sum_of-new_contexts is_gone workers));
    }
