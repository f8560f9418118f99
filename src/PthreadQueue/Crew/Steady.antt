-- ===== src/PthreadQueue/Crew/Steady.antt =====
-- What the threads of the benchmark keep, so that no wake-up is lost.
pub mod Moves
pub mod Courses
use accelsim_lite.Prelude.{
  ℕ, ◌+◌, ◌≤◌, ◌≡◌, ◌≢◌, refl, sym, ap, ◌∙◌, true, false, none, some, List, [], ◌∷◌, ◌++◌, arith,
  length, length-append, zero, suc, ◌*◌, subst, inl, inr, Option, ◌==◌, Bool-cases,
}
use accelsim_lite.Prelude.Multisets.{sum_of, sum_of-replaced}
use accelsim_lite.PthreadQueue.{
  PthreadItem, WorkQueue, waits, returns, try_push, try_pop, close, queue_init,
}
use accelsim_lite.PthreadQueue.Refined.{contents, IsSound}
use accelsim_lite.PthreadQueue.Usage.{made, InUse-IsSound}
use accelsim_lite.PthreadQueue.Crew.{
  WorkerPhase, asleep, roused, gone, handling, WorkerContext, ProducerPhase, pushing, blocked,
  unblocked, joining, Crew, is_asleep, rouse, handle, Signalled, nobody, somebody, broadcast,
  asleep_in, signal_not_full, CanPush, at_first, again, Enters, enters, returns_to, new_context,
  new_contexts, start_crew, blocks, closes, pops, sleeps, handles, Course, stays, steps, stirs,
  stirs_main,
}
use accelsim_lite.PthreadQueue.Crew.Calls.{
  popped-first, popped-none, pop-waits, pushed-last, entered, push-waits,
}

abbrev pub roused_in : WorkerPhase → ℕ
roused_in roused = 1
roused_in _ = 0

abbrev pub is_roused : WorkerContext → ℕ
is_roused context = roused_in context.phase

abbrev pub gone_in : WorkerPhase → ℕ
gone_in gone = 1
gone_in _ = 0

abbrev pub is_gone : WorkerContext → ℕ
is_gone context = gone_in context.phase

abbrev pub phase_rank : ProducerPhase → ℕ
phase_rank pushing = 0
phase_rank unblocked = 1
phase_rank blocked = 2
phase_rank joining = 3

-- While a worker sleeps, each item in the queue has a worker that has been woken up for it; and `main`
-- sleeps only while the queue is full.
pub record IsSteady (s : Crew) : Type 0 where
  pub sound : IsSound s.queue
  pub opened : phase_rank s.producer ≢ 3 → s.queue.closed ≡ false
  pub ended : phase_rank s.producer ≡ 3 → (s.queue.closed ≡ true) × (s.to_push ≡ [])
  pub has_item : 1 ≤ phase_rank s.producer → phase_rank s.producer ≤ 2 → length s.to_push ≢ 0
  pub heard :
      sum_of is_asleep s.contexts ≢ 0
      → (s.queue.closed ≡ false) × (length (contents s.queue) ≤ sum_of is_roused s.contexts)
  pub full_when_blocked : phase_rank s.producer ≡ 2 → length (contents s.queue) ≡ s.queue.capacity
  pub all_gone : sum_of is_gone s.contexts ≢ 0 → (s.queue.closed ≡ true) × (contents s.queue ≡ [])

pub Signalled-asleep :
    {cs ds : List WorkerContext}
    → Signalled cs ds
    → sum_of is_asleep ds ≢ 0
    → (sum_of is_asleep cs ≢ 0) × (sum_of is_roused ds ≡ sum_of is_roused cs + 1)
Signalled-asleep (nobody none_asleep) h = absurd (h none_asleep)
Signalled-asleep {cs} (somebody before context after e p) h =
    let sleeping : is_asleep context ≡ 1 = ground (arith, p) in
    let not_roused : is_roused context ≡ 0 = ground (arith, p) in
    (
      omega
          (arith, sum_of-replaced is_asleep before context (rouse context) after cs e, sleeping, h),
      omega
          (arith, sum_of-replaced is_roused before context (rouse context) after cs e, not_roused),
    )

pub Signalled-gone :
    {cs ds : List WorkerContext} → Signalled cs ds → sum_of is_gone ds ≡ sum_of is_gone cs
Signalled-gone (nobody none_asleep) = refl
Signalled-gone {cs} (somebody before context after e p) =
    let stays : is_gone context ≡ 0 = ground (arith, p) in
    omega (arith, sum_of-replaced is_gone before context (rouse context) after cs e, stays)

pub broadcast-asleep : (cs : List WorkerContext) → sum_of is_asleep (broadcast cs) ≡ 0
unfolding broadcast
broadcast-asleep [] = refl
broadcast-asleep (context ∷ cs) = ground (arith, broadcast-asleep cs)

pub broadcast-gone : (cs : List WorkerContext) → sum_of is_gone (broadcast cs) ≡ sum_of is_gone cs
unfolding broadcast
broadcast-gone [] = refl
broadcast-gone (context ∷ cs) = ground (arith, broadcast-gone cs)

-- The producer and the queue behind a call of a worker.
pub signal_not_full-rank :
    (phase : ProducerPhase)
    → (phase_rank (signal_not_full phase) ≢ 2)
      × (phase_rank phase ≡ 2 → phase_rank (signal_not_full phase) ≡ 1)
      × (phase_rank phase ≢ 2 → phase_rank (signal_not_full phase) ≡ phase_rank phase)
unfolding signal_not_full
signal_not_full-rank phase = ground arith

pub CanPush-rank : {phase : ProducerPhase} → CanPush phase → phase_rank phase ≤ 1
CanPush-rank at_first = omega arith
CanPush-rank again = omega arith

pub Enters-phase :
    {q r : WorkQueue} {phase : WorkerPhase}
    → Enters q phase r
    → (asleep_in phase ≡ 0) × (gone_in phase ≡ 0)
Enters-phase (enters contended start_ns end_ns) = (refl, refl)
Enters-phase returns_to = (refl, refl)

-- A worker that pops changes nothing of the counts but its own part.
module _ (s : Crew) (before : List WorkerContext) (context context' : WorkerContext)
    (after : List WorkerContext) (e : s.contexts ≡ before ++ context ∷ after) where
  pub changed :
      (g : WorkerContext → ℕ)
      → sum_of g (before ++ context' ∷ after) + g context ≡ sum_of g s.contexts + g context'
  changed g = sum_of-replaced g before context context' after s.contexts e
