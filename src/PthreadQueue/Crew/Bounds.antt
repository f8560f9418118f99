-- ===== src/PthreadQueue/Crew/Bounds.antt =====
-- Each step of the threads takes from a weight, to which an unasked wake-up adds one at most.
use accelsim_lite.Prelude.{
  ℕ, suc, ◌+◌, ◌*◌, ◌≤◌, ◌≡◌, refl, ap, ◌∙◌, List, [], ◌∷◌, ◌++◌, arith, length, length-append,
}
use accelsim_lite.Prelude.Multisets.{sum_of, sum_of-replaced}
use accelsim_lite.PthreadQueue.{WorkQueue, close}
use accelsim_lite.PthreadQueue.Refined.{contents}
use accelsim_lite.PthreadQueue.Crew.{
  WorkerPhase, between, asleep, roused, gone, handling, WorkerContext, ProducerPhase, pushing,
  blocked, unblocked, joining, Crew, rouse, handle, Signalled, nobody, somebody, broadcast,
  signal_not_full, CanPush, at_first, again, Enters, enters, returns_to, Step, pushes, blocks,
  closes, pops, sleeps, leaves, handles, Course, stays, steps, stirs, stirs_main,
}
use accelsim_lite.PthreadQueue.Crew.Calls.{popped-first, pushed-last, entered}
use accelsim_lite.PthreadQueue.Crew.Steady.{IsSteady}
use accelsim_lite.PthreadQueue.Crew.Steady.Courses.{Course-IsSteady}

abbrev weight_in : WorkerPhase → ℕ
weight_in between = 1
weight_in roused = 1
weight_in asleep = 0
weight_in gone = 0
weight_in (handling item) = 2

abbrev pub weight_of : WorkerContext → ℕ
weight_of context = weight_in context.phase

-- `main` can still wake up every worker, by `close`.
abbrev pub producer_weight : ProducerPhase → ℕ → ℕ
producer_weight pushing workers = 2 + workers
producer_weight unblocked workers = 2 + workers
producer_weight blocked workers = 1 + workers
producer_weight joining workers = 0

abbrev pub crew_weight : Crew → ℕ
crew_weight s =
    5 * length s.to_push
    + 3 * length (contents s.queue)
    + sum_of weight_of s.contexts
    + producer_weight s.producer (length s.contexts)

length-replaced :
    (before : List WorkerContext) (x y : WorkerContext) (after xs : List WorkerContext)
    → xs ≡ before ++ x ∷ after
    → length (before ++ y ∷ after) ≡ length xs
length-replaced before x y after xs e =
    omega (arith, ap length e, length-append before (x ∷ after), length-append before (y ∷ after))

Signalled-weight :
    {cs ds : List WorkerContext}
    → Signalled cs ds
    → (sum_of weight_of ds ≤ sum_of weight_of cs + 1) × (length ds ≡ length cs)
Signalled-weight (nobody none_asleep) = (omega arith, refl)
Signalled-weight {cs} (somebody before context after e p) = (
  omega
      (arith, sum_of-replaced weight_of before context (rouse context) after cs e, ap weight_in p),
  length-replaced before context (rouse context) after cs e,
)

broadcast-weight :
    (cs : List WorkerContext) → sum_of weight_of (broadcast cs) ≤ sum_of weight_of cs + length cs
unfolding broadcast
broadcast-weight [] = omega arith
broadcast-weight (context ∷ cs) = ground (arith, broadcast-weight cs)

entering-weight : {q r : WorkQueue} {phase : WorkerPhase} → Enters q phase r → weight_in phase ≡ 1
entering-weight (enters contended start_ns end_ns) = refl
entering-weight returns_to = refl

pushing-weight : {phase : ProducerPhase} → CanPush phase → (n : ℕ) → producer_weight phase n ≡ 2 + n
pushing-weight at_first n = refl
pushing-weight again n = refl

pub signalled_main-weight :
    (phase : ProducerPhase) (n : ℕ)
    → producer_weight (signal_not_full phase) n ≤ producer_weight phase n + 1
unfolding signal_not_full
signalled_main-weight phase n = ground arith

Step-lowers : (s t : Crew) → Step s t → IsSteady s → suc (crew_weight t) ≤ crew_weight s
unfolding handle close
Step-lowers _ _ (pushes s item rest queued_at r cs can e h signalled) v =
    let (last, _, _) = pushed-last s.queue v.sound r (record item { queued_at_ns = queued_at }) h in
    omega (
      arith,
      ap length e,
      ap length last,
      length-append (contents s.queue) (record item { queued_at_ns = queued_at } ∷ []),
      Signalled-weight signalled,
      pushing-weight can (length s.contexts),
    )
Step-lowers _ _ (blocks s item rest can e h) v =
    omega (arith, pushing-weight can (length s.contexts))
Step-lowers _ _ (closes s p e) v =
    omega (
      arith,
      broadcast-weight s.contexts,
      ap (λ phase. producer_weight phase (length s.contexts)) p,
    )
Step-lowers _ _ (pops s before context after q r item e enter h) v =
    let (same, follows) = entered enter v.sound in
    let (first, _) = popped-first q follows.sound r item h in
    let context' = record context { phase = handling item } in
    let crew = length-replaced before context context' after s.contexts e in
    omega (
      arith,
      ap length same,
      ap length first,
      sum_of-replaced weight_of before context context' after s.contexts e,
      entering-weight enter,
      signalled_main-weight s.producer (length s.contexts),
      ap (producer_weight (signal_not_full s.producer)) crew,
    )
Step-lowers _ _ (sleeps s before context after q e enter h) v =
    let (same, _) = entered enter v.sound in
    let context' = record context { phase = asleep } in
    omega (
      arith,
      ap length same,
      sum_of-replaced weight_of before context context' after s.contexts e,
      entering-weight enter,
      ap (producer_weight s.producer) (length-replaced before context context' after s.contexts e),
    )
Step-lowers _ _ (leaves s before context after q e enter h) v =
    let (same, _) = entered enter v.sound in
    let context' = record context { phase = gone } in
    omega (
      arith,
      ap length same,
      sum_of-replaced weight_of before context context' after s.contexts e,
      entering-weight enter,
      ap (producer_weight s.producer) (length-replaced before context context' after s.contexts e),
    )
Step-lowers _ _ (handles s before context after item end_ns e p) v =
    let context' = handle s.latency_capacity item end_ns context in
    omega (
      arith,
      sum_of-replaced weight_of before context context' after s.contexts e,
      ap weight_in p,
      ap (producer_weight s.producer) (length-replaced before context context' after s.contexts e),
    )

broadcast-length : (cs : List WorkerContext) → length (broadcast cs) ≡ length cs
unfolding broadcast
broadcast-length [] = refl
broadcast-length (context ∷ cs) = ap suc (broadcast-length cs)

Step-length : {s t : Crew} → Step s t → length t.contexts ≡ length s.contexts
Step-length (pushes s item rest queued_at r cs can e h signalled) = (Signalled-weight signalled).1
Step-length (blocks s item rest can e h) = refl
Step-length (closes s p e) = broadcast-length s.contexts
Step-length (pops s before context after q r item e enter h) =
    length-replaced before context _ after s.contexts e
Step-length (sleeps s before context after q e enter h) =
    length-replaced before context _ after s.contexts e
Step-length (leaves s before context after q e enter h) =
    length-replaced before context _ after s.contexts e
Step-length (handles s before context after item end_ns e p) =
    length-replaced before context _ after s.contexts e

pub Course-bounded :
    {n m : ℕ} {s t : Crew}
    → Course n m s t
    → IsSteady s
    → (n + crew_weight t ≤ crew_weight s + m) × (length t.contexts ≡ length s.contexts)
Course-bounded (stays s) v = (omega arith, refl)
Course-bounded (steps {t} {u} course act) v =
    let (bound, crew) = Course-bounded course v in
    (omega (arith, bound, Step-lowers t u act (Course-IsSteady course v)), Step-length act ∙ crew)
Course-bounded (stirs {t} before context after course e p) v =
    let (bound, crew) = Course-bounded course v in
    let same = length-replaced before context (rouse context) after t.contexts e in
    (
      omega (
        arith,
        bound,
        sum_of-replaced weight_of before context (rouse context) after t.contexts e,
        ap weight_in p,
        ap (producer_weight t.producer) same,
      ),
      same ∙ crew,
    )
Course-bounded (stirs_main {t} course) v =
    let (bound, crew) = Course-bounded course v in
    (omega (arith, bound, signalled_main-weight t.producer (length t.contexts)), crew)
