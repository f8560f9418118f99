-- ===== src/PthreadQueue/Crew/Conserved/Steps.antt =====
-- Every step of the threads keeps what `IsConserved` states.
use accelsim_lite.Prelude.{
  ℕ, ◌+◌, ◌≤◌, ◌<◌, ◌≡◌, refl, sym, ap, ◌∙◌, List, [], ◌∷◌, ◌++◌, arith, length, length-append,
  sub64,
}
use mathlib.Core.Path.{ap₂}
use Prim.Native.Nat.{bit_xor}
use accelsim_lite.Prelude.Bits.{bit_xor_comm, bit_xor_assoc}
use accelsim_lite.Prelude.Multisets.{sum_of, sum_of-append, sum_of-replaced, sum_of-one}
use accelsim_lite.Engine.{WorkItem}
use accelsim_lite.PthreadQueue.{PthreadItem, WorkQueue, close}
use accelsim_lite.PthreadQueue.Refined.{contents}
use accelsim_lite.PthreadQueue.Benchmark.{process_item}
use accelsim_lite.PthreadQueue.Benchmark.Engine.{work_of, matching, process_item-item_checksum}
use accelsim_lite.PthreadQueue.Crew.{
  ProducerPhase, WorkerPhase, asleep, roused, gone, handling, WorkerContext, Crew, rouse, handle,
  Signalled, nobody, somebody, signal_not_full, broadcast, Enters, enters, returns_to, Step, pushes,
  blocks, closes, pops, sleeps, leaves, handles, Course, stays, steps, stirs, stirs_main,
}
use accelsim_lite.PthreadQueue.Crew.Calls.{popped-first, pushed-last, entered}
use accelsim_lite.PthreadQueue.Crew.Steady.{IsSteady}
use accelsim_lite.PthreadQueue.Crew.Steady.Courses.{Course-IsSteady}
use accelsim_lite.PthreadQueue.Crew.Conserved.{
  held_in, xor_of, left_to_do, latencies_of, IsConserved, SameWork, SameWork-refl, rephased, idles,
  Signalled-SameWork, xor_of-append,
}

abbrev held_by : (WorkItem → ℕ) → WorkerContext → ℕ
held_by f context = sum_of f (held_in context.phase)

Signalled-held :
    (f : WorkItem → ℕ) {cs ds : List WorkerContext}
    → Signalled cs ds
    → sum_of (held_by f) ds ≡ sum_of (held_by f) cs
Signalled-held f (nobody none_asleep) = refl
Signalled-held f {cs} (somebody before context after e p) = omega (
  arith,
  sum_of-replaced (held_by f) before context (rouse context) after cs e,
  ap (λ phase. sum_of f (held_in phase)) p,
)

broadcast-held :
    (f : WorkItem → ℕ) (cs : List WorkerContext)
    → sum_of (held_by f) (broadcast cs) ≡ sum_of (held_by f) cs
unfolding broadcast
broadcast-held f [] = refl
broadcast-held f (context ∷ cs) = ground (arith, broadcast-held f cs)

broadcast-SameWork : (cs : List WorkerContext) → SameWork cs (broadcast cs)
unfolding broadcast
broadcast-SameWork [] = SameWork-refl []
broadcast-SameWork (context ∷ cs) = ground (arith, broadcast-SameWork cs)

entering-held :
    (f : WorkItem → ℕ) {q r : WorkQueue} {phase : WorkerPhase}
    → Enters q phase r
    → sum_of f (held_in phase) ≡ 0
entering-held f (enters contended start_ns end_ns) = refl
entering-held f returns_to = refl

-- The worker's own count is part of the sum.
part_of_sum :
    (g : WorkerContext → ℕ) (before : List WorkerContext) (context : WorkerContext)
    (after cs : List WorkerContext)
    → cs ≡ before ++ context ∷ after
    → g context ≤ sum_of g cs
part_of_sum g before context after cs e =
    omega (arith, ap (sum_of g) e, sum_of-append g before (context ∷ after))

xor_of-replaced :
    (before : List WorkerContext) (context context' : WorkerContext) (after cs : List WorkerContext)
    (x : ℕ)
    → cs ≡ before ++ context ∷ after
    → context'.checksum ≡ bit_xor context.checksum x
    → xor_of (before ++ context' ∷ after) ≡ bit_xor x (xor_of cs)
xor_of-replaced before context context' after cs x e h =
    let a = xor_of before in
    let c = context.checksum in
    let b = xor_of after in
    xor_of-append before (context' ∷ after)
    ∙ (ap (λ y. bit_xor a (bit_xor y b)) (h ∙ bit_xor_comm c x)
        ∙ (ap (bit_xor a) (bit_xor_assoc x c b)
            ∙ (sym (bit_xor_assoc a x (bit_xor c b))
                ∙ (ap (λ y. bit_xor y (bit_xor c b)) (bit_xor_comm a x)
                    ∙ (bit_xor_assoc x a (bit_xor c b)
                        ∙ ap (bit_xor x)
                            (sym (xor_of-append before (context ∷ after)) ∙ sym (ap xor_of e)))))))

handles-IsConserved :
    (workers workload_size : ℕ) (items processed : List WorkItem) (s : Crew)
    (before : List WorkerContext) (context : WorkerContext) (after : List WorkerContext)
    (item : PthreadItem) (end_ns : ℕ)
    → s.contexts ≡ before ++ context ∷ after
    → context.phase ≡ handling item
    → IsConserved (matching workers workload_size) items processed s
    → IsConserved
        (matching workers workload_size)
        items
        (work_of item ∷ processed)
        (record s { contexts = before ++ handle s.latency_capacity item end_ns context ∷ after })
unfolding handle process_item
handles-IsConserved workers workload_size items processed s before context after item end_ns e p v =
    let context' = handle s.latency_capacity item end_ns context in
    let held = ap (λ phase. sum_of (λ (work : WorkItem). 1) (held_in phase)) p in
    let has_room : length context.latencies < s.latency_capacity = omega (
      arith,
      part_of_sum latencies_of before context after s.contexts e,
      part_of_sum (held_by (λ work. 1)) before context after s.contexts e,
      held,
      v.timed,
      v.room,
      v.conserved (λ work. 1),
      sum_of-one processed,
      sum_of-one items,
    ) in
    let longer : length context'.latencies ≡ length context.latencies + 1 =
      ground
        (arith, has_room, length-append context.latencies (sub64 end_ns item.queued_at_ns ∷ [])) in
    record {
      conserved = λ f. omega (
        arith,
        v.conserved f,
        sum_of-replaced (held_by f) before context context' after s.contexts e,
        ap (λ phase. sum_of f (held_in phase)) p,
      );
      checked =
          xor_of-replaced before context context' after s.contexts
            (process_item item context.allocations).0 e refl
          ∙ ap₂ bit_xor (process_item-item_checksum workers workload_size context.allocations item)
              v.checked;
      timed = omega (
        arith,
        v.timed,
        sum_of-replaced latencies_of before context context' after s.contexts e,
        longer,
      );
      room = v.room;
      counted = omega (
        arith,
        v.counted,
        sum_of-replaced (λ (context : WorkerContext). context.tasks_completed) before context
            context' after s.contexts e,
      );
      allocated = omega (
        arith,
        v.allocated,
        sum_of-replaced (λ (context : WorkerContext). context.allocations) before context context'
            after s.contexts e,
      );
    }

pops-left :
    (f : WorkItem → ℕ) (s : Crew) (before : List WorkerContext) (context : WorkerContext)
    (after : List WorkerContext) (q r : WorkQueue) (item : PthreadItem) (producer : ProducerPhase)
    → s.contexts ≡ before ++ context ∷ after
    → Enters s.queue context.phase q
    → contents q ≡ contents s.queue
    → contents q ≡ item ∷ contents r
    → left_to_do f (record s {
      queue = r;
      producer = producer;
      contexts = before ++ record context { phase = handling item } ∷ after;
    })
      ≡ left_to_do f s
pops-left f s before context after q r item producer e enter same first =
    let work = λ (item : PthreadItem). f (work_of item) in
    omega (
      arith,
      ap (sum_of work) same,
      ap (sum_of work) first,
      entering-held f enter,
      sum_of-replaced (held_by f) before context (record context { phase = handling item }) after
          s.contexts e,
    )

rests-left :
    (f : WorkItem → ℕ) (s : Crew) (before : List WorkerContext) (context : WorkerContext)
    (after : List WorkerContext) (q : WorkQueue) (phase : WorkerPhase)
    → s.contexts ≡ before ++ context ∷ after
    → sum_of f (held_in context.phase) ≡ 0
    → sum_of f (held_in phase) ≡ 0
    → contents q ≡ contents s.queue
    → left_to_do f
        (record s { queue = q; contexts = before ++ record context { phase = phase } ∷ after })
      ≡ left_to_do f s
rests-left f s before context after q phase e held holds same = omega (
  arith,
  ap (sum_of (λ (item : PthreadItem). f (work_of item))) same,
  held,
  holds,
  sum_of-replaced (held_by f) before context (record context { phase = phase }) after s.contexts e,
)

-- Each step keeps the invariant, with at most one more item processed.
pub Step-IsConserved :
    (workers workload_size : ℕ) (items processed : List WorkItem) (s t : Crew)
    → Step s t
    → IsSteady s
    → IsConserved (matching workers workload_size) items processed s
    → (more : List WorkItem) × IsConserved (matching workers workload_size) items more t
unfolding close
Step-IsConserved workers size items processed _ _
      (pushes s item rest queued_at r cs can e h signalled) steady v =
    let queued = record item { queued_at_ns = queued_at } in
    let (last, _, _) = pushed-last s.queue steady.sound r queued h in
    (
      processed,
      idles (matching workers size) items processed s _ (Signalled-SameWork signalled) refl
          (λ f.
            let work = λ (item : PthreadItem). f (work_of item) in
            omega (
              arith,
              ap (sum_of work) e,
              ap (sum_of work) last,
              sum_of-append work (contents s.queue) (queued ∷ []),
              Signalled-held f signalled,
            ))
          v,
    )
Step-IsConserved workers size items processed _ _ (blocks s item rest can e h) steady v = (
  processed,
  idles (matching workers size) items processed s _ (SameWork-refl s.contexts) refl (λ f. refl) v,
)
Step-IsConserved workers size items processed _ _ (closes s p e) steady v = (
  processed,
  idles (matching workers size) items processed s _ (broadcast-SameWork s.contexts) refl
      (λ f. omega (arith, broadcast-held f s.contexts)) v,
)
Step-IsConserved workers size items processed _ _ (pops s before context after q r item e enter h)
      steady v =
    let (same, follows) = entered enter steady.sound in
    let (first, _) = popped-first q follows.sound r item h in
    (
      processed,
      idles (matching workers size) items processed s _
          (rephased before context after s.contexts (handling item) e) refl
          (λ f.
            pops-left f s before context after q r item (signal_not_full s.producer) e enter same
              first)
          v,
    )
Step-IsConserved workers size items processed _ _ (sleeps s before context after q e enter h) steady
      v =
    let (same, _) = entered enter steady.sound in
    (
      processed,
      idles (matching workers size) items processed s _
          (rephased before context after s.contexts asleep e) refl
          (λ f. rests-left f s before context after q asleep e (entering-held f enter) refl same) v,
    )
Step-IsConserved workers size items processed _ _ (leaves s before context after q e enter h) steady
      v =
    let (same, _) = entered enter steady.sound in
    (
      processed,
      idles (matching workers size) items processed s _
          (rephased before context after s.contexts gone e) refl
          (λ f. rests-left f s before context after q gone e (entering-held f enter) refl same) v,
    )
Step-IsConserved workers size items processed _ _ (handles s before context after item end_ns e p)
      steady v =
    (
      work_of item ∷ processed,
      handles-IsConserved workers size items processed s before context after item end_ns e p v,
    )

pub Course-IsConserved :
    (workers workload_size : ℕ) (items : List WorkItem) {n m : ℕ} {s t : Crew}
    → Course n m s t
    → IsSteady s
    → IsConserved (matching workers workload_size) items [] s
    → (processed : List WorkItem) × IsConserved (matching workers workload_size) items processed t
Course-IsConserved workers size items (stays s) steady v = ([], v)
Course-IsConserved workers size items (steps {t} {u} course act) steady v =
    let (processed, w) = Course-IsConserved workers size items course steady v in
    Step-IsConserved workers size items processed t u act (Course-IsSteady course steady) w
Course-IsConserved workers size items (stirs {t} before context after course e p) steady v =
    let (processed, w) = Course-IsConserved workers size items course steady v in
    (
      processed,
      idles (matching workers size) items processed t _
          (rephased before context after t.contexts roused e) refl
          (λ f.
            rests-left f t before context after t.queue roused e
              (ap (λ phase. sum_of f (held_in phase)) p) refl refl)
          w,
    )
Course-IsConserved workers size items (stirs_main {t} course) steady v =
    let (processed, w) = Course-IsConserved workers size items course steady v in
    (
      processed,
      idles (matching workers size) items processed t _ (SameWork-refl t.contexts) refl (λ f. refl)
          w,
    )
