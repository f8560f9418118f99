-- ===== src/PthreadQueue/Crew/Steady/Moves.antt =====
-- Each step of the threads, and each unasked wake-up, keeps the invariant.
use accelsim_lite.Prelude.{
  ℕ, ◌+◌, ◌≡◌, refl, sym, ap, ◌∙◌, none, some, List, [], ◌∷◌, ◌++◌, arith, length, length-append,
}
use accelsim_lite.PthreadQueue.{PthreadItem, WorkQueue, waits, returns, try_push, try_pop, close}
use accelsim_lite.PthreadQueue.Refined.{contents}
use accelsim_lite.PthreadQueue.Crew.{
  asleep, gone, handling, WorkerContext, pushing, blocked, joining, Crew, is_asleep, rouse, handle,
  Signalled, broadcast, asleep_in, signal_not_full, CanPush, Enters,
}
use accelsim_lite.PthreadQueue.Crew.Calls.{
  popped-first, popped-none, pop-waits, pushed-last, entered, push-waits,
}
use accelsim_lite.PthreadQueue.Crew.Steady.{
  IsSteady, Signalled-asleep, Signalled-gone, broadcast-asleep, broadcast-gone, changed,
  Enters-phase, gone_in, is_gone, is_roused, roused_in, signal_not_full-rank,
}

pub pushes-IsSteady :
    (s : Crew) (item : PthreadItem) (rest : List PthreadItem) (r : WorkQueue)
    (cs : List WorkerContext)
    → CanPush s.producer
    → try_push item s.queue ≡ returns 0 none r
    → Signalled s.contexts cs
    → IsSteady s
    → IsSteady (record s { queue = r; to_push = rest; producer = pushing; contexts = cs })
pushes-IsSteady s item rest r cs can h signal v =
    let (last, open_, follows) = pushed-last s.queue v.sound r item h in
    let still_open = follows.same_closed ∙ open_ in
    record {
      sound = follows.sound;
      opened = λ _. still_open;
      ended = λ over. absurd (omega (arith, over));
      has_item = λ low high. absurd (omega (arith, low));
      heard = λ found.
          let (was_asleep, one_more) = Signalled-asleep signal found in
          let (_, enough) = v.heard was_asleep in
          (
            still_open,
            omega (
              arith,
              enough,
              one_more,
              ap length last,
              length-append (contents s.queue) (item ∷ []),
            ),
          );
      full_when_blocked = λ b. absurd (omega (arith, b));
      all_gone = λ found.
          let (closed, _) = v.all_gone (omega (arith, found, Signalled-gone signal)) in
          absurd (ground (arith, closed, open_));
    }

pub closes-IsSteady :
    (s : Crew)
    → s.to_push ≡ []
    → IsSteady s
    → IsSteady
        (record s { queue = close s.queue; producer = joining; contexts = broadcast s.contexts })
unfolding close
closes-IsSteady s e v = record {
  sound = record {
    whole = v.sound.whole;
    head_in = v.sound.head_in;
    within = v.sound.within;
    tail_after = v.sound.tail_after;
  };
  opened = λ h. absurd (h refl);
  ended = λ _. (refl, e);
  has_item = λ low high. absurd (omega (arith, high));
  heard = λ found. absurd (found (broadcast-asleep s.contexts));
  full_when_blocked = λ b. absurd (omega (arith, b));
  all_gone = λ found. (refl, (v.all_gone (omega (arith, found, broadcast-gone s.contexts))).1);
}

pub pops-IsSteady :
    (s : Crew) (before : List WorkerContext) (context : WorkerContext) (after : List WorkerContext)
    (q r : WorkQueue) (item : PthreadItem)
    → s.contexts ≡ before ++ context ∷ after
    → Enters s.queue context.phase q
    → try_pop q ≡ returns 1 (some item) r
    → IsSteady s
    → IsSteady (record s {
      queue = r;
      producer = signal_not_full s.producer;
      contexts = before ++ record context { phase = handling item } ∷ after;
    })
pops-IsSteady s before context after q r item e enter h v =
    let (same, follows) = entered enter v.sound in
    let (first, next) = popped-first q follows.sound r item h in
    let closed_as = next.same_closed ∙ follows.same_closed in
    let (not_blocked, was_blocked, otherwise) = signal_not_full-rank s.producer in
    let (awake, here) = Enters-phase enter in
    let change = changed s before context (record context { phase = handling item }) after e in
    let shorter : length (contents s.queue) ≡ length (contents r) + 1 =
      omega (arith, ap length same, ap length first) in
    record {
      sound = next.sound;
      opened = λ n. closed_as ∙ v.opened (ground (arith, n, was_blocked, otherwise));
      ended = λ n.
          let (closed, over) = v.ended (ground (arith, n, was_blocked, otherwise)) in
          (closed_as ∙ closed, over);
      has_item = λ low high.
          v.has_item (ground (arith, low, was_blocked, otherwise))
            (ground (arith, high, was_blocked, otherwise));
      heard = λ found.
          let (open_, enough) = v.heard (omega (arith, found, change is_asleep, awake)) in
          (closed_as ∙ open_, ground (arith, enough, shorter, change is_roused));
      full_when_blocked = λ b. absurd (not_blocked b);
      all_gone = λ found.
          let (_, empty) = v.all_gone (omega (arith, found, change is_gone, here)) in
          absurd (omega (arith, shorter, ap length empty));
    }

pub sleeps-IsSteady :
    (s : Crew) (before : List WorkerContext) (context : WorkerContext) (after : List WorkerContext)
    (q : WorkQueue)
    → s.contexts ≡ before ++ context ∷ after
    → Enters s.queue context.phase q
    → try_pop q ≡ waits
    → IsSteady s
    → IsSteady
        (record s { queue = q; contexts = before ++ record context { phase = asleep } ∷ after })
sleeps-IsSteady s before context after q e enter h v =
    let (same, follows) = entered enter v.sound in
    let (empty, open_) = pop-waits q follows.sound h in
    let (_, here) = Enters-phase enter in
    let change = changed s before context (record context { phase = asleep }) after e in
    record {
      sound = follows.sound;
      opened = λ n. open_;
      ended = λ n.
          let (closed, _) = v.ended n in
          absurd (ground (arith, closed, open_, follows.same_closed));
      has_item = v.has_item;
      heard = λ found. (open_, omega (arith, ap length empty));
      full_when_blocked = λ b. ap length same ∙ (v.full_when_blocked b ∙ sym follows.same_capacity);
      all_gone = λ found.
          let (closed, _) = v.all_gone (omega (arith, found, change is_gone, here)) in
          absurd (ground (arith, closed, open_, follows.same_closed));
    }

pub leaves-IsSteady :
    (s : Crew) (before : List WorkerContext) (context : WorkerContext) (after : List WorkerContext)
    (q : WorkQueue)
    → s.contexts ≡ before ++ context ∷ after
    → Enters s.queue context.phase q
    → try_pop q ≡ returns 0 none q
    → IsSteady s
    → IsSteady
        (record s { queue = q; contexts = before ++ record context { phase = gone } ∷ after })
leaves-IsSteady s before context after q e enter h v =
    let (same, follows) = entered enter v.sound in
    let (empty, over) = popped-none q follows.sound q h in
    let (awake, _) = Enters-phase enter in
    let change = changed s before context (record context { phase = gone }) after e in
    record {
      sound = follows.sound;
      opened = λ n. follows.same_closed ∙ v.opened n;
      ended = λ n. (over, (v.ended n).1);
      has_item = v.has_item;
      heard = λ found.
          let (open_, _) = v.heard (omega (arith, found, change is_asleep, awake)) in
          absurd (ground (arith, open_, over, follows.same_closed));
      full_when_blocked = λ b. ap length same ∙ (v.full_when_blocked b ∙ sym follows.same_capacity);
      all_gone = λ found. (over, empty);
    }

pub handles-IsSteady :
    (s : Crew) (before : List WorkerContext) (context : WorkerContext) (after : List WorkerContext)
    (item : PthreadItem) (end_ns : ℕ)
    → s.contexts ≡ before ++ context ∷ after
    → context.phase ≡ handling item
    → IsSteady s
    → IsSteady
        (record s { contexts = before ++ handle s.latency_capacity item end_ns context ∷ after })
unfolding handle
handles-IsSteady s before context after item end_ns e p v =
    let next = handle s.latency_capacity item end_ns context in
    let change = changed s before context next after e in
    let was_asleep = ap asleep_in p in
    let was_roused = ap roused_in p in
    let was_gone = ap gone_in p in
    record {
      sound = v.sound;
      opened = v.opened;
      ended = v.ended;
      has_item = v.has_item;
      heard = λ found.
          let (open_, enough) = v.heard (omega (arith, found, change is_asleep, was_asleep)) in
          (open_, omega (arith, enough, change is_roused, was_roused));
      full_when_blocked = v.full_when_blocked;
      all_gone = λ found. v.all_gone (omega (arith, found, change is_gone, was_gone));
    }

pub blocks-IsSteady :
    (s : Crew) (item : PthreadItem) (rest : List PthreadItem)
    → s.to_push ≡ item ∷ rest
    → try_push item s.queue ≡ waits
    → IsSteady s
    → IsSteady (record s { producer = blocked })
blocks-IsSteady s item rest e h v =
    let (full_, open_) = push-waits s.queue v.sound item h in
    record {
      sound = v.sound;
      opened = λ n. open_;
      ended = λ over. absurd (omega (arith, over));
      has_item = λ low high. omega (arith, ap length e);
      heard = v.heard;
      full_when_blocked = λ b. full_;
      all_gone = v.all_gone;
    }

pub stirs-IsSteady :
    (s : Crew) (before : List WorkerContext) (context : WorkerContext) (after : List WorkerContext)
    → s.contexts ≡ before ++ context ∷ after
    → context.phase ≡ asleep
    → IsSteady s
    → IsSteady (record s { contexts = before ++ rouse context ∷ after })
stirs-IsSteady s before context after e p v =
    let change = changed s before context (rouse context) after e in
    record {
      sound = v.sound;
      opened = v.opened;
      ended = v.ended;
      has_item = v.has_item;
      heard = λ found.
          let (open_, enough) = v.heard (omega (arith, found, change is_asleep, ap asleep_in p)) in
          (open_, omega (arith, enough, change is_roused, ap roused_in p));
      full_when_blocked = v.full_when_blocked;
      all_gone = λ found. v.all_gone (omega (arith, found, change is_gone, ap gone_in p));
    }

pub stirs_main-IsSteady :
    (s : Crew) → IsSteady s → IsSteady (record s { producer = signal_not_full s.producer })
stirs_main-IsSteady s v =
    let (not_blocked, was_blocked, otherwise) = signal_not_full-rank s.producer in
    record {
      sound = v.sound;
      opened = λ n. v.opened (ground (arith, n, was_blocked, otherwise));
      ended = λ n. v.ended (ground (arith, n, was_blocked, otherwise));
      has_item = λ low high.
          v.has_item (ground (arith, low, was_blocked, otherwise))
            (ground (arith, high, was_blocked, otherwise));
      heard = v.heard;
      full_when_blocked = λ b. absurd (not_blocked b);
      all_gone = v.all_gone;
    }
