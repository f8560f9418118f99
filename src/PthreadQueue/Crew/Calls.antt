-- ===== src/PthreadQueue/Crew/Calls.antt =====
-- What the calls of the queue do to its items, for the threads that call them.
use accelsim_lite.Prelude.{
  ℕ, ◌+◌, ◌≡◌, refl, sym, ap, ◌∙◌, subst, ◌⊎◌, inl, inr, Bool, true, false, Option, none, some,
  List, [], ◌∷◌, ◌++◌, arith, ◌==◌, Bool-cases, length, ◌-◌, ◌%◌, if◌then◌else◌, set, get_or,
}
use accelsim_lite.PthreadQueue.{
  PthreadItem, zero_item, WorkQueue, Attempt, waits, returns, try_push, lock_queue, try_pop,
  canceled,
}
use accelsim_lite.PthreadQueue.Refined.{
  contents, IsSound, blocked, answers, seen_by_caller, bounded_push, bounded_pop, Keeps,
  push-bounded, pop-bounded,
}
use accelsim_lite.PthreadQueue.Crew.{Enters, enters, returns_to, WorkerPhase}

-- A sound queue, that a call with the mutex has left from another one.
pub record Follows (q r : WorkQueue) : Type 0 where
  pub sound : IsSound r
  pub same_capacity : r.capacity ≡ q.capacity
  pub same_closed : r.closed ≡ q.closed

-- A pop takes the first item, or answers that there is none and never will be, or waits.
pub try_pop-cases :
    (q : WorkQueue)
    → (try_pop q ≡ waits)
      ⊎ (((item : PthreadItem) × (r : WorkQueue) × (try_pop q ≡ returns 1 (some item) r))
          ⊎ (try_pop q ≡ returns 0 none q))
unfolding try_pop
try_pop-cases q = elim (Bool-cases (q.count == 0)) [
  | inl e ↦ elim (Bool-cases q.closed) [
    | inl c ↦ inr (inr (ground (arith, e, c)))
    | inr c ↦ inl (ground (arith, e, c))
  ]
  | inr e ↦ inr (
      inl (
        get_or q.items q.head zero_item,
        record q { head = (q.head + 1) % q.capacity; count = q.count - 1 },
        simp e refl,
      ))
]

if-closed :
    (q : WorkQueue) (item : PthreadItem)
    → q.closed ≡ false
    → (if q.closed
        then returns canceled none q
        else returns 0 none (record q {
          items = set q.items q.tail item;
          tail = (q.tail + 1) % q.capacity;
          count = q.count + 1;
        }))
      ≡ returns 0 none (record q {
        items = set q.items q.tail item;
        tail = (q.tail + 1) % q.capacity;
        count = q.count + 1;
      })
if-closed q item c = ground (arith, c)

-- A push puts the item in, or is canceled, or waits.
pub try_push-cases :
    (item : PthreadItem) (q : WorkQueue)
    → q.closed ≡ false
    → (try_push item q ≡ waits) ⊎ ((r : WorkQueue) × (try_push item q ≡ returns 0 none r))
unfolding try_push
try_push-cases item q c = elim (Bool-cases (q.count == q.capacity)) [
  | inl e ↦ inl (ground (arith, e, c))
  | inr e ↦ inr (
    record q {
      items = set q.items q.tail item;
      tail = (q.tail + 1) % q.capacity;
      count = q.count + 1;
    },
    simp e (if-closed q item c),
  )
]

bounded_pop-some :
    (closed : Bool) (xs ys : List PthreadItem) (item : PthreadItem)
    → bounded_pop closed xs ≡ answers 1 (some item) ys
    → xs ≡ item ∷ ys
bounded_pop-some closed [] ys item h = absurd (ground (arith, h))
bounded_pop-some closed (x ∷ xs) ys item h = ground (arith, h)

bounded_pop-none :
    (closed : Bool) (xs ys : List PthreadItem)
    → bounded_pop closed xs ≡ answers 0 none ys
    → (xs ≡ []) × (closed ≡ true)
bounded_pop-none closed [] ys h = ground (arith, h)
bounded_pop-none closed (x ∷ xs) ys h = absurd (ground (arith, h))

bounded_pop-blocked :
    (closed : Bool) (xs : List PthreadItem)
    → bounded_pop closed xs ≡ blocked
    → (xs ≡ []) × (closed ≡ false)
bounded_pop-blocked closed [] h = ground (arith, h)
bounded_pop-blocked closed (x ∷ xs) h = absurd (ground (arith, h))

Keeps-Follows :
    (q r : WorkQueue) (a : Attempt) (code : ℕ) (item : Option PthreadItem)
    → a ≡ returns code item r
    → Keeps q a
    → Follows q r
Keeps-Follows q r a code item e k =
    let (sound, capacity, closed) = subst (Keeps q) e k in
    record { sound = sound; same_capacity = capacity; same_closed = closed }

module _ (q : WorkQueue) (v : IsSound q) where
  pub popped-first :
      (r : WorkQueue) (item : PthreadItem)
      → try_pop q ≡ returns 1 (some item) r
      → (contents q ≡ item ∷ contents r) × Follows q r
  popped-first r item e =
      let (seen, keeps) = pop-bounded q v in
      (
        bounded_pop-some q.closed (contents q) (contents r) item (sym seen ∙ ap seen_by_caller e),
        Keeps-Follows q r (try_pop q) 1 (some item) e keeps,
      )

  pub popped-none :
      (r : WorkQueue) → try_pop q ≡ returns 0 none r → (contents q ≡ []) × (q.closed ≡ true)
  popped-none r e =
      bounded_pop-none q.closed (contents q) (contents r)
        (sym (pop-bounded q v).0 ∙ ap seen_by_caller e)

  pub pop-waits : try_pop q ≡ waits → (contents q ≡ []) × (q.closed ≡ false)
  pop-waits e =
      bounded_pop-blocked q.closed (contents q) (sym (pop-bounded q v).0 ∙ ap seen_by_caller e)

  pub pushed-last :
      (r : WorkQueue) (item : PthreadItem)
      → try_push item q ≡ returns 0 none r
      → (contents r ≡ contents q ++ item ∷ []) × (q.closed ≡ false) × Follows q r
  pushed-last r item e =
      let (seen, keeps) = push-bounded q item v in
      let answer : bounded_push q.capacity q.closed item (contents q)
          ≡ answers 0 none (contents r) =
        sym seen ∙ ap seen_by_caller e in
      (
        ground (arith, answer),
        ground (arith, answer),
        Keeps-Follows q r (try_push item q) 0 none e keeps,
      )

  pub push-waits :
      (item : PthreadItem)
      → try_push item q ≡ waits
      → (length (contents q) ≡ q.capacity) × (q.closed ≡ false)
  push-waits item e =
      let answer : bounded_push q.capacity q.closed item (contents q) ≡ blocked =
        sym (push-bounded q item v).0 ∙ ap seen_by_caller e in
      (ground (arith, answer), ground (arith, answer))

-- What a worker finds when it has the mutex.
pub entered :
    {q r : WorkQueue} {phase : WorkerPhase}
    → Enters q phase r
    → IsSound q
    → (contents r ≡ contents q) × Follows q r
unfolding lock_queue
entered (enters contended start_ns end_ns) v = (
  refl,
  record {
    sound = record {
      whole = v.whole;
      head_in = v.head_in;
      within = v.within;
      tail_after = v.tail_after;
    };
    same_capacity = refl;
    same_closed = refl;
  },
)
entered returns_to v = (refl, record { sound = v; same_capacity = refl; same_closed = refl })
