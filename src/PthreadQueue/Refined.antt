-- ===== src/PthreadQueue/Refined.antt =====
-- The calls compared with those of a bounded queue that can be closed.
use accelsim_lite.PthreadQueue.{
  canceled, zero_item, PthreadItem, WorkQueue, Attempt, waits, returns, try_push, try_pop, close,
}
use accelsim_lite.Prelude.{
  ℕ, ◌+◌, ◌%◌, ◌≤◌, ◌<◌, ◌≡◌, ◌∙◌, ◌≢◌, inl, inr, Bool, true, false, Option, none, some, List, [],
  ◌∷◌, ◌++◌, arith, ◌==◌, if◌then◌else◌, Bool-cases, length, set, get_or, sym, ◌-◌, suc, length-set,
  refl, ap,
}
use accelsim_lite.PthreadQueue.Contents.{
  window, place, length-window, next_place, place_lt, get_or-set, window-set, window-last,
  place_next, place_back,
}
use mathlib.Core.Path.{ap₂}

abbrev pub contents : WorkQueue → List PthreadItem
contents q = window q.capacity q.items q.head q.count

pub record IsSound (q : WorkQueue) : Type 0 where
  pub whole : length q.items ≡ q.capacity
  pub head_in : q.head < q.capacity
  pub within : q.count ≤ q.capacity
  pub tail_after : q.tail ≡ place q.capacity q.head q.count

-- What a caller sees of a call: it waits, or it gets a code and maybe an item, and leaves a queue.
pub data Called : Type 0 where
  blocked : Called
  answers : ℕ → Option PthreadItem → List PthreadItem → Called

abbrev pub seen_by_caller : Attempt → Called
seen_by_caller waits = blocked
seen_by_caller (returns code item q) = answers code item (contents q)

abbrev pub bounded_push : ℕ → Bool → PthreadItem → List PthreadItem → Called
bounded_push room closed item xs =
    if closed
    then answers canceled none xs
    else if length xs == room
    then blocked
    else answers 0 none (xs ++ item ∷ [])

abbrev pub bounded_pop : Bool → List PthreadItem → Called
bounded_pop closed [] = if closed then answers 0 none [] else blocked
bounded_pop closed (x ∷ xs) = answers 1 (some x) xs

-- The queue that a call leaves is sound, of the same capacity, and closed if it was closed before.
abbrev pub Keeps : WorkQueue → Attempt → Type 0
Keeps q waits = Unit {0}
Keeps q (returns code item r) = IsSound r × (r.capacity ≡ q.capacity) × (r.closed ≡ q.closed)

pub record IsBoundedQueue (q : WorkQueue) (item : PthreadItem) : Type 0 where
  pub pushes : seen_by_caller (try_push item q) ≡ bounded_push q.capacity q.closed item (contents q)
  pub pops : seen_by_caller (try_pop q) ≡ bounded_pop q.closed (contents q)
  pub keeps : Keeps q (try_push item q) × Keeps q (try_pop q)
  pub closes : IsSound (close q) × (contents (close q) ≡ contents q) × ((close q).closed ≡ true)

tail_in : (q : WorkQueue) → IsSound q → q.tail < q.capacity
tail_in q v = omega (arith, v.tail_after, place_lt q.capacity q.head q.count v.head_in v.within)

pushed-IsSound :
    (q : WorkQueue) (item : PthreadItem) (closed : Bool)
    → q.count ≢ q.capacity
    → IsSound q
    → IsSound (record q {
      items = set q.items q.tail item;
      tail = (q.tail + 1) % q.capacity;
      count = q.count + 1;
      closed = closed;
    })
pushed-IsSound q item closed room v = record {
  whole = length-set q.items q.tail item ∙ v.whole;
  head_in = v.head_in;
  within = omega (arith, room, v.within);
  tail_after =
      let some_room : q.count < q.capacity = omega (arith, room, v.within) in
      next_place q.capacity q.tail (tail_in q v)
      ∙ (ap (λ t. place q.capacity t 1) v.tail_after
          ∙ place_next q.capacity q.head q.count v.head_in some_room);
}

pushed-contents :
    (q : WorkQueue) (item : PthreadItem)
    → q.count ≢ q.capacity
    → IsSound q
    → window q.capacity (set q.items q.tail item) q.head (q.count + 1) ≡ contents q ++ item ∷ []
pushed-contents q item room v =
    let p = place q.capacity q.head q.count in
    let next = set q.items p item in
    let some_room : q.count < q.capacity = omega (arith, room, v.within) in
    let more : q.count + 1 ≡ suc q.count = omega arith in
    ap₂ (λ i n. window q.capacity (set q.items i item) q.head n) v.tail_after more
    ∙ (window-last q.capacity next q.head q.count v.head_in some_room
        ∙ ap₂ (λ xs x. xs ++ x ∷ [])
            (window-set q.capacity q.items q.head q.count q.count item v.whole v.head_in
              (omega arith) some_room)
            (get_or-set q.items p p item (omega (arith, v.whole, v.tail_after, tail_in q v))
              ∙ ground arith))

pub push-bounded :
    (q : WorkQueue) (item : PthreadItem)
    → IsSound q
    → (seen_by_caller (try_push item q) ≡ bounded_push q.capacity q.closed item (contents q))
      × Keeps q (try_push item q)
unfolding try_push
push-bounded q item v =
    let size = length-window q.capacity q.items q.head q.count in
    elim (Bool-cases q.closed) [
      | inl c ↦ elim (Bool-cases (q.count == q.capacity)) [
        | inl e ↦ (simp c (simp e refl), simp c (simp e (v, refl, refl)))
        | inr e ↦ (simp c (simp e refl), simp c (simp e (v, refl, refl)))
      ]
      | inr c ↦ elim (Bool-cases (q.count == q.capacity)) [
        | inl e ↦ (simp c (simp e (simp size (simp e refl))), simp c (simp e tt))
        | inr e ↦
            let room : q.count ≢ q.capacity = ground (arith, e) in
            (
              simp c (
                  simp e
                    (simp size (simp e (ap (answers 0 none) (pushed-contents q item room v))))),
              simp c (simp e (pushed-IsSound q item false room v, refl, sym c)),
            )
      ]
    ]

popped-contents :
    (q : WorkQueue)
    → q.count ≢ 0
    → IsSound q
    → contents q
      ≡ get_or q.items q.head zero_item
        ∷ window q.capacity q.items ((q.head + 1) % q.capacity) (q.count - 1)
popped-contents q some_item v =
    let less : q.count ≡ suc (q.count - 1) = omega (arith, some_item) in
    ap (window q.capacity q.items q.head) less
    ∙ ap (λ i. get_or q.items q.head zero_item ∷ window q.capacity q.items i (q.count - 1))
        (sym (next_place q.capacity q.head v.head_in))

popped-IsSound :
    (q : WorkQueue)
    → q.count ≢ 0
    → IsSound q
    → IsSound (record q { head = (q.head + 1) % q.capacity; count = q.count - 1 })
popped-IsSound q some_item v =
    let next = next_place q.capacity q.head v.head_in in
    record {
      whole = v.whole;
      head_in =
          omega (arith, next, place_lt q.capacity q.head 1 v.head_in (omega (arith, v.head_in)));
      within = omega (arith, v.within);
      tail_after =
          v.tail_after
          ∙ (place_back q.capacity q.head q.count v.head_in some_item v.within
              ∙ ap (λ i. place q.capacity i (q.count - 1)) (sym next));
    }

pub pop-bounded :
    (q : WorkQueue)
    → IsSound q
    → (seen_by_caller (try_pop q) ≡ bounded_pop q.closed (contents q)) × Keeps q (try_pop q)
unfolding try_pop
pop-bounded q v = elim (Bool-cases (q.count == 0)) [
  | inl e ↦
      let empty : q.count ≡ 0 = ground (arith, e) in
      elim (Bool-cases q.closed) [
        | inl c ↦ (simp e (simp c (simp empty refl)), simp e (simp c (v, refl, refl)))
        | inr c ↦ (simp e (simp c (simp empty refl)), simp e (simp c tt))
      ]
  | inr e ↦
      let some_item : q.count ≢ 0 = ground (arith, e) in
      (
        simp e (sym (ap (bounded_pop q.closed) (popped-contents q some_item v))),
        simp e (popped-IsSound q some_item v, refl, refl),
      )
]

pub sound-IsBoundedQueue : (q : WorkQueue) (item : PthreadItem) → IsSound q → IsBoundedQueue q item
unfolding close
sound-IsBoundedQueue q item v =
    let (by_push, push_keeps) = push-bounded q item v in
    let (by_pop, pop_keeps) = pop-bounded q v in
    record {
      pushes = by_push;
      pops = by_pop;
      keeps = (push_keeps, pop_keeps);
      closes = (
        record {
          whole = v.whole;
          head_in = v.head_in;
          within = v.within;
          tail_after = v.tail_after;
        },
        refl,
        refl,
      );
    }
