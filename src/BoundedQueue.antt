-- ===== src/BoundedQueue.antt =====
-- `BoundedQueue` of include/accelsim/queue.h.
mod Tests
use accelsim_lite.Prelude.{
  ℕ, zero, suc, ◌+◌, ◌≤◌, ◌<◌, ◌≡◌, refl, sym, ap, ◌∙◌, inl, inr, Bool, false, List, [], ◌∷◌, ◌++◌,
  arith, leb, if◌then◌else◌, Bool-cases, length, length-append, Result, succeed, throw,
}
use mathlib.Core.List.{append_assoc, append-nil}
use native.Mathlib.Decide.{dec_lt}

-- `cap_` and `q_`.
pub record BoundedQueue (T : Type 0) : Type 0 where
  pub cap : ℕ
  pub items : List T

-- The messages of the exceptions.
pub data QueueError : Type 0 where
  queue_full queue_empty : QueueError

module _ {T : Type 0} where
  unfoldable pub make : ℕ → BoundedQueue T
  make cap = record { cap = cap; items = [] }

  unfoldable pub full : BoundedQueue T → Bool
  full q = leb q.cap (length q.items)

  unfoldable pub push : T → BoundedQueue T → Result QueueError (BoundedQueue T)
  unfolding full
  push v q = if full q then throw queue_full else succeed (record q { items = q.items ++ v ∷ [] })

  unfoldable pub pop : BoundedQueue T → Result QueueError (T × BoundedQueue T)
  pop q = elim q.items [
    | [] ↦ throw queue_empty
    | v ∷ rest ↦ succeed (v, record q { items = rest })
  ]

  unfoldable pub peek : BoundedQueue T → Result QueueError T
  peek q = elim q.items [ [] ↦ throw queue_empty | v ∷ rest ↦ succeed v ]

  -- Several calls of `push`, one after the other.
  abbrev pub push_all : List T → BoundedQueue T → Result QueueError (BoundedQueue T)
  push_all [] q = succeed q
  push_all (v ∷ vs) q = elim (push v q) [ throw e ↦ throw e | succeed q' ↦ push_all vs q' ]

  -- `pop` until the queue has been called that often.
  abbrev pub pop_all : ℕ → BoundedQueue T → Result QueueError (List T)
  pop_all zero q = succeed []
  pop_all (suc n) q = elim (pop q) [
    | throw e ↦ throw e
    | succeed r ↦ elim (pop_all n r.1) [ throw e ↦ throw e | succeed vs ↦ succeed (r.0 ∷ vs) ]
  ]

  push-room :
      (v : T) (q : BoundedQueue T)
      → length q.items < q.cap
      → push v q ≡ succeed (record q { items = q.items ++ v ∷ [] })
  unfolding push full
  push-room v q room = ground arith

  push-full : (v : T) (q : BoundedQueue T) → q.cap ≤ length q.items → push v q ≡ throw queue_full
  unfolding push full
  push-full v q over = ground arith

  push_all-next :
      (v : T) (vs : List T) (q next : BoundedQueue T)
      → push v q ≡ succeed next
      → push_all (v ∷ vs) q ≡ push_all vs next
  push_all-next v vs q next e =
      ap (λ r. elim r [ throw x ↦ throw x | succeed q' ↦ push_all vs q' ]) e

  push_all-stop :
      (v : T) (vs : List T) (q : BoundedQueue T) (x : QueueError)
      → push v q ≡ throw x
      → push_all (v ∷ vs) q ≡ throw x
  push_all-stop v vs q x e = ap (λ r. elim r [ throw x ↦ throw x | succeed q' ↦ push_all vs q' ]) e

  push_all-fits :
      (vs : List T) (q : BoundedQueue T)
      → length q.items + length vs ≤ q.cap
      → push_all vs q ≡ succeed (record q { items = q.items ++ vs })
  push_all-fits [] q fits = ap (λ xs. succeed (record q { items = xs })) (sym (append-nil q.items))
  push_all-fits (v ∷ vs) q fits =
      let next : BoundedQueue T = record q { items = q.items ++ v ∷ [] } in
      let longer = length-append q.items (v ∷ []) in
      push_all-next v vs q next (push-room v q (omega arith))
      ∙ (push_all-fits vs next (omega arith)
          ∙ ap (λ xs. succeed (record q { items = xs })) (append_assoc q.items (v ∷ []) vs))

  push_all-full :
      (vs : List T) (q : BoundedQueue T)
      → length q.items ≤ q.cap
      → q.cap < length q.items + length vs
      → push_all vs q ≡ throw queue_full
  push_all-full [] q within over = absurd (omega arith)
  push_all-full (v ∷ vs) q within over = elim (dec_lt (length q.items) q.cap) [
    | no no_room ↦ push_all-stop v vs q queue_full (push-full v q (omega arith))
    | yes room ↦
        let longer = length-append q.items (v ∷ []) in
        let next : BoundedQueue T = record q { items = q.items ++ v ∷ [] } in
        push_all-next v vs q next (push-room v q room)
        ∙ push_all-full vs next (omega arith) (omega arith)
  ]

  pop_all-items : (q : BoundedQueue T) → pop_all (length q.items) q ≡ succeed q.items
  unfolding pop
  pop_all-items q = go q.items q.cap
    where
      go :
          (vs : List T) (cap : ℕ)
          → pop_all (length vs) (record { cap = cap; items = vs }) ≡ succeed vs
      go [] cap = refl
      go (v ∷ vs) cap = simp (go vs cap) refl

  -- Values pushed onto a new queue are all accepted exactly if they are no more than its capacity,
  -- where as many calls of `pop` then return them in the order in which they were pushed; and a
  -- push beyond the capacity throws.
  pub push_all-pop_all :
      (cap : ℕ) (vs : List T)
      → (length vs ≤ cap
          → (q : BoundedQueue T) × (push_all vs (make cap) ≡ succeed q)
            × (pop_all (length vs) q ≡ succeed vs))
        × (cap < length vs → push_all vs (make cap) ≡ throw queue_full)
  unfolding make
  push_all-pop_all cap vs = (
    λ fits. (
      record { cap = cap; items = vs },
      push_all-fits vs (record { cap = cap; items = [] }) (omega arith),
      pop_all-items (record { cap = cap; items = vs }),
    ),
    λ over. push_all-full vs (record { cap = cap; items = [] }) (omega arith) (omega arith),
  )
