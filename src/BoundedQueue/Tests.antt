-- ===== src/BoundedQueue/Tests.antt =====
-- The witness of the theorem on `BoundedQueue`.
use accelsim_lite.Prelude.{ℕ, ◌≤◌, ◌<◌, ◌≡◌, List, [], ◌∷◌, length, succeed, throw}
use accelsim_lite.BoundedQueue.{BoundedQueue, queue_full, make, push_all, pop_all, push_all-pop_all}

abbrev two : List ℕ
two = 5 ∷ 6 ∷ []

push_all-pop_all_example :
    (length two ≤ 2
      → (q : BoundedQueue ℕ) × (push_all two (make 2) ≡ succeed q)
        × (pop_all (length two) q ≡ succeed two))
    × (2 < length two → push_all two (make 2) ≡ throw queue_full)
push_all-pop_all_example = push_all-pop_all 2 two
