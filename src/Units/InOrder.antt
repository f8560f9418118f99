-- ===== src/Units/InOrder.antt =====
-- The memory controller answers requests in order, each at the first tick at which it is ready.
-- The ready cycles of the queue do not go down.
use accelsim_lite.Prelude.{ℕ, ◌≡◌, true, false, List, [], ◌∷◌, ◌++◌, map, All}
use accelsim_lite.Units.{MemReq, MemoryController}
use accelsim_lite.Prelude.Ints.{ℤ, ◌+ℤ◌, at_most}

abbrev pub Ordered : List MemReq → Type 0
Ordered [] = Unit {0}
Ordered (r ∷ rs) = All (λ (q : MemReq). at_most r.ready_cycle q.ready_cycle ≡ true) rs × Ordered rs

-- No request is ready later than one that is issued at the cycle.
pub record IsOrdered (controller : MemoryController) (now_cycle : ℤ) : Type 0 where
  pub ordered : Ordered controller.pending
  pub issued :
      All
        (λ (r : MemReq). at_most r.ready_cycle (now_cycle +ℤ controller.fixed_latency) ≡ true)
        controller.pending

abbrev pub ids_of : List MemReq → List ℕ
ids_of = map (λ r. r.instr_id)

-- The queue is cut where the requests are no longer ready.
record Cut (later : ℤ) (rs : List MemReq) (finished : List ℕ) (r : List ℕ × List MemReq)
    : Type 0 where
  first : List MemReq
  in_order : rs ≡ first ++ r.1
  returned : r.0 ≡ finished ++ ids_of first
  all_ready : All (λ (q : MemReq). at_most q.ready_cycle later ≡ true) first
  none_ready : All (λ (q : MemReq). at_most q.ready_cycle later ≡ false) r.1

-- A tick splits the queue: it returns the identifiers of the first requests, in their order.
pub record Answers (later : ℤ) (controller after : MemoryController) (returned : List ℕ)
    : Type 0 where
  pub finished : List MemReq
  pub in_order : controller.pending ≡ finished ++ after.pending
  pub identifiers : returned ≡ ids_of finished
  pub all_ready : All (λ (q : MemReq). at_most q.ready_cycle later ≡ true) finished
  pub none_ready : All (λ (q : MemReq). at_most q.ready_cycle later ≡ false) after.pending
