-- ===== src/Units.antt =====
-- src/compute_unit.cpp and src/memory_controller.cpp, with cycles that do not overflow.
pub mod InOrder
mod Tests
use accelsim_lite.Prelude.{
  ℕ, Bool, true, false, Option, none, some, List, [], ◌∷◌, ◌++◌, if◌then◌else◌,
}
use accelsim_lite.Pipeline.Finished.{latency}
use accelsim_lite.Prelude.Ints.{ℤ, negsuc, ◌+ℤ◌, at_most}

pub record ComputeUnit : Type 0 where
  pub current : Option ℕ
  pub done_cycle : ℤ

abbrev pub new_unit : ComputeUnit
new_unit = record { current = none; done_cycle = negsuc 0 }

unfoldable pub busy : ComputeUnit → Bool
busy unit = elim unit.current [ none ↦ false | some id ↦ true ]

unfoldable pub issue : ℕ → ℤ → ℤ → ComputeUnit → ComputeUnit
issue id now_cycle latency unit = record { current = some id; done_cycle = now_cycle +ℤ latency }

-- The instruction that is done, with the unit that is left.
unfoldable pub tick : ℤ → ComputeUnit → Option ℕ × ComputeUnit
tick now_cycle unit = elim unit.current [
  | none ↦ (none, unit)
  | some id ↦
      if at_most unit.done_cycle now_cycle
      then (some id, record { current = none; done_cycle = negsuc 0 })
      else (none, unit)
]

pub record MemReq : Type 0 where
  pub instr_id : ℕ
  pub ready_cycle : ℤ

pub record MemoryController : Type 0 where
  pub fixed_latency : ℤ
  pub pending : List MemReq

unfoldable pub issue_request : ℕ → ℤ → MemoryController → MemoryController
issue_request id now_cycle controller = record controller {
  pending =
      controller.pending
      ++ record { instr_id = id; ready_cycle = now_cycle +ℤ controller.fixed_latency } ∷ [];
}

-- The loop of `tick` over the queue, with the identifiers so far.
unfoldable pub drain : ℤ → List MemReq → List ℕ → List ℕ × List MemReq
drain now_cycle [] finished = (finished, [])
drain now_cycle (request ∷ rest) finished =
    let further = drain now_cycle rest (finished ++ request.instr_id ∷ []) in
    if at_most request.ready_cycle now_cycle then further else (finished, request ∷ rest)

unfoldable pub tick_requests : ℤ → MemoryController → List ℕ × MemoryController
unfolding drain
tick_requests now_cycle controller =
    let (finished, rest) = drain now_cycle controller.pending [] in
    (finished, record controller { pending = rest })
