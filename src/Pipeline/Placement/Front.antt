-- ===== src/Pipeline/Placement/Front.antt =====
-- Wake-up, issue, dispatch, decode and fetch keep each instruction in the queue of its stage.
use accelsim_lite.Prelude.{
  ℕ, ◌≡◌, ap, Bool, List, ◌∷◌, arith, count, count-concat, length-modify, get_or-modify, ◌<◌,
  length,
}
use accelsim_lite.Stats.{Stats}
use accelsim_lite.Pipeline.{State, at}
use accelsim_lite.Instruction.{ready, execute, blank, fetch, decode, dispatch}
use accelsim_lite.Pipeline.Placement.{count-slot_indices, IsPlaced}
use accelsim_lite.Pipeline.Front.{
  dispatch_one, decode_one, fetch_one, end_cycle, begin_execution, postpone, wake_up, requeue,
}

pub wake_up-IsPlaced :
    (s : State) (idx : ℕ) (rest : List ℕ)
    → s.dispatch_q ≡ idx ∷ rest
    → IsPlaced s
    → IsPlaced (wake_up idx (record s { dispatch_q = rest }))
unfolding wake_up
wake_up-IsPlaced s idx rest e v = record {
  in_range =
      omega (arith, length-modify s.instructions idx (λ x. record x { stage = ready }), v.in_range);
  places = λ i. ground (
    arith,
    v.places i,
    v.places idx,
    v.in_range,
    ap (count i) e,
    ap (count idx) e,
    count-concat i s.ready_q idx,
    get_or-modify s.instructions idx i (λ x. record x { stage = ready }) blank,
  );
}

pub requeue-IsPlaced :
    (s : State) (idx : ℕ) (rest : List ℕ) (stats : Stats)
    → s.dispatch_q ≡ idx ∷ rest
    → IsPlaced s
    → IsPlaced (requeue idx (record s { dispatch_q = rest; stats = stats }))
unfolding requeue
requeue-IsPlaced s idx rest stats e v = record {
  in_range = v.in_range;
  places = λ i. ground (arith, v.places i, ap (count i) e, count-concat i rest idx);
}

pub begin-IsPlaced :
    (s : State) (idx : ℕ) (rest : List ℕ) (uses_memory : Bool) (in_compute in_memory : ℕ)
    → s.ready_q ≡ idx ∷ rest
    → IsPlaced s
    → IsPlaced (
        begin_execution idx uses_memory
          (record s { ready_q = rest; compute_in_use = in_compute; memory_in_use = in_memory }))
unfolding begin_execution
begin-IsPlaced s idx rest uses_memory in_compute in_memory e v = record {
  in_range = ground (
    arith,
    length-modify s.instructions idx (λ x. record x { stage = execute; issue_cycle = s.cycle }),
    v.in_range,
  );
  places = λ i. ground (
    arith,
    v.places i,
    v.places idx,
    v.in_range,
    ap (count i) e,
    ap (count idx) e,
    count-slot_indices i s.exec_slots
        (record { index = idx; remaining = (at s idx).execute_latency; uses_memory = uses_memory }),
    get_or-modify s.instructions idx i (λ x. record x { stage = execute; issue_cycle = s.cycle })
        blank,
  );
}

pub postpone-IsPlaced :
    (s : State) (idx : ℕ) (rest : List ℕ) (stats : Stats)
    → s.ready_q ≡ idx ∷ rest
    → IsPlaced s
    → IsPlaced (postpone idx (record s { ready_q = rest; stats = stats }))
unfolding postpone
postpone-IsPlaced s idx rest stats e v = record {
  in_range = v.in_range;
  places = λ i. ground (arith, v.places i, ap (count i) e, count-concat i rest idx);
}

pub dispatch_one-IsPlaced :
    (s : State) (idx : ℕ) (rest : List ℕ)
    → s.decode_q ≡ idx ∷ rest
    → IsPlaced s
    → IsPlaced (dispatch_one idx (record s { decode_q = rest }))
unfolding dispatch_one
dispatch_one-IsPlaced s idx rest e v = record {
  in_range =
      omega
        (arith, length-modify s.instructions idx (λ x. record x { stage = dispatch }), v.in_range);
  places = λ i. ground (
    arith,
    v.places i,
    v.places idx,
    v.in_range,
    ap (count i) e,
    ap (count idx) e,
    count-concat i s.dispatch_q idx,
    get_or-modify s.instructions idx i (λ x. record x { stage = dispatch }) blank,
  );
}

pub decode_one-IsPlaced :
    (s : State) (idx : ℕ) (rest : List ℕ)
    → s.fetch_q ≡ idx ∷ rest
    → IsPlaced s
    → IsPlaced (decode_one idx (record s { fetch_q = rest }))
unfolding decode_one
decode_one-IsPlaced s idx rest e v = record {
  in_range =
      omega
        (arith, length-modify s.instructions idx (λ x. record x { stage = decode }), v.in_range);
  places = λ i. ground (
    arith,
    v.places i,
    v.places idx,
    v.in_range,
    ap (count i) e,
    ap (count idx) e,
    count-concat i s.decode_q idx,
    get_or-modify s.instructions idx i (λ x. record x { stage = decode }) blank,
  );
}

pub fetch_one-IsPlaced :
    (s : State) → s.next_to_fetch < length s.instructions → IsPlaced s → IsPlaced (fetch_one s)
unfolding fetch_one
fetch_one-IsPlaced s lt v = record {
  in_range = omega (
    arith,
    length-modify s.instructions s.next_to_fetch
        (λ x. record x { stage = fetch; enqueue_cycle = s.cycle }),
    v.in_range,
  );
  places = λ i. ground (
    arith,
    v.places i,
    count-concat i s.fetch_q s.next_to_fetch,
    get_or-modify s.instructions s.next_to_fetch i
        (λ x. record x { stage = fetch; enqueue_cycle = s.cycle }) blank,
  );
}

pub end_cycle-IsPlaced : (s : State) → IsPlaced s → IsPlaced (end_cycle s)
unfolding end_cycle
end_cycle-IsPlaced s v = record { in_range = v.in_range; places = λ i. omega (arith, v.places i) }
