-- ===== src/Pipeline/Placement/Back.antt =====
-- Retirement and execution keep each instruction in the queue of its stage.
use accelsim_lite.Prelude.{
  ℕ, ◌+◌, ◌≡◌, ap, List, [], ◌∷◌, arith, count, count-concat, length-modify, get_or-modify, succeed,
  >>=-succeeds,
}
use accelsim_lite.Pipeline.{
  ExecSlot, State, retire_one, Tick, tick_slot, tick_slots, complete_one, complete_all, start_tick,
  after_tick, tick_remaining, resume,
}
use accelsim_lite.Instruction.{retire, done, blank}
use accelsim_lite.Pipeline.Placement.{slot_indices, count-slot_indices, IsPlacedBut, IsPlaced}

pub retire_one-IsPlaced :
    (s : State) (idx : ℕ) (rest : List ℕ)
    → s.retire_q ≡ idx ∷ rest
    → IsPlaced s
    → IsPlaced (retire_one idx (record s { retire_q = rest }))
unfolding retire_one
retire_one-IsPlaced s idx rest e v = record {
  in_range =
      omega (arith, length-modify s.instructions idx (λ x. record x { stage = done }), v.in_range);
  places = λ i. ground (
    arith,
    v.places i,
    v.places idx,
    v.in_range,
    ap (count i) e,
    ap (count idx) e,
    get_or-modify s.instructions idx i (λ x. record x { stage = done }) blank,
  );
}

pub complete_one-IsPlaced :
    (s : State) (idx : ℕ) (ended : List ℕ)
    → IsPlacedBut (idx ∷ ended) s
    → IsPlacedBut ended (complete_one idx s)
unfolding complete_one
complete_one-IsPlaced s idx ended v = record {
  in_range = omega (
    arith,
    length-modify s.instructions idx (λ x. record x { complete_cycle = s.cycle; stage = retire }),
    v.in_range,
  );
  places = λ i. ground (
    arith,
    v.places i,
    v.places idx,
    v.in_range,
    count-concat i s.retire_q idx,
    get_or-modify s.instructions idx i (λ x. record x { complete_cycle = s.cycle; stage = retire })
        blank,
  );
}

complete_all-IsPlaced :
    (ended : List ℕ) (s : State) → IsPlacedBut ended s → IsPlaced (complete_all ended s)
unfolding complete_all
complete_all-IsPlaced [] s v = v
complete_all-IsPlaced (idx ∷ ended) s v =
    complete_all-IsPlaced ended (complete_one idx s) (complete_one-IsPlaced s idx ended v)

-- A tick splits the slots into those that go on and those that end.
pub record Splits (i : ℕ) (slots : List ExecSlot) (t t' : Tick) : Type 0 where
  pub split :
      count i (slot_indices t'.remaining_slots) + count i t'.finished
      ≡ count i (slot_indices t.remaining_slots) + count i t.finished + count i (slot_indices slots)

tick_slot-Splits :
    (i : ℕ) (slot : ExecSlot) (t t' : Tick)
    → tick_slot slot t ≡ succeed t'
    → Splits i (slot ∷ []) t t'
unfolding tick_slot
tick_slot-Splits i slot t t' h = ground (
  arith,
  count-slot_indices i t.remaining_slots
      (record slot { remaining = tick_remaining slot.remaining }),
  count-concat i t.finished slot.index,
)

pub tick_slots-Splits :
    (i : ℕ) (slots : List ExecSlot) (t t' : Tick)
    → tick_slots slots t ≡ succeed t'
    → Splits i slots t t'
unfolding tick_slots
tick_slots-Splits i [] t t' h = ground arith
tick_slots-Splits i (slot ∷ slots) t t' h =
    let (u, p, q) = >>=-succeeds (tick_slot slot t) (tick_slots slots) h in
    omega (arith, tick_slot-Splits i slot t u p, tick_slots-Splits i slots u t' q)

pub resume-IsPlaced :
    (s : State) (t : Tick)
    → tick_slots s.exec_slots (start_tick s) ≡ succeed t
    → IsPlaced s
    → IsPlacedBut t.finished (resume s t)
unfolding start_tick
resume-IsPlaced s t h v = record {
  in_range = v.in_range;
  places = λ i. omega (arith, v.places i, tick_slots-Splits i s.exec_slots (start_tick s) t h);
}

pub after_tick-IsPlaced :
    (s : State) (t : Tick)
    → tick_slots s.exec_slots (start_tick s) ≡ succeed t
    → IsPlaced s
    → IsPlaced (after_tick s t)
unfolding after_tick
after_tick-IsPlaced s t h v =
    complete_all-IsPlaced t.finished (resume s t) (resume-IsPlaced s t h v)
