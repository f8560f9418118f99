-- ===== src/Pipeline/Placement/Steps.antt =====
-- Every move keeps each instruction in the queue of its stage.
use accelsim_lite.Prelude.{true, false, arith}
use accelsim_lite.Config.{SimulatorConfig}
use accelsim_lite.Pipeline.{State}
use accelsim_lite.Pipeline.Moves.{
  Move, retires, advances, wakes, postpones, issues_memory, issues_compute, stalls, dispatches,
  decodes, fetches, ticks, requeues,
}
use accelsim_lite.Pipeline.Placement.{IsPlaced}
use accelsim_lite.Pipeline.Placement.Front.{
  begin-IsPlaced, postpone-IsPlaced, dispatch_one-IsPlaced, decode_one-IsPlaced, fetch_one-IsPlaced,
  end_cycle-IsPlaced, wake_up-IsPlaced, requeue-IsPlaced,
}
use accelsim_lite.Pipeline.Placement.Back.{retire_one-IsPlaced, after_tick-IsPlaced}

pub Move-IsPlaced :
    {config : SimulatorConfig} (s t : State) → Move config s t → IsPlaced s → IsPlaced t
Move-IsPlaced _ _ (retires s idx rest e) v = retire_one-IsPlaced s idx rest e v
Move-IsPlaced _ _ (advances s u e) v = after_tick-IsPlaced s u e v
Move-IsPlaced _ _ (wakes s idx rest e sat room) v = wake_up-IsPlaced s idx rest e v
Move-IsPlaced _ _ (requeues s idx rest stats e same) v = requeue-IsPlaced s idx rest stats e v
Move-IsPlaced _ _ (postpones s idx rest stats e same) v = postpone-IsPlaced s idx rest stats e v
Move-IsPlaced _ _ (issues_memory s idx rest e m free) v =
    begin-IsPlaced s idx rest true s.compute_in_use _ e v
Move-IsPlaced _ _ (issues_compute s idx rest e c free) v =
    begin-IsPlaced s idx rest false _ s.memory_in_use e v
Move-IsPlaced _ _ (stalls s stats same) v = record {
  in_range = v.in_range;
  places = λ i. omega (arith, v.places i);
}
Move-IsPlaced _ _ (dispatches s idx rest e room) v = dispatch_one-IsPlaced s idx rest e v
Move-IsPlaced _ _ (decodes s idx rest e) v = decode_one-IsPlaced s idx rest e v
Move-IsPlaced _ _ (fetches s lt) v = fetch_one-IsPlaced s lt v
Move-IsPlaced _ _ (ticks s) v = end_cycle-IsPlaced s v
