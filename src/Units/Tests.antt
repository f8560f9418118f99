-- ===== src/Units/Tests.antt =====
-- Two requests with a latency of three cycles, and the witness of the theorem on them.
use accelsim_lite.Prelude.{◌≡◌, refl, [], ◌∷◌}
use accelsim_lite.Units.{MemoryController, drain, tick_requests}
use accelsim_lite.Prelude.Ints.{pos}

abbrev controller : MemoryController
controller = record {
  fixed_latency = pos 3;
  pending =
      record { instr_id = 7; ready_cycle = pos 4 }
      ∷ record { instr_id = 8; ready_cycle = pos 6 }
      ∷ [];
}

two_ticks : (tick_requests (pos 4) controller).0 ≡ 7 ∷ []
unfolding tick_requests drain
two_ticks = refl
