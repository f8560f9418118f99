-- ===== src/Stats/Tests.antt =====
-- Counters of a run, and the witnesses of the theorems on them.
use accelsim_lite.Prelude.{◌≡◌, refl, [], ◌∷◌, arith}
use accelsim_lite.Stats.{CounterMap, Stats, no_stats, top_from, top_bottleneck}
use accelsim_lite.Stats.Counters.{IsMap}
use accelsim_lite.Stats.Bottleneck.{Bottleneck, top_bottleneck-Bottleneck}
use accelsim_lite.Prelude.Text.{codes}

abbrev counters : CounterMap
counters =
    (codes "NoComputeUnit", 2) ∷ (codes "NoMemoryPort", 5) ∷ (codes "WaitingDependency", 5) ∷ []

counters_sorted : IsMap counters
counters_sorted = ground arith

abbrev some_stats : Stats
some_stats = record no_stats { stall_counts = counters }

top_bottleneck-Bottleneck_example : Bottleneck counters (top_bottleneck some_stats)
top_bottleneck-Bottleneck_example = top_bottleneck-Bottleneck some_stats

most_stalls : top_bottleneck some_stats ≡ codes "NoMemoryPort"
unfolding top_bottleneck top_from
most_stalls = refl
