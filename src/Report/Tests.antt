-- ===== src/Report/Tests.antt =====
-- The file of two counters, and the witness of the theorem on it.
use accelsim_lite.Prelude.{◌≡◌, refl, [], ◌∷◌, arith, All, succeed}
use accelsim_lite.Report.{entry_lines, map_csv, json_entries, map_to_json, delta_i64}
use accelsim_lite.Stats.{CounterMap}
use accelsim_lite.Report.Counters.{read_counters, IsPlain, read_counters-map_csv}
use accelsim_lite.Prelude.Decimal.{digits_before, decimal}
use accelsim_lite.Prelude.Text.{codes}

abbrev stalls : CounterMap
stalls = (codes "NoComputeUnit", 12) ∷ (codes "ReadyQueueFull", 0) ∷ []

stalls_csv :
    map_csv (codes "stall_reason") (codes "count") stalls
    ≡ codes "stall_reason,count\nNoComputeUnit,12\nReadyQueueFull,0\n"
unfolding map_csv entry_lines decimal digits_before
stalls_csv = refl

fewer_cycles : delta_i64 120 100 ≡ codes "-20"
unfolding delta_i64 decimal digits_before
fewer_cycles = refl

stalls_json : map_to_json stalls ≡ codes "{\"NoComputeUnit\":12,\"ReadyQueueFull\":0}"
unfolding map_to_json json_entries decimal digits_before
stalls_json = refl

stalls-IsPlain : All IsPlain stalls
stalls-IsPlain = ground arith

read_counters-map_csv_example :
    read_counters (map_csv (codes "stall_reason") (codes "count") stalls) ≡ succeed stalls
read_counters-map_csv_example =
    read_counters-map_csv (codes "stall_reason") (codes "count") stalls (ground arith)
      (ground arith) stalls-IsPlain
