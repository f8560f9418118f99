-- ===== src/PthreadQueue/Crew/Collecting.antt =====
-- What `main` adds up behind `pthread_join`.
use accelsim_lite.Prelude.{
  ℕ, ◌+◌, ◌%◌, ◌<◌, ◌≡◌, sym, ◌∙◌, List, [], ◌∷◌, ◌++◌, arith, length, length-append, u64_mod,
  add64,
}
use Prim.Native.Nat.{bit_xor}
use accelsim_lite.Prelude.Bits.{bit_xor_assoc, bit_xor-zero}
use accelsim_lite.Prelude.Multisets.{sum_of}
use accelsim_lite.PthreadQueue.Crew.{WorkerContext, Totals, collect}
use accelsim_lite.PthreadQueue.Crew.Conserved.{xor_of, latencies_of}

abbrev pub tasks_of : WorkerContext → ℕ
tasks_of context = context.tasks_completed

abbrev pub allocations_of : WorkerContext → ℕ
allocations_of context = context.allocations

pub collect-checksum :
    (cs : List WorkerContext) (t : Totals)
    → (collect cs t).checksum ≡ bit_xor t.checksum (xor_of cs)
unfolding collect
collect-checksum [] t = sym (bit_xor-zero t.checksum)
collect-checksum (context ∷ cs) t =
    collect-checksum cs _ ∙ bit_xor_assoc t.checksum context.checksum (xor_of cs)

pub collect-tasks :
    (cs : List WorkerContext) (t : Totals)
    → t.tasks < u64_mod
    → (collect cs t).tasks ≡ (t.tasks + sum_of tasks_of cs) % u64_mod
unfolding collect
collect-tasks [] t h = omega (arith, h)
collect-tasks (context ∷ cs) t h = omega (
  arith,
  collect-tasks cs
      (record {
        checksum = bit_xor t.checksum context.checksum;
        allocations = add64 t.allocations context.allocations;
        tasks = add64 t.tasks context.tasks_completed;
        latencies = t.latencies ++ context.latencies;
      })
      (omega arith),
)

pub collect-allocations :
    (cs : List WorkerContext) (t : Totals)
    → t.allocations < u64_mod
    → (collect cs t).allocations ≡ (t.allocations + sum_of allocations_of cs) % u64_mod
unfolding collect
collect-allocations [] t h = omega (arith, h)
collect-allocations (context ∷ cs) t h = omega (
  arith,
  collect-allocations cs
      (record {
        checksum = bit_xor t.checksum context.checksum;
        allocations = add64 t.allocations context.allocations;
        tasks = add64 t.tasks context.tasks_completed;
        latencies = t.latencies ++ context.latencies;
      })
      (omega arith),
)

pub collect-latencies :
    (cs : List WorkerContext) (t : Totals)
    → length (collect cs t).latencies ≡ length t.latencies + sum_of latencies_of cs
unfolding collect
collect-latencies [] t = omega arith
collect-latencies (context ∷ cs) t = omega (
  arith,
  collect-latencies cs (record {
    checksum = bit_xor t.checksum context.checksum;
    allocations = add64 t.allocations context.allocations;
    tasks = add64 t.tasks context.tasks_completed;
    latencies = t.latencies ++ context.latencies;
  }),
  length-append t.latencies context.latencies,
)
