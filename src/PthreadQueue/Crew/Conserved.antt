-- ===== src/PthreadQueue/Crew/Conserved.antt =====
-- Each item that `main` pushes is processed once.
pub mod Steps
use accelsim_lite.Prelude.{
  ℕ, ◌+◌, ◌%◌, ◌≡◌, refl, sym, ap, ◌∙◌, List, [], ◌∷◌, ◌++◌, arith, length, u64_mod,
}
use Prim.Native.Nat.{bit_xor}
use accelsim_lite.Prelude.Bits.{bit_xor_assoc, zero-bit_xor}
use accelsim_lite.Prelude.Multisets.{sum_of, sum_of-replaced}
use accelsim_lite.Engine.{BenchmarkConfig, WorkItem}
use accelsim_lite.Engine.Workers.Invariant.{xor_all}
use accelsim_lite.PthreadQueue.{PthreadItem}
use accelsim_lite.PthreadQueue.Refined.{contents}
use accelsim_lite.PthreadQueue.Benchmark.Engine.{work_of}
use accelsim_lite.PthreadQueue.Crew.{
  WorkerPhase, roused, handling, WorkerContext, Crew, Signalled, nobody, somebody,
}
use accelsim_lite.Firmware.RingBuffer.{capacity}

abbrev pub held_in : WorkerPhase → List WorkItem
held_in (handling item) = work_of item ∷ []
held_in _ = []

-- The exclusive or of the workers' checksums.
abbrev pub xor_of : List WorkerContext → ℕ
xor_of [] = 0
xor_of (context ∷ contexts) = bit_xor context.checksum (xor_of contexts)

-- A sum over the items that have still to be processed.
abbrev pub left_to_do : (WorkItem → ℕ) → Crew → ℕ
left_to_do f s =
    sum_of (λ (item : PthreadItem). f (work_of item)) s.to_push
    + sum_of (λ (item : PthreadItem). f (work_of item)) (contents s.queue)
    + sum_of (λ (context : WorkerContext). sum_of f (held_in context.phase)) s.contexts

abbrev pub latencies_of : WorkerContext → ℕ
latencies_of context = length context.latencies

-- The items of the list `processed` are those that have been processed.
pub record IsConserved (config : BenchmarkConfig) (items processed : List WorkItem) (s : Crew)
    : Type 0 where
  pub conserved : (f : WorkItem → ℕ) → sum_of f processed + left_to_do f s ≡ sum_of f items
  pub checked : xor_of s.contexts ≡ xor_all config processed
  pub timed : sum_of latencies_of s.contexts ≡ length processed
  pub room : s.latency_capacity ≡ length items
  pub counted :
      sum_of (λ (context : WorkerContext). context.tasks_completed) s.contexts % u64_mod
      ≡ length processed % u64_mod
  pub allocated :
      sum_of (λ (context : WorkerContext). context.allocations) s.contexts % u64_mod
      ≡ length processed % u64_mod

-- Workers of which one has changed its phase only.
pub record SameWork (cs ds : List WorkerContext) : Type 0 where
  pub same_xor : xor_of ds ≡ xor_of cs
  pub same_latencies : sum_of latencies_of ds ≡ sum_of latencies_of cs
  pub same_tasks :
      sum_of (λ (context : WorkerContext). context.tasks_completed) ds
      ≡ sum_of (λ (context : WorkerContext). context.tasks_completed) cs
  pub same_allocations :
      sum_of (λ (context : WorkerContext). context.allocations) ds
      ≡ sum_of (λ (context : WorkerContext). context.allocations) cs

pub SameWork-refl : (cs : List WorkerContext) → SameWork cs cs
SameWork-refl cs = record {
  same_xor = refl;
  same_latencies = refl;
  same_tasks = refl;
  same_allocations = refl;
}

pub xor_of-append :
    (cs ds : List WorkerContext) → xor_of (cs ++ ds) ≡ bit_xor (xor_of cs) (xor_of ds)
xor_of-append [] ds = sym (zero-bit_xor (xor_of ds))
xor_of-append (context ∷ cs) ds =
    ap (bit_xor context.checksum) (xor_of-append cs ds)
    ∙ sym (bit_xor_assoc context.checksum (xor_of cs) (xor_of ds))

pub rephased :
    (before : List WorkerContext) (context : WorkerContext) (after cs : List WorkerContext)
    (phase : WorkerPhase)
    → cs ≡ before ++ context ∷ after
    → SameWork cs (before ++ record context { phase = phase } ∷ after)
rephased before context after cs phase e =
    let context' = record context { phase = phase } in
    record {
      same_xor =
          xor_of-append before (context' ∷ after)
          ∙ (sym (xor_of-append before (context ∷ after)) ∙ sym (ap xor_of e));
      same_latencies =
          omega (arith, sum_of-replaced latencies_of before context context' after cs e);
      same_tasks = omega (
        arith,
        sum_of-replaced (λ (context : WorkerContext). context.tasks_completed) before context
            context' after cs e,
      );
      same_allocations = omega (
        arith,
        sum_of-replaced (λ (context : WorkerContext). context.allocations) before context context'
            after cs e,
      );
    }

pub Signalled-SameWork : {cs ds : List WorkerContext} → Signalled cs ds → SameWork cs ds
Signalled-SameWork {cs} (nobody none_asleep) = SameWork-refl cs
Signalled-SameWork {cs} (somebody before context after e p) =
    rephased before context after cs roused e

-- A step that processes nothing, and leaves the same items to do.
pub idles :
    (config : BenchmarkConfig) (items processed : List WorkItem) (s t : Crew)
    → SameWork s.contexts t.contexts
    → t.latency_capacity ≡ s.latency_capacity
    → ((f : WorkItem → ℕ) → left_to_do f t ≡ left_to_do f s)
    → IsConserved config items processed s
    → IsConserved config items processed t
idles config items processed s t same capacity left v = record {
  conserved = λ f. omega (arith, left f, v.conserved f);
  checked = same.same_xor ∙ v.checked;
  timed = same.same_latencies ∙ v.timed;
  room = capacity ∙ v.room;
  counted = ap (λ n. n % u64_mod) same.same_tasks ∙ v.counted;
  allocated = ap (λ n. n % u64_mod) same.same_allocations ∙ v.allocated;
}
