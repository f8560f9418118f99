-- ===== src/Pipeline/Finished.antt =====
-- The counters of finished instructions: `completed_ops` and `total_latency`.
pub mod Steps
use accelsim_lite.Prelude.{
  ℕ, ◌%◌, ◌<◌, ◌≡◌, ap, ◌⊎◌, inl, inr, Bool, false, arith, if◌then◌else◌, sum_below, sum_below-eq,
  indicator, u64_mod, sub64,
}
use accelsim_lite.Pipeline.{State, at}
use accelsim_lite.Instruction.{done, is_stage, Instruction}

-- The cycles that a finished instruction adds to `total_latency`.
abbrev pub latency : Instruction → ℕ
latency x = sub64 x.complete_cycle x.enqueue_cycle

abbrev pub is_done : Instruction → Bool
is_done x = is_stage x.stage done

-- The counters are the sums over the finished instructions, modulo the word size.
pub record IsCounted (s : State) : Type 0 where
  pub counted_ops :
      s.stats.completed_ops
      ≡ sum_below s.next_to_fetch (λ i. if is_done (at s i) then 1 else 0) % u64_mod
  pub counted_latency :
      s.stats.total_latency
      ≡ sum_below s.next_to_fetch (λ i. if is_done (at s i) then latency (at s i) else 0) % u64_mod

-- A move that finishes no instruction, and touches none that is finished.
pub record SameFinished (s t : State) : Type 0 where
  pub same_ops : t.stats.completed_ops ≡ s.stats.completed_ops
  pub same_latency : t.stats.total_latency ≡ s.stats.total_latency
  pub same_next : t.next_to_fetch ≡ s.next_to_fetch
  pub same_finished :
      (i : ℕ)
      → i < s.next_to_fetch
      → ((is_done (at t i) ≡ false) × (is_done (at s i) ≡ false)) ⊎ (at t i ≡ at s i)

pub SameFinished-IsCounted : (s t : State) → SameFinished s t → IsCounted s → IsCounted t
SameFinished-IsCounted s t k v = record {
  counted_ops = omega (
    arith,
    v.counted_ops,
    k.same_ops,
    ops,
    ap (λ n. sum_below n (λ i. if is_done (at t i) then 1 else 0)) k.same_next,
  );
  counted_latency = omega (
    arith,
    v.counted_latency,
    k.same_latency,
    lats,
    ap (λ n. sum_below n (λ i. if is_done (at t i) then latency (at t i) else 0)) k.same_next,
  );
}
  where
    ops :
        sum_below s.next_to_fetch (λ i. if is_done (at t i) then 1 else 0)
        ≡ sum_below s.next_to_fetch (λ i. if is_done (at s i) then 1 else 0)
    ops =
        sum_below-eq s.next_to_fetch _ _
          (λ i lt. elim (k.same_finished i lt) [ inl (a, b) ↦ rw (a, b) | inr e ↦ rw e ])

    lats :
        sum_below s.next_to_fetch (λ i. if is_done (at t i) then latency (at t i) else 0)
        ≡ sum_below s.next_to_fetch (λ i. if is_done (at s i) then latency (at s i) else 0)
    lats =
        sum_below-eq s.next_to_fetch _ _
          (λ i lt. elim (k.same_finished i lt) [ inl (a, b) ↦ rw (a, b) | inr e ↦ rw e ])
