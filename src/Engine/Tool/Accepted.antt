-- ===== src/Engine/Tool/Accepted.antt =====
-- The configurations that the benchmark tool accepts.
use accelsim_lite.Prelude.{
  ℕ, ◌<◌, ◌≡◌, subst, inl, inr, List, arith, succeed, >>=-succeeds, Result-cases,
}
use accelsim_lite.Engine.{BenchmarkConfig, check_config}
use accelsim_lite.Prelude.Text.{Text, codes}
use accelsim_lite.Engine.Tool.{parse_size, parse_config, built, batch_size}
use accelsim_lite.Engine.Workers.{Pool, start_pool, Steps}
use accelsim_lite.Engine.Workers.Progress.{GoesOn, run_multithreaded-GoesOn}

built-check_config :
    (c config : BenchmarkConfig)
    → built (check_config c) ≡ succeed config
    → (check_config c ≡ succeed config) × (c ≡ config)
unfolding check_config
built-check_config c config e = elim (Result-cases (check_config c)) [
  | inl (a, k) ↦ (ground arith, ground arith)
  | inr (x, k) ↦ absurd (ground arith)
]

-- The threads of a configuration that the benchmark tool reads from its arguments never wait for
-- each other for ever, and no notification is lost: as long as a worker has not left its loop some
-- thread has a next step that does not depend on a wake-up without a cause, and the number of steps
-- is bounded by the items, the workers and the number of such wake-ups.
pub parse_config-GoesOn :
    (workers workload pattern : Text) (batch : List Text) (config : BenchmarkConfig) (n m : ℕ)
    (s : Pool)
    → parse_config workers workload pattern batch ≡ succeed config
    → Steps config n m (start_pool config) s
    → GoesOn config n m s
unfolding parse_config
parse_config-GoesOn workers workload pattern batch config n m s e path =
    let (worker_count, e1, k1) = >>=-succeeds (parse_size workers (codes "worker count")) _ e in
    let (workload_size, e2, k2) = >>=-succeeds (parse_size workload (codes "workload size")) _ k1 in
    let (queue_batch_size, e3, k3) = >>=-succeeds (batch_size batch) _ k2 in
    let (accepted, same_config) = built-check_config _ config k3 in
    run_multithreaded-GoesOn _ config n m s accepted
      (subst (λ (c : BenchmarkConfig). 0 < c.queue_capacity) same_config (omega arith)) path
