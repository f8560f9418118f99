-- ===== src/Storage.antt =====
-- storage_datapath/: requests to a storage path with a bounded queue.
pub mod Depths
pub mod Parse
pub mod Tool
mod Tests
use accelsim_lite.Prelude.{
  ℕ, suc, ◌+◌, max, min, Bool, true, false, not, List, [], ◌∷◌, map, leb, if◌then◌else◌, indicator,
  length, is_empty, sub64, ◌-◌, ◌==◌, get_or,
}
use accelsim_lite.Prelude.Text.{Text, codes}
use accelsim_lite.Prelude.Doubles.{Doubles, sort}

pub data Operation : Type 0 where
  read_op write_op : Operation

pub record Request : Type 0 where
  pub id : ℕ
  pub operation : Operation
  pub block : ℕ
  pub size_bytes : ℕ
  pub cache_hit : Bool

module _ (F : Doubles) where
  pub record PathConfig : Type 0 where
    pub max_queue_depth : ℕ
    pub memory_bandwidth : F.Double
    pub cache_hit_latency : F.Double
    pub cache_miss_latency : F.Double
    pub write_base_latency : F.Double
    pub queue_penalty : F.Double

  pub record RequestResult : Type 0 where
    pub id : ℕ
    pub queue_delay : F.Double
    pub service_latency : F.Double
    pub total_latency : F.Double
    pub queue_depth : ℕ
    pub cache_hit : Bool

  pub record Summary : Type 0 where
    pub total_requests : ℕ
    pub read_requests : ℕ
    pub write_requests : ℕ
    pub cache_hits : ℕ
    pub cache_misses : ℕ
    pub max_observed_queue_depth : ℕ
    pub throughput : F.Double
    pub p50_latency : F.Double
    pub p95_latency : F.Double
    pub p99_latency : F.Double
    pub bottleneck : Text

  unfoldable pub default_path : PathConfig
  default_path = record {
    max_queue_depth = 8;
    memory_bandwidth = F.of_size 4096;
    cache_hit_latency = F.of_size 2;
    cache_miss_latency = F.of_size 18;
    write_base_latency = F.of_size 12;
    queue_penalty = F.decimal 15 10;
  }

  unfoldable pub base_latency : PathConfig → Operation → Bool → F.Double
  base_latency config read_op hit =
      if hit then config.cache_hit_latency else config.cache_miss_latency
  base_latency config write_op hit = config.write_base_latency

  unfoldable pub service_time : PathConfig → Request → F.Double
  unfolding base_latency
  service_time config request =
      F.plus (base_latency config request.operation request.cache_hit)
        (F.over (F.of_size request.size_bytes) config.memory_bandwidth)

  -- One turn of the loop of `Simulator::run`, at index `i`.
  unfoldable pub serve : PathConfig → ℕ → Request → RequestResult
  unfolding service_time
  serve config i request =
      let queue_depth = min (i + 1) config.max_queue_depth in
      let queue_delay = F.times (F.of_size (sub64 queue_depth 1)) config.queue_penalty in
      let service = service_time config request in
      record {
        id = request.id;
        queue_delay = queue_delay;
        service_latency = service;
        total_latency = F.plus queue_delay service;
        queue_depth = queue_depth;
        cache_hit = request.cache_hit;
      }

  -- The loop from index `i` on. The two running times of the source are never read.
  unfoldable pub serve_from : PathConfig → ℕ → List Request → List RequestResult
  serve_from config i [] = []
  serve_from config i (request ∷ requests) =
      serve config i request ∷ serve_from config (suc i) requests

  unfoldable pub run : PathConfig → List Request → List RequestResult
  run config requests = serve_from config 0 requests

  -- The loops that count.

  unfoldable pub count_requests : (Request → Bool) → List Request → ℕ
  count_requests test [] = 0
  count_requests test (request ∷ requests) = indicator (test request) + count_requests test requests

  unfoldable pub is_read : Request → Bool
  is_read request = elim request.operation [ read_op ↦ true | write_op ↦ false ]

  unfoldable pub is_large : Request → Bool
  is_large request = leb 16384 request.size_bytes

  unfoldable pub count_full : PathConfig → List RequestResult → ℕ
  count_full config [] = 0
  count_full config (result ∷ results) =
      indicator (leb config.max_queue_depth result.queue_depth) + count_full config results

  unfoldable pub max_depth : List RequestResult → ℕ → ℕ
  max_depth [] depth = depth
  max_depth (result ∷ results) depth = max_depth results (max depth result.queue_depth)

  unfoldable pub total_runtime : List RequestResult → F.Double → F.Double
  total_runtime [] total = total
  total_runtime (result ∷ results) total = total_runtime results (F.plus total result.total_latency)

  unfoldable pub classify_bottleneck : PathConfig → List Request → List RequestResult → Text
  unfolding count_requests is_large count_full
  classify_bottleneck config requests results =
      let miss_rate =
        F.over (F.of_size (count_requests (λ r. not r.cache_hit) requests))
          (F.of_size (length requests)) in
      let queue_rate =
        F.over (F.of_size (count_full config results)) (F.of_size (length results)) in
      let large_request_rate =
        F.over (F.of_size (count_requests is_large requests)) (F.of_size (length requests)) in
      if is_empty requests
      then codes "none"
      else if F.at_least queue_rate (F.decimal 40 100)
      then codes "queue_depth_pressure"
      else if F.at_least miss_rate (F.decimal 50 100)
      then codes "cache_miss_pressure"
      else if F.at_least large_request_rate (F.decimal 40 100)
      then codes "memory_bandwidth_pressure"
      else codes "balanced"

  unfoldable pub throughput_of : List RequestResult → F.Double
  unfolding total_runtime
  throughput_of results =
      let total = total_runtime results (F.of_size 0) in
      if F.is_zero total
      then F.of_size 0
      else F.over (F.of_size (length results)) (F.over total (F.of_size 1000000))

  unfoldable pub percentile : List F.Double → F.Double → F.Double
  unfolding sort
  percentile values p =
      let sorted = sort F values in
      let zero_double = F.of_size 0 in
      let index = F.times p (F.of_size (length values - 1)) in
      let lower = F.floor index in
      let upper = F.ceil index in
      let weight = F.minus index (F.of_size lower) in
      if is_empty values
      then zero_double
      else if lower == upper
      then get_or sorted lower zero_double
      else F.plus (F.times (get_or sorted lower zero_double) (F.minus (F.of_size 1) weight))
          (F.times (get_or sorted upper zero_double) weight)

  unfoldable pub summarize : PathConfig → List Request → List RequestResult → Summary
  unfolding percentile count_requests is_read max_depth throughput_of classify_bottleneck
  summarize config requests results =
      let latencies = map (λ r. r.total_latency) results in
      record {
        total_requests = length requests;
        read_requests = count_requests is_read requests;
        write_requests = count_requests (λ r. not (is_read r)) requests;
        cache_hits = count_requests (λ r. r.cache_hit) requests;
        cache_misses = count_requests (λ r. not r.cache_hit) requests;
        max_observed_queue_depth = max_depth results 0;
        throughput = throughput_of results;
        p50_latency = percentile latencies (F.decimal 50 100);
        p95_latency = percentile latencies (F.decimal 95 100);
        p99_latency = percentile latencies (F.decimal 99 100);
        bottleneck = classify_bottleneck config requests results;
      }
