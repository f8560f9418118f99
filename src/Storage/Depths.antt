-- ===== src/Storage/Depths.antt =====
-- What `Simulator::run` and `Simulator::summarize` of storage_datapath/ count.
use accelsim_lite.Prelude.{
  ℕ, zero, suc, ◌+◌, max, min, ◌≡◌, refl, ap, Bool, true, false, not, some, List, [], ◌∷◌, arith,
  length, get_elem?,
}
use accelsim_lite.Storage.{
  read_op, write_op, Request, PathConfig, RequestResult, Summary, serve, serve_from, run,
  count_requests, is_read, max_depth, summarize,
}
use accelsim_lite.Prelude.Doubles.{Doubles}

-- The numbers of reads, writes, hits and misses among requests, by the operation and the flag
-- that each has.
abbrev pub reads_in : List Request → ℕ
reads_in [] = 0
reads_in (r ∷ rs) = elim r.operation [ read_op ↦ suc (reads_in rs) | write_op ↦ reads_in rs ]

abbrev pub writes_in : List Request → ℕ
writes_in [] = 0
writes_in (r ∷ rs) = elim r.operation [ read_op ↦ writes_in rs | write_op ↦ suc (writes_in rs) ]

abbrev pub hits_in : List Request → ℕ
hits_in [] = 0
hits_in (r ∷ rs) = elim r.cache_hit [ true ↦ suc (hits_in rs) | false ↦ hits_in rs ]

abbrev pub misses_in : List Request → ℕ
misses_in [] = 0
misses_in (r ∷ rs) = elim r.cache_hit [ true ↦ misses_in rs | false ↦ suc (misses_in rs) ]

module _ (F : Doubles) where
  -- The results belong to the requests, in their order, each with the depth of the queue then.
  pub record Answers (config : PathConfig F) (requests : List Request)
      (results : List (RequestResult F)) : Type 0 where
    pub same_length : length results ≡ length requests
    pub answer :
        (i : ℕ) (request : Request) (result : RequestResult F)
        → get_elem? requests i ≡ some request
        → get_elem? results i ≡ some result
        → (result.id ≡ request.id)
          × (result.cache_hit ≡ request.cache_hit)
          × (result.queue_depth ≡ min (i + 1) config.max_queue_depth)

  pub record SummaryLaws (config : PathConfig F) (requests : List Request) (summary : Summary F)
      : Type 0 where
    pub all_requests : summary.total_requests ≡ length requests
    pub all_reads : summary.read_requests ≡ reads_in requests
    pub all_writes : summary.write_requests ≡ writes_in requests
    pub all_hits : summary.cache_hits ≡ hits_in requests
    pub all_misses : summary.cache_misses ≡ misses_in requests
    pub by_operation : summary.read_requests + summary.write_requests ≡ summary.total_requests
    pub by_hit : summary.cache_hits + summary.cache_misses ≡ summary.total_requests
    pub deepest : summary.max_observed_queue_depth ≡ min (length requests) config.max_queue_depth

  serve_from-length :
      (config : PathConfig F) (i : ℕ) (requests : List Request)
      → length (serve_from F config i requests) ≡ length requests
  unfolding serve_from
  serve_from-length config i [] = refl
  serve_from-length config i (r ∷ requests) = ap suc (serve_from-length config (suc i) requests)

  serve_from-answer :
      (config : PathConfig F) (first : ℕ) (requests : List Request) (i : ℕ) (request : Request)
      (result : RequestResult F)
      → get_elem? requests i ≡ some request
      → get_elem? (serve_from F config first requests) i ≡ some result
      → (result.id ≡ request.id)
        × (result.cache_hit ≡ request.cache_hit)
        × (result.queue_depth ≡ min (first + i + 1) config.max_queue_depth)
  unfolding serve_from serve
  serve_from-answer config first [] i request result e h = absurd (ground arith)
  serve_from-answer config first (r ∷ requests) zero request result e h = ground arith
  serve_from-answer config first (r ∷ requests) (suc i) request result e h =
      ground (arith, serve_from-answer config (suc first) requests i request result e h)

  max_depth-serve_from :
      (config : PathConfig F) (first depth : ℕ) (requests : List Request)
      → depth ≡ min first config.max_queue_depth
      → max_depth F (serve_from F config first requests) depth
        ≡ min (first + length requests) config.max_queue_depth
  unfolding serve_from serve max_depth
  max_depth-serve_from config first depth [] e = omega arith
  max_depth-serve_from config first depth (r ∷ requests) e = omega (
    arith,
    max_depth-serve_from config (suc first) (max depth (min (first + 1) config.max_queue_depth))
        requests (omega arith),
  )

  count-complement :
      (test : Request → Bool) (requests : List Request)
      → count_requests F test requests + count_requests F (λ r. not (test r)) requests
        ≡ length requests
  unfolding count_requests
  count-complement test [] = omega arith
  count-complement test (r ∷ requests) = ground (arith, count-complement test requests)

  -- What each of the counting loops counts.

  count-reads :
      (requests : List Request) → count_requests F (is_read F) requests ≡ reads_in requests
  unfolding count_requests is_read
  count-reads [] = refl
  count-reads (r ∷ requests) = ground (arith, count-reads requests)

  count-writes :
      (requests : List Request)
      → count_requests F (λ r. not (is_read F r)) requests ≡ writes_in requests
  unfolding count_requests is_read
  count-writes [] = refl
  count-writes (r ∷ requests) = ground (arith, count-writes requests)

  count-hits :
      (requests : List Request) → count_requests F (λ r. r.cache_hit) requests ≡ hits_in requests
  unfolding count_requests
  count-hits [] = refl
  count-hits (r ∷ requests) = ground (arith, count-hits requests)

  count-misses :
      (requests : List Request)
      → count_requests F (λ r. not r.cache_hit) requests ≡ misses_in requests
  unfolding count_requests
  count-misses [] = refl
  count-misses (r ∷ requests) = ground (arith, count-misses requests)

  -- A run answers each request, in order, at a queue depth that grows by one with each request up
  -- to the maximum; its summary has the numbers of reads, writes, hits and misses among the
  -- requests, which it splits by operation and by hit with none left out, and the largest depth.
  pub run-summarize :
      (config : PathConfig F) (requests : List Request)
      → Answers config requests (run F config requests)
        × SummaryLaws config requests (summarize F config requests (run F config requests))
  unfolding run summarize
  run-summarize config requests = (
    record {
      same_length = serve_from-length config 0 requests;
      answer = λ i request result e h.
          ground (arith, serve_from-answer config 0 requests i request result e h);
    },
    record {
      all_requests = refl;
      all_reads = count-reads requests;
      all_writes = count-writes requests;
      all_hits = count-hits requests;
      all_misses = count-misses requests;
      by_operation = count-complement (is_read F) requests;
      by_hit = count-complement (λ r. r.cache_hit) requests;
      deepest = omega (arith, max_depth-serve_from config 0 0 requests (omega arith));
    },
  )
