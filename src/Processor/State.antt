-- ===== src/Processor/State.antt =====
-- processor.go: what the processor's handlers and its eviction functions read and write.
use atlassian_sampling_proce.Base.{ℕ, ◌+◌, Bool, List, [], ◌∷◌, ◌++◌, if◌then◌else◌, ◌==◌}
use atlassian_sampling_proce.Library.Pdata.{SpanId, Traces}
use atlassian_sampling_proce.Cache.LruCache.{LruCache}
use atlassian_sampling_proce.Tracedata.{TraceData}
use atlassian_sampling_proce.Decider.{PolicyDecision}

-- The cache attribute of the eviction metrics.
pub data CacheName : Type 0 where
  primary secondary : CacheName

-- Additions to the processor's counters. The histograms of times are left out.
pub data Metric : Type 0 where
  traces_sampled traces_not_sampled : Metric
  evicted : CacheName → Metric
  policy_decided : PolicyDecision → Metric
  dropped_spans : ℕ → Metric
  decision_evicted : Bool → Metric

-- What the eviction functions of the decision caches use.
pub record Telemetry : Type 0 where
  pub started : Bool
  pub metrics : List Metric

-- A *tracedata.TraceData
abbrev pub Ref : Type 0
Ref = ℕ

-- `heap` is what each pointer points to; from `next_ref` on nothing is allocated. `now` is what
-- time.Now() returns and `random_span_id` what generateRandomSpanID() does, while one group of spans
-- is handled. `exported` holds the calls of next.ConsumeTraces, oldest first.
pub record World (A D : Type 0) : Type 0 where
  pub heap : Ref → TraceData A
  pub next_ref : Ref
  pub sampled_decision_cache : LruCache D
  pub non_sampled_decision_cache : LruCache D
  pub telemetry : Telemetry
  pub exported : List (Traces A)
  pub now : ℕ
  pub random_span_id : SpanId

-- The processor: `trace_data` is the state of its cache of traces.
pub record Asp (A C D : Type 0) : Type 0 where
  pub trace_data : C
  pub world : World A D

module _ {A D : Type 0} where
  unfoldable pub add_metric : Metric → World A D → World A D
  add_metric m w = record w {
    telemetry = record w.telemetry { metrics = w.telemetry.metrics ++ m ∷ [] };
  }

  unfoldable pub assign : Ref → TraceData A → World A D → World A D
  assign ref td w = record w { heap = λ r. if r == ref then td else w.heap r }

  -- &TraceData{…}
  unfoldable pub allocate : TraceData A → World A D → Ref × World A D
  unfolding assign
  allocate td w = (w.next_ref, record (assign w.next_ref td w) { next_ref = w.next_ref + 1 })

  -- The Priority that TraceData.GetPriority reads through a pointer.
  unfoldable pub priority_at : Ref → World A D → ℕ
  priority_at ref w = (w.heap ref).metadata.priority
