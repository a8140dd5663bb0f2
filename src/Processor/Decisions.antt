-- ===== src/Processor/Decisions.antt =====
-- processor.go: the decision caches, the eviction functions and the export of sampled traces.
use atlassian_sampling_proce.Base.{
  ℕ, Bool, true, false, Option, none, some, String, [], ◌∷◌, ◌++◌, map, if◌then◌else◌, ◌==◌,
}
use atlassian_sampling_proce.Priority.{low}
use atlassian_sampling_proce.Library.Lru.{Lru}
use atlassian_sampling_proce.Library.Pdata.{TraceId, ResourceSpans, Traces, AttributeMap}
use atlassian_sampling_proce.Cache.LruCache
use atlassian_sampling_proce.Cache.LruCache.{LruCache}
use atlassian_sampling_proce.Evaluators.Decision.{Decision, unspecified, sampled, not_sampled}
use atlassian_sampling_proce.Processor.State.{
  CacheName, primary, secondary, traces_not_sampled, evicted, decision_evicted, Telemetry, Ref,
  World, add_metric, priority_at,
}

abbrev pub flush_count_key : String
flush_count_key = "atlassiansampling.flushes"

abbrev pub decision_span_key : String
decision_span_key = "atlassiansampling.decision"

unfoldable pub record_eviction : Bool → Telemetry → Telemetry
record_eviction decision t =
    if t.started then record t { metrics = t.metrics ++ decision_evicted decision ∷ [] } else t

unfoldable pub on_evict_sampled : TraceId → ℕ → Telemetry → Telemetry
unfolding record_eviction
on_evict_sampled _ insert_time t = record_eviction true t

unfoldable pub on_evict_not_sampled : TraceId → ℕ → Telemetry → Telemetry
unfolding record_eviction
on_evict_not_sampled _ decision_time t = record_eviction false t

-- sendSampledTraceData, but for the export: the flush count is taken off each resource.
unfoldable pub remove_count_from : {A : Type 0} → AttributeMap A → ResourceSpans A → ResourceSpans A
remove_count_from attrs rs = record rs {
  resource = record rs.resource {
    attributes = attrs.remove rs.resource.attributes flush_count_key;
  };
}

unfoldable pub remove_flush_count : {A : Type 0} → AttributeMap A → Traces A → Traces A
unfolding remove_count_from
remove_flush_count attrs = map (remove_count_from attrs)

-- A failed export is logged, and nothing else is done about it.
unfoldable pub send_sampled_trace_data :
    {A D : Type 0} → AttributeMap A → Traces A → World A D → World A D
unfolding remove_flush_count
send_sampled_trace_data attrs td w = record w {
  exported = w.exported ++ remove_flush_count attrs td ∷ [];
}

-- The caches hold the time of each decision. `lru` is the library's cache behind both.
module _ {A D : Type 0} (lru : Lru TraceId ℕ D) where
  unfoldable pub get_sampled : TraceId → World A D → World A D × Option ℕ
  get_sampled id w =
      let (c, v) = LruCache.get lru on_evict_sampled w.sampled_decision_cache id in
      (record w { sampled_decision_cache = c }, v)

  unfoldable pub get_not_sampled : TraceId → World A D → World A D × Option ℕ
  get_not_sampled id w =
      let (c, v) = LruCache.get lru on_evict_not_sampled w.non_sampled_decision_cache id in
      (record w { non_sampled_decision_cache = c }, v)

  unfoldable pub put_sampled : TraceId → World A D → World A D
  put_sampled id w =
      let (c, t) =
        LruCache.put lru on_evict_sampled w.sampled_decision_cache id w.now w.telemetry in
      record w { sampled_decision_cache = c; telemetry = t }

  unfoldable pub put_not_sampled : TraceId → World A D → World A D
  put_not_sampled id w =
      let (c, t) =
        LruCache.put lru on_evict_not_sampled w.non_sampled_decision_cache id w.now w.telemetry in
      record w { non_sampled_decision_cache = c; telemetry = t }

  unfoldable pub safe_check_decision_caches : TraceId → World A D → World A D × Decision
  safe_check_decision_caches id w =
      let (w₁, s) = get_sampled id w in
      let (w₂, n) = get_not_sampled id w₁ in
      elim s [
        | some _ ↦ (w₁, sampled)
        | none ↦ elim n [ some _ ↦ (w₂, not_sampled) | none ↦ (w₂, unspecified) ]
      ]

  -- Not an explicit deletion but an eviction, if no decision is cached.
  unfoldable pub record_evicted : CacheName → TraceId → Option ℕ → Option ℕ → World A D → World A D
  record_evicted name id none none w =
      add_metric (evicted name) (add_metric traces_not_sampled (put_not_sampled id w))
  record_evicted name id (some _) n w = w
  record_evicted name id none (some _) w = w

  unfoldable pub cache_eviction_callback : CacheName → TraceId → Ref → World A D → World A D
  unfolding record_evicted
  cache_eviction_callback name id td w =
      let (w₁, s) = get_sampled id w in
      let (w₂, n) = get_not_sampled id w₁ in record_evicted name id s n w₂

  unfoldable pub primary_eviction_callback : TraceId → Ref → World A D → World A D
  primary_eviction_callback id td w = cache_eviction_callback primary id td w

  -- A trace whose priority is no longer low is leaving for the primary cache.
  unfoldable pub secondary_eviction_callback : TraceId → Ref → World A D → World A D
  unfolding priority_at
  secondary_eviction_callback id td w =
      if priority_at td w == low then cache_eviction_callback secondary id td w else w
