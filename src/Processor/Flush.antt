-- ===== src/Processor/Flush.antt =====
-- processor.go: flushAll. Its goroutines run in any order, each of them in one step.
use atlassian_sampling_proce.Base.{
  ℕ, ◌+◌, ◌%◌, ◌^◌, ◌≡◌, Bool, true, false, not, ◌&&◌, if◌then◌else◌, Permᴰ, none, some, List, [],
  ◌∷◌, ◌++◌, map,
}
use atlassian_sampling_proce.Library.Lru.{Lru}
use atlassian_sampling_proce.Library.Codec.{Codec}
use atlassian_sampling_proce.Library.Pdata.{
  TraceId, Value, str, bool, int, other, unset, Resource, Span, ResourceSpans, Traces, AttributeMap,
}
use atlassian_sampling_proce.Cache.Interface.{Cache}
use atlassian_sampling_proce.Cache.LruCache
use atlassian_sampling_proce.Tracedata.{Result, success, failure, get_traces}
use atlassian_sampling_proce.Processor.State.{Ref, World, Asp}
use atlassian_sampling_proce.Processor.Decisions.{
  flush_count_key, decision_span_key, on_evict_sampled, on_evict_not_sampled,
}
use atlassian_sampling_proce.Processor.Process.{report_trace_data_err}

-- Value.Int(): zero for another kind of value
unfoldable pub int_of : Value → ℕ
int_of (int n) = n
int_of (str _) = 0
int_of (bool _) = 0
int_of (other _) = 0

module _ {A : Type 0} (attrs : AttributeMap A) where
  unfoldable pub decision_span : TraceId → Span A
  decision_span id = record {
    trace_id = id;
    span_id = 0 ∷ 0 ∷ 0 ∷ 0 ∷ 0 ∷ 0 ∷ 0 ∷ 0 ∷ [];
    parent_span_id = 0 ∷ 0 ∷ 0 ∷ 0 ∷ 0 ∷ 0 ∷ 0 ∷ 0 ∷ [];
    name = "decision";
    start_timestamp = 0;
    end_timestamp = 0;
    status = unset;
    attributes = attrs.empty;
    events = [];
  }

  unfoldable pub decision_resource : Bool → Resource A
  decision_resource decision = record {
    attributes = attrs.put attrs.empty decision_span_key (bool decision);
  }

  -- One resource for the decisions of a kind, with a span for each trace.
  unfoldable pub decision_spans : Bool → List TraceId → ResourceSpans A
  unfolding decision_span decision_resource
  decision_spans decision ids = record {
    resource = decision_resource decision;
    scope_spans =
        record {
          scope = record { name = ""; version = ""; attributes = attrs.empty };
          spans = map decision_span ids;
        }
        ∷ [];
  }

  unfoldable pub flushes : Resource A → ℕ
  unfolding int_of
  flushes r = elim (attrs.get r.attributes flush_count_key) [ none ↦ 0 | some v ↦ int_of v ]

  unfoldable pub increment_count_of : ResourceSpans A → ResourceSpans A
  unfolding flushes
  increment_count_of rs = record rs {
    resource = record rs.resource {
      attributes =
          attrs.put rs.resource.attributes flush_count_key
            (int ((flushes rs.resource + 1) % 2 ^ 64));
    };
  }

  unfoldable pub increment_flush_count : Traces A → Traces A
  unfolding increment_count_of
  increment_flush_count = map increment_count_of

unfoldable pub consume : {A D : Type 0} → Traces A → World A D → World A D
consume t w = record w { exported = w.exported ++ t ∷ [] }

-- One run of flushAll: which traces the next component takes with no error, the trace data whose
-- goroutines come to their end before and after the goroutine of the decisions, whether that one
-- does, and whether the context is over before all have.
pub record FlushRun (A : Type 0) : Type 0 where
  pub accepts : Traces A → Bool
  pub before : List Ref
  pub decisions_flushed : Bool
  pub after : List Ref
  pub context_over : Bool

-- What a run may be when the trace cache lists these trace data: each has one goroutine, and all
-- goroutines come to their end, unless the context is over: then some may not, also because the
-- loop has not got to them. That at most 30 run at a time excludes some of these orders.
pub data IsRunOf {A : Type 0} (values : List Ref) (run : FlushRun A) : Type 0 where
  finishes :
      run.context_over ≡ false
      → run.decisions_flushed ≡ true
      → Permᴰ (run.before ++ run.after) values
      → IsRunOf values run
  is_cut_off :
      (others : List Ref)
      → run.context_over ≡ true
      → Permᴰ ((run.before ++ run.after) ++ others) values
      → IsRunOf values run

module _ {A C D : Type 0} (attrs : AttributeMap A) (codec : Codec A) (lru : Lru TraceId ℕ D)
    (td_cache : Cache TraceId Ref C (World A D)) where
  -- The decision spans of what the decision caches hold.
  unfoldable pub decision_traces : World A D → Traces A
  unfolding decision_spans
  decision_traces w =
      decision_spans attrs true (LruCache.keys lru on_evict_sampled w.sampled_decision_cache)
      ∷ decision_spans attrs false
          (LruCache.keys lru on_evict_not_sampled w.non_sampled_decision_cache)
      ∷ []

  -- The first goroutine: both decision caches are emptied. `accepts` is whether next.ConsumeTraces
  -- takes the traces with no error.
  unfoldable pub flush_decisions : (Traces A → Bool) → World A D → World A D × Bool
  unfolding decision_traces consume
  flush_decisions accepts w =
      let (c, t) = LruCache.clear lru on_evict_sampled w.sampled_decision_cache w.telemetry in
      let (c', t') = LruCache.clear lru on_evict_not_sampled w.non_sampled_decision_cache t in
      let emptied = record w {
        sampled_decision_cache = c;
        non_sampled_decision_cache = c';
        telemetry = t';
      } in
      (consume (decision_traces w) emptied, accepts (decision_traces w))

  -- The goroutine of one trace data: the world, and whether there was no error.
  unfoldable pub flush_result :
      (Traces A → Bool) → Result (Traces A) → ℕ → World A D → World A D × Bool
  unfolding increment_flush_count consume
  flush_result accepts (failure e) spans w = (report_trace_data_err spans w, false)
  flush_result accepts (success t) spans w =
      (consume (increment_flush_count attrs t) w, accepts (increment_flush_count attrs t))

  unfoldable pub flush_values : (Traces A → Bool) → List Ref → World A D → World A D × Bool
  unfolding flush_result
  flush_values accepts [] w = (w, true)
  flush_values accepts (td ∷ tds) w =
      let (w₁, ok₁) =
        flush_result accepts (get_traces codec (w.heap td)) (w.heap td).metadata.span_count w in
      let (w₂, ok₂) = flush_values accepts tds w₁ in (w₂, ok₁ && ok₂)

  -- With the goroutines in the order of the run, and whether flushAll returns no error.
  unfoldable pub flush_all : FlushRun A → Asp A C D → World A D × Bool
  unfolding flush_values flush_decisions
  flush_all run asp =
      let (w₁, ok₁) = flush_values run.accepts run.before asp.world in
      let (w₂, ok₂) =
        (if run.decisions_flushed then flush_decisions run.accepts w₁ else (w₁, true)) in
      let (w₃, ok₃) = flush_values run.accepts run.after w₂ in
      (w₃, not run.context_over && (ok₁ && (ok₂ && ok₃)))
