-- ===== src/Processor/Process.antt =====
-- processor.go: cachedDecision, releaseNotSampledTrace and the helpers of processTraces. The
-- goroutine that exports late spans is run at once.
use atlassian_sampling_proce.Base.{
  ℕ, ◌+◌, ◌-◌, ◌%◌, ◌^◌, Bool, true, false, Option, none, some, String, List, [], ◌∷◌,
  if◌then◌else◌,
}
use atlassian_sampling_proce.Priority.{low}
use atlassian_sampling_proce.Library.Lru.{Lru}
use atlassian_sampling_proce.Library.Codec.{Codec}
use atlassian_sampling_proce.Library.Pdata.{
  SpanId, TraceId, Value, str, bool, int, other, unset, Resource, Span, Traces, AttributeMap,
}
use atlassian_sampling_proce.Cache.Interface.{Cache}
use atlassian_sampling_proce.Tracedata.{Result, success, failure, TraceData, get_traces}
use atlassian_sampling_proce.Tracedata.Merge.{Metadata, merge_with, deep_copy}
use atlassian_sampling_proce.Evaluators.Decision.{
  Decision, unspecified, pending, sampled, not_sampled, low_priority,
}
use atlassian_sampling_proce.Policy.{Policy}
use atlassian_sampling_proce.Decider.{Externals, PolicyDecision}
use atlassian_sampling_proce.Processor.Spans.{SpanAndScope, append_and_move_to_traces}
use atlassian_sampling_proce.Processor.State.{
  policy_decided, dropped_spans, Ref, World, Asp, add_metric,
}
use atlassian_sampling_proce.Processor.Decisions.{
  decision_span_key, send_sampled_trace_data, put_sampled, put_not_sampled,
  safe_check_decision_caches,
}

-- Value.Bool(): false for another kind of value
unfoldable pub bool_of : Value → Bool
bool_of (bool b) = b
bool_of (str _) = false
bool_of (int _) = false
bool_of (other _) = false

abbrev pub second : ℕ
second = 1_000_000_000

-- reportTraceDataErr: the error itself is only logged.
unfoldable pub report_trace_data_err : {A D : Type 0} → ℕ → World A D → World A D
report_trace_data_err spans w = add_metric (dropped_spans spans) w

-- The metrics that MakeDecision records.
unfoldable pub add_policy_decisions : {A D : Type 0} → List PolicyDecision → World A D → World A D
add_policy_decisions [] w = w
add_policy_decisions (m ∷ ms) w = add_policy_decisions ms (add_metric (policy_decided m) w)

-- Metadata as MakeDecision gets it: of the new spans, merged with that of the cached ones.
unfoldable pub merged_metadata : {A D : Type 0} → TraceData A → Option Ref → World A D → Metadata
merged_metadata td none w = deep_copy td.metadata
merged_metadata td (some ref) w = merge_with (deep_copy td.metadata) (w.heap ref).metadata

-- LastLowPriorityDecisionName is reset by any decision but low priority.
unfoldable pub reset_name : Decision → Metadata → Metadata
reset_name low_priority m = m
reset_name sampled m = record m { last_low_priority_decision_name = none }
reset_name not_sampled m = record m { last_low_priority_decision_name = none }
reset_name pending m = record m { last_low_priority_decision_name = none }
reset_name unspecified m = record m { last_low_priority_decision_name = none }

-- The name that a low-priority trace keeps: its own, or else that of the policy. A decision of low
-- priority comes with a policy.
unfoldable pub low_priority_name : Option String → Option String → Option String
low_priority_name none policy_name = policy_name
low_priority_name (some name) policy_name = some name

unfoldable pub mark_low_priority :
    {A : Type 0} → Decision → Option String → Metadata → TraceData A → TraceData A
unfolding low_priority_name
mark_low_priority low_priority policy_name merged td = record td {
  metadata = record td.metadata {
    priority = low;
    last_low_priority_decision_name =
        low_priority_name merged.last_low_priority_decision_name policy_name;
  };
}
mark_low_priority sampled policy_name merged td = td
mark_low_priority not_sampled policy_name merged td = td
mark_low_priority pending policy_name merged td = td
mark_low_priority unspecified policy_name merged td = td

unfoldable pub policy_name : {A F R Re : Type 0} → Option (Policy A F R Re) → Option String
policy_name none = none
policy_name (some p) = some p.name

-- The traces, or the empty ones that GetTraces returns beside an error.
unfoldable pub traces_or_empty : {A : Type 0} → Result (Traces A) → Traces A
traces_or_empty (success t) = t
traces_or_empty (failure _) = []

-- The trace of one span that stands for a trace that was not sampled.
unfoldable pub placeholder_span :
    {A : Type 0} → AttributeMap A → TraceId → SpanId → ℕ → String → Span A
placeholder_span attrs id span_id now name = record {
  trace_id = id;
  span_id = span_id;
  parent_span_id = 0 ∷ 0 ∷ 0 ∷ 0 ∷ 0 ∷ 0 ∷ 0 ∷ 0 ∷ [];
  name = "TRACE NOT SAMPLED";
  start_timestamp = (now + 2 ^ 64 - second) % 2 ^ 64;
  end_timestamp = now % 2 ^ 64;
  status = unset;
  attributes = attrs.put attrs.empty "sampling.policy" (str name);
  events = [];
}

unfoldable pub placeholder :
    {A : Type 0} → AttributeMap A → TraceId → SpanId → ℕ → String → Traces A
unfolding placeholder_span
placeholder attrs id span_id now name =
    record {
      resource = record {
        attributes = attrs.put attrs.empty "service.name" (str "not-sampled-dummy-service");
      };
      scope_spans =
          record {
            scope = record { name = ""; version = ""; attributes = attrs.empty };
            spans = placeholder_span attrs id span_id now name ∷ [];
          }
          ∷ [];
    }
    ∷ []

-- `td_cache` is asp.traceData, `lru` what is behind the decision caches.
module _ {A F R Re C D : Type 0} (ext : Externals A F R Re) (codec : Codec A)
    (lru : Lru TraceId ℕ D) (td_cache : Cache TraceId Ref C (World A D)) where
  unfoldable pub emit_placeholder : TraceId → Option (Policy A F R Re) → World A D → World A D
  emit_placeholder id none w = w
  emit_placeholder id (some policy) w =
      if policy.emit_single_span_for_not_sampled
      then send_sampled_trace_data ext.attrs
          (placeholder ext.attrs id w.random_span_id w.now policy.name) w
      else w

  unfoldable pub delete_trace : TraceId → Asp A C D → Asp A C D
  delete_trace id asp =
      let (c, w) = td_cache.delete asp.trace_data id asp.world in
      record { trace_data = c; world = w }

  unfoldable pub release_not_sampled_trace :
      TraceId → Option (Policy A F R Re) → Asp A C D → Asp A C D
  unfolding delete_trace
  release_not_sampled_trace id policy asp =
      delete_trace id
        (record asp { world = put_not_sampled lru id (emit_placeholder id policy asp.world) })

  -- The cached trace is sent and deleted, if there is one; then the decision is cached.
  unfoldable pub send_cached : TraceId → Option Ref → Asp A C D → Asp A C D
  unfolding delete_trace
  send_cached id none asp = asp
  send_cached id (some td) asp = delete_trace id (record asp {
    world =
        send_sampled_trace_data ext.attrs (traces_or_empty (get_traces codec (asp.world.heap td)))
          asp.world;
  })

  unfoldable pub sampled_decision_span : TraceId → Asp A C D → Asp A C D
  unfolding send_cached
  sampled_decision_span id asp =
      let (c, td) = td_cache.get asp.trace_data id in
      let asp' = send_cached id td (record asp { trace_data = c }) in
      record asp' { world = put_sampled lru id asp'.world }

  -- cachedDecision after the check of the decision caches
  unfoldable pub apply_decision :
      TraceId
      → Resource A
      → List (SpanAndScope A)
      → Option Value
      → Decision
      → Asp A C D
      → Asp A C D × Bool
  unfolding sampled_decision_span release_not_sampled_trace
  apply_decision id resource spans none sampled asp = (
    record asp {
      world =
          send_sampled_trace_data ext.attrs (append_and_move_to_traces [] resource spans) asp.world;
    },
    true,
  )
  apply_decision id resource spans (some _) sampled asp = (asp, true)
  apply_decision id resource spans decision_span not_sampled asp = (asp, true)
  apply_decision id resource spans none _ asp = (asp, false)
  apply_decision id resource spans (some v) _ asp =
      if bool_of v
      then (sampled_decision_span id asp, true)
      else (release_not_sampled_trace id none asp, true)

  unfoldable pub cached_decision :
      TraceId → Resource A → List (SpanAndScope A) → Asp A C D → Asp A C D × Bool
  unfolding apply_decision
  cached_decision id resource spans asp =
      let (w, from_cache) = safe_check_decision_caches lru id asp.world in
      apply_decision id resource spans (ext.attrs.get resource.attributes decision_span_key)
        from_cache (record asp { world = w })
