-- ===== src/Processor/ProcessTraces.antt =====
-- processor.go: processTraces, the handling of the groups of spans that a shard receives.
use atlassian_sampling_proce.Base.{ℕ, Bool, Option, none, some, List, [], ◌∷◌, if◌then◌else◌}
use atlassian_sampling_proce.Priority.{unspecified as unspecified_priority}
use atlassian_sampling_proce.Library.Lru.{Lru}
use atlassian_sampling_proce.Library.Codec.{Codec}
use atlassian_sampling_proce.Library.Pdata.{TraceId, Traces}
use atlassian_sampling_proce.Cache.Interface.{Cache}
use atlassian_sampling_proce.Ptraceutil.{span_count}
use atlassian_sampling_proce.Tracedata.{
  Result, success, failure, TraceDataError, TraceData, new_trace_data, absorb_trace_data,
  get_traces,
}
use atlassian_sampling_proce.Tracedata.Merge.{Metadata}
use atlassian_sampling_proce.Evaluators.Decision.{
  Decision, unspecified, pending, sampled, not_sampled, low_priority,
}
use atlassian_sampling_proce.Policy.{Policy}
use atlassian_sampling_proce.Decider.{Externals, make_decision}
use atlassian_sampling_proce.Processor.Spans.{GroupedTraceData, append_and_move_to_traces}
use atlassian_sampling_proce.Processor.State.{
  traces_sampled, Ref, World, Asp, add_metric, assign, allocate,
}
use atlassian_sampling_proce.Processor.Decisions.{send_sampled_trace_data, put_sampled}
use atlassian_sampling_proce.Processor.Process.{
  report_trace_data_err, add_policy_decisions, merged_metadata, reset_name, mark_low_priority,
  policy_name, delete_trace, release_not_sampled_trace, cached_decision,
}

module _ {A F R Re C D : Type 0} (ext : Externals A F R Re) (codec : Codec A)
    (lru : Lru TraceId ℕ D) (td_cache : Cache TraceId Ref C (World A D)) where
  -- What a Sampled decision does with the cached trace, if there is one. The error is reported with
  -- the number of the new spans.
  unfoldable pub send_traces_or_report : Result (Traces A) → ℕ → World A D → World A D
  send_traces_or_report (failure _) spans w = report_trace_data_err spans w
  send_traces_or_report (success traces) spans w = send_sampled_trace_data ext.attrs traces w

  unfoldable pub release_cached : TraceId → Option Ref → ℕ → Asp A C D → Asp A C D
  unfolding send_traces_or_report delete_trace
  release_cached id none spans asp = asp
  release_cached id (some ref) spans asp = delete_trace ext codec lru td_cache id (record asp {
    world = send_traces_or_report (get_traces codec (asp.world.heap ref)) spans asp.world;
  })

  unfoldable pub on_sampled : TraceId → Option Ref → TraceData A → Traces A → Asp A C D → Asp A C D
  unfolding release_cached
  on_sampled id cached td current_trace asp =
      let asp' =
        release_cached id cached td.metadata.span_count
          (record asp { world = put_sampled lru id asp.world }) in
      record asp' {
        world =
            add_metric traces_sampled (send_sampled_trace_data ext.attrs current_trace asp'.world);
      }

  unfoldable pub report_absorb : Option TraceDataError → ℕ → World A D → World A D
  report_absorb none spans w = w
  report_absorb (some _) spans w = report_trace_data_err spans w

  unfoldable pub put_trace : TraceId → Ref → Asp A C D → Asp A C D
  put_trace id ref asp =
      let (c, w) = td_cache.put asp.trace_data id ref asp.world in
      record { trace_data = c; world = w }

  -- The cached trace data is changed in place; without it the new trace data gets a place.
  unfoldable pub keep_pending : TraceId → Option Ref → TraceData A → Asp A C D → Asp A C D
  unfolding report_absorb put_trace
  keep_pending id (some ref) td asp =
      let (absorbed, err) = absorb_trace_data (asp.world.heap ref) td in
      put_trace id ref (record asp {
        world = report_absorb err td.metadata.span_count (assign ref absorbed asp.world);
      })
  keep_pending id none td asp =
      let (ref, w) = allocate td asp.world in put_trace id ref (record asp { world = w })

  unfoldable pub apply_final :
      Decision
      → Option (Policy A F R Re)
      → TraceId
      → Option Ref
      → Metadata
      → TraceData A
      → Traces A
      → Asp A C D
      → Asp A C D
  unfolding on_sampled keep_pending release_not_sampled_trace mark_low_priority
  apply_final sampled pol id cached merged td current_trace asp =
      on_sampled id cached td current_trace asp
  apply_final not_sampled pol id cached merged td current_trace asp =
      release_not_sampled_trace ext codec lru td_cache id pol asp
  apply_final low_priority pol id cached merged td current_trace asp =
      keep_pending id cached (mark_low_priority low_priority (policy_name pol) merged td) asp
  apply_final pending pol id cached merged td current_trace asp = keep_pending id cached td asp
  apply_final unspecified pol id cached merged td current_trace asp = keep_pending id cached td asp

  -- The spans of one trace, with no decision cached: `td` is their trace data.
  unfoldable pub process_new_data :
      List (Policy A F R Re) → TraceId → Traces A → TraceData A → Asp A C D → Asp A C D
  unfolding apply_final reset_name merged_metadata
  process_new_data policies id current_trace td asp =
      let (c, cached) = td_cache.get asp.trace_data id in
      let merged = merged_metadata td cached asp.world in
      let (final_decision, pol, metrics) = make_decision ext id current_trace merged policies in
      apply_final final_decision pol id cached (reset_name final_decision merged) td current_trace
        (record asp { trace_data = c; world = add_policy_decisions metrics asp.world })

  unfoldable pub process_undecided :
      List (Policy A F R Re) → Bool → TraceId → Traces A → Asp A C D → Asp A C D
  unfolding process_new_data
  process_undecided policies compress id current_trace asp =
      elim (new_trace_data codec asp.world.now current_trace unspecified_priority compress) [
        | failure _ ↦ record asp {
          world = report_trace_data_err (span_count current_trace) asp.world;
        }
        | success td ↦ process_new_data policies id current_trace td asp
      ]

  -- One round of the loop.
  unfoldable pub process_group :
      List (Policy A F R Re) → Bool → GroupedTraceData A → Asp A C D → Asp A C D
  unfolding process_undecided
  process_group policies compress gtd asp =
      let (asp', done) = cached_decision ext codec lru td_cache gtd.id gtd.resource gtd.spans asp in
      if done
      then asp'
      else process_undecided policies compress gtd.id
          (append_and_move_to_traces [] gtd.resource gtd.spans) asp'

  unfoldable pub process_traces :
      List (Policy A F R Re) → Bool → List (GroupedTraceData A) → Asp A C D → Asp A C D
  unfolding process_group
  process_traces policies compress [] asp = asp
  process_traces policies compress (gtd ∷ rest) asp =
      process_traces policies compress rest (process_group policies compress gtd asp)
