-- ===== src/Processor/Kept.antt =====
-- processor.go: what ConsumeTraces and flushAll make of the exclusiveness of the decision caches.
use atlassian_sampling_proce.Base.{ℕ, Bool, if_either, refl, inl, inr, List, [], ◌∷◌, Option-cases}
use atlassian_sampling_proce.Library.Lru.{Lru, LruLaws}
use atlassian_sampling_proce.Library.Codec.{Codec}
use atlassian_sampling_proce.Library.Pdata.{TraceId, Resource, Traces, AttributeMap}
use atlassian_sampling_proce.Cache.Interface.{Cache}
use atlassian_sampling_proce.Cache.LruCache
use atlassian_sampling_proce.Tracedata.{Result, success, failure, get_traces}
use atlassian_sampling_proce.Evaluators.Decision.{
  Decision, unspecified, pending, sampled, not_sampled, low_priority,
}
use atlassian_sampling_proce.Processor.Spans.{
  SpanAndScope, SpansGroupedByTraceId, group_spans_by_trace_id,
}
use atlassian_sampling_proce.Processor.State.{Ref, World, Asp, add_metric}
use atlassian_sampling_proce.Processor.Decisions.{send_sampled_trace_data, decision_span_key}
use atlassian_sampling_proce.Processor.Process.{report_trace_data_err}
use atlassian_sampling_proce.Processor.Consume.{
  ShardedSpans, early_entry, check_entries, early_decision_checks, consume_resources,
  consume_traces,
}
use atlassian_sampling_proce.Processor.Flush.{
  FlushRun, consume, flush_decisions, flush_result, flush_values, flush_all,
}
use atlassian_sampling_proce.Processor.Exclusive.{IsExclusive}
use atlassian_sampling_proce.Processor.Undecided.{untouched-IsExclusive}
use atlassian_sampling_proce.Processor.Callbacks.{safe_check-IsExclusive}

module _ {A D : Type 0} (attrs : AttributeMap A) (lru : Lru TraceId ℕ D) (laws : LruLaws lru) where
  early_entry-IsExclusive :
      (r : Resource A) (id : TraceId) (spans : List (SpanAndScope A)) (d : Decision) (w : World A D)
      → IsExclusive lru w
      → IsExclusive lru (early_entry attrs lru r id spans d w).0
  unfolding early_entry send_sampled_trace_data
  early_entry-IsExclusive r id spans sampled w x = untouched-IsExclusive lru refl refl x
  early_entry-IsExclusive r id spans not_sampled w x = x
  early_entry-IsExclusive r id spans unspecified w x = x
  early_entry-IsExclusive r id spans pending w x = x
  early_entry-IsExclusive r id spans low_priority w x = x

  check_entries-IsExclusive :
      (r : Resource A) (m : SpansGroupedByTraceId A) (w : World A D)
      → IsExclusive lru w
      → IsExclusive lru (check_entries attrs lru r m w).0
  unfolding check_entries
  check_entries-IsExclusive r [] w x = x
  check_entries-IsExclusive r ((id, spans) ∷ m) w x =
      check_entries-IsExclusive r m _
        (early_entry-IsExclusive r id spans _ _ (safe_check-IsExclusive lru laws w id x))

  early_checks-IsExclusive :
      (r : Resource A) (m : SpansGroupedByTraceId A) (w : World A D)
      → IsExclusive lru w
      → IsExclusive lru (early_decision_checks attrs lru r m w).0
  unfolding early_decision_checks
  early_checks-IsExclusive r m w x =
      elim (Option-cases (attrs.get r.attributes decision_span_key)) [
        | inl e ↦ rw (e, early_decision_checks) (check_entries-IsExclusive r m w x)
        | inr (v, e) ↦ rw (e, early_decision_checks) x
      ]

  consume_resources-IsExclusive :
      (n : ℕ) (td : Traces A) (w : World A D) (sharded : ShardedSpans A)
      → IsExclusive lru w
      → IsExclusive lru (consume_resources attrs lru n td w sharded).0
  unfolding consume_resources
  consume_resources-IsExclusive n [] w sharded x = x
  consume_resources-IsExclusive n (rs ∷ rest) w sharded x =
      consume_resources-IsExclusive n rest _ _
        (early_checks-IsExclusive rs.resource (group_spans_by_trace_id rs) w x)

  pub consume_traces-IsExclusive :
      (n : ℕ) (td : Traces A) (w : World A D)
      → IsExclusive lru w
      → IsExclusive lru (consume_traces attrs lru n td w).0
  unfolding consume_traces
  consume_traces-IsExclusive n td w x = consume_resources-IsExclusive n td w (λ i. []) x

  module _ {C : Type 0} (codec : Codec A) (td_cache : Cache TraceId Ref C (World A D)) where
    flush_result-IsExclusive :
        (accepts : Traces A → Bool) (t : Result (Traces A)) (spans : ℕ) (w : World A D)
        → IsExclusive lru w
        → IsExclusive lru (flush_result attrs codec lru td_cache accepts t spans w).0
    unfolding flush_result consume report_trace_data_err add_metric
    flush_result-IsExclusive accepts (failure e) spans w x = untouched-IsExclusive lru refl refl x
    flush_result-IsExclusive accepts (success t) spans w x = untouched-IsExclusive lru refl refl x

    flush_values-IsExclusive :
        (accepts : Traces A → Bool) (tds : List Ref) (w : World A D)
        → IsExclusive lru w
        → IsExclusive lru (flush_values attrs codec lru td_cache accepts tds w).0
    unfolding flush_values
    flush_values-IsExclusive accepts [] w x = x
    flush_values-IsExclusive accepts (td ∷ tds) w x =
        flush_values-IsExclusive accepts tds _
          (flush_result-IsExclusive accepts (get_traces codec (w.heap td)) _ w x)

    flush_decisions-IsExclusive :
        (accepts : Traces A → Bool) (w : World A D)
        → IsExclusive lru w
        → IsExclusive lru (flush_decisions attrs codec lru td_cache accepts w).0
    unfolding flush_decisions consume LruCache.clear
    flush_decisions-IsExclusive accepts w x = record {
      room = rw (laws.cap-purge w.sampled_decision_cache.cache) x.room;
      other_room = rw (laws.cap-purge w.non_sampled_decision_cache.cache) x.other_room;
      apart = λ q. inl (laws.peek-purge w.sampled_decision_cache.cache q);
    }

    pub flush_all-IsExclusive :
        (run : FlushRun A) (asp : Asp A C D)
        → IsExclusive lru asp.world
        → IsExclusive lru (flush_all attrs codec lru td_cache run asp).0
    unfolding flush_all
    flush_all-IsExclusive run asp x =
        let first = flush_values-IsExclusive run.accepts run.before asp.world x in
        flush_values-IsExclusive run.accepts run.after _ (
          if_either (λ (r : World A D × Bool). IsExclusive lru r.0) run.decisions_flushed _ _
            (flush_decisions-IsExclusive run.accepts _ first) first)
