-- ===== src/Examples/Sharding.antt =====
-- The theorems on what comes in, what the shards are sent and what is flushed, at concrete inputs.
use mathlib.Core.List.Permᴰ
use atlassian_sampling_proce.Base.{ℕ, ◌≡◌, refl, true, false, none, some, [], ◌∷◌, arith, inl}
use atlassian_sampling_proce.Library.Pdata.{TraceId, ResourceSpans}
use atlassian_sampling_proce.Library.LruList.{Items, find}
use atlassian_sampling_proce.Cache.LruCache
use atlassian_sampling_proce.Cache.TieredCache
use atlassian_sampling_proce.Processor.State.{Asp}
use atlassian_sampling_proce.Processor.Spans.{SpansGroupedByTraceId, group_spans_by_trace_id}
use atlassian_sampling_proce.Processor.ProcessTraces.{process_group}
use atlassian_sampling_proce.Processor.Exclusive.{sampled_at, not_sampled_at, IsExclusive}
use atlassian_sampling_proce.Processor.Callbacks.{SameDecisions}
use atlassian_sampling_proce.Processor.Undecided.{IsUndecided}
use atlassian_sampling_proce.Processor.TraceCache.{trace_cache, find_trace, trace_cache-CacheLaws}
use atlassian_sampling_proce.Processor.Consume.{early_decision_checks, consume_traces}
use atlassian_sampling_proce.Processor.Early.{
  undecided_entries, sampled_exports, early_checks_lem, IsSharded, consume_traces-IsSharded,
}
use atlassian_sampling_proce.Processor.Grouping.{spans_for, of_trace, all_scoped, grouped_spans}
use atlassian_sampling_proce.Processor.Flush.{decision_resource, FlushRun}
use atlassian_sampling_proce.Processor.Restart.{
  flushed_sampled_restored, flushed_not_sampled_restored,
}
use atlassian_sampling_proce.Examples.Data.{
  attrs-Laws, Tiers, Attributes, attrs, ext, codec, cache, cache-LruLaws, id_a, id_b, span, scope,
  plain, group_of, world_of, asp_of, policy_of,
}

abbrev incoming : ResourceSpans Attributes
incoming = record {
  resource = plain;
  scope_spans =
      record { scope = scope; spans = span ∷ record span { trace_id = id_b } ∷ span ∷ [] } ∷ [];
}

abbrev entries_in : SpansGroupedByTraceId Attributes
entries_in = (id_a, (group_of id_a plain).spans) ∷ (id_b, (group_of id_b plain).spans) ∷ []

early_checks_lem_example :
    ((early_decision_checks attrs cache plain entries_in (world_of ((id_a, 400) ∷ []) [])).1
      ≡ undecided_entries attrs cache cache-LruLaws (world_of ((id_a, 400) ∷ []) []) entries_in)
    × ((early_decision_checks attrs cache plain entries_in
          (world_of ((id_a, 400) ∷ []) [])).0.exported
        ≡ sampled_exports attrs cache cache-LruLaws
            (world_of ((id_a, 400) ∷ []) [])
            plain
            entries_in)
    × SameDecisions cache
        (world_of ((id_a, 400) ∷ []) [])
        (early_decision_checks attrs cache plain entries_in (world_of ((id_a, 400) ∷ []) [])).0
early_checks_lem_example =
    early_checks_lem attrs cache cache-LruLaws plain entries_in (world_of ((id_a, 400) ∷ []) [])
      refl

consume_traces-IsSharded_example :
    IsSharded 8 (consume_traces attrs cache 8 (incoming ∷ []) (world_of ((id_a, 400) ∷ []) [])).1
consume_traces-IsSharded_example =
    consume_traces-IsSharded attrs cache 8 (incoming ∷ []) (world_of ((id_a, 400) ∷ []) [])

grouped_spans_example :
    spans_for id_b (group_spans_by_trace_id incoming)
    ≡ of_trace id_b (all_scoped 0 incoming.scope_spans)
grouped_spans_example = grouped_spans id_b incoming

-- The traces are handed on before the decisions.
abbrev run : FlushRun Attributes
run = record {
  accepts = λ t. true;
  before = 0 ∷ [];
  decisions_flushed = true;
  after = [];
  context_over = false;
}

abbrev before_flush : Asp Attributes Tiers (Items TraceId ℕ)
before_flush = asp_of ((id_a, 0) ∷ []) (world_of ((id_b, 400) ∷ []) [])

fresh-IsExclusive : IsExclusive cache (world_of [] [])
unfolding find
fresh-IsExclusive = record { room = omega arith; other_room = omega arith; apart = λ q. inl refl }

fresh-IsUndecided : IsUndecided cache id_b (world_of [] [])
unfolding find
fresh-IsUndecided = record { no_sampled = refl; no_not_sampled = refl }

fresh_missing : find_trace cache (asp_of [] (world_of [] [])).trace_data id_b ≡ none
unfolding find
fresh_missing = refl

flushed_sampled_restored_example :
    sampled_at cache
      (process_group ext codec cache
        (trace_cache cache cache)
        (policy_of 2 ∷ [])
        false
        (group_of id_b (decision_resource attrs true))
        (asp_of [] (world_of [] []))).world
      id_b
    ≡ some 500
flushed_sampled_restored_example =
    flushed_sampled_restored ext attrs-Laws codec cache cache-LruLaws (trace_cache cache cache)
      (trace_cache-CacheLaws cache cache cache-LruLaws) (policy_of 2 ∷ []) false id_b
      (group_of id_b plain).spans (asp_of [] (world_of [] [])) fresh-IsExclusive fresh-IsUndecided
      fresh_missing

flushed_not_sampled_restored_example :
    not_sampled_at cache
      (process_group ext codec cache
        (trace_cache cache cache)
        (policy_of 2 ∷ [])
        false
        (group_of id_b (decision_resource attrs false))
        (asp_of [] (world_of [] []))).world
      id_b
    ≡ some 500
flushed_not_sampled_restored_example =
    flushed_not_sampled_restored ext attrs-Laws codec cache cache-LruLaws (trace_cache cache cache)
      (trace_cache-CacheLaws cache cache cache-LruLaws) (policy_of 2 ∷ []) false id_b
      (group_of id_b plain).spans (asp_of [] (world_of [] [])) fresh-IsExclusive fresh-IsUndecided
