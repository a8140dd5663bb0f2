-- ===== src/Examples/Outcomes.antt =====
-- The theorems on the handling of spans that the policies decide on, at concrete inputs.
use atlassian_sampling_proce.Base.{ℕ, ◌≡◌, refl, none, some, [], ◌∷◌}
use atlassian_sampling_proce.Library.Pdata.{TraceId}
use atlassian_sampling_proce.Library.LruList.{Items}
use atlassian_sampling_proce.Tracedata.{success, get_traces, absorb_trace_data}
use atlassian_sampling_proce.Tracedata.Merge.{merge_with, deep_copy}
use atlassian_sampling_proce.Evaluators.Decision.{sampled, pending}
use atlassian_sampling_proce.Evaluators.Evaluator.{evaluate}
use atlassian_sampling_proce.Evaluators.Simple.{evaluate_span_count}
use atlassian_sampling_proce.Decider.{make_decision, policy_decision}
use atlassian_sampling_proce.Processor.State.{Asp}
use atlassian_sampling_proce.Processor.Decisions.{remove_flush_count}
use atlassian_sampling_proce.Processor.ProcessTraces.{process_new_data}
use atlassian_sampling_proce.Processor.Exclusive.{sampled_at}
use atlassian_sampling_proce.Processor.Outcomes.{
  sampled_exports_all, pending_is_cached, pending_absorbs,
}
use atlassian_sampling_proce.Processor.TraceCache.{trace_cache, find_trace}
use atlassian_sampling_proce.Examples.Data.{
  Attributes, ext, codec, cache, cache-LruLaws, id_a, batch, metadata, stored, world_of, Tiers,
  asp_of, policy_of,
}
use atlassian_sampling_proce.Examples.Caches.{
  world-IsExclusive, found, missing, tiers-Laws, tiers-Inv,
}

abbrev cached : Asp Attributes Tiers (Items TraceId ℕ)
cached = asp_of ((id_a, 0) ∷ []) (world_of [] [])

cached_found : find_trace cache cached.trace_data id_a ≡ some 0
cached_found = rw (found id_a 0) refl

stored_readable : get_traces codec stored ≡ success batch
unfolding get_traces
stored_readable = refl

decided_sampled :
    (make_decision ext id_a batch
      (merge_with (deep_copy (metadata 1)) (metadata 1))
      (policy_of 2 ∷ [])).0
    ≡ sampled
unfolding make_decision merge_with deep_copy policy_decision evaluate evaluate_span_count
decided_sampled = refl

sampled_exports_all_example :
    ((process_new_data ext codec cache
        (trace_cache cache cache)
        (policy_of 2 ∷ [])
        id_a
        batch
        stored
        cached).world.exported
      ≡ remove_flush_count ext.attrs batch ∷ remove_flush_count ext.attrs batch ∷ [])
    × (find_trace cache
          (process_new_data ext codec cache
            (trace_cache cache cache)
            (policy_of 2 ∷ [])
            id_a
            batch
            stored
            cached).trace_data
          id_a
        ≡ none)
    × (sampled_at cache
          (process_new_data ext codec cache
            (trace_cache cache cache)
            (policy_of 2 ∷ [])
            id_a
            batch
            stored
            cached).world
          id_a
        ≡ some 500)
sampled_exports_all_example =
    sampled_exports_all ext codec cache cache-LruLaws (trace_cache cache cache) tiers-Laws
      (policy_of 2 ∷ []) id_a batch batch stored cached 0 world-IsExclusive cached_found
      stored_readable decided_sampled

decided_pending :
    (make_decision ext id_a batch
      (merge_with (deep_copy (metadata 1)) (metadata 1))
      (policy_of 5 ∷ [])).0
    ≡ pending
unfolding make_decision merge_with deep_copy policy_decision evaluate evaluate_span_count
decided_pending = refl

pending_absorbs_example :
    ((process_new_data ext codec cache
        (trace_cache cache cache)
        (policy_of 5 ∷ [])
        id_a
        batch
        stored
        cached).world.exported
      ≡ [])
    × (find_trace cache
          (process_new_data ext codec cache
            (trace_cache cache cache)
            (policy_of 5 ∷ [])
            id_a
            batch
            stored
            cached).trace_data
          id_a
        ≡ some 0)
    × ((process_new_data ext codec cache
            (trace_cache cache cache)
            (policy_of 5 ∷ [])
            id_a
            batch
            stored
            cached).world.heap
          0
        ≡ (absorb_trace_data stored stored).0)
pending_absorbs_example =
    pending_absorbs ext codec cache cache-LruLaws (trace_cache cache cache) tiers-Laws
      (policy_of 5 ∷ []) id_a batch stored cached 0 (tiers-Inv ((id_a, 0) ∷ [])) cached_found
      decided_pending

abbrev empty : Asp Attributes Tiers (Items TraceId ℕ)
empty = asp_of [] (world_of [] [])

decided_new : (make_decision ext id_a batch (deep_copy (metadata 1)) (policy_of 5 ∷ [])).0 ≡ pending
unfolding make_decision deep_copy policy_decision evaluate evaluate_span_count
decided_new = refl

pending_is_cached_example :
    ((process_new_data ext codec cache
        (trace_cache cache cache)
        (policy_of 5 ∷ [])
        id_a
        batch
        stored
        empty).world.exported
      ≡ [])
    × (find_trace cache
          (process_new_data ext codec cache
            (trace_cache cache cache)
            (policy_of 5 ∷ [])
            id_a
            batch
            stored
            empty).trace_data
          id_a
        ≡ some 1)
    × ((process_new_data ext codec cache
            (trace_cache cache cache)
            (policy_of 5 ∷ [])
            id_a
            batch
            stored
            empty).world.heap
          1
        ≡ stored)
pending_is_cached_example =
    pending_is_cached ext codec cache cache-LruLaws (trace_cache cache cache) tiers-Laws
      (policy_of 5 ∷ []) id_a batch stored empty (tiers-Inv []) (rw (missing id_a) refl) decided_new
