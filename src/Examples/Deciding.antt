-- ===== src/Examples/Deciding.antt =====
-- The theorems on the decider and on traces that are not sampled, at concrete inputs.
use atlassian_sampling_proce.Base.{
  ℕ, ◌≡◌, ◌⊎◌, refl, true, false, none, some, String, List, [], ◌∷◌, ◌++◌, All, inl, arith,
}
use atlassian_sampling_proce.Library.Pdata.{TraceId}
use atlassian_sampling_proce.Library.LruList.{Items, find}
use atlassian_sampling_proce.Tracedata.Merge.{Metadata, deep_copy}
use atlassian_sampling_proce.Evaluators.Decision.{pending, low_priority, is_sampled}
use atlassian_sampling_proce.Evaluators.Evaluator.{downgrader, span_count, evaluate}
use atlassian_sampling_proce.Evaluators.Simple.{evaluate_span_count}
use atlassian_sampling_proce.Policy.{Policy}
use atlassian_sampling_proce.Decider.{make_decision, policy_decision}
use atlassian_sampling_proce.Decider.First.{decides, make_decision_first, low_priority_keeps_name}
use atlassian_sampling_proce.Processor.State.{Asp}
use atlassian_sampling_proce.Processor.Decisions.{remove_flush_count}
use atlassian_sampling_proce.Processor.ProcessTraces.{process_new_data}
use atlassian_sampling_proce.Processor.Exclusive.{TraceId-discrete, not_sampled_at, IsExclusive}
use atlassian_sampling_proce.Processor.TraceCache.{trace_cache, find_trace, trace_cache-CacheLaws}
use atlassian_sampling_proce.Examples.Data.{
  Attributes, ext, codec, cache, cache-LruLaws, id_a, batch, metadata, stored, world_of, Tiers,
  asp_of, policy_of,
}
use atlassian_sampling_proce.Evaluators.Decision.{not_sampled}
use atlassian_sampling_proce.Priority.{low}
use atlassian_sampling_proce.Cache.TieredCache
use atlassian_sampling_proce.Processor.State.{priority_at}
use atlassian_sampling_proce.Processor.Undecided.{IsUndecided}
use atlassian_sampling_proce.Processor.TraceCache.{primary_cache, secondary_cache}
use atlassian_sampling_proce.Processor.Promotion.{promotion_keeps_IsUndecided}
use atlassian_sampling_proce.Base.{◌≢◌}
use atlassian_sampling_proce.Examples.Data.{entries}
use atlassian_sampling_proce.Processor.Release.{not_sampled_releases}
use atlassian_sampling_proce.Processor.Process.{placeholder, merged_metadata}

abbrev low_policy : Policy Attributes ℕ ℕ String
low_policy = record (policy_of 1) { evaluator = downgrader low_priority (span_count 1) }

abbrev low_metadata : Metadata
low_metadata = record (metadata 1) { last_low_priority_decision_name = some "spans" }

decided_low :
    (make_decision ext id_a batch low_metadata (policy_of 5 ∷ low_policy ∷ [])).0 ≡ low_priority
unfolding make_decision policy_decision evaluate evaluate_span_count is_sampled
decided_low = refl

decided_low_by :
    (make_decision ext id_a batch low_metadata (policy_of 5 ∷ low_policy ∷ [])).1 ≡ some low_policy
unfolding make_decision policy_decision evaluate evaluate_span_count is_sampled
decided_low_by = refl

low_priority_keeps_name_example : low_policy.name ≡ "spans"
low_priority_keeps_name_example =
    low_priority_keeps_name ext id_a batch low_metadata (policy_of 5 ∷ low_policy ∷ []) low_policy
      "spans" refl decided_low decided_low_by

abbrev policies : List (Policy Attributes ℕ ℕ String)
policies = policy_of 5 ∷ policy_of 2 ∷ []

make_decision_first_example :
    (All (λ p. decides ext id_a batch (metadata 3) p ≡ false) policies
      × ((make_decision ext id_a batch (metadata 3) policies).0 ≡ pending)
      × ((make_decision ext id_a batch (metadata 3) policies).1 ≡ none))
    ⊎ ((before : List (Policy Attributes ℕ ℕ String)) × (p : Policy Attributes ℕ ℕ String)
        × (after : List (Policy Attributes ℕ ℕ String)) × (policies ≡ before ++ p ∷ after)
        × All (λ q. decides ext id_a batch (metadata 3) q ≡ false) before
        × (decides ext id_a batch (metadata 3) p ≡ true)
        × ((make_decision ext id_a batch (metadata 3) policies).0
            ≡ policy_decision ext id_a batch (metadata 3) p)
        × ((make_decision ext id_a batch (metadata 3) policies).1 ≡ some p))
make_decision_first_example = make_decision_first ext id_a batch (metadata 3) policies

abbrev dropping : Policy Attributes ℕ ℕ String
dropping = record (policy_of 1) {
  emit_single_span_for_not_sampled = true;
  evaluator = downgrader not_sampled (span_count 1);
}

abbrev asp_in : Asp Attributes Tiers (Items TraceId ℕ)
asp_in = asp_of [] (world_of [] [])

asp_in-IsExclusive : IsExclusive cache (world_of [] [])
unfolding find
asp_in-IsExclusive = record { room = omega arith; other_room = omega arith; apart = λ q. inl refl }

decided_not_sampled :
    (make_decision ext id_a batch
      (merged_metadata stored (find_trace cache asp_in.trace_data id_a) asp_in.world)
      (dropping ∷ [])).0
    ≡ not_sampled
unfolding make_decision policy_decision evaluate evaluate_span_count is_sampled merged_metadata find
    deep_copy
decided_not_sampled = refl

decided_not_sampled_by :
    (make_decision ext id_a batch
      (merged_metadata stored (find_trace cache asp_in.trace_data id_a) asp_in.world)
      (dropping ∷ [])).1
    ≡ some dropping
unfolding make_decision policy_decision evaluate evaluate_span_count is_sampled merged_metadata find
    deep_copy
decided_not_sampled_by = refl

not_sampled_releases_example :
    (find_trace cache
        (process_new_data ext codec cache
          (trace_cache cache cache)
          (dropping ∷ [])
          id_a
          batch
          stored
          asp_in).trace_data
        id_a
      ≡ none)
    × (not_sampled_at cache
          (process_new_data ext codec cache
            (trace_cache cache cache)
            (dropping ∷ [])
            id_a
            batch
            stored
            asp_in).world
          id_a
        ≡ some 500)
    × ((process_new_data ext codec cache
          (trace_cache cache cache)
          (dropping ∷ [])
          id_a
          batch
          stored
          asp_in).world.exported
        ≡ remove_flush_count ext.attrs
            (placeholder ext.attrs id_a asp_in.world.random_span_id 500 "spans")
          ∷ [])
not_sampled_releases_example =
    not_sampled_releases ext codec cache cache-LruLaws (trace_cache cache cache)
      (trace_cache-CacheLaws cache cache cache-LruLaws) (dropping ∷ []) id_a batch stored asp_in
      dropping asp_in-IsExclusive decided_not_sampled decided_not_sampled_by

abbrev tiers_in : Tiers
tiers_in = record { primary = entries []; secondary = entries ((id_a, 0) ∷ []) }

tiers_in_here : find {V = ℕ} TraceId-discrete id_a ((id_a, 0) ∷ []) ≡ some 0
unfolding find
tiers_in_here = ground arith

tiers_in_high : priority_at 0 (world_of [] []) ≢ low
unfolding priority_at
tiers_in_high e = absurd (omega (arith, e))

asp_in-IsUndecided : IsUndecided cache id_a (world_of [] [])
unfolding find
asp_in-IsUndecided = record { no_sampled = refl; no_not_sampled = refl }

promotion_keeps_IsUndecided_example :
    IsUndecided cache id_a
      (TieredCache.put priority_at
        (primary_cache cache cache)
        (secondary_cache cache cache)
        tiers_in
        id_a
        0
        (world_of [] [])).1
promotion_keeps_IsUndecided_example =
    promotion_keeps_IsUndecided cache cache-LruLaws cache cache-LruLaws tiers_in id_a 0
      (world_of [] []) (omega arith) tiers_in_here tiers_in_high asp_in-IsExclusive
      asp_in-IsUndecided
