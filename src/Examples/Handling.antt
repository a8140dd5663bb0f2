-- ===== src/Examples/Handling.antt =====
-- The theorems on the handling of spans of decided traces, at concrete inputs.
use atlassian_sampling_proce.Base.{ℕ, ◌≡◌, refl, false, some, [], ◌∷◌, inr, arith}
use atlassian_sampling_proce.Library.Pdata.{Traces, TraceId}
use atlassian_sampling_proce.Library.LruList.{Items, find}
use atlassian_sampling_proce.Processor.State.{Asp}
use atlassian_sampling_proce.Processor.Process.{sampled_decision_span}
use atlassian_sampling_proce.Processor.ProcessTraces.{process_group}
use atlassian_sampling_proce.Processor.Exclusive.{sampled_at, not_sampled_at, IsExclusive}
use atlassian_sampling_proce.Processor.Undecided.{IsUndecided}
use atlassian_sampling_proce.Processor.Decided.{process_group-IsExclusive}
use atlassian_sampling_proce.Processor.Moved.{IsSentOf}
use atlassian_sampling_proce.Processor.Exports.{late_spans_exported, late_spans_dropped}
use atlassian_sampling_proce.Processor.TraceCache.{trace_cache}
use atlassian_sampling_proce.Processor.Conflict.{sampled_span_conflict}
use atlassian_sampling_proce.Examples.Data.{
  attrs-Laws, attrs, Attributes, ext, codec, cache, cache-LruLaws, id_a, id_b, plain, group_of,
  world_of, Tiers, asp_of, policy_of,
}
use atlassian_sampling_proce.Examples.Caches.{world-IsExclusive, found, missing, tiers-Laws}

one_sampled-IsExclusive : IsExclusive cache (world_of ((id_b, 400) ∷ []) [])
unfolding find
one_sampled-IsExclusive = record {
  room = omega arith;
  other_room = omega arith;
  apart = λ q. inr refl;
}

world-IsUndecided : IsUndecided cache id_a (world_of [] [])
unfolding find
world-IsUndecided = record { no_sampled = refl; no_not_sampled = refl }

process_group-IsExclusive_example :
    IsExclusive cache
      (process_group ext codec cache
        (trace_cache cache cache)
        (policy_of 2 ∷ [])
        false
        (group_of id_a plain)
        (asp_of ((id_a, 0) ∷ []) (world_of ((id_b, 400) ∷ []) []))).world
process_group-IsExclusive_example =
    process_group-IsExclusive ext codec cache cache-LruLaws (trace_cache cache cache) tiers-Laws
      (policy_of 2 ∷ []) false (group_of id_a plain)
      (asp_of ((id_a, 0) ∷ []) (world_of ((id_b, 400) ∷ []) [])) one_sampled-IsExclusive
      (λ v e. absurd (cc))

sampled_span_conflict_example :
    (sampled_at cache
        (sampled_decision_span ext codec cache
          (trace_cache cache cache)
          id_a
          (asp_of ((id_a, 0) ∷ []) (world_of [] []))).world
        id_a
      ≡ some 500)
    × (not_sampled_at cache
          (sampled_decision_span ext codec cache
            (trace_cache cache cache)
            id_a
            (asp_of ((id_a, 0) ∷ []) (world_of [] []))).world
          id_a
        ≡ some 500)
sampled_span_conflict_example =
    sampled_span_conflict ext codec cache cache-LruLaws cache cache-LruLaws id_a 0
      (asp_of ((id_a, 0) ∷ []) (world_of [] [])) world-IsExclusive world-IsUndecided (found id_a 0)
      (missing id_a)

abbrev late : Asp Attributes Tiers (Items TraceId ℕ)
late = asp_of [] (world_of ((id_a, 400) ∷ []) [])

late_spans_exported_example :
    (t : Traces Attributes) × ((process_group ext codec cache
        (trace_cache cache cache)
        (policy_of 2 ∷ [])
        false
        (group_of id_a plain)
        late).world.exported
      ≡ t ∷ [])
    × IsSentOf attrs plain (group_of id_a plain).spans t
    × ((process_group ext codec cache
          (trace_cache cache cache)
          (policy_of 2 ∷ [])
          false
          (group_of id_a plain)
          late).trace_data
        ≡ late.trace_data)
late_spans_exported_example =
    late_spans_exported ext codec cache cache-LruLaws (trace_cache cache cache) tiers-Laws
      attrs-Laws (policy_of 2 ∷ []) false (group_of id_a plain) late 400 refl (found id_a 400)

abbrev too_late : Asp Attributes Tiers (Items TraceId ℕ)
too_late = asp_of [] (world_of [] ((id_a, 400) ∷ []))

late_spans_dropped_example :
    ((process_group ext codec cache
        (trace_cache cache cache)
        (policy_of 2 ∷ [])
        false
        (group_of id_a plain)
        too_late).world.exported
      ≡ [])
    × ((process_group ext codec cache
          (trace_cache cache cache)
          (policy_of 2 ∷ [])
          false
          (group_of id_a plain)
          too_late).trace_data
        ≡ too_late.trace_data)
late_spans_dropped_example =
    late_spans_dropped ext codec cache cache-LruLaws (trace_cache cache cache) tiers-Laws
      (policy_of 2 ∷ []) false (group_of id_a plain) too_late 400 (missing id_a) (found id_a 400)
