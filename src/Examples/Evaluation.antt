-- ===== src/Examples/Evaluation.antt =====
-- The theorems on evaluators, policies, trace data and the regulator, at concrete inputs.
use atlassian_sampling_proce.Base.{
  ◌+◌, ◌*◌, ℕ, ◌≡◌, ◌≢◌, ◌≤◌, ◌↔◌, refl, true, false, none, some, String, List, [], ◌∷◌, All, Any,
  ◌++◌, arith,
}
use atlassian_sampling_proce.Base.Int.{pos}
use atlassian_sampling_proce.Library.Pdata.{error, unset, Traces}
use atlassian_sampling_proce.Ptraceutil.{trace_iterator}
use atlassian_sampling_proce.Tracedata.{
  TraceData, success, snappy, new_trace_data, absorb_trace_data, new_metadata,
}
use atlassian_sampling_proce.Tracedata.Merge.{merge_with}
use atlassian_sampling_proce.Tracedata.Storage.{
  Stores, new_trace_data-Stores, absorb_trace_data-Stores,
}
use atlassian_sampling_proce.Tracedata.Bounds.{merge_with-new_metadata}
use atlassian_sampling_proce.Evaluators.Decision.{sampled, pending, not_sampled}
use atlassian_sampling_proce.Evaluators.Probabilistic.{
  new_probabilistic_sampler, new_remote_probabilistic_sampler,
}
use atlassian_sampling_proce.Evaluators.Threshold.{evaluate_threshold, get_rv}
use atlassian_sampling_proce.Evaluators.Sampling.{AnyAdmits, threshold_sampled}
use atlassian_sampling_proce.Evaluators.Evaluator.{
  Evaluator, probabilistic, remote_probabilistic, span_count, threshold, and_all, downgrader, nil,
  cons, evaluate, started, start,
}
use atlassian_sampling_proce.Evaluators.Verdict.{condition_failed}
use atlassian_sampling_proce.Evaluators.Simple.{
  evaluate_latency, OttlConditionEvaluator, evaluate_ottl, has_status, new_status_code_evaluator,
  evaluate_status_code,
}
use atlassian_sampling_proce.Evaluators.Conditions.{results, FirstIs, ottl_outcomes}
use atlassian_sampling_proce.Evaluators.Latency.{latency_sampled}
use atlassian_sampling_proce.Evaluators.Statuses.{IsNamed, status_code_sampled}
use atlassian_sampling_proce.Evaluators.Outcomes.{
  AllSampled, and_all_sampled, nested_remote_default,
}
use atlassian_sampling_proce.Regulator.{Sizer, Regulator, new_regulator, regulate_cache_size}
use atlassian_sampling_proce.Regulator.Bounds.{regulated_bounds}
use atlassian_sampling_proce.Examples.Data.{
  Attributes, attrs, float, resource_codec, resource_codec-CodecLaws, no_scopes, id_a, batch,
  metadata,
}

abbrev subs : Evaluator Attributes ℕ ℕ
subs = and_all (cons (span_count 2) (cons threshold nil))

threshold_sampled_example :
    (evaluate_threshold attrs id_a batch ≡ (sampled, none))
    ↔ AnyAdmits attrs (get_rv id_a) (trace_iterator batch)
threshold_sampled_example = threshold_sampled attrs id_a batch

and_all_sampled_example :
    (evaluate {F = ℕ} {R = ℕ} attrs float
        (λ n. some n)
        id_a
        batch
        (metadata 3)
        (and_all (cons (span_count 2) (cons threshold nil)))
      ≡ (sampled, none))
    ↔ AllSampled {F = ℕ} {R = ℕ} attrs float
        (λ n. some n)
        id_a
        batch
        (metadata 3)
        (cons (span_count 2) (cons threshold nil))
and_all_sampled_example =
    and_all_sampled attrs float (λ n. some n) id_a batch (metadata 3)
      (cons (span_count 2) (cons threshold nil))

-- Spans in error, and spans with an event, which cannot be tested.
abbrev conditions : OttlConditionEvaluator Attributes
conditions = record {
  sample_span_expr = some (λ item. some (has_status (error ∷ []) item.span.status));
  sample_span_event_expr = some (λ item event. none);
}

ottl_outcomes_example :
    let rs = results conditions (trace_iterator batch) in
    ((evaluate_ottl conditions batch ≡ (sampled, none)) ↔ FirstIs (some true) rs)
    × ((evaluate_ottl conditions batch ≡ (pending, some condition_failed)) ↔ FirstIs none rs)
    × ((evaluate_ottl conditions batch ≡ (pending, none)) ↔ All (λ q. q ≡ some false) rs)
ottl_outcomes_example = ottl_outcomes conditions batch

abbrev status_names : List String
status_names = "ERROR" ∷ "UNSET" ∷ []

statuses_made : new_status_code_evaluator status_names ≡ some (error ∷ unset ∷ [])
unfolding new_status_code_evaluator
statuses_made = refl

status_code_sampled_example :
    ((evaluate_status_code (error ∷ unset ∷ []) batch ≡ (sampled, none))
      ↔ Any (λ i. IsNamed status_names i.span.status) (trace_iterator batch))
    × ((evaluate_status_code (error ∷ unset ∷ []) batch ≡ (pending, none))
        ↔ ¬ Any (λ i. IsNamed status_names i.span.status) (trace_iterator batch))
status_code_sampled_example =
    status_code_sampled status_names (error ∷ unset ∷ []) batch statuses_made

abbrev nested : Evaluator Attributes ℕ ℕ
nested =
    downgrader not_sampled
      (remote_probabilistic (new_remote_probabilistic_sampler float "salt" 40 "rates"))

nested_starts : start (λ name. some (some 90)) nested ≡ started nested
unfolding start
nested_starts = refl

nested_remote_default_example :
    evaluate attrs float (λ n. some n) id_a batch (metadata 1) nested
    ≡ evaluate attrs float
        (λ n. some n)
        id_a
        batch
        (metadata 1)
        (downgrader not_sampled (probabilistic (new_probabilistic_sampler float "salt" 40)))
nested_remote_default_example =
    nested_remote_default attrs float (λ n. some n) id_a batch (metadata 1) (λ name. some (some 90))
      not_sampled "salt" 40 "rates" nested nested_starts

abbrev regulator : Regulator
regulator = record { min_size = 10; max_size = 100; target_heap = 1000 }

regulator_new : new_regulator (pos 10) (pos 100) 1000 true true ≡ some regulator
unfolding new_regulator
regulator_new = refl

-- The size alone is the cache.
abbrev sizer : Sizer ℕ
sizer = record { size = λ c. c; resize = λ c n. n }

regulated_bounds_example :
    (10 ≤ (regulate_cache_size float sizer regulator 3000 50).1)
    × ((regulate_cache_size float sizer regulator 3000 50).1 ≤ 100)
    × ((regulate_cache_size float sizer regulator 3000 50).0
        ≡ (regulate_cache_size float sizer regulator 3000 50).1)
regulated_bounds_example =
    regulated_bounds float sizer (λ c n. refl) regulator 3000 50 (omega arith)

abbrev two_resources : Traces (Unit {0})
two_resources = no_scopes ∷ no_scopes ∷ []

abbrev compressed : TraceData (Unit {0})
compressed = record {
  metadata = new_metadata 300 two_resources 2;
  underlying = snappy ((7 ∷ 0 ∷ 0 ∷ []) ∷ []);
}

compressed_new : new_trace_data resource_codec 300 two_resources 2 true ≡ success compressed
unfolding new_trace_data
compressed_new = refl

new_trace_data-Stores_example : Stores resource_codec true compressed two_resources
new_trace_data-Stores_example =
    new_trace_data-Stores resource_codec resource_codec-CodecLaws 300 two_resources 2 true
      compressed_new

compressed_stored : Stores resource_codec true compressed two_resources
compressed_stored =
    new_trace_data-Stores resource_codec resource_codec-CodecLaws 300 two_resources 2 true
      compressed_new

absorb_trace_data-Stores_example :
    ((absorb_trace_data compressed compressed).1 ≡ none)
    × Stores resource_codec true
        (absorb_trace_data compressed compressed).0
        (two_resources ++ two_resources)
absorb_trace_data-Stores_example =
    absorb_trace_data-Stores resource_codec true compressed compressed two_resources two_resources
      compressed_stored compressed_stored

has_span : trace_iterator batch ≢ []
unfolding trace_iterator
has_span e = absurd (cc)

merge_with-new_metadata_example :
    merge_with (new_metadata 300 batch 2) (new_metadata 200 batch 1)
    ≡ new_metadata 200 (batch ++ batch) 2
unfolding new_metadata trace_iterator merge_with
merge_with-new_metadata_example =
    merge_with-new_metadata 300 200 batch batch 2 1 has_span has_span ((λ e. ground arith), tt)
      ((λ e. ground arith), tt)

latency_sampled_example :
    ((evaluate_latency (pos 20) (metadata 1) ≡ (sampled, none))
      ↔ ((metadata 1).earliest_start_time + 20 * 1_000_000 ≤ (metadata 1).latest_end_time))
    × ((evaluate_latency (pos 20) (metadata 1) ≡ (pending, none))
        ↔ ¬ ((metadata 1).earliest_start_time + 20 * 1_000_000 ≤ (metadata 1).latest_end_time))
latency_sampled_example = latency_sampled 20 (metadata 1) (omega arith) (omega arith) (omega arith)
