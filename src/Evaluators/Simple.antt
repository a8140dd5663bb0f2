-- ===== src/Evaluators/Simple.antt =====
-- internal/evaluators: span_count_sampler.go, latency.go, status_code.go and ottl.go.
use atlassian_sampling_proce.Base.{
  ℕ, Bool, true, false, Option, none, some, List, [], ◌∷◌, if◌then◌else◌, String,
}
use text.Mathlib.Text.{◌==◌ as str_eq}
use atlassian_sampling_proce.Base.Int.{ℤ, pos, negsuc, ◌-ℤ◌, leb_ℤ, ltb_ℤ, quot, of_int32, of_int64}
use atlassian_sampling_proce.Library.Pdata.{StatusCode, unset, ok, error, SpanEvent, Traces}
use atlassian_sampling_proce.Ptraceutil.{SpanItem, trace_iterator}
use atlassian_sampling_proce.Tracedata.Merge.{Metadata}
use atlassian_sampling_proce.Evaluators.Decision.{pending, sampled}
use atlassian_sampling_proce.Evaluators.Verdict.{condition_failed, Verdict}

-- `min_spans` is an int32 as its bit pattern. The log line is left out.
unfoldable pub evaluate_span_count : ℕ → Metadata → Verdict
unfolding of_int32
evaluate_span_count min_spans merged =
    if leb_ℤ (of_int32 min_spans) (of_int32 merged.span_count)
    then (sampled, none)
    else (pending, none)

-- time.Time.Sub: the difference in nanoseconds, saturated to the range of an int64.
abbrev pub max_duration : ℤ
max_duration = pos 9_223_372_036_854_775_807

abbrev pub min_duration : ℤ
min_duration = negsuc 9_223_372_036_854_775_807

unfoldable pub saturate : ℤ → ℤ
saturate d =
    if ltb_ℤ max_duration d
    then max_duration
    else (if ltb_ℤ d min_duration then min_duration else d)

-- Timestamp.AsTime goes through int64(ts).
unfoldable pub duration_ms : ℕ → ℕ → ℤ
unfolding quot saturate of_int64 ◌-ℤ◌
duration_ms start end = quot (saturate (of_int64 end -ℤ of_int64 start)) 1_000_000

unfoldable pub evaluate_latency : ℤ → Metadata → Verdict
unfolding duration_ms
evaluate_latency threshold_ms merged =
    if leb_ℤ threshold_ms (duration_ms merged.earliest_start_time merged.latest_end_time)
    then (sampled, none)
    else (pending, none)

unfoldable pub status_equal : StatusCode → StatusCode → Bool
status_equal unset unset = true
status_equal ok ok = true
status_equal error error = true
status_equal _ _ = false

unfoldable pub parse_status : String → Option StatusCode
parse_status s =
    if str_eq s "OK"
    then some ok
    else (if str_eq s "ERROR" then some error else (if str_eq s "UNSET" then some unset else none))

unfoldable pub parse_statuses : List String → Option (List StatusCode)
unfolding parse_status
parse_statuses [] = some []
parse_statuses (s ∷ rest) = elim (parse_status s) [
  | none ↦ none
  | some c ↦ elim (parse_statuses rest) [ none ↦ none | some cs ↦ some (c ∷ cs) ]
]

-- `none` is an error: no status code, or an unknown one.
unfoldable pub new_status_code_evaluator : List String → Option (List StatusCode)
unfolding parse_statuses
new_status_code_evaluator [] = none
new_status_code_evaluator (s ∷ rest) = parse_statuses (s ∷ rest)

unfoldable pub has_status : List StatusCode → StatusCode → Bool
unfolding status_equal
has_status [] c = false
has_status (code ∷ codes) c = if status_equal c code then true else has_status codes c

module _ {A : Type 0} where
  unfoldable pub any_status : List StatusCode → List (SpanItem A) → Bool
  unfolding has_status
  any_status codes [] = false
  any_status codes (item ∷ items) =
      if has_status codes item.span.status then true else any_status codes items

  unfoldable pub evaluate_status_code : List StatusCode → Traces A → Verdict
  unfolding any_status
  evaluate_status_code codes current_trace =
      if any_status codes (trace_iterator current_trace) then (sampled, none) else (pending, none)

-- The OTTL conditions are the library's BoolExpr: `none` is an error of Eval.
pub record OttlConditionEvaluator (A : Type 0) : Type 0 where
  pub sample_span_expr : Option (SpanItem A → Option Bool)
  pub sample_span_event_expr : Option (SpanItem A → SpanEvent A → Option Bool)

-- A result that ends the loop, or `none` to go on.
unfoldable pub on_result : Option Bool → Option Verdict
on_result none = some (pending, some condition_failed)
on_result (some true) = some (sampled, none)
on_result (some false) = none

module _ {A : Type 0} where
  unfoldable pub check_span : Option (SpanItem A → Option Bool) → SpanItem A → Option Verdict
  unfolding on_result
  check_span none item = none
  check_span (some expr) item = on_result (expr item)

  unfoldable pub check_each_event :
      (SpanItem A → SpanEvent A → Option Bool) → SpanItem A → List (SpanEvent A) → Option Verdict
  unfolding on_result
  check_each_event expr item [] = none
  check_each_event expr item (event ∷ events) =
      let rest = check_each_event expr item events in
      elim (on_result (expr item event)) [ some v ↦ some v | none ↦ rest ]

  unfoldable pub check_events :
      Option (SpanItem A → SpanEvent A → Option Bool) → SpanItem A → Option Verdict
  unfolding check_each_event
  check_events none item = none
  check_events (some expr) item = check_each_event expr item item.span.events

  unfoldable pub evaluate_items : OttlConditionEvaluator A → List (SpanItem A) → Verdict
  unfolding check_span check_events
  evaluate_items oce [] = (pending, none)
  evaluate_items oce (item ∷ items) =
      let rest = evaluate_items oce items in
      elim (check_span oce.sample_span_expr item) [
        | some v ↦ v
        | none ↦ elim (check_events oce.sample_span_event_expr item) [ some v ↦ v | none ↦ rest ]
      ]

  unfoldable pub evaluate_ottl_fields :
      Option (SpanItem A → Option Bool)
      → Option (SpanItem A → SpanEvent A → Option Bool)
      → OttlConditionEvaluator A
      → Traces A
      → Verdict
  unfolding evaluate_items
  evaluate_ottl_fields none none oce current_trace = (pending, none)
  evaluate_ottl_fields (some e) f oce current_trace =
      evaluate_items oce (trace_iterator current_trace)
  evaluate_ottl_fields none (some f) oce current_trace =
      evaluate_items oce (trace_iterator current_trace)

  unfoldable pub evaluate_ottl : OttlConditionEvaluator A → Traces A → Verdict
  unfolding evaluate_ottl_fields
  evaluate_ottl oce current_trace =
      evaluate_ottl_fields oce.sample_span_expr oce.sample_span_event_expr oce current_trace
