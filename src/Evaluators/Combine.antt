-- ===== src/Evaluators/Combine.antt =====
-- internal/evaluators: what root_spans.go, downgrader.go and and.go make of the verdicts of the
-- evaluators that they hold.
use atlassian_sampling_proce.Base.{
  ◌||◌, Bool, Option, none, some, List, [], ◌∷◌, if◌then◌else◌, ◌==◌, take, drop,
}
use atlassian_sampling_proce.Base.Text.{bytes_equal}
use atlassian_sampling_proce.Priority.{low}
use atlassian_sampling_proce.Library.Pdata.{Bytes, Span, ScopeSpans, Traces}
use atlassian_sampling_proce.Tracedata.Merge.{Metadata}
use atlassian_sampling_proce.Evaluators.Decision.{
  Decision, unspecified, pending, low_priority, is_sampled,
}
use atlassian_sampling_proce.Evaluators.Verdict.{no_span_in_trace, Verdict}

abbrev pub empty_span_id : Bytes
empty_span_id = 0 ∷ 0 ∷ 0 ∷ 0 ∷ 0 ∷ 0 ∷ 0 ∷ 0 ∷ []

-- The decision for a trace that is not promoted.
unfoldable pub root_spans_default : Metadata → Decision
root_spans_default merged = if merged.priority == low then low_priority else pending

module _ {A : Type 0} where
  unfoldable pub first_span_in : List (ScopeSpans A) → Option (Span A)
  first_span_in [] = none
  first_span_in (ss ∷ rest) = elim ss.spans [ [] ↦ first_span_in rest | span ∷ _ ↦ some span ]

  unfoldable pub find_only_span : Traces A → Option (Span A)
  unfolding first_span_in
  find_only_span [] = none
  find_only_span (rs ∷ rest) = elim (first_span_in rs.scope_spans) [
    | none ↦ find_only_span rest
    | some span ↦ some span
  ]

  unfoldable pub is_root_span : Span A → Bool
  unfolding bytes_equal
  is_root_span span =
      bytes_equal span.parent_span_id empty_span_id
      || bytes_equal span.parent_span_id (take 8 (drop 8 span.trace_id))

  -- What root_spans.go makes of the verdict of its sub-policy.
  unfoldable pub only_span_verdict : Metadata → Option (Span A) → Verdict
  unfolding is_root_span root_spans_default
  only_span_verdict merged none = (unspecified, some no_span_in_trace)
  only_span_verdict merged (some span) =
      if is_root_span span then (low_priority, none) else (root_spans_default merged, none)

  unfoldable pub root_spans_verdict : Traces A → Metadata → Verdict → Verdict
  unfolding root_spans_default only_span_verdict find_only_span
  root_spans_verdict current_trace merged (_, some err) = (unspecified, some err)
  root_spans_verdict current_trace merged (decision, none) =
      if is_sampled decision
      then (pending, none)
      else (if merged.span_count == 1
          then only_span_verdict merged (find_only_span current_trace)
          else (root_spans_default merged, none))

-- downgrader.go, of the verdict of its sub-policy
unfoldable pub downgrader_verdict : Decision → Verdict → Verdict
downgrader_verdict downgrade_to (_, some err) = (unspecified, some err)
downgrader_verdict downgrade_to (decision, none) =
    if is_sampled decision then (downgrade_to, none) else (decision, none)

-- One round of the loop in and.go: `rest` is the verdict of the rounds that follow.
unfoldable pub and_verdict : Verdict → Verdict → Verdict
and_verdict (_, some err) rest = (unspecified, some err)
and_verdict (decision, none) rest = if is_sampled decision then rest else (decision, none)
