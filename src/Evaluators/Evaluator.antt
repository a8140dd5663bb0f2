-- ===== src/Evaluators/Evaluator.antt =====
-- internal/evaluators: PolicyEvaluator with an alternative for each implementation. Here are also
-- and.go, root_spans.go and downgrader.go, which hold evaluators, and Start of policy_eval.go.
use text.Mathlib.Text.{◌==◌ as str_eq}
use atlassian_sampling_proce.Base.{ℕ, Option, none, some, String, List, if◌then◌else◌}
use atlassian_sampling_proce.Base.Int.{ℤ}
use atlassian_sampling_proce.Library.Float64.{Float64}
use atlassian_sampling_proce.Library.Pdata.{TraceId, AttributeMap, StatusCode, Traces}
use atlassian_sampling_proce.Tracedata.Merge.{Metadata}
use atlassian_sampling_proce.Evaluators.Decision.{Decision, sampled}
use atlassian_sampling_proce.Evaluators.Verdict.{Verdict}
use atlassian_sampling_proce.Evaluators.Combine.{
  root_spans_verdict, downgrader_verdict, and_verdict,
}
use atlassian_sampling_proce.Evaluators.Probabilistic.{
  ProbabilisticSampler, RemoteProbabilisticSampler, evaluate_probabilistic, evaluate_remote,
}
use atlassian_sampling_proce.Evaluators.Threshold.{evaluate_threshold}
use atlassian_sampling_proce.Evaluators.Simple.{
  evaluate_span_count, evaluate_latency, evaluate_status_code, OttlConditionEvaluator,
  evaluate_ottl,
}

mutual
  pub data Evaluator (A F R : Type 0) : Type 0 where
    probabilistic : ProbabilisticSampler → Evaluator A F R
    remote_probabilistic : RemoteProbabilisticSampler F R → Evaluator A F R
    span_count : ℕ → Evaluator A F R
    latency : ℤ → Evaluator A F R
    status_code : List StatusCode → Evaluator A F R
    ottl_condition : OttlConditionEvaluator A → Evaluator A F R
    threshold : Evaluator A F R
    and_all : Evaluators A F R → Evaluator A F R
    root_spans : Evaluator A F R → Evaluator A F R
    downgrader : Decision → Evaluator A F R → Evaluator A F R

  pub data Evaluators (A F R : Type 0) : Type 0 where
    nil : Evaluators A F R
    cons : Evaluator A F R → Evaluators A F R → Evaluators A F R

module _ {A F R : Type 0} (attrs : AttributeMap A) (float : Float64 F) (fetch : R → Option F)
    (id : TraceId) (current_trace : Traces A) (merged : Metadata) where
  unfoldable mutual
    unfolding root_spans_verdict downgrader_verdict and_verdict

    pub evaluate : Evaluator A F R → Verdict
    evaluate (probabilistic s) = evaluate_probabilistic s id
    evaluate (remote_probabilistic s) = evaluate_remote float fetch s id
    evaluate (span_count min_spans) = evaluate_span_count min_spans merged
    evaluate (latency threshold_ms) = evaluate_latency threshold_ms merged
    evaluate (status_code codes) = evaluate_status_code codes current_trace
    evaluate (ottl_condition oce) = evaluate_ottl oce current_trace
    evaluate threshold = evaluate_threshold attrs id current_trace
    evaluate (and_all subs) = evaluate_all subs
    evaluate (root_spans sub) = root_spans_verdict current_trace merged (evaluate sub)
    evaluate (downgrader downgrade_to sub) = downgrader_verdict downgrade_to (evaluate sub)

    pub evaluate_all : Evaluators A F R → Verdict
    evaluate_all nil = (sampled, none)
    evaluate_all (cons sub subs) = and_verdict (evaluate sub) (evaluate_all subs)

-- Start. `host` is host.GetExtensions(): `none` if there is no extension of that id, `some none` if
-- it is no rate getter.
pub data StartError : Type 0 where
  not_found not_a_rate_getter : StartError

pub data Started (X : Type 0) : Type 0 where
  started : X → Started X
  start_failed : StartError → Started X

unfoldable pub start_remote :
    {F R : Type 0}
    → (String → Option (Option R))
    → RemoteProbabilisticSampler F R
    → Started (RemoteProbabilisticSampler F R)
start_remote host s =
    if str_eq s.rate_getter_ext "" then started s else elim (host s.rate_getter_ext) [
      | none ↦ start_failed not_found
      | some none ↦ start_failed not_a_rate_getter
      | some (some rg) ↦ started (record s { rate_getter = some rg })
    ]

-- Every other evaluator has the Start of a nil StartFunc, or one that returns nil.
unfoldable pub start :
    {A F R : Type 0} → (String → Option (Option R)) → Evaluator A F R → Started (Evaluator A F R)
unfolding start_remote
start host (remote_probabilistic s) = elim (start_remote host s) [
  | started s' ↦ started (remote_probabilistic s')
  | start_failed e ↦ start_failed e
]
start host e = started e
