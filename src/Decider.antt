-- ===== src/Decider.antt =====
-- decider.go: the policies in order, and the first that decides.
pub mod First
use text.Mathlib.Text.{◌==◌ as str_eq}
use atlassian_sampling_proce.Base.{
  Bool, true, false, ◌||◌, not, Option, none, some, String, List, [], ◌∷◌, ◌++◌, if◌then◌else◌,
}
use atlassian_sampling_proce.Library.Float64.{Float64}
use atlassian_sampling_proce.Library.Pdata.{TraceId, Value, AttributeMap, Traces}
use atlassian_sampling_proce.Ptraceutil.{SpanItem, trace_iterator}
use atlassian_sampling_proce.Tracedata.Merge.{Metadata}
use atlassian_sampling_proce.Evaluators.Decision.{
  Decision, unspecified, pending, sampled, not_sampled, low_priority,
}
use atlassian_sampling_proce.Evaluators.Evaluator.{
  Evaluator, evaluate, Started, started, start_failed, start,
}
use atlassian_sampling_proce.Policy.{Policy, DecisionRule, group}

-- One addition to the policy_decisions counter, with its attributes.
pub record PolicyDecision : Type 0 where
  pub policy : String
  pub decision : Decision
  pub decision_from : Option String

-- What of the collector the decider calls; `as_string` is Value.AsString.
pub record Externals (A F R Re : Type 0) : Type 0 where
  pub attrs : AttributeMap A
  pub float : Float64 F
  pub fetch : R → Option F
  pub match_string : Re → String → Bool
  pub as_string : Value → String

unfoldable pub is_decisive : Decision → Bool
is_decisive sampled = true
is_decisive not_sampled = true
is_decisive low_priority = true
is_decisive pending = false
is_decisive unspecified = false

-- Sampled or NotSampled
unfoldable pub is_final : Decision → Bool
is_final sampled = true
is_final not_sampled = true
is_final low_priority = false
is_final pending = false
is_final unspecified = false

unfoldable pub is_pending : Decision → Bool
is_pending pending = true
is_pending sampled = false
is_pending not_sampled = false
is_pending low_priority = false
is_pending unspecified = false

-- Low priority counts as pending unless it comes from the policy that gave it last.
unfoldable pub adjust : Option String → String → Decision → Decision
adjust none name decision = decision
adjust (some last) name low_priority = if str_eq last name then low_priority else pending
adjust (some last) name sampled = sampled
adjust (some last) name not_sampled = not_sampled
adjust (some last) name pending = pending
adjust (some last) name unspecified = unspecified

module _ {A F R Re : Type 0} (ext : Externals A F R Re) where
  unfoldable pub first_attribute : String → List (SpanItem A) → String
  first_attribute key [] = ""
  first_attribute key (item ∷ items) =
      elim (ext.attrs.get item.resource_spans.resource.attributes key) [
        | some v ↦ ext.as_string v
        | none ↦ first_attribute key items
      ]

  unfoldable pub extract_resource_attribute : Traces A → String → String
  unfolding first_attribute
  extract_resource_attribute traces key =
      if str_eq key "" then "" else first_attribute key (trace_iterator traces)

  unfoldable pub decision_from : Policy A F R Re → Traces A → String
  unfolding extract_resource_attribute group
  decision_from p current_trace =
      let value = extract_resource_attribute current_trace p.record_decision_from in
      elim p.decision_grouper [ none ↦ value | some rules ↦ group ext.match_string rules value ]

  unfoldable pub record_metric : Policy A F R Re → Traces A → Decision → List PolicyDecision
  unfolding decision_from is_pending is_final
  record_metric p current_trace decision =
      if is_pending decision
      then []
      else (record {
        policy = p.name;
        decision = decision;
        decision_from = if is_final decision then some (decision_from p current_trace) else none;
      }
          ∷ [])

  module _ (id : TraceId) (current_trace : Traces A) (merged : Metadata) where
    -- The decision of one policy in the loop of MakeDecision; an error is only logged.
    unfoldable pub policy_decision : Policy A F R Re → Decision
    unfolding adjust
    policy_decision p =
        adjust merged.last_low_priority_decision_name p.name
          (evaluate ext.attrs ext.float ext.fetch id current_trace merged p.evaluator).0

    -- The decision and its policy, and the metrics on the way.
    unfoldable pub make_decision :
        List (Policy A F R Re) → Decision × Option (Policy A F R Re) × List PolicyDecision
    unfolding record_metric is_decisive
    make_decision [] = (pending, none, [])
    make_decision (p ∷ policies) =
        let decision = policy_decision p in
        let metrics = record_metric p current_trace decision in
        let rest = make_decision policies in
        if is_decisive decision
        then (decision, some p, metrics)
        else (rest.0, rest.1, metrics ++ rest.2)

-- decider.Start: the policies with their evaluators started, up to the first error.
unfoldable pub start_policies :
    {A F R Re : Type 0}
    → (String → Option (Option R))
    → List (Policy A F R Re)
    → Started (List (Policy A F R Re))
start_policies host [] = started []
start_policies host (p ∷ policies) = elim (start host p.evaluator) [
  | start_failed e ↦ start_failed e
  | started evaluator ↦ elim (start_policies host policies) [
    | start_failed e ↦ start_failed e
    | started rest ↦ started (record p { evaluator = evaluator } ∷ rest)
  ]
]
