-- ===== src/Policy.antt =====
-- policy.go: a configured policy, and the grouping of the values that its metric is recorded from.
-- `Re` is *regexp.Regexp, and `match_string` its MatchString.
use atlassian_sampling_proce.Base.{Bool, Option, none, some, String, List, [], ◌∷◌, if◌then◌else◌}
use atlassian_sampling_proce.Evaluators.Evaluator.{Evaluator}

pub record DecisionRule (Re : Type 0) : Type 0 where
  pub re : Re
  pub value : String

pub record DecisionMapping : Type 0 where
  pub pattern : String
  pub value : String

-- policyType is kept by the source and read nowhere.
pub record Policy (A F R Re : Type 0) : Type 0 where
  pub name : String
  pub emit_single_span_for_not_sampled : Bool
  pub evaluator : Evaluator A F R
  pub record_decision_from : String
  pub decision_grouper : Option (List (DecisionRule Re))

-- decisionGrouper.group
unfoldable pub group :
    {Re : Type 0} → (Re → String → Bool) → List (DecisionRule Re) → String → String
group match_string [] value = value
group match_string (r ∷ rules) value =
    if match_string r.re value then r.value else group match_string rules value

-- The loop of newDecisionGrouper; `compile` is regexp.Compile, and `none` an error.
unfoldable pub compile_rules :
    {Re : Type 0} → (String → Option Re) → List DecisionMapping → Option (List (DecisionRule Re))
compile_rules compile [] = some []
compile_rules compile (m ∷ mappings) = elim (compile m.pattern) [
  | none ↦ none
  | some re ↦ elim (compile_rules compile mappings) [
    | none ↦ none
    | some rules ↦ some (record { re = re; value = m.value } ∷ rules)
  ]
]

-- The outer `none` is an error; `some none` is the nil grouper of no mappings.
unfoldable pub new_decision_grouper :
    {Re : Type 0}
    → (String → Option Re)
    → List DecisionMapping
    → Option (Option (List (DecisionRule Re)))
unfolding compile_rules
new_decision_grouper compile [] = some none
new_decision_grouper compile (m ∷ mappings) = elim (compile_rules compile (m ∷ mappings)) [
  | none ↦ none
  | some rules ↦ some (some rules)
]
