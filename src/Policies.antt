-- ===== src/Policies.antt =====
-- decider.go and policy.go: how the policies are made of their configuration.
pub mod Conditions
pub mod Built
use text.Mathlib.Text.{◌==◌ as str_eq}
use atlassian_sampling_proce.Base.{Bool, Option, none, some, String, List, [], ◌∷◌, if◌then◌else◌}
use atlassian_sampling_proce.Library.Float64.{Float64}
use atlassian_sampling_proce.Library.Ottl.{Ottl}
use atlassian_sampling_proce.Library.Pdata.{SpanEvent}
use atlassian_sampling_proce.Ptraceutil.{SpanItem}
use atlassian_sampling_proce.Evaluators.Decision.{string_to_decision}
use atlassian_sampling_proce.Evaluators.Probabilistic.{
  new_probabilistic_sampler, new_remote_probabilistic_sampler,
}
use atlassian_sampling_proce.Evaluators.Simple.{OttlConditionEvaluator, new_status_code_evaluator}
use atlassian_sampling_proce.Evaluators.Evaluator.{
  Evaluator, Evaluators, probabilistic, remote_probabilistic, span_count, latency, status_code,
  ottl_condition, threshold, and_all, root_spans, downgrader, nil, cons,
}
use atlassian_sampling_proce.Policy.{Policy, DecisionRule, new_decision_grouper}
use atlassian_sampling_proce.Config.{
  probabilistic_type, and_type, downgrader_type, span_count_type, root_spans_type, latency_type,
  status_code_type, ottl_condition_type, threshold_type, remote_probabilistic_type,
  SharedPolicyConfig, AndConfig, RootSpansConfig, DowngraderConfig, RecordDecisionFrom,
  PolicyConfig, contains_name,
}
use atlassian_sampling_proce.Policies.Conditions.{Makers, new_ottl_condition_evaluator}

module _ {A Re : Type 0} (makers : Makers A Re) where
  module _ {F R : Type 0} (float : Float64 F) where
    -- The constructors that cannot fail are those of Evaluator.
    unfoldable pub get_shared_policy_evaluator : SharedPolicyConfig F → Option (Evaluator A F R)
    unfolding new_ottl_condition_evaluator
    get_shared_policy_evaluator cfg =
        if str_eq cfg.policy_type probabilistic_type
        then some (
            probabilistic (
              new_probabilistic_sampler float cfg.probabilistic_config.hash_salt
                cfg.probabilistic_config.sampling_percentage))
        else (if str_eq cfg.policy_type span_count_type
            then some (span_count cfg.span_count_config.min_spans)
            else (if str_eq cfg.policy_type latency_type
                then some (latency cfg.latency_config.threshold_ms)
                else (if str_eq cfg.policy_type status_code_type
                    then elim (new_status_code_evaluator cfg.status_code_config.status_codes) [
                      | none ↦ none
                      | some codes ↦ some (status_code codes)
                    ]
                    else (if str_eq cfg.policy_type ottl_condition_type
                        then elim (new_ottl_condition_evaluator makers
                            cfg.ottl_condition_config.span_conditions
                            cfg.ottl_condition_config.span_event_conditions
                            cfg.ottl_condition_config.error_mode) [
                              | none ↦ none
                              | some filter ↦ some (ottl_condition filter)
                            ]
                        else (if str_eq cfg.policy_type threshold_type
                            then some threshold
                            else (if str_eq cfg.policy_type remote_probabilistic_type
                                then some (
                                    remote_probabilistic (
                                      new_remote_probabilistic_sampler float
                                        cfg.remote_probabilistic_config.hash_salt
                                        cfg.remote_probabilistic_config.default_rate
                                        cfg.remote_probabilistic_config.rate_getter_ext))
                                else none))))))

    unfoldable pub and_sub_policies : List (SharedPolicyConfig F) → Option (Evaluators A F R)
    unfolding get_shared_policy_evaluator
    and_sub_policies [] = some nil
    and_sub_policies (cfg ∷ cfgs) = elim (get_shared_policy_evaluator cfg) [
      | none ↦ none
      | some e ↦ elim (and_sub_policies cfgs) [ none ↦ none | some es ↦ some (cons e es) ]
    ]

    unfoldable pub get_new_and_policy : AndConfig F → Option (Evaluator A F R)
    unfolding and_sub_policies
    get_new_and_policy config = elim (and_sub_policies config.sub_policy_cfg) [
      | none ↦ none
      | some subs ↦ some (and_all subs)
    ]

    unfoldable pub get_new_root_spans_policy : RootSpansConfig F → Option (Evaluator A F R)
    unfolding get_shared_policy_evaluator
    get_new_root_spans_policy cfg = elim (get_shared_policy_evaluator cfg.sub_policy_cfg) [
      | none ↦ none
      | some sub ↦ some (root_spans sub)
    ]

    unfoldable pub get_new_downgrader_policy : DowngraderConfig F → Option (Evaluator A F R)
    unfolding get_shared_policy_evaluator
    get_new_downgrader_policy cfg = elim (get_shared_policy_evaluator cfg.sub_policy_cfg) [
      | none ↦ none
      | some sub ↦ elim (string_to_decision cfg.downgrade_to) [
        | none ↦ none
        | some to ↦ some (downgrader to sub)
      ]
    ]

    unfoldable pub get_policy_evaluator : PolicyConfig F → Option (Evaluator A F R)
    unfolding get_new_and_policy get_new_root_spans_policy get_new_downgrader_policy
    get_policy_evaluator cfg =
        if str_eq cfg.shared.policy_type and_type
        then get_new_and_policy cfg.and_config
        else (if str_eq cfg.shared.policy_type root_spans_type
            then get_new_root_spans_policy cfg.root_spans_config
            else (if str_eq cfg.shared.policy_type downgrader_type
                then get_new_downgrader_policy cfg.downgrader_config
                else get_shared_policy_evaluator cfg.shared))

-- The errors of newPolicies.
pub data PolicyError : Type 0 where
  duplicate_name : String → PolicyError
  no_evaluator : PolicyError
  no_grouper : String → PolicyError

pub data Made (X : Type 0) : Type 0 where
  made : X → Made X
  not_made : PolicyError → Made X

module _ {A Re : Type 0} (makers : Makers A Re) where
  -- The attribute key and the grouper: the outer `none` is an error.
  unfoldable pub recording :
      Option RecordDecisionFrom → Option (String × Option (List (DecisionRule Re)))
  unfolding new_decision_grouper
  recording none = some ("", none)
  recording (some rdf) = elim (new_decision_grouper makers.compile rdf.mappings) [
    | none ↦ none
    | some grouper ↦ some (rdf.res_attr_key, grouper)
  ]

  module _ {F R : Type 0} (float : Float64 F) where
    unfoldable pub new_policy : PolicyConfig F → Made (Policy A F R Re)
    unfolding recording get_policy_evaluator
    new_policy cfg = elim (get_policy_evaluator makers float cfg) [
      | none ↦ not_made no_evaluator
      | some e ↦ elim (recording cfg.record_decision_from) [
        | none ↦ not_made (no_grouper cfg.shared.name)
        | some (key, grouper) ↦ made (record {
          name = cfg.shared.name;
          emit_single_span_for_not_sampled = cfg.shared.emit_single_span_for_not_sampled;
          evaluator = e;
          record_decision_from = key;
          decision_grouper = grouper;
        })
      ]
    ]

    -- The loop of newPolicies, with the names that the map holds.
    unfoldable pub new_policies_from :
        List String → List (PolicyConfig F) → Made (List (Policy A F R Re))
    unfolding new_policy contains_name
    new_policies_from names [] = made []
    new_policies_from names (cfg ∷ cfgs) =
        let rest = new_policies_from (cfg.shared.name ∷ names) cfgs in
        if contains_name names cfg.shared.name
        then not_made (duplicate_name cfg.shared.name)
        else elim (new_policy cfg) [
          | not_made e ↦ not_made e
          | made p ↦ elim rest [ not_made e ↦ not_made e | made ps ↦ made (p ∷ ps) ]
        ]

    unfoldable pub new_policies : List (PolicyConfig F) → Made (List (Policy A F R Re))
    unfolding new_policies_from
    new_policies cfgs = new_policies_from [] cfgs
