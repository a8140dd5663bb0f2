-- ===== src/Examples/Configuring.antt =====
-- config.go, policy.go and newAtlassianSamplingProcessor at one configuration.
use atlassian_sampling_proce.Base.{
  ℕ, ◌<◌, ◌≡◌, refl, ◌↔◌, ◌⊎◌, false, some, String, List, [], ◌∷◌, arith,
}
use atlassian_sampling_proce.Library.LruList.{Items}
use atlassian_sampling_proce.Library.Pdata.{TraceId}
use atlassian_sampling_proce.Policy.{Policy}
use atlassian_sampling_proce.Evaluators.Evaluator.{span_count}
use atlassian_sampling_proce.Config.{validate}
use atlassian_sampling_proce.Config.Valid.{IsValid, validate_iff}
use atlassian_sampling_proce.Policies.{made, not_made, no_evaluator, new_policies}
use atlassian_sampling_proce.Policies.Built.{AllMadeFrom, SomeUnmade, validated_policies}
use atlassian_sampling_proce.Processor.Shards.{System}
use atlassian_sampling_proce.Processor.Shards.New.{initial_primary_size, new_processor}
use atlassian_sampling_proce.Processor.Shards.Accepted.{new_processor_succeeds}
use atlassian_sampling_proce.Examples.Data.{Attributes, cache, cache-LruLaws}
use atlassian_sampling_proce.Processor.Shards.New.{processor_config}
use atlassian_sampling_proce.Examples.Setup.{Fraction, fractions, externals, makers, config, around}

accepted : validate makers.compile config ≡ []
unfolding validate
accepted = refl

validate_iff_example : (validate makers.compile config ≡ []) ↔ IsValid makers.compile config
validate_iff_example = validate_iff makers.compile config

abbrev policy : String → Policy Attributes Fraction ℕ String
policy name = record {
  name = name;
  emit_single_span_for_not_sampled = false;
  evaluator = span_count 5;
  record_decision_from = "service.name";
  decision_grouper = some (record { re = "shop"; value = "sales" } ∷ []);
}

policies_made :
    new_policies makers fractions config.policy_config
    ≡ made (policy "large" ∷ policy "larger" ∷ [])
unfolding new_policies
policies_made = refl

validated_policies_example :
    ((ps : List (Policy Attributes Fraction ℕ String)) × (new_policies makers fractions
          config.policy_config
        ≡ made ps)
      × AllMadeFrom ℕ makers fractions config.policy_config ps)
    ⊎ ((new_policies makers {R = ℕ} fractions config.policy_config ≡ not_made no_evaluator)
        × SomeUnmade ℕ makers fractions config.policy_config)
validated_policies_example = validated_policies ℕ makers fractions config accepted

initial_size_positive : 0 < initial_primary_size fractions config.primary_cache_size
unfolding initial_primary_size
initial_size_positive = omega arith

new_processor_succeeds_example :
    (s : System Attributes Fraction ℕ String (Items TraceId ℕ) (Items TraceId ℕ)) × (new_processor
        fractions makers cache cache around
        (processor_config config)
      ≡ some s)
    × (s.policies ≡ policy "large" ∷ policy "larger" ∷ [])
    × (s.shard_count ≡ 2)
new_processor_succeeds_example =
    new_processor_succeeds externals makers cache cache-LruLaws cache cache-LruLaws around config
      (policy "large" ∷ policy "larger" ∷ []) refl (λ name. refl) accepted (omega arith)
      (omega arith) initial_size_positive policies_made
