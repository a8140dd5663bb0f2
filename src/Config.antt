-- ===== src/Config.antt =====
-- config.go and config_policy.go: the configuration, its defaults and Validate.
pub mod Valid
use text.Mathlib.Text.{◌==◌ as str_eq}
use atlassian_sampling_proce.Base.{
  ℕ, ◌+◌, Bool, true, false, ◌||◌, Option, none, some, String, List, [], ◌∷◌, ◌++◌, if◌then◌else◌,
}
use atlassian_sampling_proce.Base.Int.{ℤ, pos, ltb_ℤ, leb_ℤ, quot}
use atlassian_sampling_proce.Policy.{DecisionMapping}

pub record ProbabilisticConfig (F : Type 0) : Type 0 where
  pub hash_salt : String
  pub sampling_percentage : F

-- `min_spans` is an int32 as its bit pattern. What log_sampled asks for is a log line.
pub record SpanCountConfig : Type 0 where
  pub min_spans : ℕ
  pub log_sampled : Bool

pub record LatencyConfig : Type 0 where
  pub threshold_ms : ℤ

pub record StatusCodeConfig : Type 0 where
  pub status_codes : List String

pub record OttlConditionConfig : Type 0 where
  pub error_mode : String
  pub span_conditions : List String
  pub span_event_conditions : List String

pub record RemoteProbabilisticConfig (F : Type 0) : Type 0 where
  pub hash_salt : String
  pub default_rate : F
  pub rate_getter_ext : String

-- PolicyType is a string.
abbrev pub probabilistic_type : String
probabilistic_type = "probabilistic"

abbrev pub and_type : String
and_type = "and"

abbrev pub downgrader_type : String
downgrader_type = "downgrader"

abbrev pub span_count_type : String
span_count_type = "span_count"

abbrev pub root_spans_type : String
root_spans_type = "root_spans"

abbrev pub latency_type : String
latency_type = "latency"

abbrev pub status_code_type : String
status_code_type = "status_code"

abbrev pub ottl_condition_type : String
ottl_condition_type = "ottl_condition"

abbrev pub threshold_type : String
threshold_type = "threshold"

abbrev pub remote_probabilistic_type : String
remote_probabilistic_type = "remote_probabilistic"

pub record SharedPolicyConfig (F : Type 0) : Type 0 where
  pub name : String
  pub policy_type : String
  pub emit_single_span_for_not_sampled : Bool
  pub probabilistic_config : ProbabilisticConfig F
  pub span_count_config : SpanCountConfig
  pub latency_config : LatencyConfig
  pub status_code_config : StatusCodeConfig
  pub ottl_condition_config : OttlConditionConfig
  pub remote_probabilistic_config : RemoteProbabilisticConfig F

-- AndConfig; an AndSubPolicyConfig is a SharedPolicyConfig.
pub record AndConfig (F : Type 0) : Type 0 where
  pub sub_policy_cfg : List (SharedPolicyConfig F)

pub record RootSpansConfig (F : Type 0) : Type 0 where
  pub sub_policy_cfg : SharedPolicyConfig F

pub record DowngraderConfig (F : Type 0) : Type 0 where
  pub downgrade_to : String
  pub sub_policy_cfg : SharedPolicyConfig F

pub record RecordDecisionFrom : Type 0 where
  pub res_attr_key : String
  pub mappings : List DecisionMapping

-- `shared` is the embedded SharedPolicyConfig.
pub record PolicyConfig (F : Type 0) : Type 0 where
  pub shared : SharedPolicyConfig F
  pub and_config : AndConfig F
  pub root_spans_config : RootSpansConfig F
  pub downgrader_config : DowngraderConfig F
  pub record_decision_from : Option RecordDecisionFrom

pub record DecisionCacheCfg : Type 0 where
  pub sampled_cache_size : ℤ
  pub non_sampled_cache_size : ℤ

-- The sizes are ints, and the delay a time.Duration; the target is a uint64.
pub record Config (F : Type 0) : Type 0 where
  pub shards : ℤ
  pub policy_config : List (PolicyConfig F)
  pub target_heap_bytes : ℕ
  pub regulate_cache_delay : ℤ
  pub primary_cache_size : ℤ
  pub secondary_cache_size : ℤ
  pub decision_cache_cfg : DecisionCacheCfg
  pub flush_on_shutdown : Bool
  pub compression_enabled : Bool
  pub preprocess_buffer_size : ℤ

unfoldable pub create_default_config : {F : Type 0} → Config F
create_default_config = record {
  shards = pos 1;
  policy_config = [];
  target_heap_bytes = 0;
  regulate_cache_delay = pos 0;
  primary_cache_size = pos 1000;
  secondary_cache_size = pos 100;
  decision_cache_cfg = record {
    sampled_cache_size = pos 10000;
    non_sampled_cache_size = pos 10000;
  };
  flush_on_shutdown = false;
  compression_enabled = false;
  preprocess_buffer_size = pos 0;
}

-- The errors, with what their texts name: the policy, and the mapping by its place.
pub data ConfigError : Type 0 where
  primary_cache_size_error secondary_cache_size_error : ConfigError
  duplicate_policy_name invalid_buffer_size invalid_shard_count : ConfigError
  empty_res_attr_key : String → ConfigError
  empty_pattern invalid_regex : String → ℕ → ConfigError

unfoldable pub contains_name : List String → String → Bool
contains_name [] name = false
contains_name (n ∷ names) name = str_eq n name || contains_name names name

-- validateUniquePolicyNames, with the names that the map holds.
unfoldable pub unique_names_from :
    {F : Type 0} → List String → List (PolicyConfig F) → List ConfigError
unfolding contains_name
unique_names_from names [] = []
unique_names_from names (p ∷ policies) =
    let rest = unique_names_from (p.shared.name ∷ names) policies in
    if contains_name names p.shared.name then duplicate_policy_name ∷ [] else rest

unfoldable pub validate_unique_policy_names :
    {F : Type 0} → List (PolicyConfig F) → List ConfigError
unfolding unique_names_from
validate_unique_policy_names policies = unique_names_from [] policies

-- A multierr is the list of its errors. `compile` is regexp.Compile, and `none` an error.
module _ {Re : Type 0} (compile : String → Option Re) where
  unfoldable pub validate_mappings : String → ℕ → List DecisionMapping → List ConfigError
  validate_mappings name i [] = []
  validate_mappings name i (m ∷ mappings) =
      (if str_eq m.pattern ""
        then empty_pattern name i ∷ []
        else elim (compile m.pattern) [ none ↦ invalid_regex name i ∷ [] | some _ ↦ [] ])
      ++ validate_mappings name (i + 1) mappings

  unfoldable pub validate_record : String → Option RecordDecisionFrom → List ConfigError
  unfolding validate_mappings
  validate_record name none = []
  validate_record name (some rdf) =
      (if str_eq rdf.res_attr_key "" then empty_res_attr_key name ∷ [] else [])
      ++ validate_mappings name 0 rdf.mappings

  unfoldable pub validate_record_decision_from :
      {F : Type 0} → List (PolicyConfig F) → List ConfigError
  unfolding validate_record
  validate_record_decision_from [] = []
  validate_record_decision_from (p ∷ policies) =
      validate_record p.shared.name p.record_decision_from ++ validate_record_decision_from policies

  unfoldable pub validate : {F : Type 0} → Config F → List ConfigError
  unfolding validate_unique_policy_names validate_record_decision_from quot
  validate cfg =
      (if leb_ℤ cfg.primary_cache_size (pos 0) then primary_cache_size_error ∷ [] else [])
      ++ ((if leb_ℤ cfg.secondary_cache_size (pos 0)
              || ltb_ℤ (quot cfg.primary_cache_size 2) cfg.secondary_cache_size
            then secondary_cache_size_error ∷ []
            else [])
          ++ ((if ltb_ℤ cfg.preprocess_buffer_size (pos 0) then invalid_buffer_size ∷ [] else [])
              ++ ((if leb_ℤ cfg.shards (pos 0) then invalid_shard_count ∷ [] else [])
                  ++ (validate_unique_policy_names cfg.policy_config
                      ++ validate_record_decision_from cfg.policy_config))))
