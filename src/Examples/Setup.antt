-- ===== src/Examples/Setup.antt =====
-- A configuration, and the libraries that a processor is made with: fractions for floats.
use text.Mathlib.Text.{◌==◌ as str_eq}
use atlassian_sampling_proce.Base.{
  ℕ, ◌*◌, ◌/◌, true, false, none, some, String, List, [], ◌∷◌, ltb, if◌then◌else◌,
}
use atlassian_sampling_proce.Base.Int.{pos}
use atlassian_sampling_proce.Library.Float64.{Float64}
use atlassian_sampling_proce.Library.Ottl.{Ottl}
use atlassian_sampling_proce.Decider.{Externals}
use atlassian_sampling_proce.Config.{SharedPolicyConfig, PolicyConfig, Config, span_count_type}
use atlassian_sampling_proce.Policies.Conditions.{Makers}
use atlassian_sampling_proce.Processor.Shards.New.{Surroundings}
use atlassian_sampling_proce.Examples.Data.{Attributes, attrs, stored}

abbrev pub Fraction : Type 0
Fraction = ℕ × ℕ

abbrev pub fractions : Float64 Fraction
fractions = record {
  of_ℕ = λ n. (n, 1);
  ratio = λ n d. (n, d);
  mul = λ x y. (x.0 * y.0, x.1 * y.1);
  div = λ x y. (x.0 * y.1, x.1 * y.0);
  lt = λ x y. ltb (x.0 * y.1) (y.0 * x.1);
  trunc = λ x. x.0 / x.1;
  max_uint64_times = λ x. x.0 * 18446744073709551615 / x.1;
}

abbrev pub externals : Externals Attributes Fraction ℕ String
externals = record {
  attrs = attrs;
  float = fractions;
  fetch = λ n. some (n, 1);
  match_string = str_eq;
  as_string = λ v. "";
}

-- Every list of conditions can be parsed, and every condition holds.
abbrev all_hold : {K : Type 0} → Ottl K
all_hold = record {
  Factory = Unit {0};
  Parser = Unit {0};
  Conditions = List String;
  standard_converters = [];
  new_parser = λ functions. some tt;
  parse_conditions = λ parser conditions. some conditions;
  eval = λ conditions mode k. some true;
}

-- A pattern matches itself; "(" is none.
abbrev pub makers : Makers Attributes String
makers = record {
  span_ottl = all_hold;
  span_event_ottl = all_hold;
  root_span_factory = ("IsRootSpan", tt);
  compile = λ s. if str_eq s "(" then none else some s;
}

-- A policy that samples traces of five spans.
abbrev pub shared_config : String → SharedPolicyConfig Fraction
shared_config name = record {
  name = name;
  policy_type = span_count_type;
  emit_single_span_for_not_sampled = false;
  probabilistic_config = record { hash_salt = ""; sampling_percentage = (0, 1) };
  span_count_config = record { min_spans = 5; log_sampled = false };
  latency_config = record { threshold_ms = pos 0 };
  status_code_config = record { status_codes = [] };
  ottl_condition_config = record {
    error_mode = "ignore";
    span_conditions = [];
    span_event_conditions = [];
  };
  remote_probabilistic_config = record {
    hash_salt = "";
    default_rate = (0, 1);
    rate_getter_ext = "";
  };
}

abbrev pub policy_config_of : String → PolicyConfig Fraction
policy_config_of name = record {
  shared = shared_config name;
  and_config = record { sub_policy_cfg = [] };
  root_spans_config = record { sub_policy_cfg = shared_config "" };
  downgrader_config = record { downgrade_to = ""; sub_policy_cfg = shared_config "" };
  record_decision_from = some (record {
    res_attr_key = "service.name";
    mappings = record { pattern = "shop"; value = "sales" } ∷ [];
  });
}

abbrev pub config : Config Fraction
config = record {
  shards = pos 2;
  policy_config = policy_config_of "large" ∷ policy_config_of "larger" ∷ [];
  target_heap_bytes = 1000;
  regulate_cache_delay = pos 60;
  primary_cache_size = pos 100;
  secondary_cache_size = pos 10;
  decision_cache_cfg = record { sampled_cache_size = pos 20; non_sampled_cache_size = pos 20 };
  flush_on_shutdown = true;
  compression_enabled = false;
  preprocess_buffer_size = pos 4;
}

abbrev pub around : Surroundings Attributes
around = record {
  now = 500;
  random_span_id = 1 ∷ 2 ∷ 3 ∷ 4 ∷ 5 ∷ 6 ∷ 7 ∷ 8 ∷ [];
  unallocated = λ ref. stored;
  builds_telemetry = true;
  registers = λ name. true;
}
