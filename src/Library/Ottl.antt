-- ===== src/Library/Ottl.antt =====
-- github.com/open-telemetry/opentelemetry-collector-contrib/pkg/ottl, as far as
-- internal/evaluators/ottl.go calls it: `K` is what a condition is evaluated on.
use atlassian_sampling_proce.Base.{Bool, Option, String, List}

pub record Ottl (K : Type 0) : Type 1 where
  pub Factory : Type 0
  pub Parser : Type 0
  pub Conditions : Type 0
  -- ottlfuncs.StandardConverters
  pub standard_converters : List (String × Factory)
  -- NewParser and ParseConditions: `none` is an error
  pub new_parser : List (String × Factory) → Option Parser
  pub parse_conditions : Parser → List String → Option Conditions
  -- NewConditionSequence with an error mode, and Eval of it: `none` is an error
  pub eval : Conditions → String → K → Option Bool
