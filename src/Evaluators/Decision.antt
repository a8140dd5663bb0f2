-- ===== src/Evaluators/Decision.antt =====
-- internal/evaluators/policy_eval.go: Decision and its names.
use text.Mathlib.Text.{◌==◌ as str_eq}
use atlassian_sampling_proce.Base.{
  ◌≡◌, refl, Bool, true, false, Option, none, some, String, if◌then◌else◌,
}

pub data Decision : Type 0 where
  unspecified pending sampled not_sampled low_priority : Decision

unfoldable pub is_sampled : Decision → Bool
is_sampled sampled = true
is_sampled _ = false

unfoldable pub to_string : Decision → String
to_string unspecified = "Unspecified"
to_string pending = "Pending"
to_string sampled = "Sampled"
to_string not_sampled = "NotSampled"
to_string low_priority = "LowPriority"

-- `none` is the error for any other text.
unfoldable pub string_to_decision : String → Option Decision
string_to_decision s =
    if str_eq s "Unspecified"
    then some unspecified
    else (if str_eq s "Pending"
        then some pending
        else (if str_eq s "Sampled"
            then some sampled
            else (if str_eq s "NotSampled"
                then some not_sampled
                else (if str_eq s "LowPriority" then some low_priority else none))))

-- StringToDecision reads each decision back from the name that String gives it.
pub string_to_decision-to_string : (d : Decision) → string_to_decision (to_string d) ≡ some d
unfolding string_to_decision to_string
string_to_decision-to_string unspecified = refl
string_to_decision-to_string pending = refl
string_to_decision-to_string sampled = refl
string_to_decision-to_string not_sampled = refl
string_to_decision-to_string low_priority = refl
