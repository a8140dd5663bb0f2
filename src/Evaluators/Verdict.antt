-- ===== src/Evaluators/Verdict.antt =====
-- What PolicyEvaluator.Evaluate returns (internal/evaluators/policy_eval.go): a decision beside an
-- error that may be nil. Both are set in some cases.
use atlassian_sampling_proce.Base.{◌≡◌, refl, ◌↔◌, Bool, true, false, Option, none, if◌then◌else◌}
use atlassian_sampling_proce.Evaluators.Decision.{Decision, pending, sampled}

pub data EvalError : Type 0 where
  fetch_failed invalid_rate condition_failed no_span_in_trace : EvalError

abbrev pub Verdict : Type 0
Verdict = Decision × Option EvalError

-- A test decides between these two verdicts.
pub sampled_or_pending :
    {P : Type 0} (b : Bool)
    → ((b ≡ true) ↔ P)
    → let v : Verdict = if b then (sampled, none) else (pending, none) in
      ((v ≡ (sampled, none)) ↔ P) × ((v ≡ (pending, none)) ↔ ¬ P)
sampled_or_pending true p =
    ((λ _. p.0 refl, λ _. refl), (λ e. absurd (cc e), λ n. absurd (n (p.0 refl))))
sampled_or_pending false p =
    ((λ e. absurd (cc e), λ x. absurd (cc (p.1 x))), (λ _ x. absurd (cc (p.1 x)), λ _. refl))
