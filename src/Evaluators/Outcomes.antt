-- ===== src/Evaluators/Outcomes.antt =====
-- What the evaluators that hold others come to: and.go, root_spans.go and downgrader.go.
use atlassian_sampling_proce.Base.{◌≡◌, refl, ◌↔◌, false, Option, none, some, String, arith}
use atlassian_sampling_proce.Library.Float64.{Float64}
use atlassian_sampling_proce.Library.Pdata.{TraceId, AttributeMap, Span, Traces}
use atlassian_sampling_proce.Tracedata.Merge.{Metadata}
use atlassian_sampling_proce.Evaluators.Decision.{
  Decision, unspecified, pending, sampled, not_sampled, low_priority, is_sampled,
}
use atlassian_sampling_proce.Evaluators.Verdict.{Verdict}
use atlassian_sampling_proce.Evaluators.Probabilistic.{
  new_probabilistic_sampler, new_remote_probabilistic_sampler, evaluate_probabilistic,
  evaluate_remote, current_rate,
}
use atlassian_sampling_proce.Evaluators.Combine.{
  and_verdict, root_spans_verdict, only_span_verdict, root_spans_default, find_only_span,
}
use atlassian_sampling_proce.Evaluators.Evaluator.{
  Evaluator, Evaluators, probabilistic, remote_probabilistic, and_all, root_spans, downgrader, nil,
  cons, evaluate, evaluate_all, started, start,
}

started_inj : {X : Type 0} {x y : X} → started x ≡ started y → x ≡ y
started_inj h = cc

and_verdict_sampled :
    (v rest : Verdict)
    → (and_verdict v rest ≡ (sampled, none)) ↔ ((v ≡ (sampled, none)) × (rest ≡ (sampled, none)))
unfolding and_verdict is_sampled
and_verdict_sampled (d, some e) rest = (λ h. absurd (cc), λ h. absurd (cc (h.0)))
and_verdict_sampled (sampled, none) rest = (λ h. (refl, h), λ h. h.1)
and_verdict_sampled (unspecified, none) rest = (λ h. absurd (cc), λ h. absurd (cc (h.0)))
and_verdict_sampled (pending, none) rest = (λ h. absurd (cc), λ h. absurd (cc (h.0)))
and_verdict_sampled (not_sampled, none) rest = (λ h. absurd (cc), λ h. absurd (cc (h.0)))
and_verdict_sampled (low_priority, none) rest = (λ h. absurd (cc), λ h. absurd (cc (h.0)))

default_never_sampled : (merged : Metadata) → is_sampled (root_spans_default merged) ≡ false
unfolding root_spans_default is_sampled
default_never_sampled merged = ground arith

only_never_sampled :
    {A : Type 0} (merged : Metadata) (s : Option (Span A))
    → is_sampled (only_span_verdict merged s).0 ≡ false
unfolding only_span_verdict is_sampled
only_never_sampled merged none = refl
only_never_sampled merged (some s) = ground (arith, default_never_sampled merged)

root_verdict_never_sampled :
    {A : Type 0} (t : Traces A) (merged : Metadata) (v : Verdict)
    → is_sampled (root_spans_verdict t merged v).0 ≡ false
unfolding root_spans_verdict is_sampled
root_verdict_never_sampled t merged (d, some e) = refl
root_verdict_never_sampled t merged (d, none) =
    ground (arith, default_never_sampled merged, only_never_sampled merged (find_only_span t))

module _ {A F R : Type 0} (attrs : AttributeMap A) (float : Float64 F) (fetch : R → Option F)
    (id : TraceId) (t : Traces A) (merged : Metadata) where
  -- Each of the evaluators samples.
  abbrev pub AllSampled : Evaluators A F R → Type 0
  AllSampled nil = Unit {0}
  AllSampled (cons e es) =
      (evaluate attrs float fetch id t merged e ≡ (sampled, none)) × AllSampled es

  -- The evaluator of a conjunction returns "sampled" without an error exactly if every sub-policy
  -- does.
  pub and_all_sampled :
      (subs : Evaluators A F R)
      → (evaluate attrs float fetch id t merged (and_all subs) ≡ (sampled, none)) ↔ AllSampled subs
  unfolding evaluate evaluate_all
  and_all_sampled nil = (λ _. tt, λ _. refl)
  and_all_sampled (cons e es) =
      let v =
        and_verdict_sampled (evaluate attrs float fetch id t merged e)
          (evaluate_all attrs float fetch id t merged es) in
      let ih = and_all_sampled es in (λ h. ((v.0 h).0, ih.0 (v.0 h).1), λ h. v.1 (h.0, ih.1 h.1))

  -- The root-spans evaluator never returns "sampled", whatever its sub-policy returns.
  pub root_spans_never_sampled :
      (sub : Evaluator A F R)
      → is_sampled (evaluate attrs float fetch id t merged (root_spans sub)).0 ≡ false
  unfolding evaluate
  root_spans_never_sampled sub =
      root_verdict_never_sampled t merged (evaluate attrs float fetch id t merged sub)

  -- If Start succeeds on a downgrader of a new remote probabilistic sampler, then what it leaves
  -- evaluates as a downgrader of the probabilistic sampler of the default rate, whatever extension
  -- the host has under the name.
  pub nested_remote_default :
      (host : String → Option (Option R)) (to : Decision) (salt : String) (rate : F) (name : String)
      (e : Evaluator A F R)
      → start host (
          downgrader to
            (remote_probabilistic (new_remote_probabilistic_sampler float salt rate name)))
        ≡ started e
      → evaluate attrs float fetch id t merged e
        ≡ evaluate attrs float fetch id t merged
            (downgrader to (probabilistic (new_probabilistic_sampler float salt rate)))
  unfolding evaluate start evaluate_remote current_rate new_remote_probabilistic_sampler
      evaluate_probabilistic new_probabilistic_sampler
  nested_remote_default host to salt rate name e h = rw (← started_inj h) refl
