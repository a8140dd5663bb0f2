-- ===== src/Evaluators/Sampling.antt =====
-- internal/evaluators/threshold.go: when the threshold evaluator samples.
use atlassian_sampling_proce.Base.{
  ℕ, ◌<◌, ◌≤◌, ◌≡◌, ◌↔◌, ◌⊎◌, inl, inr, Option, none, some, List, [], ◌∷◌, arith, Option-cases,
}
use atlassian_sampling_proce.Library.Pdata.{TraceId, AttributeMap, Traces}
use atlassian_sampling_proce.Ptraceutil.{SpanItem, trace_iterator}
use atlassian_sampling_proce.Evaluators.Decision.{sampled}
use atlassian_sampling_proce.Evaluators.Threshold.{
  max_threshold, get_threshold, min_threshold, evaluate_threshold, get_rv,
}

-- A threshold that is set and lets the random value through.
abbrev pub Admits : ℕ → Option ℕ → Type 0
Admits rv none = ⊥
Admits rv (some t) = (t < max_threshold) × (t ≤ rv)

module _ {A : Type 0} (attrs : AttributeMap A) where
  -- One of the spans has such a threshold.
  abbrev pub AnyAdmits : ℕ → List (SpanItem A) → Type 0
  AnyAdmits rv [] = ⊥
  AnyAdmits rv (i ∷ is) = Admits rv (get_threshold attrs i.span) ⊎ AnyAdmits rv is

  min_threshold-Admits :
      (rv least : ℕ) (is : List (SpanItem A))
      → Admits rv (some (min_threshold attrs least is))
      → Admits rv (some least) ⊎ AnyAdmits rv is
  unfolding min_threshold
  min_threshold-Admits rv least [] h = inl h
  min_threshold-Admits rv least (i ∷ is) h = elim (Option-cases (get_threshold attrs i.span)) [
    | inl e ↦ ground (arith, e, min_threshold-Admits rv least is)
    | inr (t, e) ↦ ground (arith, e, min_threshold-Admits rv least is, min_threshold-Admits rv t is)
  ]

  Admits-min_threshold :
      (rv least : ℕ) (is : List (SpanItem A))
      → Admits rv (some least) ⊎ AnyAdmits rv is
      → Admits rv (some (min_threshold attrs least is))
  unfolding min_threshold
  Admits-min_threshold rv least [] (inl h) = h
  Admits-min_threshold rv least [] (inr h) = elim h [ ]
  Admits-min_threshold rv least (i ∷ is) h = elim (Option-cases (get_threshold attrs i.span)) [
    | inl e ↦ ground (arith, e, Admits-min_threshold rv least is)
    | inr (t, e) ↦ ground (arith, e, Admits-min_threshold rv least is, Admits-min_threshold rv t is)
  ]

  min_threshold_le : (least : ℕ) (is : List (SpanItem A)) → min_threshold attrs least is ≤ least
  unfolding min_threshold
  min_threshold_le least [] = omega arith
  min_threshold_le least (i ∷ is) = elim (Option-cases (get_threshold attrs i.span)) [
    | inl e ↦ ground (arith, e, min_threshold_le least is)
    | inr (t, e) ↦ ground (arith, e, min_threshold_le least is, min_threshold_le t is)
  ]

  sampled_below :
      (id : TraceId) (t : Traces A)
      → (evaluate_threshold attrs id t ≡ (sampled, none))
        ↔ Admits (get_rv id) (some (min_threshold attrs max_threshold (trace_iterator t)))
  unfolding evaluate_threshold
  sampled_below id t = (
    λ h. ground (arith, h, min_threshold_le max_threshold (trace_iterator t)),
    λ h. ground (arith, h, min_threshold_le max_threshold (trace_iterator t)),
  )

  -- The threshold evaluator returns "sampled" without an error exactly if some span of the batch
  -- has a threshold attribute that can be read, below the largest threshold, which the random value
  -- of the trace ID reaches.
  pub threshold_sampled :
      (id : TraceId) (t : Traces A)
      → (evaluate_threshold attrs id t ≡ (sampled, none)) ↔ AnyAdmits (get_rv id) (trace_iterator t)
  threshold_sampled id t = (
    λ h.
        elim (min_threshold-Admits (get_rv id) max_threshold (trace_iterator t)
          ((sampled_below id t).0 h)) [ inl l ↦ absurd (omega (arith, l.0)) | inr a ↦ a ],
    λ h.
        (sampled_below id t).1
          (Admits-min_threshold (get_rv id) max_threshold (trace_iterator t) (inr h)),
  )
