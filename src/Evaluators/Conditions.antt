-- ===== src/Evaluators/Conditions.antt =====
-- internal/evaluators/ottl.go and status_code.go: what the conditions on the spans come to.
use atlassian_sampling_proce.Base.{
  ◌≡◌, refl, sym, ◌∙◌, ap, subst, ◌↔◌, ◌⊎◌, inl, inr, Bool, true, false, Option, none, some, List,
  [], ◌∷◌, ◌++◌, map, append-nil, All,
}
use atlassian_sampling_proce.Library.Pdata.{SpanEvent, Traces}
use atlassian_sampling_proce.Ptraceutil.{SpanItem, trace_iterator}
use atlassian_sampling_proce.Evaluators.Decision.{pending, sampled}
use atlassian_sampling_proce.Evaluators.Verdict.{condition_failed, Verdict}
use atlassian_sampling_proce.Evaluators.Simple.{
  OttlConditionEvaluator, on_result, check_span, check_each_event, check_events, evaluate_items,
  evaluate_ottl_fields, evaluate_ottl,
}

-- The results of the conditions, `none` where one cannot be evaluated, in the order of the spans:
-- of the span first, and then of each of its events.
module _ {A : Type 0} where
  abbrev span_results : Option (SpanItem A → Option Bool) → SpanItem A → List (Option Bool)
  span_results none item = []
  span_results (some expr) item = expr item ∷ []

  abbrev event_results :
      Option (SpanItem A → SpanEvent A → Option Bool) → SpanItem A → List (Option Bool)
  event_results none item = []
  event_results (some expr) item = map (expr item) item.span.events

  abbrev pub results : OttlConditionEvaluator A → List (SpanItem A) → List (Option Bool)
  results oce [] = []
  results oce (item ∷ items) =
      span_results oce.sample_span_expr item
      ++ (event_results oce.sample_span_event_expr item ++ results oce items)

-- The verdict of the first result that is not `false`.
abbrev first_of : List (Option Bool) → Verdict
first_of [] = (pending, none)
first_of (none ∷ rest) = (pending, some condition_failed)
first_of (some true ∷ rest) = (sampled, none)
first_of (some false ∷ rest) = first_of rest

-- A verdict that ends the loop, or else the one given.
abbrev verdict_or : Verdict → Option Verdict → Verdict
verdict_or rest o = elim o [ some v ↦ v | none ↦ rest ]

first_of-result :
    (r : Option Bool) (rest : List (Option Bool))
    → verdict_or (first_of rest) (on_result r) ≡ first_of (r ∷ rest)
unfolding on_result
first_of-result none rest = refl
first_of-result (some true) rest = refl
first_of-result (some false) rest = refl

module _ {A : Type 0} where
  first_of-span :
      (o : Option (SpanItem A → Option Bool)) (item : SpanItem A) (rest : List (Option Bool))
      → verdict_or (first_of rest) (check_span o item) ≡ first_of (span_results o item ++ rest)
  unfolding check_span
  first_of-span none item rest = refl
  first_of-span (some expr) item rest = first_of-result (expr item) rest

  first_of-each_event :
      (expr : SpanItem A → SpanEvent A → Option Bool) (item : SpanItem A)
      (events : List (SpanEvent A)) (rest : List (Option Bool))
      → verdict_or (first_of rest) (check_each_event expr item events)
        ≡ first_of (map (expr item) events ++ rest)
  unfolding check_each_event on_result
  first_of-each_event expr item [] rest = refl
  first_of-each_event expr item (event ∷ events) rest =
      by_result (expr item event) (first_of-each_event expr item events rest)
    where
      by_result :
          (r : Option Bool)
          → verdict_or (first_of rest) (check_each_event expr item events)
            ≡ first_of (map (expr item) events ++ rest)
          → verdict_or
              (first_of rest)
              (elim (on_result r) [ some v ↦ some v | none ↦ check_each_event expr item events ])
            ≡ first_of (r ∷ (map (expr item) events ++ rest))
      by_result none h = refl
      by_result (some true) h = refl
      by_result (some false) h = h

  first_of-events :
      (o : Option (SpanItem A → SpanEvent A → Option Bool)) (item : SpanItem A)
      (rest : List (Option Bool))
      → verdict_or (first_of rest) (check_events o item) ≡ first_of (event_results o item ++ rest)
  unfolding check_events
  first_of-events none item rest = refl
  first_of-events (some expr) item rest = first_of-each_event expr item item.span.events rest

  first_of-items :
      (oce : OttlConditionEvaluator A) (items : List (SpanItem A))
      → evaluate_items oce items ≡ first_of (results oce items)
  unfolding evaluate_items
  first_of-items oce [] = refl
  first_of-items oce (item ∷ items) =
      ap
        (λ v.
          verdict_or (verdict_or v (check_events oce.sample_span_event_expr item))
            (check_span oce.sample_span_expr item))
        (first_of-items oce items)
      ∙ ap (λ v. verdict_or v (check_span oce.sample_span_expr item))
          (first_of-events oce.sample_span_event_expr item (results oce items))
      ∙ first_of-span oce.sample_span_expr item
          (event_results oce.sample_span_event_expr item ++ results oce items)

  no_conditions :
      (oce : OttlConditionEvaluator A) (items : List (SpanItem A))
      → oce.sample_span_expr ≡ none
      → oce.sample_span_event_expr ≡ none
      → results oce items ≡ []
  no_conditions oce [] h k = refl
  no_conditions oce (item ∷ items) h k = rw (h, k) (no_conditions oce items h k)

  ottl_in_order :
      (oce : OttlConditionEvaluator A) (t : Traces A)
      → evaluate_ottl oce t ≡ first_of (results oce (trace_iterator t))
  unfolding evaluate_ottl evaluate_ottl_fields
  ottl_in_order oce t = by_fields oce.sample_span_expr oce.sample_span_event_expr refl refl
    where
      by_fields :
          (e : Option (SpanItem A → Option Bool))
          (f : Option (SpanItem A → SpanEvent A → Option Bool))
          → oce.sample_span_expr ≡ e
          → oce.sample_span_event_expr ≡ f
          → evaluate_ottl_fields e f oce t ≡ first_of (results oce (trace_iterator t))
      by_fields none none h k = ap first_of (sym (no_conditions oce (trace_iterator t) h k))
      by_fields none (some f) h k = first_of-items oce (trace_iterator t)
      by_fields (some e) f h k = first_of-items oce (trace_iterator t)

-- The first result that is not `false` is the one given.
abbrev pub FirstIs : Option Bool → List (Option Bool) → Type 0
FirstIs r rs =
    (before : List (Option Bool)) × (after : List (Option Bool)) × All (λ q. q ≡ some false) before
    × (rs ≡ before ++ r ∷ after)

first_or_none :
    (rs : List (Option Bool))
    → FirstIs (some true) rs ⊎ FirstIs none rs ⊎ All (λ q. q ≡ some false) rs
first_or_none [] = inr (inr tt)
first_or_none (none ∷ rs) = inr (inl ([], rs, tt, refl))
first_or_none (some true ∷ rs) = inl ([], rs, tt, refl)
first_or_none (some false ∷ rs) = elim (first_or_none rs) [
  | inl (before, after, h, e) ↦ inl (some false ∷ before, after, (refl, h), ap (◌∷◌ (some false)) e)
  | inr (inl (before, after, h, e)) ↦
      inr (inl (some false ∷ before, after, (refl, h), ap (◌∷◌ (some false)) e))
  | inr (inr h) ↦ inr (inr (refl, h))
]

first_of-skip :
    (before rest : List (Option Bool))
    → All (λ q. q ≡ some false) before
    → first_of (before ++ rest) ≡ first_of rest
first_of-skip [] rest h = refl
first_of-skip (q ∷ before) rest h = rw h.0 (first_of-skip before rest h.1)

module _ (rs : List (Option Bool)) where
  first_of-sampled : FirstIs (some true) rs → first_of rs ≡ (sampled, none)
  first_of-sampled (before, after, h, e) =
      ap first_of e ∙ first_of-skip before (some true ∷ after) h

  first_of-failed : FirstIs none rs → first_of rs ≡ (pending, some condition_failed)
  first_of-failed (before, after, h, e) = ap first_of e ∙ first_of-skip before (none ∷ after) h

  first_of-nothing : All (λ q. q ≡ some false) rs → first_of rs ≡ (pending, none)
  first_of-nothing h = ap first_of (sym (append-nil rs)) ∙ first_of-skip rs [] h

  first_of-outcomes :
      ((first_of rs ≡ (sampled, none)) ↔ FirstIs (some true) rs)
      × ((first_of rs ≡ (pending, some condition_failed)) ↔ FirstIs none rs)
      × ((first_of rs ≡ (pending, none)) ↔ All (λ q. q ≡ some false) rs)
  first_of-outcomes = elim (first_or_none rs) [
    | inl p ↦
        let q = first_of-sampled p in
        (
          (λ _. p, λ _. q),
          (λ e. absurd (cc (e, q)), first_of-failed),
          (λ e. absurd (cc (e, q)), first_of-nothing),
        )
    | inr (inl p) ↦
        let q = first_of-failed p in
        (
          (λ e. absurd (cc (e, q)), first_of-sampled),
          (λ _. p, λ _. q),
          (λ e. absurd (cc (e, q)), first_of-nothing),
        )
    | inr (inr p) ↦
        let q = first_of-nothing p in
        (
          (λ e. absurd (cc (e, q)), first_of-sampled),
          (λ e. absurd (cc (e, q)), first_of-failed),
          (λ _. p, λ _. q),
        )
  ]

-- With the results of the span condition and then of the event conditions listed in the order of
-- the spans, the OTTL evaluator returns "sampled" exactly if the first result that is not "false"
-- is "true", an error exactly if it is a condition that cannot be evaluated, and pending without an
-- error exactly if every result is "false".
pub ottl_outcomes :
    {A : Type 0} (oce : OttlConditionEvaluator A) (t : Traces A)
    → let rs = results oce (trace_iterator t) in
      ((evaluate_ottl oce t ≡ (sampled, none)) ↔ FirstIs (some true) rs)
      × ((evaluate_ottl oce t ≡ (pending, some condition_failed)) ↔ FirstIs none rs)
      × ((evaluate_ottl oce t ≡ (pending, none)) ↔ All (λ q. q ≡ some false) rs)
ottl_outcomes oce t =
    subst
      (λ v.
        ((v ≡ (sampled, none)) ↔ FirstIs (some true) (results oce (trace_iterator t)))
        × ((v ≡ (pending, some condition_failed)) ↔ FirstIs none (results oce (trace_iterator t)))
        × ((v ≡ (pending, none)) ↔ All (λ q. q ≡ some false) (results oce (trace_iterator t))))
      (sym (ottl_in_order oce t)) (first_of-outcomes (results oce (trace_iterator t)))
