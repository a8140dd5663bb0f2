-- ===== src/Evaluators/Statuses.antt =====
-- internal/evaluators/status_code.go: when the status-code evaluator samples.
use atlassian_sampling_proce.Base.{
  ◌≡◌, refl, sym, ◌∙◌, ap, ◌↔◌, ◌⊎◌, inl, inr, Bool, true, false, Option, none, some, String, List,
  [], ◌∷◌, some_inj, if◌then◌else◌, Any,
}
use atlassian_sampling_proce.Library.Pdata.{StatusCode, unset, ok, error, Traces}
use atlassian_sampling_proce.Ptraceutil.{SpanItem, trace_iterator}
use atlassian_sampling_proce.Evaluators.Decision.{pending, sampled}
use atlassian_sampling_proce.Evaluators.Verdict.{sampled_or_pending}
use atlassian_sampling_proce.Evaluators.Simple.{
  status_equal, parse_status, parse_statuses, has_status, new_status_code_evaluator, any_status,
  evaluate_status_code,
}

status_equal_iff : (c d : StatusCode) → (status_equal c d ≡ true) ↔ (d ≡ c)
unfolding status_equal
status_equal_iff unset unset = (λ _. refl, λ _. refl)
status_equal_iff ok ok = (λ _. refl, λ _. refl)
status_equal_iff error error = (λ _. refl, λ _. refl)
status_equal_iff unset ok = (λ e. absurd (cc e), λ e. absurd (cc e))
status_equal_iff unset error = (λ e. absurd (cc e), λ e. absurd (cc e))
status_equal_iff ok unset = (λ e. absurd (cc e), λ e. absurd (cc e))
status_equal_iff ok error = (λ e. absurd (cc e), λ e. absurd (cc e))
status_equal_iff error unset = (λ e. absurd (cc e), λ e. absurd (cc e))
status_equal_iff error ok = (λ e. absurd (cc e), λ e. absurd (cc e))

-- A search that goes on with `y` is over at the first test, or finds what `y` finds.
or_iff :
    {P Q : Type 0} (b y : Bool)
    → ((b ≡ true) ↔ P)
    → ((y ≡ true) ↔ Q)
    → ((if b then true else y) ≡ true) ↔ (P ⊎ Q)
or_iff true y p q = (λ _. inl (p.0 refl), λ _. refl)
or_iff false y p q = (λ e. inr (q.0 e), λ h. elim h [ inl x ↦ absurd (cc (p.1 x)) | inr x ↦ q.1 x ])

-- The status code is among those that the names stand for.
abbrev pub IsNamed : List String → StatusCode → Type 0
IsNamed names c = Any (λ s. parse_status s ≡ some c) names

parsed-cons :
    (o : Option StatusCode) (m : Option (List StatusCode)) (codes : List StatusCode)
    → elim o [ none ↦ none | some c ↦ elim m [ none ↦ none | some cs ↦ some (c ∷ cs) ] ]
      ≡ some codes
    → (c : StatusCode) × (cs : List StatusCode) × (o ≡ some c) × (m ≡ some cs) × (c ∷ cs ≡ codes)
parsed-cons none m codes h = absurd (cc h)
parsed-cons (some c) none codes h = absurd (cc h)
parsed-cons (some c) (some cs) codes h = (c, cs, refl, refl, some_inj h)

has_status_iff :
    (names : List String) (codes : List StatusCode) (c : StatusCode)
    → parse_statuses names ≡ some codes
    → (has_status codes c ≡ true) ↔ IsNamed names c
unfolding parse_statuses has_status
has_status_iff [] codes c h = rw (← some_inj h) ((λ e. absurd (cc e)), λ e. absurd e)
has_status_iff (s ∷ rest) codes c h =
    let (d, cs, e, f, g) = parsed-cons (parse_status s) (parse_statuses rest) codes h in
    let same : (status_equal c d ≡ true) ↔ (parse_status s ≡ some c) = (
      λ k. e ∙ ap some ((status_equal_iff c d).0 k),
      λ k. (status_equal_iff c d).1 (some_inj (sym e ∙ k)),
    ) in
    rw (← g) (or_iff (status_equal c d) (has_status cs c) same (has_status_iff rest cs c f))

module _ {A : Type 0} where
  any_status_iff :
      (names : List String) (codes : List StatusCode) (items : List (SpanItem A))
      → parse_statuses names ≡ some codes
      → (any_status codes items ≡ true) ↔ Any (λ i. IsNamed names i.span.status) items
  unfolding any_status
  any_status_iff names codes [] h = (λ e. absurd (cc e), λ e. absurd e)
  any_status_iff names codes (i ∷ is) h =
      or_iff (has_status codes i.span.status) (any_status codes is)
        (has_status_iff names codes i.span.status h) (any_status_iff names codes is h)

  -- A status-code evaluator that is made from a list of names returns "sampled" without an error
  -- exactly if some span of the batch has a status code that one of the names stands for, and
  -- otherwise pending without an error.
  pub status_code_sampled :
      (names : List String) (codes : List StatusCode) (t : Traces A)
      → new_status_code_evaluator names ≡ some codes
      → ((evaluate_status_code codes t ≡ (sampled, none))
          ↔ Any (λ i. IsNamed names i.span.status) (trace_iterator t))
        × ((evaluate_status_code codes t ≡ (pending, none))
            ↔ ¬ Any (λ i. IsNamed names i.span.status) (trace_iterator t))
  unfolding new_status_code_evaluator evaluate_status_code
  status_code_sampled [] codes t h = absurd (cc h)
  status_code_sampled (s ∷ names) codes t h =
      sampled_or_pending (any_status codes (trace_iterator t))
        (any_status_iff (s ∷ names) codes (trace_iterator t) h)
