-- ===== src/Policies/Conditions.antt =====
-- internal/evaluators/ottl.go: how an evaluator of OTTL conditions is made.
use text.Mathlib.Text.{◌==◌ as str_eq}
use atlassian_sampling_proce.Base.{Bool, Option, none, some, String, List, [], ◌∷◌, if◌then◌else◌}
use atlassian_sampling_proce.Library.Ottl.{Ottl}
use atlassian_sampling_proce.Library.Pdata.{SpanEvent}
use atlassian_sampling_proce.Ptraceutil.{SpanItem}
use atlassian_sampling_proce.Evaluators.Simple.{OttlConditionEvaluator}

-- What of other libraries the policies are made with: `compile` is regexp.Compile, and
-- `root_span_factory` the factory of ottlfuncs.NewIsRootSpanFactoryNew with its name.
pub record Makers (A Re : Type 0) : Type 1 where
  pub span_ottl : Ottl (SpanItem A)
  pub span_event_ottl : Ottl (SpanItem A × SpanEvent A)
  pub root_span_factory : String × span_ottl.Factory
  pub compile : String → Option Re

-- m[name] = factory
unfoldable pub put_function : {X : Type 0} → String → X → List (String × X) → List (String × X)
put_function name f [] = (name, f) ∷ []
put_function name f ((n, g) ∷ m) =
    if str_eq n name then (name, f) ∷ m else (n, g) ∷ put_function name f m

-- newBoolExprForSpan and newBoolExprForSpanEvent
unfoldable pub new_bool_expr :
    {K : Type 0} (ottl : Ottl K)
    → List String
    → List (String × ottl.Factory)
    → String
    → Option (K → Option Bool)
new_bool_expr ottl conditions functions error_mode = elim (ottl.new_parser functions) [
  | none ↦ none
  | some parser ↦ elim (ottl.parse_conditions parser conditions) [
    | none ↦ none
    | some statements ↦ some (ottl.eval statements error_mode)
  ]
]

module _ {A Re : Type 0} (makers : Makers A Re) where
  unfoldable pub standard_span_funcs : List (String × makers.span_ottl.Factory)
  unfolding put_function
  standard_span_funcs =
      put_function makers.root_span_factory.0 makers.root_span_factory.1
        makers.span_ottl.standard_converters

  -- The conditions of each kind, if there are any; the outer `none` is an error.
  unfoldable pub new_span_expr : List String → String → Option (Option (SpanItem A → Option Bool))
  unfolding new_bool_expr standard_span_funcs
  new_span_expr [] error_mode = some none
  new_span_expr (c ∷ cs) error_mode =
      elim (new_bool_expr makers.span_ottl (c ∷ cs) standard_span_funcs error_mode) [
        | none ↦ none
        | some expr ↦ some (some expr)
      ]

  unfoldable pub new_span_event_expr :
      List String → String → Option (Option (SpanItem A → SpanEvent A → Option Bool))
  unfolding new_bool_expr
  new_span_event_expr [] error_mode = some none
  new_span_event_expr (c ∷ cs) error_mode =
      elim (new_bool_expr makers.span_event_ottl (c ∷ cs) makers.span_event_ottl.standard_converters
        error_mode) [ none ↦ none | some expr ↦ some (some (λ item event. expr (item, event))) ]

  unfoldable pub new_ottl_filter :
      List String → List String → String → Option (OttlConditionEvaluator A)
  unfolding new_span_expr new_span_event_expr
  new_ottl_filter span_conditions span_event_conditions error_mode =
      elim (new_span_expr span_conditions error_mode) [
        | none ↦ none
        | some span_expr ↦ elim (new_span_event_expr span_event_conditions error_mode) [
          | none ↦ none
          | some event_expr ↦
              some (record { sample_span_expr = span_expr; sample_span_event_expr = event_expr })
        ]
      ]

  -- NewOTTLConditionEvaluator
  unfoldable pub new_ottl_condition_evaluator :
      List String → List String → String → Option (OttlConditionEvaluator A)
  unfolding new_ottl_filter
  new_ottl_condition_evaluator [] [] error_mode = none
  new_ottl_condition_evaluator [] (e ∷ es) error_mode = new_ottl_filter [] (e ∷ es) error_mode
  new_ottl_condition_evaluator (s ∷ ss) es error_mode = new_ottl_filter (s ∷ ss) es error_mode
