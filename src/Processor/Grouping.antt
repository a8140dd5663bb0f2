-- ===== src/Processor/Grouping.antt =====
-- processor_copied.go: the spans where they are grouped by trace ID and where they are put together
-- again.
use atlassian_sampling_proce.Base.{
  ℕ, suc, ◌+◌, ◌≡◌, refl, sym, ap, ◌∙◌, inl, inr, true, false, List, [], ◌∷◌, ◌++◌, map, length,
  length-append, append-nil, append_assoc, arith, Bool-cases, if◌then◌else◌,
}
use atlassian_sampling_proce.Base.Text.{bytes_equal}
use atlassian_sampling_proce.Library.Pdata.{
  Bytes, TraceId, Scope, Span, ScopeSpans, Resource, ResourceSpans,
}
use atlassian_sampling_proce.Ptraceutil.{scope_items, resource_items, trace_iterator, span_count}
use atlassian_sampling_proce.Processor.Spans.{
  SpanAndScope, SpansGroupedByTraceId, append_span, group_scope, group_scopes,
  group_spans_by_trace_id, append_to_scope, rebuild_scopes, append_and_move_to_traces,
}

bytes_equal_refl : (a : Bytes) → bytes_equal a a ≡ true
unfolding bytes_equal
bytes_equal_refl [] = refl
bytes_equal_refl (x ∷ a) = ground (arith, bytes_equal_refl a)

bytes_equal_eq : (a b : Bytes) → bytes_equal a b ≡ true → a ≡ b
unfolding bytes_equal
bytes_equal_eq [] [] h = refl
bytes_equal_eq [] (y ∷ b) h = absurd (ground arith)
bytes_equal_eq (x ∷ a) [] h = absurd (ground arith)
bytes_equal_eq (x ∷ a) (y ∷ b) h = ground (arith, bytes_equal_eq a b)

bytes_equal_other :
    (a b c : Bytes) → bytes_equal a b ≡ false → bytes_equal a c ≡ true → bytes_equal b c ≡ false
bytes_equal_other a b c h k = elim (Bool-cases (bytes_equal b c)) [
  | inl e ↦
      absurd (ground (arith, h, bytes_equal_refl a, bytes_equal_eq a c k, bytes_equal_eq b c e))
  | inr e ↦ e
]

module _ {A : Type 0} where
  -- What the map holds for a trace.
  abbrev pub spans_for : TraceId → SpansGroupedByTraceId A → List (SpanAndScope A)
  spans_for k [] = []
  spans_for k ((key, ss) ∷ m) = if bytes_equal key k then ss else spans_for k m

  -- Those of the spans that are of the trace, in order.
  abbrev pub of_trace : TraceId → List (SpanAndScope A) → List (SpanAndScope A)
  of_trace k [] = []
  of_trace k (s ∷ ss) = if bytes_equal s.span.trace_id k then s ∷ of_trace k ss else of_trace k ss

  -- The spans of the scopes, each with its scope.
  abbrev pub scoped : ℕ → Scope A → List (Span A) → List (SpanAndScope A)
  scoped ref scope [] = []
  scoped ref scope (span ∷ spans) =
      record { span = span; scope_ref = ref; scope = scope } ∷ scoped ref scope spans

  abbrev pub all_scoped : ℕ → List (ScopeSpans A) → List (SpanAndScope A)
  all_scoped ref [] = []
  all_scoped ref (ss ∷ rest) = scoped ref ss.scope ss.spans ++ all_scoped (suc ref) rest

  of_trace-append :
      (k : TraceId) (ss tt' : List (SpanAndScope A))
      → of_trace k (ss ++ tt') ≡ of_trace k ss ++ of_trace k tt'
  of_trace-append k [] tt' = refl
  of_trace-append k (s ∷ ss) tt' = ground (arith, of_trace-append k ss tt')

  append_span_lem :
      (k : TraceId) (s : SpanAndScope A) (m : SpansGroupedByTraceId A)
      → spans_for k (append_span s.span.trace_id s m) ≡ spans_for k m ++ of_trace k (s ∷ [])
  unfolding append_span
  append_span_lem k s [] = ground arith
  append_span_lem k s ((key, ss) ∷ m) = elim (Bool-cases (bytes_equal key s.span.trace_id)) [
    | inl e ↦
        ground
          (arith, bytes_equal_eq key s.span.trace_id e, append-nil ss, append-nil (spans_for k m))
    | inr e ↦ elim (Bool-cases (bytes_equal key k)) [
      | inl f ↦ ground (arith, bytes_equal_other key s.span.trace_id k e f, append-nil ss)
      | inr f ↦ ground (arith, append_span_lem k s m)
    ]
  ]

  group_scope_lem :
      (k : TraceId) (ref : ℕ) (scope : Scope A) (spans : List (Span A))
      (m : SpansGroupedByTraceId A)
      → spans_for k (group_scope ref scope spans m)
        ≡ spans_for k m ++ of_trace k (scoped ref scope spans)
  unfolding group_scope
  group_scope_lem k ref scope [] m = sym (append-nil (spans_for k m))
  group_scope_lem k ref scope (span ∷ spans) m =
      let s : SpanAndScope A = record { span = span; scope_ref = ref; scope = scope } in
      group_scope_lem k ref scope spans (append_span span.trace_id s m)
      ∙ ap (λ l. l ++ of_trace k (scoped ref scope spans)) (append_span_lem k s m)
      ∙ append_assoc (spans_for k m) (of_trace k (s ∷ [])) (of_trace k (scoped ref scope spans))
      ∙ ap (λ l. spans_for k m ++ l) (sym (of_trace-append k (s ∷ []) (scoped ref scope spans)))

  group_scopes_lem :
      (k : TraceId) (ref : ℕ) (scopes : List (ScopeSpans A)) (m : SpansGroupedByTraceId A)
      → spans_for k (group_scopes ref scopes m)
        ≡ spans_for k m ++ of_trace k (all_scoped ref scopes)
  unfolding group_scopes
  group_scopes_lem k ref [] m = sym (append-nil (spans_for k m))
  group_scopes_lem k ref (ss ∷ rest) m =
      group_scopes_lem k (suc ref) rest (group_scope ref ss.scope ss.spans m)
      ∙ ap (λ l. l ++ of_trace k (all_scoped (suc ref) rest))
          (group_scope_lem k ref ss.scope ss.spans m)
      ∙ append_assoc (spans_for k m) (of_trace k (scoped ref ss.scope ss.spans))
          (of_trace k (all_scoped (suc ref) rest))
      ∙ ap (λ l. spans_for k m ++ l)
          (sym (of_trace-append k (scoped ref ss.scope ss.spans) (all_scoped (suc ref) rest)))

  -- Grouping the spans of a resource by trace ID gives each trace ID exactly its spans, with their
  -- scopes, in the order of the resource.
  pub grouped_spans :
      (k : TraceId) (rs : ResourceSpans A)
      → spans_for k (group_spans_by_trace_id rs) ≡ of_trace k (all_scoped 0 rs.scope_spans)
  unfolding group_spans_by_trace_id
  grouped_spans k rs = group_scopes_lem k 0 rs.scope_spans []

  -- The number of spans in scopes under construction.
  abbrev held : List (ℕ × ScopeSpans A) → ℕ
  held [] = 0
  held ((ref, ss) ∷ rest) = length ss.spans + held rest

  append_to_scope-held :
      (s : SpanAndScope A) (scopes : List (ℕ × ScopeSpans A))
      → held (append_to_scope s scopes) ≡ suc (held scopes)
  unfolding append_to_scope
  append_to_scope-held s [] = refl
  append_to_scope-held s ((ref, ss) ∷ rest) =
      ground (arith, append_to_scope-held s rest, length-append ss.spans (s.span ∷ []))

  rebuild_scopes-held :
      (scopes : List (ℕ × ScopeSpans A)) (ss : List (SpanAndScope A))
      → held (rebuild_scopes scopes ss) ≡ held scopes + length ss
  unfolding rebuild_scopes
  rebuild_scopes-held scopes [] = omega arith
  rebuild_scopes-held scopes (s ∷ ss) =
      ground
        (arith, rebuild_scopes-held (append_to_scope s scopes) ss, append_to_scope-held s scopes)

  scope_items-length :
      (rs : ResourceSpans A) (ss : ScopeSpans A) (spans : List (Span A))
      → length (scope_items rs ss spans) ≡ length spans
  unfolding scope_items
  scope_items-length rs ss [] = refl
  scope_items-length rs ss (span ∷ spans) = ground (arith, scope_items-length rs ss spans)

  resource_items-held :
      (rs : ResourceSpans A) (scopes : List (ℕ × ScopeSpans A))
      → length (resource_items rs (map (λ e. e.1) scopes)) ≡ held scopes
  unfolding resource_items
  resource_items-held rs [] = refl
  resource_items-held rs ((ref, ss) ∷ rest) =
      length-append (scope_items rs ss ss.spans) (resource_items rs (map (λ e. e.1) rest))
      ∙ rw (scope_items-length rs ss ss.spans, resource_items-held rs rest) refl

  -- The traces that appendAndMoveToTraces makes of some spans have as many spans.
  pub moved_spans :
      (r : Resource A) (ss : List (SpanAndScope A))
      → span_count (append_and_move_to_traces [] r ss) ≡ length ss
  unfolding append_and_move_to_traces span_count trace_iterator
  moved_spans r ss =
      rw (append-nil)
        (resource_items-held _ (rebuild_scopes [] ss) ∙ rebuild_scopes-held [] ss ∙ omega arith)
