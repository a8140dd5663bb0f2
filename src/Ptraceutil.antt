-- ===== src/Ptraceutil.antt =====
-- internal/ptraceutil/iterator.go: the spans of a ptrace.Traces in order. A `range` over the
-- iterator is a recursion on this list; a `break` or `return` in it stops the recursion.
use atlassian_sampling_proce.Base.{
  ℕ, ◌+◌, ◌≡◌, refl, sym, List, [], ◌∷◌, ◌++◌, map, append_assoc, length, length-append,
}
use atlassian_sampling_proce.Library.Pdata.{Span, ScopeSpans, ResourceSpans, Traces}

pub record SpanItem (A : Type 0) : Type 0 where
  pub resource_spans : ResourceSpans A
  pub scope_spans : ScopeSpans A
  pub span : Span A

module _ {A : Type 0} where
  unfoldable pub scope_items : ResourceSpans A → ScopeSpans A → List (Span A) → List (SpanItem A)
  scope_items rs ss [] = []
  scope_items rs ss (span ∷ spans) =
      record { resource_spans = rs; scope_spans = ss; span = span } ∷ scope_items rs ss spans

  unfoldable pub resource_items : ResourceSpans A → List (ScopeSpans A) → List (SpanItem A)
  unfolding scope_items
  resource_items rs [] = []
  resource_items rs (ss ∷ rest) = scope_items rs ss ss.spans ++ resource_items rs rest

  unfoldable pub trace_iterator : Traces A → List (SpanItem A)
  unfolding resource_items
  trace_iterator [] = []
  trace_iterator (rs ∷ rest) = resource_items rs rs.scope_spans ++ trace_iterator rest

  abbrev pub spans_of : List (SpanItem A) → List (Span A)
  spans_of = map (λ i. i.span)

  -- Traces.SpanCount()
  unfoldable pub span_count : Traces A → ℕ
  span_count t = length (trace_iterator t)

  pub trace_iterator-append :
      (t u : Traces A) → trace_iterator (t ++ u) ≡ trace_iterator t ++ trace_iterator u
  unfolding trace_iterator
  trace_iterator-append [] u = refl
  trace_iterator-append (rs ∷ rest) u = rw (trace_iterator-append rest u) (
      sym
        (append_assoc (resource_items rs rs.scope_spans) (trace_iterator rest) (trace_iterator u)))

  pub span_count-append : (t u : Traces A) → span_count (t ++ u) ≡ span_count t + span_count u
  unfolding span_count
  span_count-append t u =
      rw (trace_iterator-append t u) (length-append (trace_iterator t) (trace_iterator u))
