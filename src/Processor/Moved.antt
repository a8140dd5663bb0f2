-- ===== src/Processor/Moved.antt =====
-- processor_copied.go, appendAndMoveToTraces, and processor.go, sendSampledTraceData: the spans and
-- the resource of what is exported.
use mathlib.Core.List.Permᴰ
use atlassian_sampling_proce.Base.{
  ℕ, ◌≡◌, ◌≢◌, refl, ap, subst, ◌∙◌, none, String, List, [], ◌∷◌, ◌++◌, map, All, Permᴰ, append-nil,
  append_assoc, if_either, ◌==◌,
}
use atlassian_sampling_proce.Library.Pdata.{
  Span, ScopeSpans, Resource, ResourceSpans, Traces, AttributeMap, AttributeMapLaws,
}
use atlassian_sampling_proce.Ptraceutil.{spans_of, scope_items, resource_items, trace_iterator}
use atlassian_sampling_proce.Processor.Spans.{
  SpanAndScope, append_to_scope, rebuild_scopes, append_and_move_to_traces,
}
use atlassian_sampling_proce.Processor.Decisions.{flush_count_key, remove_flush_count}

map-append : {X Y : Type 0} (f : X → Y) (xs ys : List X) → map f (xs ++ ys) ≡ map f xs ++ map f ys
map-append f [] ys = refl
map-append f (x ∷ xs) ys = ap (◌∷◌ (f x)) (map-append f xs ys)

module _ {A : Type 0} where
  -- The spans in scopes under construction.
  abbrev held_spans : List (ℕ × ScopeSpans A) → List (Span A)
  held_spans [] = []
  held_spans ((ref, ss) ∷ rest) = ss.spans ++ held_spans rest

  append_to_scope-perm :
      (s : SpanAndScope A) (scopes : List (ℕ × ScopeSpans A))
      → Permᴰ (held_spans (append_to_scope s scopes)) (held_spans scopes ++ s.span ∷ [])
  unfolding append_to_scope
  append_to_scope-perm s [] = Permᴰ.refl (s.span ∷ [])
  append_to_scope-perm s ((ref, ss) ∷ rest) =
      rw (append_assoc ss.spans (held_spans rest) (s.span ∷ [])) (
        if_either (λ l. Permᴰ (held_spans l) (ss.spans ++ (held_spans rest ++ s.span ∷ [])))
          (ref == s.scope_ref) _ _
          (rw (append_assoc ss.spans (s.span ∷ []) (held_spans rest)) (
            Permᴰ.append_left ss.spans (
              Permᴰ.symm (
                subst (λ l. Permᴰ (held_spans rest ++ s.span ∷ []) (s.span ∷ l))
                  (append-nil (held_spans rest)) (Permᴰ.middle s.span (held_spans rest) [])))))
          (Permᴰ.append_left ss.spans (append_to_scope-perm s rest)))

  abbrev pub spans_in : List (SpanAndScope A) → List (Span A)
  spans_in = map (λ s. s.span)

  rebuild_scopes-perm :
      (scopes : List (ℕ × ScopeSpans A)) (ss : List (SpanAndScope A))
      → Permᴰ (held_spans (rebuild_scopes scopes ss)) (held_spans scopes ++ spans_in ss)
  unfolding rebuild_scopes
  rebuild_scopes-perm scopes [] = rw (append-nil (held_spans scopes)) (Permᴰ.refl _)
  rebuild_scopes-perm scopes (s ∷ ss) =
      Permᴰ.trans (rebuild_scopes-perm (append_to_scope s scopes) ss) (
        subst (λ l. Permᴰ (held_spans (append_to_scope s scopes) ++ spans_in ss) l)
          (append_assoc (held_spans scopes) (s.span ∷ []) (spans_in ss))
          (Permᴰ.append_right (spans_in ss) (append_to_scope-perm s scopes)))

  scope_items-spans :
      (rs : ResourceSpans A) (ss : ScopeSpans A) (spans : List (Span A))
      → spans_of (scope_items rs ss spans) ≡ spans
  unfolding scope_items
  scope_items-spans rs ss [] = refl
  scope_items-spans rs ss (span ∷ spans) = ap (◌∷◌ span) (scope_items-spans rs ss spans)

  resource_items-spans :
      (rs : ResourceSpans A) (scopes : List (ℕ × ScopeSpans A))
      → spans_of (resource_items rs (map (λ e. e.1) scopes)) ≡ held_spans scopes
  unfolding resource_items
  resource_items-spans rs [] = refl
  resource_items-spans rs ((ref, ss) ∷ rest) =
      map-append (λ i. i.span) (scope_items rs ss ss.spans) _
      ∙ rw (scope_items-spans rs ss ss.spans, resource_items-spans rs rest) refl

-- The traces hold these spans, grouped by their scopes, and their resources have the attributes of
-- this one but for the flush count, which is gone.
pub record IsSentOf {A : Type 0} (attrs : AttributeMap A) (r : Resource A)
    (spans : List (SpanAndScope A)) (t : Traces A) : Type 0 where
  pub same_spans : Permᴰ (spans_of (trace_iterator t)) (spans_in spans)
  pub no_flush_count : All (λ rs. attrs.get rs.resource.attributes flush_count_key ≡ none) t
  pub same_attributes :
      (q : String)
      → q ≢ flush_count_key
      → All (λ rs. attrs.get rs.resource.attributes q ≡ attrs.get r.attributes q) t

module _ {A : Type 0} (attrs : AttributeMap A) (laws : AttributeMapLaws attrs) where
  pub sent-IsSentOf :
      (r : Resource A) (spans : List (SpanAndScope A))
      → IsSentOf attrs r spans (remove_flush_count attrs (append_and_move_to_traces [] r spans))
  unfolding remove_flush_count append_and_move_to_traces trace_iterator
  sent-IsSentOf r spans = record {
    same_spans =
        rw (append-nil, resource_items-spans _ (rebuild_scopes [] spans))
          (rebuild_scopes-perm [] spans);
    no_flush_count = (laws.get-remove_self r.attributes flush_count_key, tt);
    same_attributes = λ q h. (laws.get-remove_ne r.attributes flush_count_key q h, tt);
  }
