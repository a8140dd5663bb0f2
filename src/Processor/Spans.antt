-- ===== src/Processor/Spans.antt =====
-- processor_copied.go and util.go: incoming spans by trace ID, put together again, and sharded.
use Prim.Native.Nat.{bit_xor}
use atlassian_sampling_proce.Base.{
  ℕ, suc, ◌*◌, ◌%◌, ◌^◌, List, [], ◌∷◌, ◌++◌, map, ◌==◌, if◌then◌else◌,
}
use atlassian_sampling_proce.Base.Text.{bytes_equal}
use atlassian_sampling_proce.Library.Pdata.{
  Bytes, TraceId, Scope, Span, ScopeSpans, Resource, ResourceSpans, Traces,
}

-- A span with the pointer to its scope: `scope_ref` is the pointer, `scope` what it points to.
pub record SpanAndScope (A : Type 0) : Type 0 where
  pub span : Span A
  pub scope_ref : ℕ
  pub scope : Scope A

-- A Go map, by its entries: each trace ID once.
abbrev pub SpansGroupedByTraceId : Type 0 → Type 0
SpansGroupedByTraceId A = List (TraceId × List (SpanAndScope A))

pub record GroupedTraceData (A : Type 0) : Type 0 where
  pub id : TraceId
  pub resource : Resource A
  pub spans : List (SpanAndScope A)

module _ {A : Type 0} where
  -- idToSpans[key] = append(idToSpans[key], s)
  unfoldable pub append_span :
      TraceId → SpanAndScope A → SpansGroupedByTraceId A → SpansGroupedByTraceId A
  unfolding bytes_equal
  append_span key s [] = (key, s ∷ []) ∷ []
  append_span key s ((k, ss) ∷ m) =
      if bytes_equal k key then (k, ss ++ s ∷ []) ∷ m else (k, ss) ∷ append_span key s m

  unfoldable pub group_scope :
      ℕ → Scope A → List (Span A) → SpansGroupedByTraceId A → SpansGroupedByTraceId A
  unfolding append_span
  group_scope ref scope [] m = m
  group_scope ref scope (span ∷ spans) m =
      group_scope ref scope spans
        (append_span span.trace_id (record { span = span; scope_ref = ref; scope = scope }) m)

  unfoldable pub group_scopes :
      ℕ → List (ScopeSpans A) → SpansGroupedByTraceId A → SpansGroupedByTraceId A
  unfolding group_scope
  group_scopes ref [] m = m
  group_scopes ref (ss ∷ rest) m = group_scopes (suc ref) rest (group_scope ref ss.scope ss.spans m)

  unfoldable pub group_spans_by_trace_id : ResourceSpans A → SpansGroupedByTraceId A
  unfolding group_scopes
  group_spans_by_trace_id rs = group_scopes 0 rs.scope_spans []

  -- The new ScopeSpans of appendAndMoveToTraces, each under the pointer that it was made for.
  unfoldable pub append_to_scope :
      SpanAndScope A → List (ℕ × ScopeSpans A) → List (ℕ × ScopeSpans A)
  append_to_scope s [] = (s.scope_ref, record { scope = s.scope; spans = s.span ∷ [] }) ∷ []
  append_to_scope s ((ref, ss) ∷ rest) =
      if ref == s.scope_ref
      then (ref, record ss { spans = ss.spans ++ s.span ∷ [] }) ∷ rest
      else (ref, ss) ∷ append_to_scope s rest

  unfoldable pub rebuild_scopes :
      List (ℕ × ScopeSpans A) → List (SpanAndScope A) → List (ℕ × ScopeSpans A)
  unfolding append_to_scope
  rebuild_scopes scopes [] = scopes
  rebuild_scopes scopes (s ∷ rest) = rebuild_scopes (append_to_scope s scopes) rest

  unfoldable pub append_and_move_to_traces :
      Traces A → Resource A → List (SpanAndScope A) → Traces A
  unfolding rebuild_scopes
  append_and_move_to_traces dest resource spans =
      dest
      ++ record { resource = resource; scope_spans = map (λ e. e.1) (rebuild_scopes [] spans) } ∷ []

-- hash/fnv, New32a
abbrev pub fnv32_offset : ℕ
fnv32_offset = 2166136261

abbrev pub fnv32_prime : ℕ
fnv32_prime = 16777619

unfoldable pub fnv32a_write : ℕ → Bytes → ℕ
fnv32a_write h [] = h
fnv32a_write h (b ∷ bs) = fnv32a_write (bit_xor h b * fnv32_prime % 2 ^ 32) bs

-- "s33d"
abbrev pub seed : Bytes
seed = b's' ∷ b'3' ∷ b'3' ∷ b'd' ∷ []

unfoldable pub shard_id_for_trace : TraceId → ℕ → ℕ
unfolding fnv32a_write
shard_id_for_trace tid n = fnv32a_write (fnv32a_write fnv32_offset seed) tid % (n % 2 ^ 32)
