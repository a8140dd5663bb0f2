-- ===== src/Processor/Consume.antt =====
-- processor.go: earlyDecisionChecks and ConsumeTraces up to the sending to the shards. A range over a
-- map is in the order of the list that stands for it.
use atlassian_sampling_proce.Base.{ℕ, none, some, List, [], ◌∷◌, ◌++◌, if◌then◌else◌, ◌==◌}
use atlassian_sampling_proce.Library.Lru.{Lru}
use atlassian_sampling_proce.Library.Pdata.{TraceId, Resource, Traces, AttributeMap}
use atlassian_sampling_proce.Evaluators.Decision.{
  Decision, unspecified, pending, sampled, not_sampled, low_priority,
}
use atlassian_sampling_proce.Processor.Spans.{
  SpanAndScope, SpansGroupedByTraceId, GroupedTraceData, group_spans_by_trace_id,
  append_and_move_to_traces, shard_id_for_trace,
}
use atlassian_sampling_proce.Processor.State.{World}
use atlassian_sampling_proce.Processor.Decisions.{
  decision_span_key, send_sampled_trace_data, safe_check_decision_caches,
}

-- shardedResourceSpans: what each shard is sent
abbrev pub ShardedSpans : Type 0 → Type 0
ShardedSpans A = ℕ → List (GroupedTraceData A)

-- shardedResourceSpans[i] = append(shardedResourceSpans[i], gtd)
unfoldable pub append_to_shard :
    {A : Type 0} → ℕ → GroupedTraceData A → ShardedSpans A → ShardedSpans A
append_to_shard i gtd sharded j = if j == i then sharded j ++ gtd ∷ [] else sharded j

unfoldable pub shard_groups :
    {A : Type 0} → ℕ → Resource A → SpansGroupedByTraceId A → ShardedSpans A → ShardedSpans A
unfolding append_to_shard
shard_groups n resource [] sharded = sharded
shard_groups n resource ((id, spans) ∷ rest) sharded = shard_groups n resource rest (
    append_to_shard (shard_id_for_trace id n)
      (record { id = id; resource = resource; spans = spans }) sharded)

module _ {A D : Type 0} (attrs : AttributeMap A) (lru : Lru TraceId ℕ D) where
  -- The world, and what stays in the map of the entry.
  unfoldable pub early_entry :
      Resource A
      → TraceId
      → List (SpanAndScope A)
      → Decision
      → World A D
      → World A D × SpansGroupedByTraceId A
  early_entry resource id spans sampled w =
      (send_sampled_trace_data attrs (append_and_move_to_traces [] resource spans) w, [])
  early_entry resource id spans not_sampled w = (w, [])
  early_entry resource id spans unspecified w = (w, (id, spans) ∷ [])
  early_entry resource id spans pending w = (w, (id, spans) ∷ [])
  early_entry resource id spans low_priority w = (w, (id, spans) ∷ [])

  unfoldable pub check_entries :
      Resource A → SpansGroupedByTraceId A → World A D → World A D × SpansGroupedByTraceId A
  unfolding early_entry
  check_entries resource [] w = (w, [])
  check_entries resource ((id, spans) ∷ m) w =
      let (w₁, d) = safe_check_decision_caches lru id w in
      let (w₂, kept) = early_entry resource id spans d w₁ in
      let (w₃, rest) = check_entries resource m w₂ in (w₃, kept ++ rest)

  -- Every entry of a resource with the decision attribute is passed over.
  unfoldable pub early_decision_checks :
      Resource A → SpansGroupedByTraceId A → World A D → World A D × SpansGroupedByTraceId A
  unfolding check_entries
  early_decision_checks resource m w = elim (attrs.get resource.attributes decision_span_key) [
    | some _ ↦ (w, m)
    | none ↦ check_entries resource m w
  ]

  -- The loop over the resources, for `n` shards.
  unfoldable pub consume_resources :
      ℕ → Traces A → World A D → ShardedSpans A → World A D × ShardedSpans A
  unfolding early_decision_checks shard_groups
  consume_resources n [] w sharded = (w, sharded)
  consume_resources n (rs ∷ rest) w sharded =
      let (w', m) = early_decision_checks rs.resource (group_spans_by_trace_id rs) w in
      consume_resources n rest w' (shard_groups n rs.resource m sharded)

  unfoldable pub consume_traces : ℕ → Traces A → World A D → World A D × ShardedSpans A
  unfolding consume_resources
  consume_traces n td w = consume_resources n td w (λ i. [])
