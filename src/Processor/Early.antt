-- ===== src/Processor/Early.antt =====
-- What earlyDecisionChecks exports and keeps, and which shard ConsumeTraces sends a group to.
use atlassian_sampling_proce.Base.{
  ℕ, ◌<◌, ◌≡◌, refl, sym, ◌∙◌, none, some, List, [], ◌∷◌, ◌++◌, All, All-append, arith,
  Option-cases, Bool-cases, ◌==◌, ==_iff, subst, inl, inr, append_assoc, append-nil,
}
use atlassian_sampling_proce.Library.Lru.{Lru, LruLaws}
use atlassian_sampling_proce.Library.Pdata.{TraceId, Resource, Traces, AttributeMap}
use atlassian_sampling_proce.Evaluators.Decision.{Decision, unspecified, sampled}
use atlassian_sampling_proce.Processor.Spans.{
  SpanAndScope, SpansGroupedByTraceId, GroupedTraceData, group_spans_by_trace_id,
  append_and_move_to_traces, shard_id_for_trace,
}
use atlassian_sampling_proce.Processor.State.{World}
use atlassian_sampling_proce.Processor.Decisions.{
  decision_span_key, remove_flush_count, send_sampled_trace_data, safe_check_decision_caches,
}
use atlassian_sampling_proce.Processor.Exclusive.{sampled_at, not_sampled_at}
use atlassian_sampling_proce.Processor.Callbacks.{
  SameDecisions, SameDecisions-refl, SameDecisions-trans, safe_check_lem, safe_check-Same,
  decision_of,
}
use atlassian_sampling_proce.Processor.Exports.{safe_check-exported}
use atlassian_sampling_proce.Processor.Consume.{
  ShardedSpans, append_to_shard, shard_groups, early_entry, check_entries, early_decision_checks,
  consume_resources, consume_traces,
}

module _ {A D : Type 0} (attrs : AttributeMap A) (lru : Lru TraceId ℕ D) (laws : LruLaws lru) where
  abbrev decided : World A D → TraceId → Decision
  decided w id = decision_of (sampled_at lru w id) (not_sampled_at lru w id)

  -- The entries of a map whose trace has no cached decision.
  abbrev pub undecided_entries : World A D → SpansGroupedByTraceId A → SpansGroupedByTraceId A
  undecided_entries w [] = []
  undecided_entries w ((id, spans) ∷ m) = elim (decided w id) [
    | unspecified ↦ (id, spans) ∷ undecided_entries w m
    | _ ↦ undecided_entries w m
  ]

  -- The exports of the entries whose trace is cached as sampled.
  abbrev pub sampled_exports : World A D → Resource A → SpansGroupedByTraceId A → List (Traces A)
  sampled_exports w r [] = []
  sampled_exports w r ((id, spans) ∷ m) = elim (decided w id) [
    | sampled ↦
        remove_flush_count attrs (append_and_move_to_traces [] r spans) ∷ sampled_exports w r m
    | _ ↦ sampled_exports w r m
  ]

  safe_check-decided :
      (w₀ w : World A D) (id : TraceId)
      → SameDecisions lru w₀ w
      → (safe_check_decision_caches lru id w).1 ≡ decided w₀ id
  safe_check-decided w₀ w id s =
      safe_check_lem lru laws w id ∙ rw (s.same_sampled id, s.same_not_sampled id) refl

  send-Same :
      (w₀ w : World A D) (t : Traces A)
      → SameDecisions lru w₀ w
      → SameDecisions lru w₀ (send_sampled_trace_data attrs t w)
  unfolding send_sampled_trace_data
  send-Same w₀ w t s = record {
    same_sampled = s.same_sampled;
    same_not_sampled = s.same_not_sampled;
  }

  sent_lem :
      (w₀ w w₁ : World A D) (id : TraceId) (r : Resource A) (spans : List (SpanAndScope A))
      (m : SpansGroupedByTraceId A) (t : ℕ) {xs : List (Traces A)}
      → sampled_at lru w₀ id ≡ some t
      → w₁.exported ≡ w.exported
      → xs
        ≡ (send_sampled_trace_data attrs (append_and_move_to_traces [] r spans) w₁).exported
          ++ sampled_exports w₀ r m
      → xs ≡ w.exported ++ sampled_exports w₀ r ((id, spans) ∷ m)
  unfolding send_sampled_trace_data
  sent_lem w₀ w w₁ id r spans m t a x h =
      h
      ∙ ground (
        arith,
        a,
        x,
        append_assoc w.exported
            (remove_flush_count attrs (append_and_move_to_traces [] r spans) ∷ [])
            (sampled_exports w₀ r m),
      )

  check_entries_lem :
      (w₀ w : World A D) (r : Resource A) (m : SpansGroupedByTraceId A)
      → SameDecisions lru w₀ w
      → ((check_entries attrs lru r m w).1 ≡ undecided_entries w₀ m)
        × ((check_entries attrs lru r m w).0.exported ≡ w.exported ++ sampled_exports w₀ r m)
        × SameDecisions lru w₀ (check_entries attrs lru r m w).0
  unfolding check_entries
  check_entries_lem w₀ w r [] s = (refl, sym (append-nil w.exported), s)
  check_entries_lem w₀ w r ((id, spans) ∷ m) s =
      let e = safe_check-decided w₀ w id s in
      let w₁ = (safe_check_decision_caches lru id w).0 in
      let s₁ : SameDecisions lru w₀ w₁ =
        SameDecisions-trans lru s (safe_check-Same lru laws w id) in
      let x = safe_check-exported lru id w in
      elim (Option-cases (sampled_at lru w₀ id)) [
        | inr (t, a) ↦
            let t' = append_and_move_to_traces [] r spans in
            let ih =
              check_entries_lem w₀ (send_sampled_trace_data attrs t' w₁) r m
                (send-Same w₀ w₁ t' s₁) in
            rw (e, a, check_entries, early_entry)
              (ground (arith, a, ih.0), sent_lem w₀ w w₁ id r spans m t a x ih.1, ih.2)
        | inl a ↦ elim (Option-cases (not_sampled_at lru w₀ id)) [
          | inr (t, b) ↦
              let ih = check_entries_lem w₀ w₁ r m s₁ in
              rw (e, a, b, check_entries, early_entry)
                (ground (arith, a, b, ih.0), ground (arith, a, b, ih.1, x), ih.2)
          | inl b ↦
              let ih = check_entries_lem w₀ w₁ r m s₁ in
              rw (e, a, b, check_entries, early_entry)
                (ground (arith, a, b, ih.0), ground (arith, a, b, ih.1, x), ih.2)
        ]
      ]

  -- For a resource without the decision attribute, earlyDecisionChecks keeps in the map exactly the
  -- entries whose trace has no cached decision, exports exactly those whose trace is cached as
  -- sampled, each as traces without the flush count and in the order of the map, and changes no
  -- cached decision.
  pub early_checks_lem :
      (r : Resource A) (m : SpansGroupedByTraceId A) (w : World A D)
      → attrs.get r.attributes decision_span_key ≡ none
      → ((early_decision_checks attrs lru r m w).1 ≡ undecided_entries w m)
        × ((early_decision_checks attrs lru r m w).0.exported ≡ w.exported ++ sampled_exports w r m)
        × SameDecisions lru w (early_decision_checks attrs lru r m w).0
  unfolding early_decision_checks
  early_checks_lem r m w h =
      rw (h, early_decision_checks) (check_entries_lem w w r m (SameDecisions-refl lru))

-- Each shard gets only groups of traces whose ID hashes to it.
abbrev pub IsSharded : {A : Type 0} → ℕ → ShardedSpans A → Type 0
IsSharded n sharded = (i : ℕ) → All (λ gtd. shard_id_for_trace gtd.id n ≡ i) (sharded i)

module _ {A : Type 0} (P : ℕ → GroupedTraceData A → Type 0) where
  append_to_shard-All :
      (i : ℕ) (gtd : GroupedTraceData A) (sharded : ShardedSpans A)
      → P i gtd
      → ((j : ℕ) → All (P j) (sharded j))
      → (j : ℕ) → All (P j) (append_to_shard i gtd sharded j)
  unfolding append_to_shard
  append_to_shard-All i gtd sharded e h j = elim (Bool-cases (j == i)) [
    | inl yes_j ↦
        rw (yes_j, append_to_shard)
          (All-append (P j) (sharded j) (gtd ∷ []) (h j)
            (subst (λ k. P k gtd) (sym ((==_iff j i).0 yes_j)) e, tt))
    | inr no_j ↦ rw (no_j, append_to_shard) (h j)
  ]

  -- What holds of a group of any spans of the resource, on the shard of its trace.
  abbrev pub HoldsUnder : ℕ → Resource A → Type 0
  HoldsUnder n r =
      (id : TraceId) (spans : List (SpanAndScope A))
      → P (shard_id_for_trace id n) (record { id = id; resource = r; spans = spans })

  shard_groups-All :
      (n : ℕ) (r : Resource A) (m : SpansGroupedByTraceId A) (sharded : ShardedSpans A)
      → HoldsUnder n r
      → ((j : ℕ) → All (P j) (sharded j))
      → (j : ℕ) → All (P j) (shard_groups n r m sharded j)
  unfolding shard_groups
  shard_groups-All n r [] sharded holds h = h
  shard_groups-All n r ((id, spans) ∷ m) sharded holds h =
      shard_groups-All n r m _ holds (append_to_shard-All _ _ sharded (holds id spans) h)

  module _ {D : Type 0} (attrs : AttributeMap A) (lru : Lru TraceId ℕ D) where
    consume_resources-All :
        (n : ℕ) (td : Traces A) (w : World A D) (sharded : ShardedSpans A)
        → All (λ rs. HoldsUnder n rs.resource) td
        → ((j : ℕ) → All (P j) (sharded j))
        → (j : ℕ) → All (P j) ((consume_resources attrs lru n td w sharded).1 j)
    unfolding consume_resources
    consume_resources-All n [] w sharded holds h = h
    consume_resources-All n (rs ∷ rest) w sharded holds h =
        consume_resources-All n rest _ _ holds.1 (
          shard_groups-All n rs.resource
            (early_decision_checks attrs lru rs.resource (group_spans_by_trace_id rs) w).1 sharded
            holds.0 h)

    -- What holds of the groups under each resource holds of all that the shards are sent.
    pub consume_traces-All :
        (n : ℕ) (td : Traces A) (w : World A D)
        → All (λ rs. HoldsUnder n rs.resource) td
        → (j : ℕ) → All (P j) ((consume_traces attrs lru n td w).1 j)
    unfolding consume_traces
    consume_traces-All n td w holds = consume_resources-All n td w (λ i. []) holds (λ i. tt)

All-everywhere : {X : Type 0} (P : X → Type 0) (xs : List X) → ((x : X) → P x) → All P xs
All-everywhere P [] h = tt
All-everywhere P (x ∷ xs) h = (h x, All-everywhere P xs h)

-- ConsumeTraces sends each shard only groups of spans whose trace ID hashes to the number of that
-- shard.
pub consume_traces-IsSharded :
    {A D : Type 0} (attrs : AttributeMap A) (lru : Lru TraceId ℕ D) (n : ℕ) (td : Traces A)
    (w : World A D)
    → IsSharded n (consume_traces attrs lru n td w).1
consume_traces-IsSharded attrs lru n td w =
    consume_traces-All (λ i gtd. shard_id_for_trace gtd.id n ≡ i) attrs lru n td w
      (All-everywhere _ td (λ rs id spans. refl))

-- For a positive number of shards below 2 to the 32, the shard of any trace ID is below that
-- number.
pub shard_id_bound : (tid : TraceId) (n : ℕ) → 0 < n → n < 4294967296 → shard_id_for_trace tid n < n
unfolding shard_id_for_trace
shard_id_bound tid n h k = ground arith
