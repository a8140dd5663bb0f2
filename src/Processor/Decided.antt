-- ===== src/Processor/Decided.antt =====
-- processTraces in processor.go and the exclusiveness of the decision caches: all groups of spans.
use atlassian_sampling_proce.Base.{
  ℕ, ◌≡◌, refl, ◌∙◌, ◌≢◌, inl, inr, Bool, true, false, Option, none, some, List, [], ◌∷◌, All,
  arith, Bool-cases,
}
use atlassian_sampling_proce.Library.Lru.{Lru, LruLaws}
use atlassian_sampling_proce.Library.Codec.{Codec}
use atlassian_sampling_proce.Library.Pdata.{TraceId, Value, Resource}
use atlassian_sampling_proce.Cache.Interface.{Cache, CacheLaws}
use atlassian_sampling_proce.Evaluators.Decision.{Decision, sampled, not_sampled}
use atlassian_sampling_proce.Policy.{Policy}
use atlassian_sampling_proce.Decider.{Externals}
use atlassian_sampling_proce.Processor.Spans.{SpanAndScope, GroupedTraceData}
use atlassian_sampling_proce.Processor.State.{Ref, World, Asp}
use atlassian_sampling_proce.Processor.Decisions.{
  decision_span_key, send_sampled_trace_data, safe_check_decision_caches,
}
use atlassian_sampling_proce.Processor.Process.{
  bool_of, sampled_decision_span, apply_decision, cached_decision,
}
use atlassian_sampling_proce.Processor.ProcessTraces.{process_group, process_traces}
use atlassian_sampling_proce.Processor.Exclusive.{
  not_sampled_at, IsExclusive, put_sampled-IsExclusive,
}
use atlassian_sampling_proce.Processor.Callbacks.{
  Called, safe_check_lem, safe_check-IsExclusive, safe_check-Same,
}
use atlassian_sampling_proce.Processor.Undecided.{
  untouched-IsExclusive, IsUndecided, release_not_sampled-IsExclusive,
  process_undecided-IsExclusive,
}

module _ {A F R Re C D : Type 0} (ext : Externals A F R Re) (codec : Codec A)
    (lru : Lru TraceId ℕ D) (laws : LruLaws lru) (td_cache : Cache TraceId Ref C (World A D))
    {find : C → TraceId → Option Ref} {Inv : C → Type 0}
    (cache_laws : CacheLaws td_cache find Inv (Called lru)) where
  sampled_span-IsExclusive :
      (id : TraceId) (asp : Asp A C D)
      → IsExclusive lru asp.world
      → not_sampled_at lru asp.world id ≡ none
      → find asp.trace_data id ≡ none
      → IsExclusive lru (sampled_decision_span ext codec lru td_cache id asp).world
  unfolding sampled_decision_span
  sampled_span-IsExclusive id asp x h missing =
      rw (cache_laws.get-find asp.trace_data id, missing)
        (put_sampled-IsExclusive lru laws asp.world id x h)

  -- A decision span that says "sampled" comes only for a trace that is not cached.
  abbrev pub IsSafeSpan : Option Value → TraceId → Asp A C D → Type 0
  IsSafeSpan span id asp =
      (v : Value) → span ≡ some v → bool_of v ≡ true → find asp.trace_data id ≡ none

  apply_decision-IsExclusive :
      (id : TraceId) (r : Resource A) (spans : List (SpanAndScope A)) (span : Option Value)
      (d : Decision) (asp : Asp A C D)
      → IsExclusive lru asp.world
      → (d ≢ sampled → d ≢ not_sampled → IsUndecided lru id asp.world)
      → IsSafeSpan span id asp
      → IsExclusive lru (apply_decision ext codec lru td_cache id r spans span d asp).0.world
  unfolding apply_decision send_sampled_trace_data
  apply_decision-IsExclusive id r spans none sampled asp x u safe =
      untouched-IsExclusive lru refl refl x
  apply_decision-IsExclusive id r spans (some v) sampled asp x u safe = x
  apply_decision-IsExclusive id r spans none not_sampled asp x u safe = x
  apply_decision-IsExclusive id r spans (some v) not_sampled asp x u safe = x
  apply_decision-IsExclusive id r spans none d asp x u safe = x
  apply_decision-IsExclusive id r spans (some v) d asp x u safe = elim (Bool-cases (bool_of v)) [
    | inl e ↦
        rw (e, apply_decision)
          (sampled_span-IsExclusive id asp x (u (λ p. cc) (λ p. cc)).no_not_sampled (safe v refl e))
    | inr e ↦
        rw (e, apply_decision)
          (release_not_sampled-IsExclusive ext codec lru laws td_cache cache_laws id none asp x
            (u (λ p. cc) (λ p. cc)).no_sampled)
  ]

  apply_decision-false :
      (id : TraceId) (r : Resource A) (spans : List (SpanAndScope A)) (span : Option Value)
      (d : Decision) (asp : Asp A C D)
      → (apply_decision ext codec lru td_cache id r spans span d asp).1 ≡ false
      → ((apply_decision ext codec lru td_cache id r spans span d asp).0 ≡ asp)
        × (d ≢ sampled)
        × (d ≢ not_sampled)
  unfolding apply_decision
  apply_decision-false id r spans none sampled asp h = absurd (ground arith)
  apply_decision-false id r spans (some v) sampled asp h = absurd (ground arith)
  apply_decision-false id r spans none not_sampled asp h = absurd (ground arith)
  apply_decision-false id r spans (some v) not_sampled asp h = absurd (ground arith)
  apply_decision-false id r spans none d asp h = (refl, λ e. cc, λ e. cc)
  apply_decision-false id r spans (some v) d asp h = absurd (ground arith)

  checked-IsUndecided :
      (id : TraceId) (w : World A D)
      → (safe_check_decision_caches lru id w).1 ≢ sampled
      → (safe_check_decision_caches lru id w).1 ≢ not_sampled
      → IsUndecided lru id (safe_check_decision_caches lru id w).0
  checked-IsUndecided id w p q =
      let s = safe_check-Same lru laws w id in
      let e = safe_check_lem lru laws w id in
      record {
        no_sampled = s.same_sampled id ∙ ground (arith, e);
        no_not_sampled = s.same_not_sampled id ∙ ground (arith, e);
      }

  cached_decision-IsExclusive :
      (id : TraceId) (r : Resource A) (spans : List (SpanAndScope A)) (asp : Asp A C D)
      → IsExclusive lru asp.world
      → IsSafeSpan (ext.attrs.get r.attributes decision_span_key) id asp
      → IsExclusive lru (cached_decision ext codec lru td_cache id r spans asp).0.world
  unfolding cached_decision
  cached_decision-IsExclusive id r spans asp x safe =
      apply_decision-IsExclusive id r spans _ _ _ (safe_check-IsExclusive lru laws asp.world id x)
        (checked-IsUndecided id asp.world) safe

  cached_decision-IsUndecided :
      (id : TraceId) (r : Resource A) (spans : List (SpanAndScope A)) (asp : Asp A C D)
      → (cached_decision ext codec lru td_cache id r spans asp).1 ≡ false
      → IsUndecided lru id (cached_decision ext codec lru td_cache id r spans asp).0.world
  unfolding cached_decision
  cached_decision-IsUndecided id r spans asp h =
      let (e, p, q) = apply_decision-false id r spans _ _ _ h in
      rw e (checked-IsUndecided id asp.world p q)

  -- If both decision caches have room and no trace is in both, then the same holds after one round
  -- of processTraces, also at a decision span, provided that a decision span that says "sampled"
  -- comes only while the trace cache does not hold its trace.
  pub process_group-IsExclusive :
      (policies : List (Policy A F R Re)) (compress : Bool) (gtd : GroupedTraceData A)
      (asp : Asp A C D)
      → IsExclusive lru asp.world
      → IsSafeSpan (ext.attrs.get gtd.resource.attributes decision_span_key) gtd.id asp
      → IsExclusive lru (process_group ext codec lru td_cache policies compress gtd asp).world
  unfolding process_group
  process_group-IsExclusive policies compress gtd asp x safe =
      let x' = cached_decision-IsExclusive gtd.id gtd.resource gtd.spans asp x safe in
      elim (Bool-cases
        (cached_decision ext codec lru td_cache gtd.id gtd.resource gtd.spans asp).1) [
          | inl e ↦ rw e x'
          | inr e ↦ rw e (
              process_undecided-IsExclusive ext codec lru laws td_cache cache_laws policies compress
                gtd.id _ _ x' (cached_decision-IsUndecided gtd.id gtd.resource gtd.spans asp e))
        ]

  -- If both decision caches have room and no trace is in both, then the same holds after
  -- processTraces on any list of groups of spans none of whose resources has the decision
  -- attribute, for any policies, any codec and any library cache and trace cache that keep their
  -- laws.
  pub process_traces-IsExclusive :
      (policies : List (Policy A F R Re)) (compress : Bool) (gtds : List (GroupedTraceData A))
      (asp : Asp A C D)
      → IsExclusive lru asp.world
      → All (λ gtd. ext.attrs.get gtd.resource.attributes decision_span_key ≡ none) gtds
      → IsExclusive lru (process_traces ext codec lru td_cache policies compress gtds asp).world
  unfolding process_traces
  process_traces-IsExclusive policies compress [] asp x none_of = x
  process_traces-IsExclusive policies compress (gtd ∷ gtds) asp x none_of =
      process_traces-IsExclusive policies compress gtds _
        (process_group-IsExclusive policies compress gtd asp x (λ v e. absurd (cc))) none_of.1
