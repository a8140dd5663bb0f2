-- ===== src/Processor/Restart.antt =====
-- What a processor makes of the decisions that another has flushed.
use atlassian_sampling_proce.Base.{
  ℕ, ◌≡◌, inr, ◌∙◌, ap, Bool, true, false, Option, none, some, List, arith,
}
use atlassian_sampling_proce.Library.Lru.{Lru, LruLaws}
use atlassian_sampling_proce.Library.Codec.{Codec}
use atlassian_sampling_proce.Library.Pdata.{TraceId, AttributeMapLaws}
use atlassian_sampling_proce.Cache.Interface.{Cache, CacheLaws}
use atlassian_sampling_proce.Policy.{Policy}
use atlassian_sampling_proce.Decider.{Externals}
use atlassian_sampling_proce.Processor.Spans.{SpanAndScope}
use atlassian_sampling_proce.Processor.State.{Ref, World, Asp}
use atlassian_sampling_proce.Processor.Decisions.{
  get_sampled, get_not_sampled, safe_check_decision_caches,
}
use atlassian_sampling_proce.Processor.Process.{
  cached_decision, sampled_decision_span, release_not_sampled_trace, emit_placeholder, delete_trace,
  bool_of,
}
use atlassian_sampling_proce.Processor.ProcessTraces.{process_group}
use atlassian_sampling_proce.Processor.Exclusive.{
  sampled_at, not_sampled_at, IsExclusive, sampled_at-put_sampled, not_sampled_at-put_not_sampled,
}
use atlassian_sampling_proce.Processor.Callbacks.{
  Called, safe_check_lem, safe_check-IsExclusive, Evictions-Same,
}
use atlassian_sampling_proce.Processor.Undecided.{IsUndecided}
use atlassian_sampling_proce.Processor.Flush.{decision_resource}

module _ {A F R Re C D : Type 0} (ext : Externals A F R Re) (attr_laws : AttributeMapLaws ext.attrs)
    (codec : Codec A) (lru : Lru TraceId ℕ D) (laws : LruLaws lru)
    (td_cache : Cache TraceId Ref C (World A D)) {find : C → TraceId → Option Ref}
    {Inv : C → Type 0} (cache_laws : CacheLaws td_cache find Inv (Called lru)) where
  safe_check-now :
      (id : TraceId) (w : World A D) → (safe_check_decision_caches lru id w).0.now ≡ w.now
  unfolding safe_check_decision_caches get_sampled get_not_sampled
  safe_check-now id w = ground arith

  sampled_span-sampled_at :
      (id : TraceId) (asp : Asp A C D)
      → IsExclusive lru asp.world
      → find asp.trace_data id ≡ none
      → sampled_at lru (sampled_decision_span ext codec lru td_cache id asp).world id
        ≡ some asp.world.now
  unfolding sampled_decision_span
  sampled_span-sampled_at id asp x missing =
      rw (cache_laws.get-find asp.trace_data id, missing)
        (sampled_at-put_sampled lru laws asp.world id x)

  deleted_not_sampled_at :
      (id : TraceId) (c : C) (w : World A D) (now : ℕ)
      → not_sampled_at lru w id ≡ some now
      → not_sampled_at lru (td_cache.delete c id w).1 id ≡ some now
  deleted_not_sampled_at id c w now h =
      (Evictions-Same lru laws id (cache_laws.delete-Evictions c id w)
          (inr (ground arith))).same_not_sampled
        id
      ∙ h

  released-not_sampled_at :
      (id : TraceId) (asp : Asp A C D)
      → IsExclusive lru asp.world
      → not_sampled_at lru (release_not_sampled_trace ext codec lru td_cache id none asp).world id
        ≡ some asp.world.now
  unfolding release_not_sampled_trace emit_placeholder delete_trace
  released-not_sampled_at id asp x =
      deleted_not_sampled_at id asp.trace_data _ _
        (not_sampled_at-put_not_sampled lru laws asp.world id x)

  -- If the attributes of a resource are a map, the decision caches are exclusive and hold no
  -- decision on a trace, and the trace cache does not hold it, then handling a group of spans under
  -- the resource that flushAll makes for sampled decisions enters the trace as sampled, with the
  -- time.
  pub flushed_sampled_restored :
      (policies : List (Policy A F R Re)) (compress : Bool) (id : TraceId)
      (spans : List (SpanAndScope A)) (asp : Asp A C D)
      → IsExclusive lru asp.world
      → IsUndecided lru id asp.world
      → find asp.trace_data id ≡ none
      → sampled_at lru
          (process_group ext codec lru td_cache policies compress
            (record { id = id; resource = decision_resource ext.attrs true; spans = spans })
            asp).world
          id
        ≡ some asp.world.now
  unfolding process_group cached_decision decision_resource bool_of
  flushed_sampled_restored policies compress id spans asp x u missing =
      rw
        (
          attr_laws.get-put_self,
          safe_check_lem lru laws asp.world id,
          u.no_sampled,
          u.no_not_sampled,
        )
        (sampled_span-sampled_at id
            (record asp { world = (safe_check_decision_caches lru id asp.world).0 })
            (safe_check-IsExclusive lru laws asp.world id x) missing
          ∙ ap some (safe_check-now id asp.world))

  -- If the attributes of a resource are a map, and the decision caches are exclusive and hold no
  -- decision on a trace, then handling a group of spans under the resource that flushAll makes for
  -- decisions not to sample enters the trace as not sampled, with the time.
  pub flushed_not_sampled_restored :
      (policies : List (Policy A F R Re)) (compress : Bool) (id : TraceId)
      (spans : List (SpanAndScope A)) (asp : Asp A C D)
      → IsExclusive lru asp.world
      → IsUndecided lru id asp.world
      → not_sampled_at lru
          (process_group ext codec lru td_cache policies compress
            (record { id = id; resource = decision_resource ext.attrs false; spans = spans })
            asp).world
          id
        ≡ some asp.world.now
  unfolding process_group cached_decision decision_resource bool_of
  flushed_not_sampled_restored policies compress id spans asp x u =
      rw
        (
          attr_laws.get-put_self,
          safe_check_lem lru laws asp.world id,
          u.no_sampled,
          u.no_not_sampled,
        )
        (released-not_sampled_at id
            (record asp { world = (safe_check_decision_caches lru id asp.world).0 })
            (safe_check-IsExclusive lru laws asp.world id x)
          ∙ ap some (safe_check-now id asp.world))
