-- ===== src/Processor/Exports.antt =====
-- What handling the spans of one trace exports, deletes and records: processTraces.
use atlassian_sampling_proce.Base.{
  ℕ, ◌≡◌, refl, ◌∙◌, inl, inr, Bool, true, Option, none, some, List, [], ◌∷◌, ◌++◌, arith,
}
use atlassian_sampling_proce.Library.Lru.{Lru, LruLaws}
use atlassian_sampling_proce.Library.Codec.{Codec}
use atlassian_sampling_proce.Library.Pdata.{TraceId, Value, Resource, Traces, AttributeMapLaws}
use atlassian_sampling_proce.Cache.Interface.{Cache, CacheLaws, Evictions, Evictions-keep}
use atlassian_sampling_proce.Tracedata.{success, TraceData, get_traces}
use atlassian_sampling_proce.Evaluators.Decision.{not_sampled}
use atlassian_sampling_proce.Policy.{Policy}
use atlassian_sampling_proce.Decider.{Externals}
use atlassian_sampling_proce.Processor.Spans.{
  SpanAndScope, GroupedTraceData, append_and_move_to_traces,
}
use atlassian_sampling_proce.Processor.State.{CacheName, secondary, Ref, World, Asp, add_metric}
use atlassian_sampling_proce.Processor.Decisions.{
  decision_span_key, remove_flush_count, send_sampled_trace_data, get_sampled, get_not_sampled,
  put_sampled, put_not_sampled, safe_check_decision_caches, record_evicted, cache_eviction_callback,
  primary_eviction_callback, secondary_eviction_callback,
}
use atlassian_sampling_proce.Processor.Process.{delete_trace, apply_decision, cached_decision}
use atlassian_sampling_proce.Processor.ProcessTraces.{
  send_traces_or_report, release_cached, on_sampled, process_group,
}
use atlassian_sampling_proce.Processor.Moved.{IsSentOf, sent-IsSentOf}
use atlassian_sampling_proce.Processor.Exclusive.{
  sampled_at, not_sampled_at, IsExclusive, sampled_at-put_sampled,
}
use atlassian_sampling_proce.Processor.Callbacks.{Called, safe_check_lem, Evictions-Same}

module _ {A D : Type 0} (lru : Lru TraceId ℕ D) where
  record_evicted-exported :
      (name : CacheName) (id : TraceId) (s n : Option ℕ) (w : World A D)
      → (record_evicted lru name id s n w).exported ≡ w.exported
  unfolding record_evicted put_not_sampled add_metric
  record_evicted-exported name id none none w = refl
  record_evicted-exported name id (some _) n w = refl
  record_evicted-exported name id none (some _) w = refl

  callback-exported :
      (name : CacheName) (id : TraceId) (td : Ref) (w : World A D)
      → (cache_eviction_callback lru name id td w).exported ≡ w.exported
  unfolding cache_eviction_callback get_sampled get_not_sampled
  callback-exported name id td w = record_evicted-exported name id _ _ _

  Called-exported :
      (id : TraceId) (td : Ref) (w w' : World A D)
      → Called lru id td w w'
      → w'.exported ≡ w.exported
  unfolding primary_eviction_callback secondary_eviction_callback
  Called-exported id td w w' (inl e) = rw e (callback-exported _ id td w)
  Called-exported id td w w' (inr e) = rw e (ground (arith, callback-exported secondary id td w))

  -- No eviction exports anything.
  pub Evictions-exported :
      {Of : TraceId → Type 0} {w w' : World A D}
      → Evictions Of (Called lru) w w'
      → w'.exported ≡ w.exported
  Evictions-exported {w = w} ev =
      Evictions-keep (λ u. u.exported ≡ w.exported)
        (λ k v u u' _ c h. Called-exported k v u u' c ∙ h) ev refl

  record_evicted-heap :
      (name : CacheName) (id : TraceId) (s n : Option ℕ) (w : World A D)
      → (record_evicted lru name id s n w).heap ≡ w.heap
  unfolding record_evicted put_not_sampled add_metric
  record_evicted-heap name id none none w = refl
  record_evicted-heap name id (some _) n w = refl
  record_evicted-heap name id none (some _) w = refl

  callback-heap :
      (name : CacheName) (id : TraceId) (td : Ref) (w : World A D)
      → (cache_eviction_callback lru name id td w).heap ≡ w.heap
  unfolding cache_eviction_callback get_sampled get_not_sampled
  callback-heap name id td w = record_evicted-heap name id _ _ _

  Called-heap :
      (id : TraceId) (td : Ref) (w w' : World A D) → Called lru id td w w' → w'.heap ≡ w.heap
  unfolding primary_eviction_callback secondary_eviction_callback
  Called-heap id td w w' (inl e) = rw e (callback-heap _ id td w)
  Called-heap id td w w' (inr e) = rw e (ground (arith, callback-heap secondary id td w))

  -- No eviction changes any trace data.
  pub Evictions-heap :
      {Of : TraceId → Type 0} {w w' : World A D} → Evictions Of (Called lru) w w' → w'.heap ≡ w.heap
  Evictions-heap {w = w} ev =
      Evictions-keep (λ u. u.heap ≡ w.heap) (λ k v u u' _ c h. Called-heap k v u u' c ∙ h) ev refl

  pub safe_check-exported :
      (id : TraceId) (w : World A D) → (safe_check_decision_caches lru id w).0.exported ≡ w.exported
  unfolding safe_check_decision_caches get_sampled get_not_sampled
  safe_check-exported id w = ground arith

module _ {A F R Re C D : Type 0} (ext : Externals A F R Re) (codec : Codec A)
    (lru : Lru TraceId ℕ D) (laws : LruLaws lru) (td_cache : Cache TraceId Ref C (World A D))
    {find : C → TraceId → Option Ref} {Inv : C → Type 0}
    (cache_laws : CacheLaws td_cache find Inv (Called lru)) where
  apply_not_sampled :
      (id : TraceId) (r : Resource A) (spans : List (SpanAndScope A)) (span : Option Value)
      (asp : Asp A C D)
      → apply_decision ext codec lru td_cache id r spans span not_sampled asp ≡ (asp, true)
  unfolding apply_decision
  apply_not_sampled id r spans none asp = refl
  apply_not_sampled id r spans (some v) asp = refl

  late_spans_lem :
      (policies : List (Policy A F R Re)) (compress : Bool) (gtd : GroupedTraceData A)
      (asp : Asp A C D) (t : ℕ)
      → ext.attrs.get gtd.resource.attributes decision_span_key ≡ none
      → sampled_at lru asp.world gtd.id ≡ some t
      → ((process_group ext codec lru td_cache policies compress gtd asp).world.exported
          ≡ asp.world.exported
            ++ remove_flush_count ext.attrs (append_and_move_to_traces [] gtd.resource gtd.spans)
              ∷ [])
        × ((process_group ext codec lru td_cache policies compress gtd asp).trace_data
            ≡ asp.trace_data)
  unfolding process_group cached_decision send_sampled_trace_data
  late_spans_lem policies compress gtd asp t none_of s =
      rw (none_of, safe_check_lem lru laws asp.world gtd.id, s)
        (rw (send_sampled_trace_data, safe_check-exported lru gtd.id asp.world) refl, refl)

  -- If the attributes of a resource are a map, then spans that are no decision span, of a trace
  -- that the sampled-decision cache holds, are exported, after what was exported before: as one
  -- export of exactly these spans, each once, under resources with the attributes of theirs but
  -- without the flush count. The trace cache is left as it is.
  pub late_spans_exported :
      (attr_laws : AttributeMapLaws ext.attrs) (policies : List (Policy A F R Re)) (compress : Bool)
      (gtd : GroupedTraceData A) (asp : Asp A C D) (time : ℕ)
      → ext.attrs.get gtd.resource.attributes decision_span_key ≡ none
      → sampled_at lru asp.world gtd.id ≡ some time
      → (t : Traces A) × ((process_group ext codec lru td_cache policies compress gtd
            asp).world.exported
          ≡ asp.world.exported ++ t ∷ [])
        × IsSentOf ext.attrs gtd.resource gtd.spans t
        × ((process_group ext codec lru td_cache policies compress gtd asp).trace_data
            ≡ asp.trace_data)
  late_spans_exported attr_laws policies compress gtd asp time none_of s =
      let (e, c) = late_spans_lem policies compress gtd asp time none_of s in
      (
        remove_flush_count ext.attrs (append_and_move_to_traces [] gtd.resource gtd.spans),
        e,
        sent-IsSentOf ext.attrs attr_laws gtd.resource gtd.spans,
        c,
      )

  -- Spans of a trace that only the non-sampled-decision cache holds, a decision span included,
  -- export nothing and leave the trace cache as it is.
  pub late_spans_dropped :
      (policies : List (Policy A F R Re)) (compress : Bool) (gtd : GroupedTraceData A)
      (asp : Asp A C D) (t : ℕ)
      → sampled_at lru asp.world gtd.id ≡ none
      → not_sampled_at lru asp.world gtd.id ≡ some t
      → ((process_group ext codec lru td_cache policies compress gtd asp).world.exported
          ≡ asp.world.exported)
        × ((process_group ext codec lru td_cache policies compress gtd asp).trace_data
            ≡ asp.trace_data)
  unfolding process_group cached_decision
  late_spans_dropped policies compress gtd asp t s n =
      rw (safe_check_lem lru laws asp.world gtd.id, s, n, apply_not_sampled gtd.id)
        (safe_check-exported lru gtd.id asp.world, refl)

  abbrev sent_world : TraceId → ℕ → Traces A → World A D → World A D
  sent_world id spans old w =
      send_traces_or_report ext codec lru td_cache (success old) spans (put_sampled lru id w)

  sent_sampled_at :
      (id : TraceId) (spans : ℕ) (old : Traces A) (w : World A D)
      → IsExclusive lru w
      → sampled_at lru (sent_world id spans old w) id ≡ some w.now
  unfolding send_traces_or_report send_sampled_trace_data
  sent_sampled_at id spans old w x = sampled_at-put_sampled lru laws w id x

  sent_exported :
      (id : TraceId) (spans : ℕ) (old : Traces A) (w : World A D)
      → (sent_world id spans old w).exported ≡ w.exported ++ remove_flush_count ext.attrs old ∷ []
  unfolding send_traces_or_report send_sampled_trace_data put_sampled
  sent_exported id spans old w = refl

  deleted_sampled_at :
      (id : TraceId) (c : C) (w : World A D) (now : ℕ)
      → sampled_at lru w id ≡ some now
      → sampled_at lru (td_cache.delete c id w).1 id ≡ some now
  deleted_sampled_at id c w now h =
      (Evictions-Same lru laws id (cache_laws.delete-Evictions c id w)
          (inl (ground arith))).same_sampled
        id
      ∙ h

  -- What a Sampled decision on spans with cached trace data does, if they can be read.
  pub on_sampled_cached :
      (id : TraceId) (ref : Ref) (td : TraceData A) (t old : Traces A) (asp : Asp A C D)
      → IsExclusive lru asp.world
      → get_traces codec (asp.world.heap ref) ≡ success old
      → ((on_sampled ext codec lru td_cache id (some ref) td t asp).world.exported
          ≡ (asp.world.exported ++ remove_flush_count ext.attrs old ∷ [])
            ++ remove_flush_count ext.attrs t ∷ [])
        × (find (on_sampled ext codec lru td_cache id (some ref) td t asp).trace_data id ≡ none)
        × (sampled_at lru (on_sampled ext codec lru td_cache id (some ref) td t asp).world id
            ≡ some asp.world.now)
  unfolding on_sampled release_cached delete_trace send_sampled_trace_data add_metric put_sampled
  on_sampled_cached id ref td t old asp x h =
      let n = td.metadata.span_count in
      let ev = cache_laws.delete-Evictions asp.trace_data id (sent_world id n old asp.world) in
      rw h (
        rw (Evictions-exported lru ev, sent_exported id n old asp.world) refl,
        cache_laws.find-delete_self asp.trace_data id _,
        deleted_sampled_at id asp.trace_data _ _ (sent_sampled_at id n old asp.world x),
      )
