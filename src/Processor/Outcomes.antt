-- ===== src/Processor/Outcomes.antt =====
-- What processTraces does with new spans of a trace with no cached decision, for each decision.
use mathlib.Core.Path.{ap}
use atlassian_sampling_proce.Base.{
  ℕ, ◌≡◌, refl, ◌∙◌, Option, none, some, List, [], ◌∷◌, ◌++◌, arith,
}
use atlassian_sampling_proce.Library.Lru.{Lru, LruLaws}
use atlassian_sampling_proce.Library.Codec.{Codec}
use atlassian_sampling_proce.Library.Pdata.{TraceId, Traces}
use atlassian_sampling_proce.Cache.Interface.{Cache, CacheLaws}
use atlassian_sampling_proce.Tracedata.{success, TraceData, get_traces}
use atlassian_sampling_proce.Evaluators.Decision.{pending, sampled}
use atlassian_sampling_proce.Policy.{Policy}
use atlassian_sampling_proce.Decider.{Externals, make_decision}
use atlassian_sampling_proce.Processor.State.{Ref, World, Asp, add_metric}
use atlassian_sampling_proce.Processor.Decisions.{remove_flush_count}
use atlassian_sampling_proce.Processor.Process.{add_policy_decisions, merged_metadata}
use atlassian_sampling_proce.Processor.ProcessTraces.{apply_final, process_new_data}
use atlassian_sampling_proce.Processor.Exclusive.{sampled_at, IsExclusive}
use atlassian_sampling_proce.Processor.Exports.{
  Evictions-exported, Evictions-heap, on_sampled_cached,
}
use atlassian_sampling_proce.Tracedata.{absorb_trace_data, TraceDataError}
use atlassian_sampling_proce.Tracedata.Merge.{merge_with, deep_copy}
use atlassian_sampling_proce.Processor.State.{assign, allocate}
use atlassian_sampling_proce.Processor.ProcessTraces.{keep_pending, put_trace, report_absorb}
use atlassian_sampling_proce.Processor.Process.{report_trace_data_err}
use atlassian_sampling_proce.Processor.Callbacks.{Called}
use atlassian_sampling_proce.Processor.Measured.{
  add_policy_decisions-Unmeasured, IsExclusive-Unmeasured,
}

module _ {A F R Re C D : Type 0} (ext : Externals A F R Re) (codec : Codec A)
    (lru : Lru TraceId ℕ D) (laws : LruLaws lru) (td_cache : Cache TraceId Ref C (World A D))
    {find : C → TraceId → Option Ref} {Inv : C → Type 0}
    (cache_laws : CacheLaws td_cache find Inv (Called lru)) where
  -- If the decision caches are exclusive, trace data of the trace is cached and can be read, and
  -- the policies come to "sampled" with the metadata of the new spans merged with those of the
  -- cached ones, then the cached traces are exported and after them the new spans, and nothing
  -- else; the trace is no longer in the trace cache, and the sampled-decision cache holds it with
  -- the time.
  pub sampled_exports_all :
      (policies : List (Policy A F R Re)) (id : TraceId) (t old : Traces A) (td : TraceData A)
      (asp : Asp A C D) (ref : Ref)
      → IsExclusive lru asp.world
      → find asp.trace_data id ≡ some ref
      → get_traces codec (asp.world.heap ref) ≡ success old
      → (make_decision ext id t
          (merge_with (deep_copy td.metadata) (asp.world.heap ref).metadata)
          policies).0
        ≡ sampled
      → ((process_new_data ext codec lru td_cache policies id t td asp).world.exported
          ≡ (asp.world.exported ++ remove_flush_count ext.attrs old ∷ [])
            ++ remove_flush_count ext.attrs t ∷ [])
        × (find (process_new_data ext codec lru td_cache policies id t td asp).trace_data id ≡ none)
        × (sampled_at lru (process_new_data ext codec lru td_cache policies id t td asp).world id
            ≡ some asp.world.now)
  unfolding process_new_data merged_metadata apply_final
  sampled_exports_all policies id t old td asp ref x there readable d =
      let ms =
        (make_decision ext id t (merge_with (deep_copy td.metadata) (asp.world.heap ref).metadata)
          policies).2 in
      let u = add_policy_decisions-Unmeasured ms asp.world in
      let r =
        on_sampled_cached ext codec lru laws td_cache cache_laws id ref td t old
          (record {
            trace_data = (td_cache.get asp.trace_data id).0;
            world = add_policy_decisions ms asp.world;
          })
          (IsExclusive-Unmeasured lru u x) (rw u.same_heap readable) in
      rw (cache_laws.get-find asp.trace_data id, there, d)
        (r.0 ∙ rw u.same_exported refl, r.1, r.2 ∙ rw u.same_now refl)

  put_trace_lem :
      (id : TraceId) (ref : Ref) (asp : Asp A C D)
      → Inv asp.trace_data
      → ((put_trace ext codec lru td_cache id ref asp).world.exported ≡ asp.world.exported)
        × (find (put_trace ext codec lru td_cache id ref asp).trace_data id ≡ some ref)
        × ((put_trace ext codec lru td_cache id ref asp).world.heap ≡ asp.world.heap)
  unfolding put_trace
  put_trace_lem id ref asp inv =
      let ev = cache_laws.put-Evictions asp.trace_data id ref asp.world in
      (
        Evictions-exported lru ev,
        cache_laws.find-put_self asp.trace_data id ref asp.world inv,
        Evictions-heap lru ev,
      )

  keep_new :
      (id : TraceId) (td : TraceData A) (asp : Asp A C D) (ref : Ref)
      → Inv asp.trace_data
      → asp.world.next_ref ≡ ref
      → ((keep_pending ext codec lru td_cache id none td asp).world.exported ≡ asp.world.exported)
        × (find (keep_pending ext codec lru td_cache id none td asp).trace_data id ≡ some ref)
        × ((keep_pending ext codec lru td_cache id none td asp).world.heap ref ≡ td)
  unfolding keep_pending allocate assign
  keep_new id td asp ref inv e =
      let p =
        put_trace_lem id asp.world.next_ref (record asp { world = (allocate td asp.world).1 })
          inv in
      (p.0, p.1 ∙ ap some e, rw p.2 (ground (arith, e)))

  report_absorb_lem :
      (err : Option TraceDataError) (spans : ℕ) (w : World A D)
      → ((report_absorb ext codec lru td_cache err spans w).exported ≡ w.exported)
        × ((report_absorb ext codec lru td_cache err spans w).heap ≡ w.heap)
  unfolding report_absorb report_trace_data_err add_metric
  report_absorb_lem none spans w = (refl, refl)
  report_absorb_lem (some e) spans w = (refl, refl)

  keep_cached :
      (id : TraceId) (ref : Ref) (td : TraceData A) (asp : Asp A C D)
      → Inv asp.trace_data
      → ((keep_pending ext codec lru td_cache id (some ref) td asp).world.exported
          ≡ asp.world.exported)
        × (find (keep_pending ext codec lru td_cache id (some ref) td asp).trace_data id ≡ some ref)
        × ((keep_pending ext codec lru td_cache id (some ref) td asp).world.heap ref
            ≡ (absorb_trace_data (asp.world.heap ref) td).0)
  unfolding keep_pending assign
  keep_cached id ref td asp inv =
      let (absorbed, err) = absorb_trace_data (asp.world.heap ref) td in
      let w = assign ref absorbed asp.world in
      let p =
        put_trace_lem id ref
          (record asp { world = report_absorb ext codec lru td_cache err td.metadata.span_count w })
          inv in
      let (e, h) = report_absorb_lem err td.metadata.span_count w in
      (p.0 ∙ e, p.1, rw (p.2, h) (ground arith))

  -- If no trace data of the trace is cached, the trace cache meets its invariant, and the policies
  -- come to "pending", then nothing is exported, and the trace cache holds for the trace a new
  -- pointer, to the new trace data.
  pub pending_is_cached :
      (policies : List (Policy A F R Re)) (id : TraceId) (t : Traces A) (td : TraceData A)
      (asp : Asp A C D)
      → Inv asp.trace_data
      → find asp.trace_data id ≡ none
      → (make_decision ext id t (deep_copy td.metadata) policies).0 ≡ pending
      → ((process_new_data ext codec lru td_cache policies id t td asp).world.exported
          ≡ asp.world.exported)
        × (find (process_new_data ext codec lru td_cache policies id t td asp).trace_data id
            ≡ some asp.world.next_ref)
        × ((process_new_data ext codec lru td_cache policies id t td asp).world.heap
              asp.world.next_ref
            ≡ td)
  unfolding process_new_data merged_metadata apply_final
  pending_is_cached policies id t td asp inv missing d =
      let ms = (make_decision ext id t (deep_copy td.metadata) policies).2 in
      let u = add_policy_decisions-Unmeasured ms asp.world in
      let r =
        keep_new id td
          (record {
            trace_data = (td_cache.get asp.trace_data id).0;
            world = add_policy_decisions ms asp.world;
          })
          asp.world.next_ref (cache_laws.get-Inv asp.trace_data id inv) u.same_next_ref in
      rw (cache_laws.get-find asp.trace_data id, missing, d) (r.0 ∙ u.same_exported, r.1, r.2)

  -- If trace data of the trace is cached, the trace cache meets its invariant, and the policies
  -- come to "pending" with the merged metadata, then nothing is exported, the trace cache still
  -- holds the same pointer for the trace, and what it points to is the cached trace data after
  -- absorbing the new.
  pub pending_absorbs :
      (policies : List (Policy A F R Re)) (id : TraceId) (t : Traces A) (td : TraceData A)
      (asp : Asp A C D) (ref : Ref)
      → Inv asp.trace_data
      → find asp.trace_data id ≡ some ref
      → (make_decision ext id t
          (merge_with (deep_copy td.metadata) (asp.world.heap ref).metadata)
          policies).0
        ≡ pending
      → ((process_new_data ext codec lru td_cache policies id t td asp).world.exported
          ≡ asp.world.exported)
        × (find (process_new_data ext codec lru td_cache policies id t td asp).trace_data id
            ≡ some ref)
        × ((process_new_data ext codec lru td_cache policies id t td asp).world.heap ref
            ≡ (absorb_trace_data (asp.world.heap ref) td).0)
  unfolding process_new_data merged_metadata apply_final
  pending_absorbs policies id t td asp ref inv there d =
      let ms =
        (make_decision ext id t (merge_with (deep_copy td.metadata) (asp.world.heap ref).metadata)
          policies).2 in
      let u = add_policy_decisions-Unmeasured ms asp.world in
      let r =
        keep_cached id ref td
          (record {
            trace_data = (td_cache.get asp.trace_data id).0;
            world = add_policy_decisions ms asp.world;
          })
          (cache_laws.get-Inv asp.trace_data id inv) in
      rw (cache_laws.get-find asp.trace_data id, there, d)
        (r.0 ∙ u.same_exported, r.1, r.2 ∙ rw u.same_heap refl)
