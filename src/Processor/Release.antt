-- ===== src/Processor/Release.antt =====
-- What processTraces does with spans of a trace that the policies decide not to sample.
use mathlib.Core.Path.{ap}
use atlassian_sampling_proce.Base.{
  inr, if◌then◌else◌, ℕ, ◌≡◌, refl, ◌∙◌, Option, none, some, List, [], ◌∷◌, ◌++◌, arith,
}
use atlassian_sampling_proce.Library.Lru.{Lru, LruLaws}
use atlassian_sampling_proce.Library.Codec.{Codec}
use atlassian_sampling_proce.Library.Pdata.{TraceId, Traces}
use atlassian_sampling_proce.Cache.Interface.{Cache, CacheLaws}
use atlassian_sampling_proce.Tracedata.{TraceData}
use atlassian_sampling_proce.Policy.{Policy}
use atlassian_sampling_proce.Decider.{Externals, make_decision}
use atlassian_sampling_proce.Processor.State.{Ref, World, Asp}
use atlassian_sampling_proce.Processor.Decisions.{remove_flush_count}
use atlassian_sampling_proce.Processor.Process.{add_policy_decisions, merged_metadata}
use atlassian_sampling_proce.Processor.ProcessTraces.{apply_final, process_new_data}
use atlassian_sampling_proce.Processor.Exclusive.{IsExclusive}
use atlassian_sampling_proce.Processor.Exports.{Evictions-exported}
use atlassian_sampling_proce.Processor.Callbacks.{Called}
use atlassian_sampling_proce.Processor.Measured.{
  add_policy_decisions-Unmeasured, IsExclusive-Unmeasured,
}
use atlassian_sampling_proce.Processor.Process.{
  placeholder, emit_placeholder, release_not_sampled_trace, delete_trace,
}
use atlassian_sampling_proce.Processor.Exports.{Evictions-exported}
use atlassian_sampling_proce.Processor.Exclusive.{not_sampled_at, not_sampled_at-put_not_sampled}
use atlassian_sampling_proce.Evaluators.Decision.{not_sampled}
use atlassian_sampling_proce.Processor.Callbacks.{Evictions-Same}
use atlassian_sampling_proce.Processor.Decisions.{send_sampled_trace_data, put_not_sampled}
use atlassian_sampling_proce.Processor.Undecided.{untouched-IsExclusive}

module _ {A F R Re C D : Type 0} (ext : Externals A F R Re) (codec : Codec A)
    (lru : Lru TraceId ℕ D) (laws : LruLaws lru) (td_cache : Cache TraceId Ref C (World A D))
    {find : C → TraceId → Option Ref} {Inv : C → Type 0}
    (cache_laws : CacheLaws td_cache find Inv (Called lru)) where
  emitted-IsExclusive :
      (id : TraceId) (p : Policy A F R Re) (w : World A D)
      → IsExclusive lru w
      → IsExclusive lru (emit_placeholder ext codec lru td_cache id (some p) w)
  unfolding emit_placeholder send_sampled_trace_data
  emitted-IsExclusive id p w x = untouched-IsExclusive lru (ground arith) (ground arith) x

  emitted-now :
      (id : TraceId) (p : Policy A F R Re) (w : World A D)
      → (emit_placeholder ext codec lru td_cache id (some p) w).now ≡ w.now
  unfolding emit_placeholder send_sampled_trace_data
  emitted-now id p w = ground arith

  emitted-exported :
      (id : TraceId) (p : Policy A F R Re) (w : World A D)
      → (emit_placeholder ext codec lru td_cache id (some p) w).exported ≡ (
          if p.emit_single_span_for_not_sampled
          then w.exported
            ++ remove_flush_count ext.attrs (placeholder ext.attrs id w.random_span_id w.now p.name)
              ∷ []
          else w.exported)
  unfolding emit_placeholder send_sampled_trace_data
  emitted-exported id p w = ground arith

  released_lem :
      (id : TraceId) (p : Policy A F R Re) (asp : Asp A C D)
      → IsExclusive lru asp.world
      → (find (release_not_sampled_trace ext codec lru td_cache id (some p) asp).trace_data id
          ≡ none)
        × (not_sampled_at lru
              (release_not_sampled_trace ext codec lru td_cache id (some p) asp).world
              id
            ≡ some asp.world.now)
        × ((release_not_sampled_trace ext codec lru td_cache id (some p) asp).world.exported
            ≡ (emit_placeholder ext codec lru td_cache id (some p) asp.world).exported)
  unfolding release_not_sampled_trace delete_trace put_not_sampled
  released_lem id p asp x =
      let w = emit_placeholder ext codec lru td_cache id (some p) asp.world in
      let put =
        not_sampled_at-put_not_sampled lru laws w id (emitted-IsExclusive id p asp.world x) in
      let ev = cache_laws.delete-Evictions asp.trace_data id (put_not_sampled lru id w) in
      (
        cache_laws.find-delete_self asp.trace_data id _,
        (Evictions-Same lru laws id ev (inr (ground (arith, put)))).same_not_sampled id
            ∙ put
            ∙ ap some (emitted-now id p asp.world),
        Evictions-exported lru ev,
      )

  -- If the decision caches are exclusive and the policies come to "not sampled" by a policy, with
  -- the metadata of the new spans merged with those of the cached ones if there are any, then the
  -- trace cache no longer holds the trace, the non-sampled-decision cache holds it with the time,
  -- and nothing is exported, except the placeholder trace with the name of the policy if that
  -- policy asks for one.
  pub not_sampled_releases :
      (policies : List (Policy A F R Re)) (id : TraceId) (t : Traces A) (td : TraceData A)
      (asp : Asp A C D) (p : Policy A F R Re)
      → IsExclusive lru asp.world
      → (make_decision ext id t (merged_metadata td (find asp.trace_data id) asp.world) policies).0
        ≡ not_sampled
      → (make_decision ext id t (merged_metadata td (find asp.trace_data id) asp.world) policies).1
        ≡ some p
      → (find (process_new_data ext codec lru td_cache policies id t td asp).trace_data id ≡ none)
        × (not_sampled_at lru
              (process_new_data ext codec lru td_cache policies id t td asp).world
              id
            ≡ some asp.world.now)
        × ((process_new_data ext codec lru td_cache policies id t td asp).world.exported ≡ (
            if p.emit_single_span_for_not_sampled
            then asp.world.exported
              ++ remove_flush_count ext.attrs
                  (placeholder ext.attrs id asp.world.random_span_id asp.world.now p.name)
                ∷ []
            else asp.world.exported))
  unfolding process_new_data apply_final
  not_sampled_releases policies id t td asp p x d o =
      let ms =
        (make_decision ext id t (merged_metadata td (find asp.trace_data id) asp.world)
          policies).2 in
      let u = add_policy_decisions-Unmeasured ms asp.world in
      let w = add_policy_decisions ms asp.world in
      let r =
        released_lem id p (record { trace_data = (td_cache.get asp.trace_data id).0; world = w })
          (IsExclusive-Unmeasured lru u x) in
      rw (cache_laws.get-find asp.trace_data id, d, o)
        (
          r.0,
          r.1 ∙ ap some u.same_now,
          r.2
              ∙ emitted-exported id p w
              ∙ rw (u.same_exported, u.same_now, u.same_random_span_id) refl,
        )
