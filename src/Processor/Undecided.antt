-- ===== src/Processor/Undecided.antt =====
-- processTraces in processor.go and the exclusiveness of the decision caches: spans of a trace with
-- no cached decision.
use atlassian_sampling_proce.Base.{
  ℕ, ◌≡◌, refl, inl, inr, Bool, Option, none, some, List, [], ◌∷◌, arith,
}
use atlassian_sampling_proce.Library.Lru.{Lru, LruLaws}
use atlassian_sampling_proce.Library.Codec.{Codec}
use atlassian_sampling_proce.Library.Pdata.{TraceId, Traces}
use atlassian_sampling_proce.Cache.Interface.{Cache, CacheLaws}
use atlassian_sampling_proce.Priority.{unspecified as unspecified_priority}
use atlassian_sampling_proce.Tracedata.Storage.{Result-cases}
use atlassian_sampling_proce.Tracedata.{
  Result, success, failure, TraceDataError, TraceData, absorb_trace_data, get_traces,
  new_trace_data,
}
use atlassian_sampling_proce.Tracedata.Merge.{Metadata}
use atlassian_sampling_proce.Evaluators.Decision.{
  Decision, unspecified, pending, sampled, not_sampled, low_priority,
}
use atlassian_sampling_proce.Policy.{Policy}
use atlassian_sampling_proce.Decider.{Externals, PolicyDecision, make_decision}
use atlassian_sampling_proce.Processor.State.{
  policy_decided, Ref, World, Asp, add_metric, assign, allocate,
}
use atlassian_sampling_proce.Processor.Decisions.{send_sampled_trace_data}
use atlassian_sampling_proce.Processor.Process.{
  report_trace_data_err, add_policy_decisions, emit_placeholder, delete_trace,
  release_not_sampled_trace, merged_metadata,
}
use atlassian_sampling_proce.Processor.ProcessTraces.{
  send_traces_or_report, release_cached, on_sampled, report_absorb, put_trace, keep_pending,
  apply_final, process_new_data, process_undecided,
}
use atlassian_sampling_proce.Processor.Exclusive.{
  sampled_at, not_sampled_at, IsExclusive, put_sampled-IsExclusive, put_not_sampled-IsExclusive,
}
use atlassian_sampling_proce.Processor.Callbacks.{Called, Evictions-IsExclusive}

module _ {A D : Type 0} (lru : Lru TraceId ℕ D) where
  -- What leaves both decision caches as they are keeps them exclusive.
  pub untouched-IsExclusive :
      {w w' : World A D}
      → w'.sampled_decision_cache ≡ w.sampled_decision_cache
      → w'.non_sampled_decision_cache ≡ w.non_sampled_decision_cache
      → IsExclusive lru w
      → IsExclusive lru w'
  untouched-IsExclusive e f x = record {
    room = rw e x.room;
    other_room = rw f x.other_room;
    apart = λ q. rw (e, f) (x.apart q);
  }

  -- No decision on the trace is cached.
  pub record IsUndecided (id : TraceId) (w : World A D) : Type 0 where
    pub no_sampled : sampled_at lru w id ≡ none
    pub no_not_sampled : not_sampled_at lru w id ≡ none

module _ {A F R Re C D : Type 0} (ext : Externals A F R Re) (codec : Codec A)
    (lru : Lru TraceId ℕ D) (laws : LruLaws lru) (td_cache : Cache TraceId Ref C (World A D))
    {find : C → TraceId → Option Ref} {Inv : C → Type 0}
    (cache_laws : CacheLaws td_cache find Inv (Called lru)) where
  delete_trace-IsExclusive :
      (id : TraceId) (asp : Asp A C D)
      → IsExclusive lru asp.world
      → IsExclusive lru (delete_trace ext codec lru td_cache id asp).world
  unfolding delete_trace
  delete_trace-IsExclusive id asp =
      Evictions-IsExclusive lru laws (cache_laws.delete-Evictions asp.trace_data id asp.world)

  put_trace-IsExclusive :
      (id : TraceId) (ref : Ref) (asp : Asp A C D)
      → IsExclusive lru asp.world
      → IsExclusive lru (put_trace ext codec lru td_cache id ref asp).world
  unfolding put_trace
  put_trace-IsExclusive id ref asp =
      Evictions-IsExclusive lru laws (cache_laws.put-Evictions asp.trace_data id ref asp.world)

  emit_placeholder-caches :
      (id : TraceId) (pol : Option (Policy A F R Re)) (w : World A D)
      → ((emit_placeholder ext codec lru td_cache id pol w).sampled_decision_cache
          ≡ w.sampled_decision_cache)
        × ((emit_placeholder ext codec lru td_cache id pol w).non_sampled_decision_cache
            ≡ w.non_sampled_decision_cache)
  unfolding emit_placeholder send_sampled_trace_data
  emit_placeholder-caches id none w = (refl, refl)
  emit_placeholder-caches id (some p) w = (ground arith, ground arith)

  pub release_not_sampled-IsExclusive :
      (id : TraceId) (pol : Option (Policy A F R Re)) (asp : Asp A C D)
      → IsExclusive lru asp.world
      → sampled_at lru asp.world id ≡ none
      → IsExclusive lru (release_not_sampled_trace ext codec lru td_cache id pol asp).world
  unfolding release_not_sampled_trace
  release_not_sampled-IsExclusive id pol asp x h =
      let (e, f) = emit_placeholder-caches id pol asp.world in
      delete_trace-IsExclusive id _
        (put_not_sampled-IsExclusive lru laws _ id (untouched-IsExclusive lru e f x) (rw e h))

  send_or_report-caches :
      (r : Result (Traces A)) (spans : ℕ) (w : World A D)
      → ((send_traces_or_report ext codec lru td_cache r spans w).sampled_decision_cache
          ≡ w.sampled_decision_cache)
        × ((send_traces_or_report ext codec lru td_cache r spans w).non_sampled_decision_cache
            ≡ w.non_sampled_decision_cache)
  unfolding send_traces_or_report send_sampled_trace_data report_trace_data_err add_metric
  send_or_report-caches (success t) spans w = (refl, refl)
  send_or_report-caches (failure e) spans w = (refl, refl)

  release_cached-IsExclusive :
      (id : TraceId) (cached : Option Ref) (spans : ℕ) (asp : Asp A C D)
      → IsExclusive lru asp.world
      → IsExclusive lru (release_cached ext codec lru td_cache id cached spans asp).world
  unfolding release_cached
  release_cached-IsExclusive id none spans asp x = x
  release_cached-IsExclusive id (some ref) spans asp x =
      let (e, f) = send_or_report-caches (get_traces codec (asp.world.heap ref)) spans asp.world in
      delete_trace-IsExclusive id _ (untouched-IsExclusive lru e f x)

  on_sampled-IsExclusive :
      (id : TraceId) (cached : Option Ref) (td : TraceData A) (t : Traces A) (asp : Asp A C D)
      → IsExclusive lru asp.world
      → not_sampled_at lru asp.world id ≡ none
      → IsExclusive lru (on_sampled ext codec lru td_cache id cached td t asp).world
  unfolding on_sampled send_sampled_trace_data add_metric
  on_sampled-IsExclusive id cached td t asp x h = untouched-IsExclusive lru refl refl (
      release_cached-IsExclusive id cached td.metadata.span_count _
        (put_sampled-IsExclusive lru laws asp.world id x h))

  report_absorb-caches :
      (e : Option TraceDataError) (spans : ℕ) (w : World A D)
      → ((report_absorb ext codec lru td_cache e spans w).sampled_decision_cache
          ≡ w.sampled_decision_cache)
        × ((report_absorb ext codec lru td_cache e spans w).non_sampled_decision_cache
            ≡ w.non_sampled_decision_cache)
  unfolding report_absorb report_trace_data_err add_metric
  report_absorb-caches none spans w = (refl, refl)
  report_absorb-caches (some e) spans w = (refl, refl)

  keep_pending-IsExclusive :
      (id : TraceId) (cached : Option Ref) (td : TraceData A) (asp : Asp A C D)
      → IsExclusive lru asp.world
      → IsExclusive lru (keep_pending ext codec lru td_cache id cached td asp).world
  unfolding keep_pending allocate assign
  keep_pending-IsExclusive id none td asp x =
      put_trace-IsExclusive id _ _ (untouched-IsExclusive lru refl refl x)
  keep_pending-IsExclusive id (some ref) td asp x =
      let (e, f) =
        report_absorb-caches (absorb_trace_data (asp.world.heap ref) td).1 td.metadata.span_count
          (assign ref (absorb_trace_data (asp.world.heap ref) td).0 asp.world) in
      put_trace-IsExclusive id _ _ (untouched-IsExclusive lru e f x)

  apply_final-IsExclusive :
      (d : Decision) (pol : Option (Policy A F R Re)) (id : TraceId) (cached : Option Ref)
      (merged : Metadata) (td : TraceData A) (t : Traces A) (asp : Asp A C D)
      → IsExclusive lru asp.world
      → IsUndecided lru id asp.world
      → IsExclusive lru (apply_final ext codec lru td_cache d pol id cached merged td t asp).world
  unfolding apply_final
  apply_final-IsExclusive sampled pol id cached merged td t asp x u =
      on_sampled-IsExclusive id cached td t asp x u.no_not_sampled
  apply_final-IsExclusive not_sampled pol id cached merged td t asp x u =
      release_not_sampled-IsExclusive id pol asp x u.no_sampled
  apply_final-IsExclusive low_priority pol id cached merged td t asp x u =
      keep_pending-IsExclusive id cached _ asp x
  apply_final-IsExclusive pending pol id cached merged td t asp x u =
      keep_pending-IsExclusive id cached td asp x
  apply_final-IsExclusive unspecified pol id cached merged td t asp x u =
      keep_pending-IsExclusive id cached td asp x

  add_policy_decisions-caches :
      (ms : List PolicyDecision) (w : World A D)
      → ((add_policy_decisions ms w).sampled_decision_cache ≡ w.sampled_decision_cache)
        × ((add_policy_decisions ms w).non_sampled_decision_cache ≡ w.non_sampled_decision_cache)
  unfolding add_policy_decisions add_metric
  add_policy_decisions-caches [] w = (refl, refl)
  add_policy_decisions-caches (m ∷ ms) w =
      add_policy_decisions-caches ms (add_metric (policy_decided m) w)

  process_new_data-IsExclusive :
      (policies : List (Policy A F R Re)) (id : TraceId) (t : Traces A) (td : TraceData A)
      (asp : Asp A C D)
      → IsExclusive lru asp.world
      → IsUndecided lru id asp.world
      → IsExclusive lru (process_new_data ext codec lru td_cache policies id t td asp).world
  unfolding process_new_data
  process_new_data-IsExclusive policies id t td asp x u =
      let (e, f) =
        add_policy_decisions-caches
          (make_decision ext id t (merged_metadata td (td_cache.get asp.trace_data id).1 asp.world)
            policies).2
          asp.world in
      apply_final-IsExclusive _ _ id _ _ td t _ (untouched-IsExclusive lru e f x)
        (record { no_sampled = rw e u.no_sampled; no_not_sampled = rw f u.no_not_sampled })

  pub process_undecided-IsExclusive :
      (policies : List (Policy A F R Re)) (compress : Bool) (id : TraceId) (t : Traces A)
      (asp : Asp A C D)
      → IsExclusive lru asp.world
      → IsUndecided lru id asp.world
      → IsExclusive lru (process_undecided ext codec lru td_cache policies compress id t asp).world
  unfolding process_undecided report_trace_data_err add_metric
  process_undecided-IsExclusive policies compress id t asp x u =
      elim (Result-cases (new_trace_data codec asp.world.now t unspecified_priority compress)) [
        | inl (td, e) ↦
            rw (e, process_undecided) (process_new_data-IsExclusive policies id t td asp x u)
        | inr (err, e) ↦ rw (e, process_undecided) (untouched-IsExclusive lru refl refl x)
      ]
