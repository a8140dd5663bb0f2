-- ===== src/Processor/Shards/Sound.antt =====
-- processor.go: Start, Shutdown, ConsumeTraces and the shard listeners, and the invariant.
use atlassian_sampling_proce.Base.{
  ℕ, refl, subst, true, false, Option, String, List, All, All-append, if_either,
}
use atlassian_sampling_proce.Library.Lru.{Lru, LruLaws}
use atlassian_sampling_proce.Library.Codec.{Codec}
use atlassian_sampling_proce.Library.Pdata.{TraceId, Traces}
use atlassian_sampling_proce.Evaluators.Evaluator.{Started, started, start_failed}
use atlassian_sampling_proce.Policy.{Policy}
use atlassian_sampling_proce.Decider.{Externals, start_policies}
use atlassian_sampling_proce.Regulator.{Regulator, clamp, wanted_size, regulate_cache_size}
use atlassian_sampling_proce.Processor.State.{Ref, Asp}
use atlassian_sampling_proce.Processor.Early.{consume_traces-All}
use atlassian_sampling_proce.Processor.Exclusive.{IsExclusive}
use atlassian_sampling_proce.Processor.Undecided.{untouched-IsExclusive}
use atlassian_sampling_proce.Processor.Decided.{process_group-IsExclusive}
use atlassian_sampling_proce.Processor.Kept.{consume_traces-IsExclusive, flush_all-IsExclusive}
use atlassian_sampling_proce.Processor.Store.{
  TraceStore, primary_of, trace_store, trace_store-CacheLaws, primary_sizer,
  resize_primary-IsExclusive,
}
use atlassian_sampling_proce.Processor.Flush.{FlushRun}
use atlassian_sampling_proce.Processor.Shards.{
  System, StartResult, ShutdownResult, set_started, start_decided, start_processor, begin_shutdown,
  arrive, receive, handle_next, regulate, tick, finish_shutdown,
}
use atlassian_sampling_proce.Processor.Shards.Steps.{NoDecisionSpans}
use atlassian_sampling_proce.Processor.Shards.Cases.{receive_either, handle_either, tick_either}
use atlassian_sampling_proce.Processor.Shards.Belongs.{
  update-keeps, Belongs, BatchBelongs, sends-Belong, under_resources, IsSound,
}

module _ {A F R Re T D : Type 0} (ext : Externals A F R Re) (codec : Codec A)
    (lru : Lru TraceId ℕ D) (laws : LruLaws lru) (store : Lru TraceId Ref T)
    (store_laws : LruLaws store) (host : String → Option (Option R)) where
  pub as_before-IsSound :
      (s t : System A F R Re T D)
      → IsSound ext.attrs lru s
      → IsSound ext.attrs lru (record t {
        asp = s.asp;
        shard_count = s.shard_count;
        buffered = s.buffered;
        working = s.working;
        sending = s.sending;
      })
  as_before-IsSound s t h = record {
    exclusive = h.exclusive;
    buffers_belong = h.buffers_belong;
    working_belongs = h.working_belongs;
    sending_belongs = h.sending_belongs;
  }

  -- What keeps the decision caches, the groups and the number of shards keeps the invariant.
  pub with_asp-IsSound :
      (asp : Asp A _ D) (s : System A F R Re T D)
      → IsSound ext.attrs lru s
      → IsExclusive lru asp.world
      → IsSound ext.attrs lru (record s { asp = asp })
  with_asp-IsSound asp s h x = record {
    exclusive = x;
    buffers_belong = h.buffers_belong;
    working_belongs = h.working_belongs;
    sending_belongs = h.sending_belongs;
  }

  pub start_decided-IsSound :
      (r : Started (List (Policy A F R Re))) (s : System A F R Re T D)
      → IsSound ext.attrs lru s
      → IsSound ext.attrs lru (start_decided r s).0
  unfolding start_decided
  start_decided-IsSound (start_failed e) s h = h
  start_decided-IsSound (started policies) s h =
      as_before-IsSound s (start_decided (started policies) s).0 h

  pub start-IsSound :
      (s : System A F R Re T D)
      → IsSound ext.attrs lru s
      → IsSound ext.attrs lru (start_processor host s).0
  unfolding start_processor set_started
  start-IsSound s h =
      if_either (λ (r : System A F R Re T D × StartResult). IsSound ext.attrs lru r.0)
        s.asp.world.telemetry.started _ _ h
        (start_decided-IsSound (start_policies host s.policies) _
          (with_asp-IsSound _ s h (untouched-IsExclusive lru refl refl h.exclusive)))

  pub begin_shutdown-IsSound :
      (s : System A F R Re T D)
      → IsSound ext.attrs lru s
      → IsSound ext.attrs lru (begin_shutdown s).0
  unfolding begin_shutdown
  begin_shutdown-IsSound s h =
      if_either (λ (r : System A F R Re T D × ShutdownResult). IsSound ext.attrs lru r.0)
        s.asp.world.telemetry.started _ _
        (if_either (λ (r : System A F R Re T D × ShutdownResult). IsSound ext.attrs lru r.0)
          s.shutdown_closed _ _ (as_before-IsSound s (record s { ticking = false }) h)
          (as_before-IsSound s
            (record s { ticking = false; shutdown_closed = true; waiting = true }) h))
        h

  pub arrive-IsSound :
      (td : Traces A) (s : System A F R Re T D)
      → NoDecisionSpans ext.attrs td
      → IsSound ext.attrs lru s
      → IsSound ext.attrs lru (arrive ext codec lru store td s)
  unfolding arrive
  arrive-IsSound td s none_of h = record {
    exclusive =
        consume_traces-IsExclusive ext.attrs lru laws s.shard_count td s.asp.world h.exclusive;
    buffers_belong = h.buffers_belong;
    working_belongs = h.working_belongs;
    sending_belongs = All-append _ s.sending _ h.sending_belongs (
        sends-Belong ext.attrs s.shard_count 0 s.shard_count _ (
          consume_traces-All (Belongs ext.attrs s.shard_count) ext.attrs lru s.shard_count td
            s.asp.world (under_resources ext.attrs s.shard_count td none_of)));
  }

  pub receive-IsSound :
      (i : ℕ) (s : System A F R Re T D)
      → IsSound ext.attrs lru s
      → IsSound ext.attrs lru (receive i s)
  receive-IsSound i s h = receive_either (IsSound ext.attrs lru) i s h (λ batch rest e.
      let b = subst (All (BatchBelongs ext.attrs s.shard_count i)) e (h.buffers_belong i) in
      record {
        exclusive = h.exclusive;
        buffers_belong =
            update-keeps (λ j. All (BatchBelongs ext.attrs s.shard_count j)) i rest s.buffered b.1
              h.buffers_belong;
        working_belongs =
            update-keeps (BatchBelongs ext.attrs s.shard_count) i batch s.working b.0
              h.working_belongs;
        sending_belongs = h.sending_belongs;
      })

  pub handle-IsSound :
      (i : ℕ) (s : System A F R Re T D)
      → IsSound ext.attrs lru s
      → IsSound ext.attrs lru (handle_next ext codec lru store i s)
  handle-IsSound i s h =
      handle_either ext codec lru store (IsSound ext.attrs lru) i s h (λ gtd rest e.
        let b = subst (BatchBelongs ext.attrs s.shard_count i) e (h.working_belongs i) in
        record {
          exclusive =
              process_group-IsExclusive ext codec lru laws (trace_store lru store)
                (trace_store-CacheLaws lru store store_laws) s.policies s.compress gtd s.asp
                h.exclusive (λ v f. absurd (cc (b.0.1)));
          buffers_belong = h.buffers_belong;
          working_belongs =
              update-keeps (BatchBelongs ext.attrs s.shard_count) i rest s.working b.1
                h.working_belongs;
          sending_belongs = h.sending_belongs;
        })

  regulated-IsExclusive :
      (r : Regulator) (heap : ℕ) (asp : Asp A _ D)
      → IsExclusive lru asp.world
      → IsExclusive lru (regulate_cache_size ext.float (primary_sizer lru store) r heap asp).0.world
  unfolding regulate_cache_size
  regulated-IsExclusive r heap asp x =
      if_either (λ (p : Asp A (TraceStore T) D × ℕ). IsExclusive lru p.0.world) _ _ _ x
        (resize_primary-IsExclusive lru store laws asp
          (clamp r (wanted_size ext.float r (primary_of asp.trace_data).size heap)) x)

  pub tick-IsSound :
      (t heap : ℕ) (s : System A F R Re T D)
      → IsSound ext.attrs lru s
      → IsSound ext.attrs lru (tick ext codec lru store t heap s)
  unfolding regulate
  tick-IsSound t heap s h =
      tick_either ext codec lru store (IsSound ext.attrs lru) t heap s h
        (λ r. with_asp-IsSound _ s h (regulated-IsExclusive r heap s.asp h.exclusive))

  pub finish-IsSound :
      (run : FlushRun A) (s : System A F R Re T D)
      → IsSound ext.attrs lru s
      → IsSound ext.attrs lru (finish_shutdown ext codec lru store run s)
  unfolding finish_shutdown set_started
  finish-IsSound run s h =
      let stopped = record s { waiting = false } in
      let h' = as_before-IsSound s stopped h in
      let x = untouched-IsExclusive lru refl refl h.exclusive in
      if_either (IsSound ext.attrs lru) s.flush_on_shutdown _ _
        (with_asp-IsSound _ stopped h' (
          flush_all-IsExclusive ext.attrs lru laws codec (trace_store lru store) run
            (set_started false s.asp) x))
        (with_asp-IsSound (set_started false s.asp) stopped h' x)
