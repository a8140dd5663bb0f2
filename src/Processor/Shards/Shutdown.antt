-- ===== src/Processor/Shards/Shutdown.antt =====
-- processor.go, Shutdown: the end of all shard listeners, and of the processor.
use mathlib.Core.List.Permᴰ
use atlassian_sampling_proce.Base.{
  inl, ℕ, zero, suc, ◌<◌, ◌≤◌, ◌≡◌, refl, sym, ◌∙◌, subst, Bool, true, false, Option, String, List,
  [], ◌∷◌, arith, if_either, ℕ_discrete,
}
use atlassian_sampling_proce.Library.Lru.{Lru}
use atlassian_sampling_proce.Library.Codec.{Codec}
use atlassian_sampling_proce.Library.Pdata.{TraceId, Traces, AttributeMap}
use atlassian_sampling_proce.Cache.Interface.{Cache}
use atlassian_sampling_proce.Cache.LruCache
use atlassian_sampling_proce.Cache.LruCache.{LruCache}
use atlassian_sampling_proce.Tracedata.{Result, success, failure, get_traces}
use atlassian_sampling_proce.Decider.{Externals}
use atlassian_sampling_proce.Processor.State.{Ref, World, Asp, Telemetry, add_metric}
use atlassian_sampling_proce.Processor.Decisions.{
  record_eviction, on_evict_sampled, on_evict_not_sampled,
}
use atlassian_sampling_proce.Processor.Process.{report_trace_data_err}
use atlassian_sampling_proce.Processor.Flush.{
  FlushRun, IsRunOf, finishes, consume, flush_decisions, flush_result, flush_values, flush_all,
}
use atlassian_sampling_proce.Processor.Store.{trace_store}
use atlassian_sampling_proce.Processor.Shards.{System, finished, set_started, finish_shutdown}
use atlassian_sampling_proce.Processor.Shards.Steps.{
  IsReading, ends, Reach, here, next, Reach-trans,
}
use atlassian_sampling_proce.Processor.Shards.Drain.{listener_drains}

-- The run of flushAll in the order of the code, in which nothing fails.
abbrev whole_run : {A : Type 0} → List Ref → FlushRun A
whole_run values = record {
  accepts = λ t. true;
  before = [];
  decisions_flushed = true;
  after = values;
  context_over = false;
}

whole_run-IsRunOf : {A : Type 0} (values : List Ref) → IsRunOf values (whole_run {A = A} values)
whole_run-IsRunOf values = finishes refl refl (Permᴰ.refl values)

record_eviction-started : (b : Bool) (t : Telemetry) → (record_eviction b t).started ≡ t.started
unfolding record_eviction
record_eviction-started b t = ground arith

module _ {D : Type 0} (lru : Lru TraceId ℕ D) (on_evict : TraceId → ℕ → Telemetry → Telemetry)
    (keeps : (id : TraceId) (n : ℕ) (t : Telemetry) → (on_evict id n t).started ≡ t.started) where
  notify_all-started :
      (out : List (TraceId × ℕ)) (t : Telemetry)
      → (LruCache.notify_all lru on_evict out t).started ≡ t.started
  unfolding LruCache.notify_all
  notify_all-started [] t = refl
  notify_all-started ((id, n) ∷ out) t = notify_all-started out (on_evict id n t) ∙ keeps id n t

  clear-started :
      (c : LruCache D) (t : Telemetry) → (LruCache.clear lru on_evict c t).1.started ≡ t.started
  unfolding LruCache.clear
  clear-started c t = notify_all-started (lru.purge c.cache).1 t

module _ {A C D : Type 0} (attrs : AttributeMap A) (codec : Codec A) (lru : Lru TraceId ℕ D)
    (td_cache : Cache TraceId Ref C (World A D)) where
  flush_decisions-started :
      (accepts : Traces A → Bool) (w : World A D)
      → (flush_decisions attrs codec lru td_cache accepts w).0.telemetry.started
        ≡ w.telemetry.started
  unfolding flush_decisions consume on_evict_sampled on_evict_not_sampled
  flush_decisions-started accepts w =
      let (_, t) = LruCache.clear lru on_evict_sampled w.sampled_decision_cache w.telemetry in
      clear-started lru on_evict_not_sampled (λ id n. record_eviction-started false)
        w.non_sampled_decision_cache t
      ∙ clear-started lru on_evict_sampled (λ id n. record_eviction-started true)
          w.sampled_decision_cache w.telemetry

  flush_result-started :
      (accepts : Traces A → Bool) (r : Result (Traces A)) (spans : ℕ) (w : World A D)
      → (flush_result attrs codec lru td_cache accepts r spans w).0.telemetry.started
        ≡ w.telemetry.started
  unfolding flush_result consume report_trace_data_err add_metric
  flush_result-started accepts (success t) spans w = refl
  flush_result-started accepts (failure e) spans w = refl

  flush_values-started :
      (accepts : Traces A → Bool) (tds : List Ref) (w : World A D)
      → (flush_values attrs codec lru td_cache accepts tds w).0.telemetry.started
        ≡ w.telemetry.started
  unfolding flush_values
  flush_values-started accepts [] w = refl
  flush_values-started accepts (td ∷ tds) w =
      flush_values-started accepts tds _
      ∙ flush_result-started accepts (get_traces codec (w.heap td)) (w.heap td).metadata.span_count
          w

  flush_all-started :
      (run : FlushRun A) (asp : Asp A C D)
      → (flush_all attrs codec lru td_cache run asp).0.telemetry.started
        ≡ asp.world.telemetry.started
  unfolding flush_all
  flush_all-started run asp =
      let w = (flush_values attrs codec lru td_cache run.accepts run.before asp.world).0 in
      let first = flush_values-started run.accepts run.before asp.world in
      flush_values-started run.accepts run.after _
      ∙ if_either (λ (r : World A D × Bool). r.0.telemetry.started ≡ asp.world.telemetry.started)
          run.decisions_flushed _ _ (flush_decisions-started run.accepts w ∙ first) first

module _ {A F R Re T D : Type 0} (ext : Externals A F R Re) (codec : Codec A)
    (lru : Lru TraceId ℕ D) (store : Lru TraceId Ref T) (host : String → Option (Option R)) where
  -- Nothing of the shard is left, and its listener is done.
  abbrev pub IsDone : ℕ → System A F R Re T D → Type 0
  IsDone i s = (s.listeners i ≡ finished) × (s.buffered i ≡ []) × (s.working i ≡ [])

  -- The shards below `k` are done, and those from `k` on still read.
  record DoneBelow (k : ℕ) (s t : System A F R Re T D) : Type 0 where
    reach : Reach ext codec lru store host s t
    done : (i : ℕ) → i < k → IsDone i t
    reading : (i : ℕ) → k ≤ i → i < s.shard_count → IsReading (t.listeners i)
    same_count : t.shard_count ≡ s.shard_count
    closed : t.shutdown_closed ≡ true
    waits : t.waiting ≡ true
    none_sends : t.sending ≡ []

  module _ (s : System A F R Re T D) (closed : s.shutdown_closed ≡ true) (waits : s.waiting ≡ true)
      (none_sends : s.sending ≡ [])
      (all_read : (i : ℕ) → i < s.shard_count → IsReading (s.listeners i)) where
    drain_below : (k : ℕ) → k ≤ s.shard_count → (t : System A F R Re T D) × DoneBelow k s t
    drain_below zero h = (
      s,
      record {
        reach = here;
        done = λ i l. absurd (omega arith);
        reading = λ i l. all_read i;
        same_count = refl;
        closed = closed;
        waits = waits;
        none_sends = none_sends;
      },
    )
    drain_below (suc k) h =
        let (t, b) = drain_below k (omega arith) in
        let (u, d) =
          listener_drains ext codec lru store host k t b.closed
            (b.reading k (omega arith) (omega arith)) (rw b.none_sends tt) in
        (
          u,
          record {
            reach = Reach-trans ext codec lru store host b.reach d.leads.reach;
            done = λ i l. elim (ℕ_discrete i k) [
              | yes e ↦ subst (λ j. IsDone j u) (sym e) (d.done, d.none_buffered, d.none_in_hand)
              | no n ↦
                  let (x, y, z) = b.done i (omega arith) in
                  (
                    d.leads.others_listen i n ∙ x,
                    d.leads.others_buffer i n ∙ y,
                    d.leads.others_work i n ∙ z,
                  )
            ];
            reading = λ i l m.
                subst IsReading (sym (d.leads.others_listen i (λ e. absurd (omega arith))))
                  (b.reading i (omega arith) m);
            same_count = d.leads.same_count ∙ b.same_count;
            closed = d.leads.same_closed ∙ b.closed;
            waits = d.leads.same_waiting ∙ b.waits;
            none_sends = d.leads.same_sending ∙ b.none_sends;
          },
        )

  finish-IsDone :
      (run : FlushRun A) (s : System A F R Re T D) (i : ℕ)
      → IsDone i s
      → IsDone i (finish_shutdown ext codec lru store run s)
  unfolding finish_shutdown
  finish-IsDone run s i d =
      if_either (IsDone i) s.flush_on_shutdown _
        (record s { asp = set_started false s.asp; waiting = false }) d d

  finish-stopped :
      (run : FlushRun A) (s : System A F R Re T D)
      → ((finish_shutdown ext codec lru store run s).asp.world.telemetry.started ≡ false)
        × ((finish_shutdown ext codec lru store run s).waiting ≡ false)
  unfolding finish_shutdown set_started
  finish-stopped run s =
      if_either
        (λ (t : System A F R Re T D). (t.asp.world.telemetry.started ≡ false) × (t.waiting ≡ false))
        s.flush_on_shutdown _ _
        (
          flush_all-started ext.attrs codec lru (trace_store lru store) run
              (set_started false s.asp),
          refl,
        )
        (refl, refl)

  -- If a call of Shutdown waits after it has closed the channel, no send of ConsumeTraces blocks
  -- and the listener of every shard is running or draining, then there are steps by which the call
  -- ends: the processor counts as not started, every listener is done, and no shard has a batch
  -- left in its channel or in the hands of its listener.
  pub shutdown_completes :
      (s : System A F R Re T D)
      → s.shutdown_closed ≡ true
      → s.waiting ≡ true
      → s.sending ≡ []
      → ((i : ℕ) → i < s.shard_count → IsReading (s.listeners i))
      → (t : System A F R Re T D) × Reach ext codec lru store host s t
        × (t.asp.world.telemetry.started ≡ false)
        × (t.waiting ≡ false)
        × ((i : ℕ) → i < s.shard_count → IsDone i t)
  shutdown_completes s closed waits none_sends all_read =
      let (t, b) = drain_below s closed waits none_sends all_read s.shard_count (omega arith) in
      let run = whole_run ((trace_store {A = A} lru store).values t.asp.trace_data) in
      let last =
        ends run t (whole_run-IsRunOf _) b.waits
          (λ i l. inl (b.done i (rw (← b.same_count) l)).0) in
      let (x, y) = finish-stopped run t in
      (
        finish_shutdown ext codec lru store run t,
        next b.reach last,
        x,
        y,
        λ i l. finish-IsDone run t i (b.done i l),
      )
