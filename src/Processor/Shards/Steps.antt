-- ===== src/Processor/Shards/Steps.antt =====
-- processor.go: what may happen next in a processor with its shards, one step at a time. The spans
-- of one trace in a batch are handled in one step, and so are the checks of one ConsumeTraces.
use atlassian_sampling_proce.Base.{
  ℕ, ◌<◌, ◌≡◌, ◌≢◌, ◌⊎◌, true, false, none, Option, String, List, [], ◌∷◌, ◌++◌, All, length,
}
use atlassian_sampling_proce.Library.Lru.{Lru}
use atlassian_sampling_proce.Library.Codec.{Codec}
use atlassian_sampling_proce.Library.Pdata.{TraceId, SpanId, Traces, AttributeMap}
use atlassian_sampling_proce.Decider.{Externals}
use atlassian_sampling_proce.Processor.State.{Ref}
use atlassian_sampling_proce.Processor.Decisions.{decision_span_key}
use atlassian_sampling_proce.Processor.Flush.{FlushRun, IsRunOf}
use atlassian_sampling_proce.Processor.Store.{trace_store}
use atlassian_sampling_proce.Processor.Shards.{
  System, Batch, Listener, running, draining, finished, not_started, arrive, deliver, hand_over,
  receive, handle_next, tick, start_processor, begin_shutdown, finish_shutdown, set_listener,
}

-- The listener of the shard can receive.
abbrev pub IsReading : Listener → Type 0
IsReading l = (l ≡ running) ⊎ (l ≡ draining)

-- The wait group does not wait for the listener of the shard.
abbrev pub IsOver : Listener → Type 0
IsOver l = (l ≡ finished) ⊎ (l ≡ not_started)

-- No resource of the traces has the decision attribute.
abbrev pub NoDecisionSpans : {A : Type 0} → AttributeMap A → Traces A → Type 0
NoDecisionSpans attrs td = All (λ rs. attrs.get rs.resource.attributes decision_span_key ≡ none) td

-- The clock of the processor and its next random number.
unfoldable pub at_time :
    {A F R Re T D : Type 0} → ℕ → SpanId → System A F R Re T D → System A F R Re T D
at_time now random s = record s {
  asp = record s.asp { world = record s.asp.world { now = now; random_span_id = random } };
}

module _ {A F R Re T D : Type 0} (ext : Externals A F R Re) (codec : Codec A)
    (lru : Lru TraceId ℕ D) (store : Lru TraceId Ref T) (host : String → Option (Option R)) where
  -- A batch waits to be sent to the shard, between the sends `before` and `after`.
  abbrev pub Waits :
      ℕ → Batch A → List (ℕ × Batch A) → List (ℕ × Batch A) → System A F R Re T D → Type 0
  Waits i batch before after s = s.sending ≡ before ++ (i, batch) ∷ after

  pub data Step : System A F R Re T D → System A F R Re T D → Type 0 where
    starts : (s : System A F R Re T D) → Step s (start_processor host s).0
    -- ConsumeTraces is called
    arrives :
        (td : Traces A) (s : System A F R Re T D)
        → NoDecisionSpans ext.attrs td
        → Step s (arrive ext codec lru store td s)
    -- a send of ConsumeTraces ends: into the buffer, to a waiting listener, or by its context
    delivers :
        (i : ℕ) (batch : Batch A) (before after : List (ℕ × Batch A)) (s : System A F R Re T D)
        → Waits i batch before after s
        → length (s.buffered i) < s.buffer_size
        → Step s (deliver i batch (before ++ after) s)
    hands_over :
        (i : ℕ) (batch : Batch A) (before after : List (ℕ × Batch A)) (s : System A F R Re T D)
        → Waits i batch before after s
        → IsReading (s.listeners i)
        → s.buffered i ≡ []
        → s.working i ≡ []
        → Step s (hand_over i batch (before ++ after) s)
    cancels :
        (i : ℕ) (batch : Batch A) (before after : List (ℕ × Batch A)) (s : System A F R Re T D)
        → Waits i batch before after s
        → Step s (record s { sending = before ++ after })
    receives :
        (i : ℕ) (s : System A F R Re T D)
        → IsReading (s.listeners i)
        → s.working i ≡ []
        → Step s (receive i s)
    handles :
        (i : ℕ) (s : System A F R Re T D)
        → IsReading (s.listeners i)
        → Step s (handle_next ext codec lru store i s)
    -- the regulator takes the global lock, so no shard is in the middle of a batch
    ticks :
        (i t heap : ℕ) (s : System A F R Re T D)
        → s.ticking ≡ true
        → s.listeners i ≡ running
        → ((j : ℕ) → s.working j ≡ [])
        → Step s (tick ext codec lru store t heap s)
    shuts_down : (s : System A F R Re T D) → Step s (begin_shutdown s).0
    -- a listener sees the signal, and drains its channel
    drains :
        (i : ℕ) (s : System A F R Re T D)
        → s.shutdown_closed ≡ true
        → s.listeners i ≡ running
        → s.working i ≡ []
        → Step s (set_listener i draining s)
    -- nothing is there to be received
    stops :
        (i : ℕ) (s : System A F R Re T D)
        → s.listeners i ≡ draining
        → s.working i ≡ []
        → s.buffered i ≡ []
        → All (λ e. e.0 ≢ i) s.sending
        → Step s (set_listener i finished s)
    -- the deadline of the listener is over
    gives_up :
        (i : ℕ) (s : System A F R Re T D)
        → s.listeners i ≡ draining
        → s.working i ≡ []
        → Step s (set_listener i finished s)
    -- the wait group waits for no listener, and Shutdown goes on, with a run of flushAll
    ends :
        (run : FlushRun A) (s : System A F R Re T D)
        → IsRunOf ((trace_store {A = A} lru store).values s.asp.trace_data) run
        → s.waiting ≡ true
        → ((i : ℕ) → i < s.shard_count → IsOver (s.listeners i))
        → Step s (finish_shutdown ext codec lru store run s)
    -- the context of Shutdown is over before
    times_out : (s : System A F R Re T D) → s.waiting ≡ true → Step s (record s { waiting = false })
    passes : (now : ℕ) (random : SpanId) (s : System A F R Re T D) → Step s (at_time now random s)

  pub data Reach (s : System A F R Re T D) : System A F R Re T D → Type 0 where
    here : Reach s s
    next : {t u : System A F R Re T D} → Reach s t → Step t u → Reach s u

  pub Reach-trans : {s t u : System A F R Re T D} → Reach s t → Reach t u → Reach s u
  Reach-trans first here = first
  Reach-trans first (next rest step) = next (Reach-trans first rest) step
