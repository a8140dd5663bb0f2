-- ===== src/Processor/Shards/Reachable.antt =====
-- processor.go: every state that a processor with its shards can come to.
use atlassian_sampling_proce.Base.{false, ℕ, refl, subst, Option, String, [], ◌∷◌, All, All-append}
use atlassian_sampling_proce.Library.Lru.{Lru, LruLaws}
use atlassian_sampling_proce.Library.Codec.{Codec}
use atlassian_sampling_proce.Library.Pdata.{TraceId}
use atlassian_sampling_proce.Decider.{Externals}
use atlassian_sampling_proce.Processor.State.{Ref}
use atlassian_sampling_proce.Processor.Undecided.{untouched-IsExclusive}
use atlassian_sampling_proce.Processor.Shards.{
  System, draining, finished, deliver, hand_over, set_listener,
}
use atlassian_sampling_proce.Processor.Shards.Steps.{
  at_time, Step, starts, arrives, delivers, hands_over, cancels, receives, handles, ticks,
  shuts_down, drains, stops, gives_up, ends, times_out, passes, Reach, here, next,
}
use atlassian_sampling_proce.Processor.Shards.Belongs.{
  update-keeps, BatchBelongs, All-split, IsSound,
}
use atlassian_sampling_proce.Processor.Shards.Sound.{
  start-IsSound, begin_shutdown-IsSound, arrive-IsSound, receive-IsSound, handle-IsSound,
  tick-IsSound, finish-IsSound, as_before-IsSound, with_asp-IsSound,
}

module _ {A F R Re T D : Type 0} (ext : Externals A F R Re) (codec : Codec A)
    (lru : Lru TraceId ℕ D) (laws : LruLaws lru) (store : Lru TraceId Ref T)
    (store_laws : LruLaws store) (host : String → Option (Option R)) where
  Step-IsSound :
      {s t : System A F R Re T D}
      → Step ext codec lru store host s t
      → IsSound ext.attrs lru s
      → IsSound ext.attrs lru t
  unfolding deliver hand_over set_listener at_time
  Step-IsSound (starts s) h = start-IsSound ext codec lru laws store store_laws host s h
  Step-IsSound (arrives td s none_of) h =
      arrive-IsSound ext codec lru laws store store_laws host td s none_of h
  Step-IsSound (delivers i batch before after s w room) h =
      let (b, rest) = All-split _ before (i, batch) after (subst (All _) w h.sending_belongs) in
      record {
        exclusive = h.exclusive;
        buffers_belong =
            update-keeps (λ j. All (BatchBelongs ext.attrs s.shard_count j)) i _ s.buffered
              (All-append _ (s.buffered i) (batch ∷ []) (h.buffers_belong i) (b, tt))
              h.buffers_belong;
        working_belongs = h.working_belongs;
        sending_belongs = rest;
      }
  Step-IsSound (hands_over i batch before after s w reading empty free) h =
      let (b, rest) = All-split _ before (i, batch) after (subst (All _) w h.sending_belongs) in
      record {
        exclusive = h.exclusive;
        buffers_belong = h.buffers_belong;
        working_belongs =
            update-keeps (BatchBelongs ext.attrs s.shard_count) i batch s.working b
              h.working_belongs;
        sending_belongs = rest;
      }
  Step-IsSound (cancels i batch before after s w) h = record {
    exclusive = h.exclusive;
    buffers_belong = h.buffers_belong;
    working_belongs = h.working_belongs;
    sending_belongs = (All-split _ before (i, batch) after (subst (All _) w h.sending_belongs)).1;
  }
  Step-IsSound (receives i s reading free) h =
      receive-IsSound ext codec lru laws store store_laws host i s h
  Step-IsSound (handles i s reading) h =
      handle-IsSound ext codec lru laws store store_laws host i s h
  Step-IsSound (ticks i t heap s on reading free) h =
      tick-IsSound ext codec lru laws store store_laws host t heap s h
  Step-IsSound (shuts_down s) h =
      begin_shutdown-IsSound ext codec lru laws store store_laws host s h
  Step-IsSound (drains i s closed on free) h =
      as_before-IsSound ext codec lru laws store store_laws host s (set_listener i draining s) h
  Step-IsSound (stops i s on free empty none_waits) h =
      as_before-IsSound ext codec lru laws store store_laws host s (set_listener i finished s) h
  Step-IsSound (gives_up i s on free) h =
      as_before-IsSound ext codec lru laws store store_laws host s (set_listener i finished s) h
  Step-IsSound (ends run s may on all_done) h =
      finish-IsSound ext codec lru laws store store_laws host run s h
  Step-IsSound (times_out s on) h =
      as_before-IsSound ext codec lru laws store store_laws host s (record s { waiting = false }) h
  Step-IsSound (passes now random s) h =
      with_asp-IsSound ext codec lru laws store store_laws host _ s h
        (untouched-IsExclusive lru refl refl h.exclusive)

  -- In every state that a processor reaches from a sound one by starts, calls of ConsumeTraces
  -- with traces without decision spans, sends, the work of the shard listeners, ticks of the
  -- regulator and shutdowns, in any order, both decision caches have room and no trace is in both,
  -- and every group that is buffered, in the hands of a listener or waiting to be sent is on the
  -- shard that its trace ID hashes to.
  pub Reach-IsSound :
      {s t : System A F R Re T D}
      → IsSound ext.attrs lru s
      → Reach ext codec lru store host s t
      → IsSound ext.attrs lru t
  Reach-IsSound h here = h
  Reach-IsSound h (next reach step) = Step-IsSound step (Reach-IsSound h reach)
