-- ===== src/Processor/Shards/Drain.antt =====
-- processor.go, shardListener and Shutdown: what the listeners do after the shutdown signal.
use atlassian_sampling_proce.Base.{
  ℕ, ◌≡◌, ◌≢◌, refl, sym, ◌∙◌, subst, inl, inr, true, Option, String, [], ◌∷◌, All,
}
use atlassian_sampling_proce.Library.Lru.{Lru}
use atlassian_sampling_proce.Library.Codec.{Codec}
use atlassian_sampling_proce.Library.Pdata.{TraceId}
use atlassian_sampling_proce.Decider.{Externals}
use atlassian_sampling_proce.Processor.State.{Ref}
use atlassian_sampling_proce.Processor.Shards.{System, draining, finished, update, set_listener}
use atlassian_sampling_proce.Processor.Shards.Steps.{IsReading, drains, stops}
use atlassian_sampling_proce.Processor.Shards.Batches.{
  update_self, update_ne, Leads, Leads-trans, Step-Leads, process_batches, Emptied, empty_all,
}

module _ {A F R Re T D : Type 0} (ext : Externals A F R Re) (codec : Codec A)
    (lru : Lru TraceId ℕ D) (store : Lru TraceId Ref T) (host : String → Option (Option R)) where
  -- After the shutdown signal a listener comes to its end: the batch in hand and then the batches of
  -- its channel are handled in their order, and nothing of the shard is left.
  pub record Drained (i : ℕ) (s t : System A F R Re T D) : Type 0 where
    pub leads : Leads ext codec lru store host i s t
    pub done : t.listeners i ≡ finished
    pub none_buffered : t.buffered i ≡ []
    pub none_in_hand : t.working i ≡ []
    pub outcome :
        t.asp
        ≡ process_batches ext codec lru store host s.policies s.compress
            (s.working i ∷ s.buffered i)
            s.asp

  stop-Drained :
      (i : ℕ) (s t : System A F R Re T D)
      → All (λ e. e.0 ≢ i) s.sending
      → t.listeners i ≡ draining
      → Emptied ext codec lru store host i (s.buffered i) s t
      → (u : System A F R Re T D) × Drained i s u
  unfolding set_listener
  stop-Drained i s t none_waits on h =
      let stop =
        stops i t on h.free h.none_buffered
          (subst (All (λ e. e.0 ≢ i)) (sym h.leads.same_sending) none_waits) in
      let last =
        Step-Leads ext codec lru store host i t t.asp t.buffered t.working
          (update i finished t.listeners) stop (λ j n. refl) (λ j n. refl)
          (λ j n. update_ne i j finished t.listeners n) in
      (
        set_listener i finished t,
        record {
          leads = Leads-trans ext codec lru store host i h.leads last;
          done = update_self i finished t.listeners;
          none_buffered = h.none_buffered;
          none_in_hand = h.free;
          outcome = h.outcome;
        },
      )

  drain_from :
      (i : ℕ) (s t : System A F R Re T D)
      → s.shutdown_closed ≡ true
      → All (λ e. e.0 ≢ i) s.sending
      → IsReading (t.listeners i)
      → Emptied ext codec lru store host i (s.buffered i) s t
      → (u : System A F R Re T D) × Drained i s u
  unfolding set_listener
  drain_from i s t closed none_waits (inr on) h = stop-Drained i s t none_waits on h
  drain_from i s t closed none_waits (inl on) h =
      let signal = drains i t (h.leads.same_closed ∙ closed) on h.free in
      let seen =
        Step-Leads ext codec lru store host i t t.asp t.buffered t.working
          (update i draining t.listeners) signal (λ j n. refl) (λ j n. refl)
          (λ j n. update_ne i j draining t.listeners n) in
      stop-Drained i s (set_listener i draining t) none_waits (update_self i draining t.listeners)
        (record {
          leads = Leads-trans ext codec lru store host i h.leads seen;
          none_buffered = h.none_buffered;
          free = h.free;
          outcome = h.outcome;
        })

  -- If the shutdown channel is closed, the listener of a shard is running or draining, and no send
  -- to the shard blocks, then there are steps that bring it to its end: the batch in its hands and
  -- then those of its channel are handled in their order, nothing of them is left, and the
  -- listeners, channels and batches of the other shards are as before.
  pub listener_drains :
      (i : ℕ) (s : System A F R Re T D)
      → s.shutdown_closed ≡ true
      → IsReading (s.listeners i)
      → All (λ e. e.0 ≢ i) s.sending
      → (t : System A F R Re T D) × Drained i s t
  listener_drains i s closed reading none_waits =
      let (t, l, h) = empty_all ext codec lru store host i (s.buffered i) s reading refl in
      drain_from i s t closed none_waits (subst IsReading (sym l) reading) h
