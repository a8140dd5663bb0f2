-- ===== src/Processor/Shards/Batches.antt =====
-- processor.go, shardListener: the batches that a listener handles.
use atlassian_sampling_proce.Base.{
  ℕ, ◌≡◌, ◌≢◌, refl, sym, ◌∙◌, subst, Bool, Option, String, List, [], ◌∷◌, arith,
}
use atlassian_sampling_proce.Library.Lru.{Lru}
use atlassian_sampling_proce.Library.Codec.{Codec}
use atlassian_sampling_proce.Library.Pdata.{TraceId}
use atlassian_sampling_proce.Policy.{Policy}
use atlassian_sampling_proce.Decider.{Externals}
use atlassian_sampling_proce.Processor.Spans.{GroupedTraceData}
use atlassian_sampling_proce.Processor.State.{Ref, Asp}
use atlassian_sampling_proce.Processor.ProcessTraces.{process_group, process_traces}
use atlassian_sampling_proce.Processor.Store.{TraceStore, trace_store}
use atlassian_sampling_proce.Processor.Shards.{
  System, Batch, Listener, update, receive, handle_next,
}
use atlassian_sampling_proce.Processor.Shards.Steps.{
  IsReading, Step, handles, receives, Reach, here, next, Reach-trans,
}

pub update_self : {X : Type 0} (i : ℕ) (x : X) (f : ℕ → X) → update i x f i ≡ x
unfolding update
update_self i x f = ground arith

pub update_ne : {X : Type 0} (i j : ℕ) (x : X) (f : ℕ → X) → j ≢ i → update i x f j ≡ f j
unfolding update
update_ne i j x f h = ground arith

module _ {A F R Re T D : Type 0} where
  pub receive_lem :
      (i : ℕ) (s : System A F R Re T D) (batch : Batch A) (rest : List (Batch A))
      → s.buffered i ≡ batch ∷ rest
      → receive i s
        ≡ record s { buffered = update i rest s.buffered; working = update i batch s.working }
  unfolding receive
  receive_lem i s batch rest e = rw (e, receive) refl

module _ {A F R Re T D : Type 0} (ext : Externals A F R Re) (codec : Codec A)
    (lru : Lru TraceId ℕ D) (store : Lru TraceId Ref T) where
  pub handle_next_lem :
      (i : ℕ) (s : System A F R Re T D) (gtd : GroupedTraceData A) (rest : Batch A)
      → s.working i ≡ gtd ∷ rest
      → handle_next ext codec lru store i s ≡ record s {
        asp = process_group ext codec lru (trace_store lru store) s.policies s.compress gtd s.asp;
        working = update i rest s.working;
      }
  unfolding handle_next
  handle_next_lem i s gtd rest e = rw (e, handle_next) refl

module _ {A F R Re T D : Type 0} (ext : Externals A F R Re) (codec : Codec A)
    (lru : Lru TraceId ℕ D) (store : Lru TraceId Ref T) (host : String → Option (Option R)) where
  -- `t` comes after `s` by steps of the listener of shard `i`, which leave the rest as it is.
  pub record Leads (i : ℕ) (s t : System A F R Re T D) : Type 0 where
    pub reach : Reach ext codec lru store host s t
    pub same_policies : t.policies ≡ s.policies
    pub same_compress : t.compress ≡ s.compress
    pub same_sending : t.sending ≡ s.sending
    pub same_closed : t.shutdown_closed ≡ s.shutdown_closed
    pub same_waiting : t.waiting ≡ s.waiting
    pub same_count : t.shard_count ≡ s.shard_count
    pub others_listen : (j : ℕ) → j ≢ i → t.listeners j ≡ s.listeners j
    pub others_buffer : (j : ℕ) → j ≢ i → t.buffered j ≡ s.buffered j
    pub others_work : (j : ℕ) → j ≢ i → t.working j ≡ s.working j

  pub Leads-refl : (i : ℕ) (s : System A F R Re T D) → Leads i s s
  Leads-refl i s = record {
    reach = here;
    same_policies = refl;
    same_compress = refl;
    same_sending = refl;
    same_closed = refl;
    same_waiting = refl;
    same_count = refl;
    others_listen = λ j n. refl;
    others_buffer = λ j n. refl;
    others_work = λ j n. refl;
  }

  pub Leads-trans : (i : ℕ) {s t u : System A F R Re T D} → Leads i s t → Leads i t u → Leads i s u
  Leads-trans i a b = record {
    reach = Reach-trans ext codec lru store host a.reach b.reach;
    same_policies = b.same_policies ∙ a.same_policies;
    same_compress = b.same_compress ∙ a.same_compress;
    same_sending = b.same_sending ∙ a.same_sending;
    same_closed = b.same_closed ∙ a.same_closed;
    same_waiting = b.same_waiting ∙ a.same_waiting;
    same_count = b.same_count ∙ a.same_count;
    others_listen = λ j n. b.others_listen j n ∙ a.others_listen j n;
    others_buffer = λ j n. b.others_buffer j n ∙ a.others_buffer j n;
    others_work = λ j n. b.others_work j n ∙ a.others_work j n;
  }

  -- A step that changes the processor, and what is buffered, in hand and listened to at `i` alone.
  pub Step-Leads :
      (i : ℕ) (s : System A F R Re T D) (asp : Asp A (TraceStore T) D) (b : ℕ → List (Batch A))
      (w : ℕ → Batch A) (l : ℕ → Listener)
      → Step ext codec lru store host s
          (record s { asp = asp; buffered = b; working = w; listeners = l })
      → ((j : ℕ) → j ≢ i → b j ≡ s.buffered j)
      → ((j : ℕ) → j ≢ i → w j ≡ s.working j)
      → ((j : ℕ) → j ≢ i → l j ≡ s.listeners j)
      → Leads i s (record s { asp = asp; buffered = b; working = w; listeners = l })
  Step-Leads i s asp b w l step bj wj lj = record {
    reach = next here step;
    same_policies = refl;
    same_compress = refl;
    same_sending = refl;
    same_closed = refl;
    same_waiting = refl;
    same_count = refl;
    others_listen = lj;
    others_buffer = bj;
    others_work = wj;
  }

  -- The listener has handled the groups, and has no batch in hand.
  record Handled (i : ℕ) (gtds : Batch A) (s t : System A F R Re T D) : Type 0 where
    leads : Leads i s t
    listens : t.listeners i ≡ s.listeners i
    same_buffer : t.buffered i ≡ s.buffered i
    free : t.working i ≡ []
    outcome :
        t.asp
        ≡ process_traces ext codec lru (trace_store lru store) s.policies s.compress gtds s.asp

  handle_all :
      (i : ℕ) (gtds : Batch A) (s : System A F R Re T D)
      → IsReading (s.listeners i)
      → s.working i ≡ gtds
      → (t : System A F R Re T D) × Handled i gtds s t
  unfolding process_traces
  handle_all i [] s reading e = (
    s,
    record { leads = Leads-refl i s; listens = refl; same_buffer = refl; free = e; outcome = refl },
  )
  handle_all i (gtd ∷ rest) s reading e =
      let asp =
        process_group ext codec lru (trace_store lru store) s.policies s.compress gtd s.asp in
      let u = record s { asp = asp; working = update i rest s.working } in
      let step =
        subst (Step ext codec lru store host s) (handle_next_lem ext codec lru store i s gtd rest e)
          (handles i s reading) in
      let first =
        Step-Leads i s asp s.buffered (update i rest s.working) s.listeners step (λ j n. refl)
          (λ j n. update_ne i j rest s.working n) (λ j n. refl) in
      let (t, h) = handle_all i rest u reading (update_self i rest s.working) in
      (
        t,
        record {
          leads = Leads-trans i first h.leads;
          listens = h.listens;
          same_buffer = h.same_buffer;
          free = h.free;
          outcome = h.outcome;
        },
      )

  -- The batches in their order.
  abbrev pub process_batches :
      List (Policy A F R Re)
      → Bool
      → List (Batch A)
      → Asp A (TraceStore T) D
      → Asp A (TraceStore T) D
  process_batches policies compress [] asp = asp
  process_batches policies compress (batch ∷ rest) asp =
      process_batches policies compress rest
        (process_traces ext codec lru (trace_store lru store) policies compress batch asp)

  -- The listener has handled the batch in hand and the batches of its channel, and holds no more.
  pub record Emptied (i : ℕ) (batches : List (Batch A)) (s t : System A F R Re T D) : Type 0 where
    pub leads : Leads i s t
    pub none_buffered : t.buffered i ≡ []
    pub free : t.working i ≡ []
    pub outcome : t.asp ≡ process_batches s.policies s.compress (s.working i ∷ batches) s.asp

  pub empty_all :
      (i : ℕ) (batches : List (Batch A)) (s : System A F R Re T D)
      → IsReading (s.listeners i)
      → s.buffered i ≡ batches
      → (t : System A F R Re T D) × (t.listeners i ≡ s.listeners i) × Emptied i batches s t
  empty_all i [] s reading e =
      let (t, h) = handle_all i (s.working i) s reading refl in
      (
        t,
        h.listens,
        record {
          leads = h.leads;
          none_buffered = h.same_buffer ∙ e;
          free = h.free;
          outcome = h.outcome;
        },
      )
  empty_all i (batch ∷ rest) s reading e =
      let (t, h) = handle_all i (s.working i) s reading refl in
      let reading_t = subst IsReading (sym h.listens) reading in
      let u = record t {
        buffered = update i rest t.buffered;
        working = update i batch t.working;
      } in
      let step =
        subst (Step ext codec lru store host t) (receive_lem i t batch rest (h.same_buffer ∙ e))
          (receives i t reading_t h.free) in
      let second =
        Step-Leads i t t.asp (update i rest t.buffered) (update i batch t.working) t.listeners step
          (λ j n. update_ne i j rest t.buffered n) (λ j n. update_ne i j batch t.working n)
          (λ j n. refl) in
      let (v, l, k) = empty_all i rest u reading_t (update_self i rest t.buffered) in
      (
        v,
        l ∙ h.listens,
        record {
          leads = Leads-trans i h.leads (Leads-trans i second k.leads);
          none_buffered = k.none_buffered;
          free = k.free;
          outcome = k.outcome ∙ (λ d.
              process_batches (h.leads.same_policies d) (h.leads.same_compress d)
                (update_self i batch t.working d ∷ rest) (h.outcome d));
        },
      )
