-- ===== src/Processor/Shards/Ends.antt =====
-- processor.go: what the steps of the shards make of the work that is left.
use atlassian_sampling_proce.Base.{
  ℕ, ◌+◌, ◌<◌, ◌≤◌, ◌≡◌, refl, ◌∙◌, ap, List, [], ◌∷◌, ◌++◌, arith, length,
}
use atlassian_sampling_proce.Library.Lru.{Lru}
use atlassian_sampling_proce.Library.Codec.{Codec}
use atlassian_sampling_proce.Library.Pdata.{TraceId}
use atlassian_sampling_proce.Decider.{Externals}
use atlassian_sampling_proce.Processor.Spans.{GroupedTraceData}
use atlassian_sampling_proce.Processor.State.{Ref}
use atlassian_sampling_proce.Processor.Shards.{
  System, Batch, Listener, draining, finished, update, deliver, hand_over, receive, handle_next,
  set_listener,
}
use atlassian_sampling_proce.Processor.Shards.Batches.{
  update_self, update_ne, handle_next_lem, receive_lem,
}
use atlassian_sampling_proce.Processor.Shards.Work.{
  total_change, batches_left, batches_left-append, sends_left, sends_left-split, listener_left,
  shard_left, work_left, Works, WorksFor, delivers, hands_over, cancels, receives, handles, drains,
  stops, none_yet, one_more,
}

module _ {A F R Re T D : Type 0} (ext : Externals A F R Re) (codec : Codec A)
    (lru : Lru TraceId ℕ D) (store : Lru TraceId Ref T) where
  deliver_less :
      (i : ℕ) (batch : Batch A) (before after : List (ℕ × Batch A)) (s : System A F R Re T D)
      → i < s.shard_count
      → s.sending ≡ before ++ (i, batch) ∷ after
      → work_left (deliver i batch (before ++ after) s) < work_left s
  unfolding deliver
  deliver_less i batch before after s l e =
      let bs = s.buffered i ++ batch ∷ [] in
      let t = deliver i batch (before ++ after) s in
      let change =
        total_change s.shard_count i (shard_left s) (shard_left t) l
          (λ j n. rw (update_ne i j bs s.buffered n) refl) in
      let here : batches_left (t.buffered i) ≡ batches_left (s.buffered i) + (length batch + 1) =
        ap batches_left (update_self i bs s.buffered) ∙ batches_left-append (s.buffered i) batch in
      let sent = ap sends_left e ∙ sends_left-split before i batch after in
      omega (arith, change, here, sent)

  hand_over_less :
      (i : ℕ) (batch : Batch A) (before after : List (ℕ × Batch A)) (s : System A F R Re T D)
      → i < s.shard_count
      → s.sending ≡ before ++ (i, batch) ∷ after
      → s.working i ≡ []
      → work_left (hand_over i batch (before ++ after) s) < work_left s
  unfolding hand_over
  hand_over_less i batch before after s l e free =
      let t = hand_over i batch (before ++ after) s in
      let change =
        total_change s.shard_count i (shard_left s) (shard_left t) l
          (λ j n. rw (update_ne i j batch s.working n) refl) in
      let here : length (t.working i) ≡ length batch = ap length (update_self i batch s.working) in
      let was : length (s.working i) ≡ 0 = ap length free in
      let sent = ap sends_left e ∙ sends_left-split before i batch after in
      omega (arith, change, here, was, sent)

  receive_less :
      (i : ℕ) (s : System A F R Re T D) (batch : Batch A) (rest : List (Batch A))
      → i < s.shard_count
      → s.buffered i ≡ batch ∷ rest
      → s.working i ≡ []
      → work_left (receive i s) < work_left s
  receive_less i s batch rest l e free =
      let t = record s {
        buffered = update i rest s.buffered;
        working = update i batch s.working;
      } in
      let change =
        total_change s.shard_count i (shard_left s) (shard_left t) l
          (λ j n. rw (update_ne i j rest s.buffered n, update_ne i j batch s.working n) refl) in
      let here : length (t.working i) ≡ length batch = ap length (update_self i batch s.working) in
      let left : batches_left (t.buffered i) ≡ batches_left rest =
        ap batches_left (update_self i rest s.buffered) in
      let was : length (s.working i) ≡ 0 = ap length free in
      let had = ap batches_left e in
      rw (receive_lem i s batch rest e) (omega (arith, change, here, left, was, had))

  handle_less :
      (i : ℕ) (s : System A F R Re T D) (gtd : GroupedTraceData A) (rest : Batch A)
      → i < s.shard_count
      → s.working i ≡ gtd ∷ rest
      → work_left (handle_next ext codec lru store i s) < work_left s
  handle_less i s gtd rest l e =
      let t = record s { working = update i rest s.working } in
      let change =
        total_change s.shard_count i (shard_left s) (shard_left t) l
          (λ j n. rw (update_ne i j rest s.working n) refl) in
      let here : length (t.working i) ≡ length rest = ap length (update_self i rest s.working) in
      let had = ap length e in
      rw (handle_next_lem ext codec lru store i s gtd rest e) (omega (arith, change, here, had))

  listener_less :
      (i : ℕ) (l : Listener) (s : System A F R Re T D)
      → i < s.shard_count
      → listener_left l < listener_left (s.listeners i)
      → work_left (set_listener i l s) < work_left s
  unfolding set_listener
  listener_less i l s m less =
      let t = set_listener i l s in
      let change =
        total_change s.shard_count i (shard_left s) (shard_left t) m
          (λ j n. rw (update_ne i j l s.listeners n) refl) in
      let here : listener_left (t.listeners i) ≡ listener_left l =
        ap listener_left (update_self i l s.listeners) in
      omega (arith, change, here, less)

  Works-less :
      {s t : System A F R Re T D} → Works ext codec lru store s t → work_left t < work_left s
  Works-less (delivers i batch before after s l e) = deliver_less i batch before after s l e
  Works-less (hands_over i batch before after s l e free) =
      hand_over_less i batch before after s l e free
  Works-less (cancels i batch before after s e) =
      omega (arith, ap sends_left e ∙ sends_left-split before i batch after)
  Works-less (receives i s batch rest l e free) = receive_less i s batch rest l e free
  Works-less (handles i s gtd rest l e) = handle_less i s gtd rest l e
  Works-less (drains i s l on) = listener_less i draining s l (rw on (omega arith))
  Works-less (stops i s l on) = listener_less i finished s l (rw on (omega arith))

  -- Sends that end and steps of the listeners of the shards, one after another with nothing new
  -- coming in, are at most as many as the work that was left: a step for each group of spans, one
  -- more for each batch that is buffered and two for each that waits to be sent, two for a running
  -- listener and one for a draining one.
  pub work_ends :
      {k : ℕ} {s t : System A F R Re T D}
      → WorksFor ext codec lru store k s t
      → k + work_left t ≤ work_left s
  work_ends (none_yet s) = omega arith
  work_ends (one_more run step) = omega (arith, work_ends run, Works-less step)
