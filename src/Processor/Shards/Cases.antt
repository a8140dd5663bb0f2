-- ===== src/Processor/Shards/Cases.antt =====
-- processor.go: what a shard listener does with its channel and its batch, and the memory ticker,
-- by cases.
use atlassian_sampling_proce.Base.{
  ℕ, ◌≡◌, refl, inl, inr, List, [], ◌∷◌, Option-cases, if_either, ltb,
}
use atlassian_sampling_proce.Library.Lru.{Lru}
use atlassian_sampling_proce.Library.Codec.{Codec}
use atlassian_sampling_proce.Library.Pdata.{TraceId}
use atlassian_sampling_proce.Decider.{Externals}
use atlassian_sampling_proce.Regulator.{Regulator}
use atlassian_sampling_proce.Processor.Spans.{GroupedTraceData}
use atlassian_sampling_proce.Processor.State.{Ref}
use atlassian_sampling_proce.Processor.ProcessTraces.{process_group}
use atlassian_sampling_proce.Processor.Store.{trace_store}
use atlassian_sampling_proce.Processor.Shards.{
  System, Batch, update, receive, handle_next, regulate, tick,
}

module _ {A F R Re T D : Type 0} (P : System A F R Re T D → Type 0) where
  -- What holds of the state, and of it with the first batch of the channel in hand, holds after a
  -- receive.
  pub receive_either :
      (i : ℕ) (s : System A F R Re T D)
      → P s
      → ((batch : Batch A) (rest : List (Batch A))
          → s.buffered i ≡ batch ∷ rest
          → P (record s {
            buffered = update i rest s.buffered;
            working = update i batch s.working;
          }))
      → P (receive i s)
  unfolding receive
  receive_either i s p f = received (s.buffered i) refl
    where
      received :
          (batches : List (Batch A))
          → s.buffered i ≡ batches
          → P (elim batches [
            | [] ↦ s
            | batch ∷ rest ↦ record s {
              buffered = update i rest s.buffered;
              working = update i batch s.working;
            }
          ])
      received [] e = p
      received (batch ∷ rest) e = f batch rest e

module _ {A F R Re T D : Type 0} (ext : Externals A F R Re) (codec : Codec A)
    (lru : Lru TraceId ℕ D) (store : Lru TraceId Ref T) (P : System A F R Re T D → Type 0) where
  -- What holds of the state, and of it with the first group of the batch processed, holds after
  -- the listener has handled the next group.
  pub handle_either :
      (i : ℕ) (s : System A F R Re T D)
      → P s
      → ((gtd : GroupedTraceData A) (rest : Batch A)
          → s.working i ≡ gtd ∷ rest
          → P (record s {
            asp =
                process_group ext codec lru (trace_store lru store) s.policies s.compress gtd s.asp;
            working = update i rest s.working;
          }))
      → P (handle_next ext codec lru store i s)
  unfolding handle_next
  handle_either i s p f = handled (s.working i) refl
    where
      handled :
          (batch : Batch A)
          → s.working i ≡ batch
          → P (elim batch [
            | [] ↦ s
            | gtd ∷ rest ↦ record s {
              asp =
                  process_group ext codec lru
                    (trace_store lru store)
                    s.policies
                    s.compress
                    gtd
                    s.asp;
              working = update i rest s.working;
            }
          ])
      handled [] e = p
      handled (gtd ∷ rest) e = f gtd rest e

  -- What holds of the state, and of it after its regulator has run, holds after a tick.
  pub tick_either :
      (t heap : ℕ) (s : System A F R Re T D)
      → P s
      → ((r : Regulator) → P (regulate ext codec lru store r heap s))
      → P (tick ext codec lru store t heap s)
  unfolding tick
  tick_either t heap s p f = elim (Option-cases s.mem_regulator) [
    | inl e ↦ rw (e, tick) p
    | inr (r, e) ↦
        rw (e, tick)
          (if_either P (ltb s.regulator_start_time t) (regulate ext codec lru store r heap s) s
            (f r) p)
  ]
