-- ===== src/Processor/Shards.antt =====
-- processor.go: the processor with its shards, and what Start, Shutdown, ConsumeTraces and the shard
-- listeners do to it.
pub mod Steps
pub mod Cases
pub mod Belongs
pub mod Sound
pub mod Reachable
pub mod Batches
pub mod Drain
pub mod Shutdown
pub mod New
pub mod Made
pub mod Accepted
pub mod Work
pub mod Ends
pub mod Once
use atlassian_sampling_proce.Base.{
  ℕ, zero, suc, Bool, true, false, ◌&&◌, Option, none, some, String, List, [], ◌∷◌, ◌++◌,
  if◌then◌else◌, ltb, ◌==◌,
}
use atlassian_sampling_proce.Library.Lru.{Lru}
use atlassian_sampling_proce.Library.Codec.{Codec}
use atlassian_sampling_proce.Library.Pdata.{TraceId, SpanId, Traces}
use atlassian_sampling_proce.Evaluators.Evaluator.{Started, started, start_failed}
use atlassian_sampling_proce.Policy.{Policy}
use atlassian_sampling_proce.Decider.{Externals, start_policies}
use atlassian_sampling_proce.Regulator.{Regulator, regulate_cache_size}
use atlassian_sampling_proce.Processor.Spans.{GroupedTraceData}
use atlassian_sampling_proce.Processor.State.{Ref, World, Asp}
use atlassian_sampling_proce.Processor.ProcessTraces.{process_group}
use atlassian_sampling_proce.Processor.Consume.{ShardedSpans, consume_traces}
use atlassian_sampling_proce.Processor.Flush.{FlushRun, flush_all}
use atlassian_sampling_proce.Processor.Store.{TraceStore, trace_store, primary_sizer}

-- Where the goroutine of a shard is: in its loop, in the loop after the shutdown signal, or done.
pub data Listener : Type 0 where
  not_started running draining finished : Listener

abbrev pub Batch : Type 0 → Type 0
Batch A = List (GroupedTraceData A)

-- atlassianSamplingProcessor. `buffered` is what the channel of a shard holds, `working` what is
-- left of the batch that its listener has received, and `sending` the sends of ConsumeTraces that
-- block, each with its shard. `asp.world.telemetry.started` is `started`. `waiting` is whether a call
-- of Shutdown waits for the listeners.
pub record System (A F R Re T D : Type 0) : Type 0 where
  pub asp : Asp A (TraceStore T) D
  pub policies : List (Policy A F R Re)
  pub shard_count : ℕ
  pub buffer_size : ℕ
  pub buffered : ℕ → List (Batch A)
  pub working : ℕ → Batch A
  pub sending : List (ℕ × Batch A)
  pub listeners : ℕ → Listener
  pub mem_regulator : Option Regulator
  pub regulator_start_time : ℕ
  pub ticking : Bool
  pub shutdown_closed : Bool
  pub waiting : Bool
  pub flush_on_shutdown : Bool
  pub compress : Bool

-- The value at one shard is replaced.
unfoldable pub update : {X : Type 0} → ℕ → X → (ℕ → X) → ℕ → X
update i x f j = if j == i then x else f j

unfoldable pub set_started : {A T D : Type 0} → Bool → Asp A T D → Asp A T D
set_started b asp = record asp {
  world = record asp.world { telemetry = record asp.world.telemetry { started = b } };
}

pub data StartResult : Type 0 where
  already_started decider_failed start_ok : StartResult

-- `panics` is the close of a closed channel.
pub data ShutdownResult : Type 0 where
  not_running closes panics : ShutdownResult

-- The sends of the loop over the shards from `i`, `k` of them: none for a nil slice.
unfoldable pub sends : {A : Type 0} → ℕ → ℕ → ShardedSpans A → List (ℕ × Batch A)
sends i zero sharded = []
sends i (suc k) sharded =
    let rest = sends (suc i) k sharded in
    elim (sharded i) [ [] ↦ rest | gtd ∷ gtds ↦ (i, gtd ∷ gtds) ∷ rest ]

module _ {A F R Re T D : Type 0} where
  -- Start: the decider, and then a goroutine for each shard. What the evaluators before one that
  -- fails have got is left out: no listener runs then.
  unfoldable pub start_decided :
      Started (List (Policy A F R Re)) → System A F R Re T D → System A F R Re T D × StartResult
  start_decided (start_failed e) s = (s, decider_failed)
  start_decided (started policies) s = (
    record s {
      policies = policies;
      listeners = λ i. if ltb i s.shard_count then running else s.listeners i;
    },
    start_ok,
  )

  unfoldable pub start_processor :
      (String → Option (Option R)) → System A F R Re T D → System A F R Re T D × StartResult
  unfolding start_decided set_started
  start_processor host s =
      if s.asp.world.telemetry.started
      then (s, already_started)
      else start_decided (start_policies host s.policies)
          (record s { asp = set_started true s.asp })

  -- Shutdown, up to the select.
  unfoldable pub begin_shutdown : System A F R Re T D → System A F R Re T D × ShutdownResult
  begin_shutdown s =
      if s.asp.world.telemetry.started
      then (if s.shutdown_closed
          then (record s { ticking = false }, panics)
          else (record s { ticking = false; shutdown_closed = true; waiting = true }, closes))
      else (s, not_running)

  -- A listener receives the oldest batch of its channel.
  unfoldable pub receive : ℕ → System A F R Re T D → System A F R Re T D
  unfolding update
  receive i s = elim (s.buffered i) [
    | [] ↦ s
    | batch ∷ rest ↦ record s {
      buffered = update i rest s.buffered;
      working = update i batch s.working;
    }
  ]

  -- A send into the buffer of the channel.
  unfoldable pub deliver :
      ℕ → Batch A → List (ℕ × Batch A) → System A F R Re T D → System A F R Re T D
  unfolding update
  deliver i batch still_sending s = record s {
    buffered = update i (s.buffered i ++ batch ∷ []) s.buffered;
    sending = still_sending;
  }

  -- A send to a listener that waits.
  unfoldable pub hand_over :
      ℕ → Batch A → List (ℕ × Batch A) → System A F R Re T D → System A F R Re T D
  unfolding update
  hand_over i batch still_sending s = record s {
    working = update i batch s.working;
    sending = still_sending;
  }

  unfoldable pub set_listener : ℕ → Listener → System A F R Re T D → System A F R Re T D
  unfolding update
  set_listener i l s = record s { listeners = update i l s.listeners }

module _ {A F R Re T D : Type 0} (ext : Externals A F R Re) (codec : Codec A)
    (lru : Lru TraceId ℕ D) (store : Lru TraceId Ref T) where
  -- ConsumeTraces, up to its sends.
  unfoldable pub arrive : Traces A → System A F R Re T D → System A F R Re T D
  unfolding sends
  arrive td s =
      let (w, sharded) = consume_traces ext.attrs lru s.shard_count td s.asp.world in
      record s {
        asp = record s.asp { world = w };
        sending = s.sending ++ sends 0 s.shard_count sharded;
      }

  -- One round of the loop of processTraces.
  unfoldable pub handle_next : ℕ → System A F R Re T D → System A F R Re T D
  unfolding update
  handle_next i s = elim (s.working i) [
    | [] ↦ s
    | gtd ∷ rest ↦ record s {
      asp = process_group ext codec lru (trace_store lru store) s.policies s.compress gtd s.asp;
      working = update i rest s.working;
    }
  ]

  -- A tick of memTicker at the time `t`, with what the heap usage is then.
  unfoldable pub regulate : Regulator → ℕ → System A F R Re T D → System A F R Re T D
  regulate r heap s = record s {
    asp = (regulate_cache_size ext.float (primary_sizer lru store) r heap s.asp).0;
  }

  unfoldable pub tick : ℕ → ℕ → System A F R Re T D → System A F R Re T D
  unfolding regulate
  tick t heap s = elim s.mem_regulator [
    | none ↦ s
    | some r ↦ if ltb s.regulator_start_time t then regulate r heap s else s
  ]

  -- The rest of Shutdown, when all listeners are done, with a run of flushAll.
  unfoldable pub finish_shutdown : FlushRun A → System A F R Re T D → System A F R Re T D
  unfolding set_started
  finish_shutdown run s =
      let asp = set_started false s.asp in
      let done = record s { asp = asp; waiting = false } in
      if s.flush_on_shutdown
      then record done {
        asp = record asp {
          world = (flush_all ext.attrs codec lru (trace_store lru store) run asp).0;
        };
      }
      else done
