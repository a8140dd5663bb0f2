-- ===== src/Examples/LifeCycle.antt =====
-- processor.go: a processor with two shards from its start to its end.
use atlassian_sampling_proce.Base.{
  ℕ, zero, suc, ◌+◌, ◌<◌, ◌≤◌, ◌≡◌, refl, inl, true, false, Option, none, some, String, List, [],
  ◌∷◌, arith, if◌then◌else◌,
}
use atlassian_sampling_proce.Library.LruList
use atlassian_sampling_proce.Library.LruList.{Items}
use atlassian_sampling_proce.Library.Pdata.{TraceId}
use atlassian_sampling_proce.Cache.AnyCache.{tiered}
use atlassian_sampling_proce.Cache.LruCache.{LruCache}
use atlassian_sampling_proce.Cache.LruCache
use atlassian_sampling_proce.Regulator.{new_regulator}
use atlassian_sampling_proce.Evaluators.Evaluator
use atlassian_sampling_proce.Evaluators.Evaluator.{span_count}
use atlassian_sampling_proce.Policies.{new_policies}
use atlassian_sampling_proce.Decider.{start_policies}
use atlassian_sampling_proce.Processor.Consume.{consume_traces}
use atlassian_sampling_proce.Processor.Decisions.{
  safe_check_decision_caches, get_sampled, get_not_sampled,
}
use atlassian_sampling_proce.Policy.{Policy}
use atlassian_sampling_proce.Processor.Spans.{
  GroupedTraceData, group_spans_by_trace_id, shard_id_for_trace,
}
use atlassian_sampling_proce.Processor.Shards.{
  System, running, closes, panics, not_running, start_processor, begin_shutdown, arrive, receive,
  handle_next, deliver,
}
use atlassian_sampling_proce.Processor.Shards.Steps.{
  Reach, here, next, starts, arrives, delivers, receives, handles,
}
use atlassian_sampling_proce.Processor.Shards.Belongs.{IsSound}
use atlassian_sampling_proce.Processor.Shards.New.{assemble, new_processor}
use atlassian_sampling_proce.Processor.Shards.Accepted.{reachable-IsSound}
use atlassian_sampling_proce.Processor.Shards.Drain.{Drained, listener_drains}
use atlassian_sampling_proce.Processor.Shards.Shutdown.{IsDone, shutdown_completes}
use atlassian_sampling_proce.Processor.Shards.Work as Work
use atlassian_sampling_proce.Processor.Shards.Work.{work_left, WorksFor}
use atlassian_sampling_proce.Processor.Shards.Ends.{work_ends}
use atlassian_sampling_proce.Processor.Shards.New.{processor_config}
use atlassian_sampling_proce.Processor.Shards.Once.{second_shutdown_panics}
use atlassian_sampling_proce.Examples.Data.{
  Attributes, codec, cache, cache-LruLaws, attrs, batch, group_of, id_a, plain,
}
use atlassian_sampling_proce.Examples.Setup.{Fraction, fractions, externals, makers, config, around}

abbrev Processor : Type 0
Processor = System Attributes Fraction ℕ String (Items TraceId ℕ) (Items TraceId ℕ)

abbrev host : String → Option (Option ℕ)
host id = none

abbrev empty : ℕ → LruCache (Items TraceId ℕ)
empty n = record { cache = record { size = n; items = [] }; size = n; hits = 0; misses = 0 }

abbrev policy : String → Policy Attributes Fraction ℕ String
policy name = record {
  name = name;
  emit_single_span_for_not_sampled = false;
  evaluator = span_count 5;
  record_decision_from = "service.name";
  decision_grouper = some (record { re = "shop"; value = "sales" } ∷ []);
}

abbrev new : Processor
new =
    assemble around config (tiered (record { primary = empty 60; secondary = empty 10 })) (empty 20)
      (empty 20) (some (record { min_size = 25; max_size = 100; target_heap = 1000 }))
      (policy "large" ∷ policy "larger" ∷ [])

new_is_made : new_processor fractions makers cache cache around (processor_config config) ≡ some new
unfolding new_processor assemble LruList.new new_regulator new_policies
new_is_made = refl

-- The groups of the example batch; its trace belongs to the first shard.
abbrev groups : List (GroupedTraceData Attributes)
groups = group_of id_a plain ∷ []

-- Started, and the batch has arrived, is buffered, received and handled.
abbrev on_start : Processor
on_start = (start_processor host new).0

abbrev on_arrival : Processor
on_arrival = arrive externals codec cache cache batch on_start

abbrev on_delivery : Processor
on_delivery = deliver 0 groups [] on_arrival

abbrev on_receipt : Processor
on_receipt = receive 0 on_delivery

abbrev handled : Processor
handled = handle_next externals codec cache cache 0 on_receipt

waits_lem : on_arrival.sending ≡ (0, groups) ∷ []
unfolding arrive start_processor assemble start_policies Evaluator.start consume_traces
    group_spans_by_trace_id safe_check_decision_caches get_sampled LruCache.get LruList.get
    LruList.find get_not_sampled shard_id_for_trace
waits_lem = refl

reads_lem : on_delivery.listeners 0 ≡ running
unfolding deliver arrive start_processor assemble start_policies Evaluator.start
reads_lem = refl

free_lem : on_delivery.working 0 ≡ []
unfolding deliver arrive start_processor assemble start_policies Evaluator.start
free_lem = refl

room_lem : on_arrival.buffered 0 ≡ []
unfolding arrive start_processor assemble start_policies Evaluator.start
room_lem = refl

size_lem : on_arrival.buffer_size ≡ 4
unfolding arrive start_processor assemble start_policies Evaluator.start
size_lem = refl

still_reads_lem : on_receipt.listeners 0 ≡ running
unfolding receive deliver arrive start_processor assemble start_policies Evaluator.start
still_reads_lem = refl

handled_reached : Reach externals codec cache cache host new handled
handled_reached =
    next
      (next
        (next (next (next here (starts new)) (arrives batch on_start (refl, tt)))
          (delivers 0 groups [] [] on_arrival waits_lem (rw (room_lem, size_lem) (omega arith))))
        (receives 0 on_delivery (inl reads_lem) free_lem))
      (handles 0 on_receipt (inl still_reads_lem))

reachable-IsSound_example : IsSound attrs cache handled
reachable-IsSound_example =
    reachable-IsSound externals makers cache cache-LruLaws cache cache-LruLaws codec host around
      config new handled new_is_made handled_reached

-- Shutdown waits; the first shard has a batch in its channel and another in hand.
abbrev stopping : Processor
stopping = record new {
  buffered = λ i. elim i [ zero ↦ groups ∷ [] | suc j ↦ [] ];
  working = λ i. elim i [ zero ↦ groups | suc j ↦ [] ];
  listeners = λ i. running;
  shutdown_closed = true;
  waiting = true;
}

nothing_sent : stopping.sending ≡ []
unfolding assemble
nothing_sent = refl

two_shards : 0 < stopping.shard_count
unfolding assemble
two_shards = omega arith

first_closes : (begin_shutdown on_start).1 ≡ closes
unfolding begin_shutdown start_processor assemble start_policies Evaluator.start
first_closes = refl

shutdown_completes_example :
    (t : Processor) × Reach externals codec cache cache host stopping t
    × (t.asp.world.telemetry.started ≡ false)
    × (t.waiting ≡ false)
    × ((i : ℕ) → i < stopping.shard_count → IsDone externals codec cache cache host i t)
shutdown_completes_example =
    shutdown_completes externals codec cache cache host stopping refl refl nothing_sent
      (λ i l. inl refl)

listener_drains_example : (t : Processor) × Drained externals codec cache cache host 0 stopping t
listener_drains_example =
    listener_drains externals codec cache cache host 0 stopping refl (inl refl) (rw nothing_sent tt)

-- The listener receives nothing more, and drains its channel.
work_ends_example :
    1 + work_left (handle_next externals codec cache cache 0 stopping) ≤ work_left stopping
work_ends_example = work_ends externals codec cache cache (
    Work.one_more (Work.none_yet stopping)
      (Work.handles 0 stopping (group_of id_a plain) [] two_shards refl))

second_shutdown_panics_example :
    (begin_shutdown (begin_shutdown on_start).0).1
    ≡ (if (begin_shutdown on_start).0.asp.world.telemetry.started then panics else not_running)
second_shutdown_panics_example =
    second_shutdown_panics externals codec cache cache host on_start (begin_shutdown on_start).0
      first_closes here
