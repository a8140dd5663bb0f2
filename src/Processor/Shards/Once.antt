-- ===== src/Processor/Shards/Once.antt =====
-- processor.go, Start and Shutdown: what a second call comes to.
use atlassian_sampling_proce.Base.{
  ℕ, ◌≡◌, refl, ap, ◌∙◌, inl, inr, Bool, true, false, Option, String, List, arith, Bool-cases,
  if_either, if_true, if_false, if◌then◌else◌,
}
use atlassian_sampling_proce.Library.Lru.{Lru}
use atlassian_sampling_proce.Library.Codec.{Codec}
use atlassian_sampling_proce.Library.Pdata.{TraceId}
use atlassian_sampling_proce.Evaluators.Evaluator.{Started, started, start_failed}
use atlassian_sampling_proce.Policy.{Policy}
use atlassian_sampling_proce.Decider.{Externals, start_policies}
use atlassian_sampling_proce.Processor.State.{Ref}
use atlassian_sampling_proce.Processor.Flush.{FlushRun}
use atlassian_sampling_proce.Processor.Shards.{
  System, StartResult, already_started, ShutdownResult, closes, panics, not_running, set_started,
  start_decided, start_processor, begin_shutdown, arrive, deliver, hand_over, regulate,
  finish_shutdown, set_listener,
}
use atlassian_sampling_proce.Processor.Shards.Cases.{receive_either, handle_either, tick_either}
use atlassian_sampling_proce.Processor.Shards.Steps.{
  at_time, Step, starts, arrives, delivers, hands_over, cancels, receives, handles, ticks,
  shuts_down, drains, stops, gives_up, ends, times_out, passes, Reach, here, next,
}

abbrev is_started : {A F R Re T D X : Type 0} → System A F R Re T D × X → Bool
is_started r = r.0.asp.world.telemetry.started

module _ {A F R Re T D : Type 0} where
  start_decided-started :
      (r : Started (List (Policy A F R Re))) (s : System A F R Re T D)
      → (start_decided r s).0.asp.world.telemetry.started ≡ s.asp.world.telemetry.started
  unfolding start_decided
  start_decided-started (started ps) s = refl
  start_decided-started (start_failed e) s = refl

  start-started :
      (host : String → Option (Option R)) (s : System A F R Re T D)
      → (start_processor host s).0.asp.world.telemetry.started ≡ true
  unfolding start_processor set_started
  start-started host s = elim (Bool-cases s.asp.world.telemetry.started) [
    | inl e ↦ ap is_started (if_true s.asp.world.telemetry.started _ _ e) ∙ e
    | inr e ↦
        let marked = record s { asp = set_started true s.asp } in
        ap is_started (if_false s.asp.world.telemetry.started _ _ e)
        ∙ start_decided-started (start_policies host s.policies) marked
  ]

  already_lem :
      (host : String → Option (Option R)) (s : System A F R Re T D)
      → s.asp.world.telemetry.started ≡ true
      → start_processor host s ≡ (s, already_started)
  unfolding start_processor
  already_lem host s e = if_true s.asp.world.telemetry.started _ _ e

  -- Whatever a call of Start came to, also when the decider failed to start, another call right
  -- after it returns the error that the component is already started, and changes nothing.
  pub start_only_once :
      (host host' : String → Option (Option R)) (s : System A F R Re T D)
      → start_processor host' (start_processor host s).0
        ≡ ((start_processor host s).0, already_started)
  start_only_once host host' s = already_lem host' (start_processor host s).0 (start-started host s)

module _ {A F R Re T D : Type 0} (ext : Externals A F R Re) (codec : Codec A)
    (lru : Lru TraceId ℕ D) (store : Lru TraceId Ref T) (host : String → Option (Option R)) where
  abbrev IsClosed : System A F R Re T D → Type 0
  IsClosed s = s.shutdown_closed ≡ true

  start-IsClosed : (s : System A F R Re T D) → IsClosed s → IsClosed (start_processor host s).0
  unfolding start_processor
  start-IsClosed s h =
      if_either (λ (r : System A F R Re T D × StartResult). IsClosed r.0)
        s.asp.world.telemetry.started _ _ h
        (decided (start_policies host s.policies) (record s { asp = set_started true s.asp }) h)
    where
      decided :
          (r : Started (List (Policy A F R Re))) (t : System A F R Re T D)
          → IsClosed t
          → IsClosed (start_decided r t).0
      decided (started ps) t c = c
      decided (start_failed e) t c = c

  begin-IsClosed : (s : System A F R Re T D) → IsClosed s → IsClosed (begin_shutdown s).0
  unfolding begin_shutdown
  begin-IsClosed s h =
      if_either (λ (r : System A F R Re T D × ShutdownResult). IsClosed r.0)
        s.asp.world.telemetry.started _ _
        (if_either (λ (r : System A F R Re T D × ShutdownResult). IsClosed r.0) s.shutdown_closed
          (record s { ticking = false }, panics) _ h refl)
        h

  finish-IsClosed :
      (run : FlushRun A) (s : System A F R Re T D)
      → IsClosed s
      → IsClosed (finish_shutdown ext codec lru store run s)
  unfolding finish_shutdown
  finish-IsClosed run s h =
      if_either IsClosed s.flush_on_shutdown _
        (record s { asp = set_started false s.asp; waiting = false }) h h

  Step-IsClosed :
      {s t : System A F R Re T D} → Step ext codec lru store host s t → IsClosed s → IsClosed t
  unfolding arrive deliver hand_over set_listener at_time regulate
  Step-IsClosed (starts s) h = start-IsClosed s h
  Step-IsClosed (arrives td s none_of) h = h
  Step-IsClosed (delivers i batch before after s w room) h = h
  Step-IsClosed (hands_over i batch before after s w reading empty free) h = h
  Step-IsClosed (cancels i batch before after s w) h = h
  Step-IsClosed (receives i s reading free) h = receive_either IsClosed i s h (λ batch rest e. h)
  Step-IsClosed (handles i s reading) h =
      handle_either ext codec lru store IsClosed i s h (λ gtd rest e. h)
  Step-IsClosed (ticks i t heap s on reading free) h =
      tick_either ext codec lru store IsClosed t heap s h (λ r. h)
  Step-IsClosed (shuts_down s) h = begin-IsClosed s h
  Step-IsClosed (drains i s closed on free) h = h
  Step-IsClosed (stops i s on free empty none_waits) h = h
  Step-IsClosed (gives_up i s on free) h = h
  Step-IsClosed (ends run s may on all_done) h = finish-IsClosed run s h
  Step-IsClosed (times_out s on) h = h
  Step-IsClosed (passes now random s) h = h

  Reach-IsClosed :
      {s t : System A F R Re T D} → Reach ext codec lru store host s t → IsClosed s → IsClosed t
  Reach-IsClosed here h = h
  Reach-IsClosed (next reach step) h = Step-IsClosed step (Reach-IsClosed reach h)

  begin_shutdown-closed :
      (s : System A F R Re T D)
      → IsClosed s
      → (begin_shutdown s).1 ≡ (if s.asp.world.telemetry.started then panics else not_running)
  unfolding begin_shutdown
  begin_shutdown-closed s h = ground (arith, h)

  closes_lem :
      (s : System A F R Re T D) → (begin_shutdown s).1 ≡ closes → IsClosed (begin_shutdown s).0
  unfolding begin_shutdown
  closes_lem s h = ground (arith, h)

  -- After a call of Shutdown has closed the shutdown channel, a call in any later state returns at
  -- once if the processor does not count as started, and otherwise panics, since it closes the
  -- channel again: also after the first call has timed out, and after another Start.
  pub second_shutdown_panics :
      (s t : System A F R Re T D)
      → (begin_shutdown s).1 ≡ closes
      → Reach ext codec lru store host (begin_shutdown s).0 t
      → (begin_shutdown t).1 ≡ (if t.asp.world.telemetry.started then panics else not_running)
  second_shutdown_panics s t first reach =
      begin_shutdown-closed t (Reach-IsClosed reach (closes_lem s first))
