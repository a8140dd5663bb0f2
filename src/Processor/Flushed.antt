-- ===== src/Processor/Flushed.antt =====
-- processor.go, flushAll: what it hands on to the next component, and when it returns no error.
use mathlib.Core.List.Permᴰ
use atlassian_sampling_proce.Base.{
  ℕ, ◌≡◌, ◌↔◌, Bool, true, List, [], ◌∷◌, ◌++◌, Permᴰ, if◌then◌else◌,
}
use atlassian_sampling_proce.Library.Lru.{Lru}
use atlassian_sampling_proce.Library.Codec.{Codec}
use atlassian_sampling_proce.Library.Pdata.{TraceId, Traces, AttributeMap}
use atlassian_sampling_proce.Cache.Interface.{Cache}
use atlassian_sampling_proce.Tracedata.{Result, success, failure, TraceData, get_traces}
use atlassian_sampling_proce.Processor.State.{Ref, World, Asp}
use atlassian_sampling_proce.Processor.Flush.{
  increment_flush_count, decision_traces, flush_decisions,
}

module _ {A : Type 0} (attrs : AttributeMap A) where
  -- What is handed on of trace data with this result of GetTraces.
  abbrev pub handed_on : Result (Traces A) → List (Traces A)
  handed_on (failure e) = []
  handed_on (success t) = increment_flush_count attrs t ∷ []

  abbrev pub all_handed_on : (Ref → Result (Traces A)) → List Ref → List (Traces A)
  all_handed_on read [] = []
  all_handed_on read (td ∷ tds) = handed_on (read td) ++ all_handed_on read tds

  -- It can be read, and the next component takes it.
  abbrev pub IsTaken : (Traces A → Bool) → Result (Traces A) → Type 0
  IsTaken accepts (failure e) = ⊥
  IsTaken accepts (success t) = accepts (increment_flush_count attrs t) ≡ true

module _ {A C D : Type 0} (attrs : AttributeMap A) (codec : Codec A) (lru : Lru TraceId ℕ D)
    (td_cache : Cache TraceId Ref C (World A D)) (accepts : Traces A → Bool) where
  -- What goroutines that hand these traces on, and are without an error exactly if `Ok`, make of a
  -- world.
  record Sent (traces : List (Traces A)) (Ok : Type 0) (w : World A D) (r : World A D × Bool)
      : Type 0 where
    exported : r.0.exported ≡ w.exported ++ traces
    same_heap : r.0.heap ≡ w.heap
    same_decisions :
        decision_traces attrs codec lru td_cache r.0 ≡ decision_traces attrs codec lru td_cache w
    ok_iff : (r.1 ≡ true) ↔ Ok

  abbrev read_at : (Ref → TraceData A) → Ref → Result (Traces A)
  read_at heap td = get_traces codec (heap td)

  -- The goroutine of the decisions, if it comes to its end.
  abbrev decided : Bool → World A D → World A D × Bool
  decided b w = if b then flush_decisions attrs codec lru td_cache accepts w else (w, true)

  abbrev pub decisions_handed_on : Bool → World A D → List (Traces A)
  decisions_handed_on b w = if b then decision_traces attrs codec lru td_cache w ∷ [] else []

module _ {A C D : Type 0} (attrs : AttributeMap A) (codec : Codec A) (lru : Lru TraceId ℕ D)
    (td_cache : Cache TraceId Ref C (World A D)) where
  abbrev pub readable : Asp A C D → Ref → Result (Traces A)
  readable asp td = get_traces codec (asp.world.heap td)
