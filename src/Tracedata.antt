-- ===== src/Tracedata.antt =====
-- internal/tracedata: tracedata.go, types.go, snappy.go and uncompressed.go.
pub mod Merge
pub mod Bounds
pub mod Storage
use atlassian_sampling_proce.Base.{
  ℕ, ◌%◌, ◌≡◌, Bool, true, false, ◌||◌, Option, none, some, String, List, [], ◌∷◌, ◌++◌, ltb, ◌==◌,
  if◌then◌else◌,
}
use atlassian_sampling_proce.Priority.{Priority}
use atlassian_sampling_proce.Library.Pdata.{Bytes, Traces}
use atlassian_sampling_proce.Library.Codec.{Codec}
use atlassian_sampling_proce.Ptraceutil.{SpanItem, trace_iterator, span_count}
use Merge.{Metadata, int32_mod, merge_with}

pub data TraceDataError : Type 0 where
  marshal_failed decompress_failed unmarshal_failed incompatible_type : TraceDataError

pub data Result (A : Type 0) : Type 0 where
  success : A → Result A
  failure : TraceDataError → Result A

-- traceFacade: *snappyTraceData or *uncompressedTraceData
pub data TraceFacade (A : Type 0) : Type 0 where
  snappy : List Bytes → TraceFacade A
  uncompressed : Traces A → TraceFacade A

pub record TraceData (A : Type 0) : Type 0 where
  pub metadata : Metadata
  pub underlying : TraceFacade A

-- The loop of NewTraceData over the spans: the earliest start and the latest end.
unfoldable pub earliest_step : ℕ → ℕ → ℕ
earliest_step earliest start = if ltb start earliest || (earliest == 0) then start else earliest

unfoldable pub latest_step : ℕ → ℕ → ℕ
latest_step latest end = if ltb latest end then end else latest

module _ {A : Type 0} where
  unfoldable pub bounds_from : ℕ → ℕ → List (SpanItem A) → ℕ × ℕ
  unfolding earliest_step latest_step
  bounds_from earliest latest [] = (earliest, latest)
  bounds_from earliest latest (item ∷ items) =
      bounds_from (earliest_step earliest item.span.start_timestamp)
        (latest_step latest item.span.end_timestamp) items

  unfoldable pub new_metadata : ℕ → Traces A → Priority → Metadata
  unfolding bounds_from
  new_metadata arrival traces p =
      let (earliest, latest) = bounds_from 0 0 (trace_iterator traces) in
      record {
        arrival_time = arrival;
        earliest_start_time = earliest;
        latest_end_time = latest;
        span_count = span_count traces % int32_mod;
        priority = p;
        last_low_priority_decision_name = none;
      }

  -- The new receiver, or the error of a receiver of the other kind.
  unfoldable pub absorb_traces : TraceFacade A → TraceFacade A → Result (TraceFacade A)
  absorb_traces (snappy blobs) (snappy others) = success (snappy (blobs ++ others))
  absorb_traces (uncompressed traces) (uncompressed others) =
      success (uncompressed (traces ++ others))
  absorb_traces (snappy _) (uncompressed _) = failure incompatible_type
  absorb_traces (uncompressed _) (snappy _) = failure incompatible_type

  -- td.AbsorbTraceData(other): the new td and the error. The metadata is merged in any case.
  unfoldable pub absorb_trace_data : TraceData A → TraceData A → TraceData A × Option TraceDataError
  absorb_trace_data td other =
      let m = merge_with td.metadata other.metadata in
      elim (absorb_traces td.underlying other.underlying) [
        | failure e ↦ (record td { metadata = m }, some e)
        | success u ↦ (record { metadata = m; underlying = u }, none)
      ]

  unfoldable pub get_priority : TraceData A → Priority
  get_priority td = td.metadata.priority

module _ {A : Type 0} (codec : Codec A) where
  unfoldable pub new_snappy_trace_data : Traces A → Result (TraceFacade A)
  new_snappy_trace_data traces = elim (codec.marshal_traces traces) [
    | none ↦ failure marshal_failed
    | some b ↦ success (snappy (codec.encode b ∷ []))
  ]

  -- One round of the loop in snappyTraceData.GetTraces.
  unfoldable pub decode_blob : Bytes → Result (Traces A)
  decode_blob compressed = elim (codec.decode compressed) [
    | none ↦ failure decompress_failed
    | some decompressed ↦ elim (codec.unmarshal_traces decompressed) [
      | none ↦ failure unmarshal_failed
      | some other ↦ success other
    ]
  ]

  unfoldable pub get_blobs : Traces A → List Bytes → Result (Traces A)
  get_blobs traces [] = success traces
  get_blobs traces (compressed ∷ rest) = elim (decode_blob compressed) [
    | failure e ↦ failure e
    | success other ↦ get_blobs (traces ++ other) rest
  ]

  unfoldable pub get_underlying : TraceFacade A → Result (Traces A)
  unfolding get_blobs decode_blob
  get_underlying (snappy blobs) = get_blobs [] blobs
  get_underlying (uncompressed traces) = success traces

  unfoldable pub new_underlying : Traces A → Bool → Result (TraceFacade A)
  unfolding new_snappy_trace_data
  new_underlying traces true = new_snappy_trace_data traces
  new_underlying traces false = success (uncompressed traces)

  unfoldable pub new_trace_data : ℕ → Traces A → Priority → Bool → Result (TraceData A)
  unfolding new_metadata new_underlying
  new_trace_data arrival traces p compress = elim (new_underlying traces compress) [
    | failure e ↦ failure e
    | success u ↦ success (record { metadata = new_metadata arrival traces p; underlying = u })
  ]

  unfoldable pub get_traces : TraceData A → Result (Traces A)
  unfolding get_underlying
  get_traces td = get_underlying td.underlying
