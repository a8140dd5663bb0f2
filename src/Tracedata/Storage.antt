-- ===== src/Tracedata/Storage.antt =====
-- What is stored for a trace, and what is read back: tracedata.go, snappy.go and uncompressed.go.
use atlassian_sampling_proce.Base.{
  ◌≡◌, refl, Bool, true, false, none, List, [], ◌∷◌, ◌++◌, arith, append-nil, append_assoc, ℕ,
  Option-cases, ◌⊎◌, inl, inr,
}
use atlassian_sampling_proce.Priority.{Priority}
use atlassian_sampling_proce.Library.Pdata.{Bytes, Traces}
use atlassian_sampling_proce.Library.Codec.{Codec, CodecLaws}
use atlassian_sampling_proce.Tracedata.{
  Result, TraceDataError, success, failure, TraceFacade, snappy, uncompressed, TraceData,
  absorb_traces, absorb_trace_data, decode_blob, get_blobs, get_underlying, get_traces,
  new_trace_data,
}

-- The kind of storage, by the compress flag that makes it.
abbrev pub HasKind : {A : Type 0} → Bool → TraceFacade A → Type 0
HasKind true (snappy _) = Unit {0}
HasKind true (uncompressed _) = ⊥
HasKind false (snappy _) = ⊥
HasKind false (uncompressed _) = Unit {0}

pub Result-cases :
    {A : Type 0} (r : Result A)
    → ((a : A) × (r ≡ success a)) ⊎ ((e : TraceDataError) × (r ≡ failure e))
Result-cases (success a) = inl (a, refl)
Result-cases (failure e) = inr (e, refl)

module _ {A : Type 0} (codec : Codec A) where
  -- `td` is stored under the flag `compress` and holds the traces `t`.
  pub record Stores (compress : Bool) (td : TraceData A) (t : Traces A) : Type 0 where
    pub kind : HasKind compress td.underlying
    pub content : get_traces codec td ≡ success t

  -- Traces that are there already stay in front.
  get_blobs-shift :
      (s t u : Traces A) (bs : List Bytes)
      → get_blobs codec s bs ≡ success u
      → get_blobs codec (t ++ s) bs ≡ success (t ++ u)
  unfolding get_blobs
  get_blobs-shift s t u [] h = ground arith
  get_blobs-shift s t u (b ∷ bs) h = elim (Result-cases (decode_blob codec b)) [
    | inl (other, e) ↦
        rw (e, get_blobs, append_assoc)
          (get_blobs-shift (s ++ other) t u bs (rw (e, get_blobs) at h))
    | inr (err, e) ↦ absurd (ground arith)
  ]

  get_blobs-append :
      (s t u : Traces A) (bs cs : List Bytes)
      → get_blobs codec s bs ≡ success t
      → get_blobs codec [] cs ≡ success u
      → get_blobs codec s (bs ++ cs) ≡ success (t ++ u)
  unfolding get_blobs
  get_blobs-append s t u [] cs h k = ground (arith, get_blobs-shift [] s u cs k, append-nil s)
  get_blobs-append s t u (b ∷ bs) cs h k = elim (Result-cases (decode_blob codec b)) [
    | inl (other, e) ↦ ground (arith, get_blobs-append (s ++ other) t u bs cs)
    | inr (err, e) ↦ absurd (ground arith)
  ]

  -- If the codec is lossless and NewTraceData returns trace data, then that trace data is of the
  -- kind of the compression flag and GetTraces returns the traces it was made from.
  pub new_trace_data-Stores :
      (laws : CodecLaws codec) (arrival : ℕ) (t : Traces A) (p : Priority) (compress : Bool)
      {td : TraceData A}
      → new_trace_data codec arrival t p compress ≡ success td
      → Stores compress td t
  unfolding new_trace_data get_traces
  new_trace_data-Stores laws arrival t p true h = elim (Option-cases (codec.marshal_traces t)) [
    | inl e ↦ absurd (ground arith)
    | inr (b, e) ↦ record {
      kind = ground arith;
      content = ground (arith, laws.decode-encode b, laws.unmarshal-marshal t b e);
    }
  ]
  new_trace_data-Stores laws arrival t p false h = record {
    kind = ground arith;
    content = ground arith;
  }

  absorb_traces-content :
      (compress : Bool) (a b : TraceFacade A) (t u : Traces A)
      → HasKind compress a
      → HasKind compress b
      → get_underlying codec a ≡ success t
      → get_underlying codec b ≡ success u
      → (c : TraceFacade A) × (absorb_traces a b ≡ success c)
        × HasKind compress c
        × (get_underlying codec c ≡ success (t ++ u))
  unfolding get_underlying absorb_traces
  absorb_traces-content true (snappy bs) (snappy cs) t u p q h k =
      (snappy (bs ++ cs), refl, tt, get_blobs-append [] t u bs cs h k)
  absorb_traces-content true (snappy bs) (uncompressed w) t u p q h k = absurd q
  absorb_traces-content true (uncompressed v) b t u p q h k = absurd p
  absorb_traces-content false (snappy bs) b t u p q h k = absurd p
  absorb_traces-content false (uncompressed v) (snappy cs) t u p q h k = absurd q
  absorb_traces-content false (uncompressed v) (uncompressed w) t u p q h k =
      (uncompressed (v ++ w), refl, tt, ground arith)

  -- If two trace data were stored under the same compression flag and hold some traces, then
  -- AbsorbTraceData returns no error, and the receiver holds, under the same flag, its traces
  -- followed by those of the other.
  pub absorb_trace_data-Stores :
      (compress : Bool) (td other : TraceData A) (t u : Traces A)
      → Stores compress td t
      → Stores compress other u
      → ((absorb_trace_data td other).1 ≡ none)
        × Stores compress (absorb_trace_data td other).0 (t ++ u)
  unfolding absorb_trace_data get_traces
  absorb_trace_data-Stores compress td other t u h k =
      let (c, e, kind, content) =
        absorb_traces-content compress td.underlying other.underlying t u h.kind k.kind h.content
          k.content in
      rw (e, absorb_trace_data) (refl, record { kind = kind; content = content })
