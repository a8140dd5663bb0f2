-- ===== src/Tracedata/Bounds.antt =====
-- NewTraceData in tracedata.go and MergeWith in metadata.go: the bounds of time and the span
-- counts.
use atlassian_sampling_proce.Base.{
  ℕ, ◌≡◌, refl, ap, ◌≢◌, ◌∙◌, List, [], ◌∷◌, ◌++◌, All, All-append, arith,
}
use mathlib.Core.Path.{ap₂}
use atlassian_sampling_proce.Priority.{Priority}
use atlassian_sampling_proce.Library.Pdata.{Traces}
use atlassian_sampling_proce.Ptraceutil.{
  SpanItem, trace_iterator, trace_iterator-append, span_count-append,
}
use atlassian_sampling_proce.Tracedata.Merge.{min_of, max_of, merge_with}
use atlassian_sampling_proce.Tracedata.{bounds_from, new_metadata}

min_of_assoc : (a b c : ℕ) → min_of (min_of a b) c ≡ min_of a (min_of b c)
unfolding min_of
min_of_assoc a b c = ground arith

max_of_assoc : (a b c : ℕ) → max_of (max_of a b) c ≡ max_of a (max_of b c)
unfolding max_of
max_of_assoc a b c = ground arith

module _ {A : Type 0} where
  -- The smallest start and the largest end, from a first value.
  min_start : ℕ → List (SpanItem A) → ℕ
  unfolding min_of
  min_start e [] = e
  min_start e (i ∷ is) = min_start (min_of e i.span.start_timestamp) is

  max_end : ℕ → List (SpanItem A) → ℕ
  unfolding max_of
  max_end l [] = l
  max_end l (i ∷ is) = max_end (max_of l i.span.end_timestamp) is

  -- A start timestamp of zero means that none was set.
  abbrev pub AllStarted : List (SpanItem A) → Type 0
  AllStarted = All (λ i. i.span.start_timestamp ≢ 0)

  bounds_from_lem :
      (e l : ℕ) (is : List (SpanItem A))
      → e ≢ 0
      → AllStarted is
      → bounds_from e l is ≡ (min_start e is, max_end l is)
  unfolding bounds_from min_start max_end
  bounds_from_lem e l [] h a = refl
  bounds_from_lem e l (i ∷ is) h a =
      ground (
        arith,
        bounds_from_lem (min_of e i.span.start_timestamp) (max_of l i.span.end_timestamp) is,
      )

  min_start-min :
      (a b : ℕ) (is : List (SpanItem A)) → min_start (min_of a b) is ≡ min_of a (min_start b is)
  unfolding min_start
  min_start-min a b [] = refl
  min_start-min a b (i ∷ is) = ground (
    arith,
    min_of_assoc a b i.span.start_timestamp,
    min_start-min a (min_of b i.span.start_timestamp) is,
  )

  max_end-max :
      (a b : ℕ) (is : List (SpanItem A)) → max_end (max_of a b) is ≡ max_of a (max_end b is)
  unfolding max_end
  max_end-max a b [] = refl
  max_end-max a b (i ∷ is) = ground (
    arith,
    max_of_assoc a b i.span.end_timestamp,
    max_end-max a (max_of b i.span.end_timestamp) is,
  )

  min_start-append :
      (e : ℕ) (is js : List (SpanItem A)) → min_start e (is ++ js) ≡ min_start (min_start e is) js
  unfolding min_start
  min_start-append e [] js = refl
  min_start-append e (i ∷ is) js = min_start-append (min_of e i.span.start_timestamp) is js

  max_end-append :
      (l : ℕ) (is js : List (SpanItem A)) → max_end l (is ++ js) ≡ max_end (max_end l is) js
  unfolding max_end
  max_end-append l [] js = refl
  max_end-append l (i ∷ is) js = max_end-append (max_of l i.span.end_timestamp) is js

  bounds_from_first :
      (i : SpanItem A) (is : List (SpanItem A))
      → AllStarted (i ∷ is)
      → bounds_from 0 0 (i ∷ is)
        ≡ (min_start i.span.start_timestamp is, max_end i.span.end_timestamp is)
  unfolding bounds_from
  bounds_from_first i is a =
      ground (arith, bounds_from_lem i.span.start_timestamp i.span.end_timestamp is a.0 a.1)

  -- Two batches of spans, none empty and each span with a start: their bounds are those of all.
  bounds_merge :
      (is js : List (SpanItem A))
      → is ≢ []
      → js ≢ []
      → AllStarted is
      → AllStarted js
      → bounds_from 0 0 (is ++ js) ≡ (
        min_of (bounds_from 0 0 is).0 (bounds_from 0 0 js).0,
        max_of (bounds_from 0 0 is).1 (bounds_from 0 0 js).1,
      )
  unfolding min_start min_of max_end max_of
  bounds_merge [] js h k a b = absurd (h refl)
  bounds_merge (i ∷ is) [] h k a b = absurd (k refl)
  bounds_merge (i ∷ is) (j ∷ js) h k a b =
      rw (bounds_from_first i is a, bounds_from_first j js b)
        (bounds_from_first i (is ++ j ∷ js) (a.0, All-append _ is (j ∷ js) a.1 b)
          ∙ ap₂ (λ (x y : ℕ). (x, y))
              (min_start-append i.span.start_timestamp is (j ∷ js)
                ∙ min_start-min (min_start i.span.start_timestamp is) j.span.start_timestamp js)
              (max_end-append i.span.end_timestamp is (j ∷ js)
                ∙ max_end-max (max_end i.span.end_timestamp is) j.span.end_timestamp js))

  -- Merging the metadata of two batches, each with a span and with every start timestamp set, gives
  -- the metadata that one batch of all the spans would have, with the earlier arrival and the
  -- higher priority: its bounds of time and its span count as a wrapping int32.
  pub merge_with-new_metadata :
      (arrival arrival' : ℕ) (t u : Traces A) (p q : Priority)
      → trace_iterator t ≢ []
      → trace_iterator u ≢ []
      → AllStarted (trace_iterator t)
      → AllStarted (trace_iterator u)
      → merge_with (new_metadata arrival t p) (new_metadata arrival' u q)
        ≡ new_metadata (min_of arrival arrival') (t ++ u) (max_of p q)
  unfolding merge_with new_metadata min_of
  merge_with-new_metadata arrival arrival' t u p q h k a b = ground (
    arith,
    ap (bounds_from 0 0) (trace_iterator-append t u),
    bounds_merge (trace_iterator t) (trace_iterator u) h k a b,
    span_count-append t u,
  )

  -- In the loop of NewTraceData, after a span with no start timestamp the start of the next span
  -- becomes the earliest start, whatever the earliest start was before both.
  pub earliest_forgotten :
      (e l : ℕ) (z i : SpanItem A)
      → z.span.start_timestamp ≡ 0
      → (bounds_from e l (z ∷ i ∷ [])).0 ≡ i.span.start_timestamp
  unfolding bounds_from
  earliest_forgotten e l z i h = ground arith
