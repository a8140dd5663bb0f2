-- ===== src/Tracedata/Merge.antt =====
-- internal/tracedata/metadata.go: Metadata, what is kept of all the spans of a trace.
use atlassian_sampling_proce.Base.{ℕ, ◌+◌, ◌%◌, ◌^◌, Option, String, ltb, if◌then◌else◌}
use atlassian_sampling_proce.Priority.{Priority}

-- Times are nanoseconds. `span_count` is an int32 as its bit pattern.
pub record Metadata : Type 0 where
  pub arrival_time : ℕ
  pub earliest_start_time : ℕ
  pub latest_end_time : ℕ
  pub span_count : ℕ
  pub priority : Priority
  pub last_low_priority_decision_name : Option String

abbrev pub int32_mod : ℕ
int32_mod = 2 ^ 32

-- slices.Min and slices.Max of a slice of two
unfoldable pub min_of : ℕ → ℕ → ℕ
min_of a b = if ltb b a then b else a

unfoldable pub max_of : ℕ → ℕ → ℕ
max_of a b = if ltb a b then b else a

-- m.MergeWith(other), the new m
unfoldable pub merge_with : Metadata → Metadata → Metadata
unfolding min_of max_of
merge_with m other = record {
  arrival_time =
      if ltb other.arrival_time m.arrival_time then other.arrival_time else m.arrival_time;
  earliest_start_time = min_of m.earliest_start_time other.earliest_start_time;
  latest_end_time = max_of m.latest_end_time other.latest_end_time;
  span_count = (m.span_count + other.span_count) % int32_mod;
  priority = max_of m.priority other.priority;
  last_low_priority_decision_name = other.last_low_priority_decision_name;
}

-- A value is its own copy.
unfoldable pub deep_copy : Metadata → Metadata
deep_copy m = m
