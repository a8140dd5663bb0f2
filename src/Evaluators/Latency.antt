-- ===== src/Evaluators/Latency.antt =====
-- internal/evaluators/latency.go: when the latency evaluator samples.
use atlassian_sampling_proce.Base.{ℕ, ◌+◌, ◌*◌, ◌^◌, ◌<◌, ◌≤◌, ◌≡◌, ◌↔◌, true, none, arith}
use atlassian_sampling_proce.Base.Int.{pos, leb_ℤ, ◌-ℤ◌, quot, of_int64}
use atlassian_sampling_proce.Tracedata.Merge.{Metadata}
use atlassian_sampling_proce.Evaluators.Decision.{sampled, pending}
use atlassian_sampling_proce.Evaluators.Verdict.{sampled_or_pending}
use atlassian_sampling_proce.Evaluators.Simple.{duration_ms, saturate, evaluate_latency}

latency_test :
    (ms start end : ℕ)
    → 0 < ms
    → start < 2 ^ 63
    → end < 2 ^ 63
    → (leb_ℤ (pos ms) (duration_ms start end) ≡ true) ↔ (start + ms * 1_000_000 ≤ end)
unfolding duration_ms saturate quot of_int64 ◌-ℤ◌
latency_test ms start end h a b = ground arith

-- With a threshold of at least one millisecond, and an earliest start and a latest end below 2^63
-- nanoseconds, the latency evaluator returns "sampled" without an error exactly if the latest end
-- lies at least the threshold after the earliest start, and otherwise pending without an error.
pub latency_sampled :
    (ms : ℕ) (merged : Metadata)
    → 0 < ms
    → merged.earliest_start_time < 2 ^ 63
    → merged.latest_end_time < 2 ^ 63
    → ((evaluate_latency (pos ms) merged ≡ (sampled, none))
        ↔ (merged.earliest_start_time + ms * 1_000_000 ≤ merged.latest_end_time))
      × ((evaluate_latency (pos ms) merged ≡ (pending, none))
          ↔ ¬ (merged.earliest_start_time + ms * 1_000_000 ≤ merged.latest_end_time))
unfolding evaluate_latency
latency_sampled ms merged h a b =
    sampled_or_pending
      (leb_ℤ (pos ms) (duration_ms merged.earliest_start_time merged.latest_end_time))
      (latency_test ms merged.earliest_start_time merged.latest_end_time h a b)
