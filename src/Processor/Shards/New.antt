-- ===== src/Processor/Shards/New.antt =====
-- processor.go, newAtlassianSamplingProcessor: a processor that is made of a configuration.
use atlassian_sampling_proce.Base.{
  ℕ, ◌+◌, ◌-◌, suc, Bool, String, not, true, false, ◌&&◌, ◌||◌, Option, none, some, List, [],
  if◌then◌else◌, ◌>>=◌, ◌==◌,
}
use atlassian_sampling_proce.Base.Int.{ℤ, pos, negsuc, pos_part, ltb_ℤ, leb_ℤ, quot}
use atlassian_sampling_proce.Library.Lru.{Lru}
use atlassian_sampling_proce.Library.Float64.{Float64}
use atlassian_sampling_proce.Library.Pdata.{TraceId, SpanId}
use atlassian_sampling_proce.Cache.AnyCache.{single, tiered}
use atlassian_sampling_proce.Cache.LruCache.{LruCache, new_lru_cache}
use atlassian_sampling_proce.Cache.TieredCache.{new_tiered_cache}
use atlassian_sampling_proce.Tracedata.{TraceData}
use atlassian_sampling_proce.Regulator.{Regulator, new_regulator}
use atlassian_sampling_proce.Policy.{Policy}
use atlassian_sampling_proce.Config.{Config}
use atlassian_sampling_proce.Policies.Conditions.{Makers}
use atlassian_sampling_proce.Policies.{Made, made, not_made, new_policies}
use atlassian_sampling_proce.Processor.State.{Ref, World}
use atlassian_sampling_proce.Processor.Decisions.{
  on_evict_sampled, on_evict_not_sampled, primary_eviction_callback, secondary_eviction_callback,
}
use atlassian_sampling_proce.Processor.Store.{TraceStore}
use atlassian_sampling_proce.Processor.Shards.{System, not_started}

-- What is around the processor when it is made: the time, the next random span ID, what a pointer
-- that is not yet allocated points to, and the collector's telemetry: whether NewTelemetryBuilder
-- succeeds with it, and whether a callback for the reads of the cache of a name can be registered.
pub record Surroundings (A : Type 0) : Type 0 where
  pub now : ℕ
  pub random_span_id : SpanId
  pub unallocated : Ref → TraceData A
  pub builds_telemetry : Bool
  pub registers : String → Bool

-- A component.Config: a *Config, or something else.
pub data ComponentConfig (F : Type 0) : Type 0 where
  processor_config : Config F → ComponentConfig F
  other_config : ComponentConfig F

-- int(0.6 * float64(cfg.PrimaryCacheSize))
unfoldable pub initial_primary_size : {F : Type 0} → Float64 F → ℤ → ℕ
initial_primary_size float size =
    float.trunc (float.mul (float.ratio 6 10) (float.of_ℕ (pos_part size)))

-- time.Now().Add(d)
unfoldable pub add_delay : ℕ → ℤ → ℕ
add_delay now (pos d) = now + d
add_delay now (negsuc d) = now - suc d

-- An error of newPolicies is an error.
unfoldable pub made_or_none : {X : Type 0} → Made X → Option X
made_or_none (made x) = some x
made_or_none (not_made e) = none

-- With a target for the heap there is a regulator, of the primary cache.
unfoldable pub new_mem_regulator : {F : Type 0} → Config F → Option (Option Regulator)
unfolding quot
new_mem_regulator cfg =
    if cfg.target_heap_bytes == 0
    then some none
    else elim (new_regulator (quot cfg.primary_cache_size 4) cfg.primary_cache_size
        cfg.target_heap_bytes true true) [ none ↦ none | some r ↦ some (some r) ]

module _ (A : Type 0) {T D : Type 0} (lru : Lru TraceId ℕ D) (store : Lru TraceId Ref T) where
  -- asp.traceData: the library refuses a size that is not positive.
  unfoldable pub new_trace_store : Bool → LruCache T → ℤ → Option (TraceStore T)
  unfolding new_lru_cache new_tiered_cache
  new_trace_store registers primary secondary_size =
      if leb_ℤ secondary_size (pos 0) then some (single primary) else (do
        secondary ←
            new_lru_cache {W = World A D} store (secondary_eviction_callback lru) registers
              (pos_part secondary_size)
        both ← new_tiered_cache (some primary) (some secondary)
        some (tiered both))

-- The processor with its parts.
unfoldable pub assemble :
    {A F R Re T D : Type 0}
    → Surroundings A
    → Config F
    → TraceStore T
    → LruCache D
    → LruCache D
    → Option Regulator
    → List (Policy A F R Re)
    → System A F R Re T D
unfolding add_delay
assemble around cfg trace_data sampled non_sampled mem_regulator policies = record {
  asp = record {
    trace_data = trace_data;
    world = record {
      heap = around.unallocated;
      next_ref = 0;
      sampled_decision_cache = sampled;
      non_sampled_decision_cache = non_sampled;
      telemetry = record { started = false; metrics = [] };
      exported = [];
      now = around.now;
      random_span_id = around.random_span_id;
    };
  };
  policies = policies;
  shard_count = pos_part cfg.shards;
  buffer_size = pos_part cfg.preprocess_buffer_size;
  buffered = λ i. [];
  working = λ i. [];
  sending = [];
  listeners = λ i. not_started;
  mem_regulator = mem_regulator;
  regulator_start_time =
      if cfg.target_heap_bytes == 0 then 0 else add_delay around.now cfg.regulate_cache_delay;
  ticking = true;
  shutdown_closed = false;
  waiting = false;
  flush_on_shutdown = cfg.flush_on_shutdown;
  compress = cfg.compression_enabled;
}

module _ {A F R Re T D : Type 0} (float : Float64 F) (makers : Makers A Re) (lru : Lru TraceId ℕ D)
    (store : Lru TraceId Ref T) where
  unfoldable pub make_processor : Surroundings A → Config F → Option (System A F R Re T D)
  unfolding new_trace_store initial_primary_size new_mem_regulator made_or_none new_lru_cache
      assemble
  make_processor around cfg = do
    primary ←
        new_lru_cache {W = World A D} store (primary_eviction_callback lru)
          (around.registers "primary") (initial_primary_size float cfg.primary_cache_size)
    trace_data ←
        new_trace_store A lru store (around.registers "secondary") primary cfg.secondary_cache_size
    sampled ←
        new_lru_cache lru on_evict_sampled (around.registers "sampled_decision")
          (pos_part cfg.decision_cache_cfg.sampled_cache_size)
    non_sampled ←
        new_lru_cache lru on_evict_not_sampled (around.registers "nonsampled_decision")
          (pos_part cfg.decision_cache_cfg.non_sampled_cache_size)
    mem_regulator ← new_mem_regulator cfg
    policies ← made_or_none (new_policies makers float cfg.policy_config)
    some (assemble around cfg trace_data sampled non_sampled mem_regulator policies)

  -- make panics for a negative number of shards or buffer size: that is `none` too.
  unfoldable pub new_processor : Surroundings A → ComponentConfig F → Option (System A F R Re T D)
  unfolding make_processor
  new_processor around other_config = none
  new_processor around (processor_config cfg) =
      if not around.builds_telemetry
        || ltb_ℤ cfg.shards (pos 0)
        || (ltb_ℤ (pos 0) cfg.shards && ltb_ℤ cfg.preprocess_buffer_size (pos 0))
      then none
      else make_processor around cfg
