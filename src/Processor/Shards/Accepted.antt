-- ===== src/Processor/Shards/Accepted.antt =====
-- config.go, Validate, and processor.go, newAtlassianSamplingProcessor: which configurations make a
-- processor, and what such a processor comes to.
use atlassian_sampling_proce.Base.{
  ℕ, zero, suc, ◌<◌, ◌≤◌, ◌/◌, ◌≡◌, ◌≢◌, refl, inl, inr, true, false, ◌||◌, ◌&&◌, Option, none,
  some, String, List, [], arith, Bool-cases, ◌==◌,
}
use atlassian_sampling_proce.Base.Int.{ℤ, pos, negsuc, pos_part, ltb_ℤ, quot, ◌≤ℤ◌}
use atlassian_sampling_proce.Library.Lru.{Lru, LruLaws}
use atlassian_sampling_proce.Library.Codec.{Codec}
use atlassian_sampling_proce.Library.Pdata.{TraceId}
use atlassian_sampling_proce.Cache.AnyCache.{single, tiered}
use atlassian_sampling_proce.Cache.LruCache.{LruCache}
use atlassian_sampling_proce.Cache.LruCache.Fresh.{new_cache_exists}
use atlassian_sampling_proce.Cache.TieredCache.{new_tiered_cache}
use atlassian_sampling_proce.Decider.{Externals}
use atlassian_sampling_proce.Regulator.{Regulator, new_regulator}
use atlassian_sampling_proce.Policy.{Policy}
use atlassian_sampling_proce.Config.{Config, validate}
use atlassian_sampling_proce.Config.Valid.{IsValid, validate_iff}
use atlassian_sampling_proce.Policies.Conditions.{Makers}
use atlassian_sampling_proce.Policies.{made, new_policies}
use atlassian_sampling_proce.Processor.State.{Ref}
use atlassian_sampling_proce.Processor.Decisions.{
  on_evict_sampled, on_evict_not_sampled, primary_eviction_callback, secondary_eviction_callback,
}
use atlassian_sampling_proce.Processor.Store.{TraceStore}
use atlassian_sampling_proce.Processor.Shards.{System}
use atlassian_sampling_proce.Processor.Shards.Steps.{Reach}
use atlassian_sampling_proce.Processor.Shards.Belongs.{IsSound}
use atlassian_sampling_proce.Processor.Shards.Reachable.{Reach-IsSound}
use atlassian_sampling_proce.Processor.Shards.New.{
  Surroundings, processor_config, initial_primary_size, made_or_none, new_mem_regulator,
  new_trace_store, assemble, make_processor, new_processor,
}
use atlassian_sampling_proce.Processor.Shards.Made.{new_processor-IsNew}

regulator_exists :
    (p : ℤ) (target : ℕ)
    → 2 ≤ pos_part p
    → target ≢ 0
    → (r : Regulator) × (new_regulator (quot p 4) p target true true ≡ some r)
unfolding new_regulator quot
regulator_exists (pos n) target h t =
    (record { min_size = n / 4; max_size = n; target_heap = target }, ground arith)
regulator_exists (negsuc n) target h t = absurd (omega arith)

mem_regulator_exists :
    {F : Type 0} (cfg : Config F)
    → 2 ≤ pos_part cfg.primary_cache_size
    → (r : Option Regulator) × (new_mem_regulator cfg ≡ some r)
unfolding new_mem_regulator
mem_regulator_exists cfg h = elim (Bool-cases (cfg.target_heap_bytes == 0)) [
  | inl e ↦ (none, rw (e, new_mem_regulator) refl)
  | inr e ↦
      let (r, m) =
        regulator_exists cfg.primary_cache_size cfg.target_heap_bytes h
          (λ z. absurd (ground arith)) in
      (some r, rw (e, new_mem_regulator, m) refl)
]

counts_pass :
    (n b : ℤ)
    → 0 < pos_part n
    → pos 0 ≤ℤ b
    → (ltb_ℤ n (pos 0) || (ltb_ℤ (pos 0) n && ltb_ℤ b (pos 0))) ≡ false
counts_pass (pos n) (pos b) h k = ground arith
counts_pass (pos n) (negsuc b) h k = absurd (omega arith)
counts_pass (negsuc n) b h k = absurd (omega arith)

-- make does not panic.
guard_passes :
    {F Re : Type 0} {compile : String → Option Re} (cfg : Config F)
    → IsValid compile cfg
    → (ltb_ℤ cfg.shards (pos 0)
        || (ltb_ℤ (pos 0) cfg.shards && ltb_ℤ cfg.preprocess_buffer_size (pos 0)))
      ≡ false
guard_passes cfg v =
    counts_pass cfg.shards cfg.preprocess_buffer_size v.some_shards v.buffer_size_ok

module _ (A : Type 0) {T D : Type 0} (lru : Lru TraceId ℕ D) (store : Lru TraceId Ref T)
    (store_laws : LruLaws store) where
  trace_store_exists :
      (primary : LruCache T) (size : ℤ)
      → (c : TraceStore T) × (new_trace_store A lru store true primary size ≡ some c)
  unfolding new_trace_store new_tiered_cache
  trace_store_exists primary (pos zero) = (single primary, refl)
  trace_store_exists primary (negsuc n) = (single primary, ground arith)
  trace_store_exists primary (pos (suc n)) =
      let (secondary, e) =
        new_cache_exists store store_laws (secondary_eviction_callback {A = A} lru) (suc n)
          (omega arith) in
      (tiered (record { primary = primary; secondary = secondary }), ground (arith, e))

module _ {A F R Re T D : Type 0} (ext : Externals A F R Re) (makers : Makers A Re)
    (lru : Lru TraceId ℕ D) (laws : LruLaws lru) (store : Lru TraceId Ref T)
    (store_laws : LruLaws store) where
  -- If Validate accepts a configuration, the telemetry builder can be made, the callbacks of the
  -- four caches can be registered, the sizes of both decision caches are positive, 60 percent of
  -- the size of the primary cache is at least one, and newPolicies succeeds, then a processor is
  -- made, with these policies and the shards of the configuration.
  pub new_processor_succeeds :
      (around : Surroundings A) (cfg : Config F) (ps : List (Policy A F R Re))
      → around.builds_telemetry ≡ true
      → ((name : String) → around.registers name ≡ true)
      → validate makers.compile cfg ≡ []
      → 0 < pos_part cfg.decision_cache_cfg.sampled_cache_size
      → 0 < pos_part cfg.decision_cache_cfg.non_sampled_cache_size
      → 0 < initial_primary_size ext.float cfg.primary_cache_size
      → new_policies makers ext.float cfg.policy_config ≡ made ps
      → (s : System A F R Re T D) × (new_processor ext.float makers lru store around
            (processor_config cfg)
          ≡ some s)
        × (s.policies ≡ ps)
        × (s.shard_count ≡ pos_part cfg.shards)
  unfolding new_processor make_processor made_or_none assemble
  new_processor_succeeds around cfg ps builds registers valid s₊ n₊ p₊ made_ps =
      let v = (validate_iff makers.compile cfg).0 valid in
      let (primary, e₁) =
        new_cache_exists store store_laws (primary_eviction_callback {A = A} lru)
          (initial_primary_size ext.float cfg.primary_cache_size) p₊ in
      let (c, e₂) = trace_store_exists A lru store store_laws primary cfg.secondary_cache_size in
      let (sampled, e₃) =
        new_cache_exists lru laws on_evict_sampled
          (pos_part cfg.decision_cache_cfg.sampled_cache_size) s₊ in
      let (other, e₄) =
        new_cache_exists lru laws on_evict_not_sampled
          (pos_part cfg.decision_cache_cfg.non_sampled_cache_size) n₊ in
      let (regulator, e₅) =
        mem_regulator_exists cfg (omega (arith, v.some_secondary, v.secondary_below_half)) in
      (
        assemble around cfg c sampled other regulator ps,
        rw
            (
              builds,
              registers "primary",
              registers "secondary",
              registers "sampled_decision",
              registers "nonsampled_decision",
              guard_passes cfg v,
              e₁,
              e₂,
              e₃,
              e₄,
              e₅,
              made_ps,
            )
            refl,
        refl,
        refl,
      )

  -- In every state that a processor made from a configuration reaches by starts, calls of
  -- ConsumeTraces with traces without decision spans, sends, the work of the shard listeners, ticks
  -- of the regulator and shutdowns, in any order, both decision caches have room and no trace is in
  -- both, and every group that is buffered, in the hands of a listener or waiting to be sent is on
  -- the shard that its trace ID hashes to and is no decision span.
  pub reachable-IsSound :
      (codec : Codec A) (host : String → Option (Option R)) (around : Surroundings A)
      (cfg : Config F) (s t : System A F R Re T D)
      → new_processor ext.float makers lru store around (processor_config cfg) ≡ some s
      → Reach ext codec lru store host s t
      → IsSound ext.attrs lru t
  reachable-IsSound codec host around cfg s t h =
      Reach-IsSound ext codec lru laws store store_laws host
        (new_processor-IsNew ext makers lru laws store store_laws around cfg s h).sound
