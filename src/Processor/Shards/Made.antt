-- ===== src/Processor/Shards/Made.antt =====
-- processor.go, newAtlassianSamplingProcessor: what is made, and when.
use atlassian_sampling_proce.Base.{
  ℕ, ◌≡◌, refl, subst, Bool, not, inl, inr, none, some, >>=-eq-some, some_inj, if-cases, ◌||◌, ◌&&◌,
}
use atlassian_sampling_proce.Base.Int.{ℤ, pos, pos_part, leb_ℤ, ltb_ℤ}
use atlassian_sampling_proce.Library.Lru.{Lru, LruLaws}
use atlassian_sampling_proce.Library.Pdata.{TraceId}
use atlassian_sampling_proce.Cache.AnyCache.{single}
use atlassian_sampling_proce.Cache.LruCache.{LruCache, new_lru_cache}
use atlassian_sampling_proce.Cache.LruCache.Fresh.{IsFresh, made-IsFresh}
use atlassian_sampling_proce.Cache.TieredCache.{new_tiered_cache}
use atlassian_sampling_proce.Decider.{Externals}
use atlassian_sampling_proce.Config.{Config}
use atlassian_sampling_proce.Policies.Conditions.{Makers}
use atlassian_sampling_proce.Policies.{new_policies}
use atlassian_sampling_proce.Processor.State.{Ref}
use atlassian_sampling_proce.Processor.Decisions.{
  on_evict_sampled, on_evict_not_sampled, primary_eviction_callback, secondary_eviction_callback,
}
use atlassian_sampling_proce.Processor.Undecided.{IsUndecided}
use atlassian_sampling_proce.Processor.Store.{TraceStore, TraceStoreInv, find_in_store, primary_of}
use atlassian_sampling_proce.Processor.Shards.{System}
use atlassian_sampling_proce.Processor.Shards.Belongs.{IsSound}
use atlassian_sampling_proce.Processor.Shards.New.{
  Surroundings, processor_config, initial_primary_size, made_or_none, new_mem_regulator,
  new_trace_store, assemble, make_processor, new_processor,
}

module _ (A : Type 0) {T D : Type 0} (lru : Lru TraceId ℕ D) (store : Lru TraceId Ref T)
    (store_laws : LruLaws store) where
  -- The cache of trace data is empty, meets its invariant and has this primary cache.
  pub record IsStoreOf (primary : LruCache T) (c : TraceStore T) : Type 0 where
    pub inv : TraceStoreInv store c
    pub empty : (id : TraceId) → find_in_store store c id ≡ none
    pub has_primary : primary_of c ≡ primary

  new_trace_store-IsStoreOf :
      (registers : Bool) (n : ℕ) (primary : LruCache T) (size : ℤ) (c : TraceStore T)
      → IsFresh store n primary
      → new_trace_store A lru store registers primary size ≡ some c
      → IsStoreOf primary c
  unfolding new_trace_store new_tiered_cache
  new_trace_store-IsStoreOf registers n primary size c f h =
      elim (if-cases (leb_ℤ size (pos 0)) (some (single primary)) _ h) [
        | inl (_, e) ↦
            subst (IsStoreOf primary) (some_inj e)
              (record { inv = rw f.room f.positive; empty = f.empty; has_primary = refl })
        | inr (_, e) ↦
            let (secondary, m, r) =
              >>=-eq-some
                (new_lru_cache store (secondary_eviction_callback {A = A} lru) registers
                  (pos_part size))
                _ e in
            let g =
              made-IsFresh store store_laws (secondary_eviction_callback {A = A} lru) registers
                (pos_part size) secondary m in
            subst (IsStoreOf primary) (some_inj r) (record {
              inv = (rw f.room f.positive, rw g.room g.positive, λ q. inl (f.empty q));
              empty = λ q. rw (f.empty q) (g.empty q);
              has_primary = refl;
            })
      ]

module _ {A F R Re T D : Type 0} (ext : Externals A F R Re) (makers : Makers A Re)
    (lru : Lru TraceId ℕ D) (laws : LruLaws lru) (store : Lru TraceId Ref T)
    (store_laws : LruLaws store) where
  -- The caches have room for something and are empty, and nothing is on its way to a shard.
  pub record IsNew (cfg : Config F) (s : System A F R Re T D) : Type 0 where
    pub sound : IsSound ext.attrs lru s
    pub store_inv : TraceStoreInv store s.asp.trace_data
    pub no_trace : (id : TraceId) → find_in_store store s.asp.trace_data id ≡ none
    pub undecided : (id : TraceId) → IsUndecided lru id s.asp.world
    pub initial_size :
        (primary_of s.asp.trace_data).size ≡ initial_primary_size ext.float cfg.primary_cache_size

  make_processor-IsNew :
      (around : Surroundings A) (cfg : Config F) (s : System A F R Re T D)
      → make_processor ext.float makers lru store around cfg ≡ some s
      → IsNew cfg s
  unfolding make_processor assemble
  make_processor-IsNew around cfg s e =
      let (primary, e₁, r₁) =
        >>=-eq-some
          (new_lru_cache store (primary_eviction_callback {A = A} lru) (around.registers "primary")
            (initial_primary_size ext.float cfg.primary_cache_size))
          _ e in
      let (c, e₂, r₂) =
        >>=-eq-some
          (new_trace_store A lru store (around.registers "secondary") primary
            cfg.secondary_cache_size)
          _ r₁ in
      let (sampled, e₃, r₃) =
        >>=-eq-some
          (new_lru_cache lru on_evict_sampled (around.registers "sampled_decision")
            (pos_part cfg.decision_cache_cfg.sampled_cache_size))
          _ r₂ in
      let (other, e₄, r₄) =
        >>=-eq-some
          (new_lru_cache lru on_evict_not_sampled (around.registers "nonsampled_decision")
            (pos_part cfg.decision_cache_cfg.non_sampled_cache_size))
          _ r₃ in
      let (regulator, e₅, r₅) = >>=-eq-some (new_mem_regulator cfg) _ r₄ in
      let (policies, e₆, r₆) =
        >>=-eq-some (made_or_none (new_policies makers ext.float cfg.policy_config)) _ r₅ in
      let f₁ =
        made-IsFresh store store_laws (primary_eviction_callback {A = A} lru)
          (around.registers "primary") (initial_primary_size ext.float cfg.primary_cache_size)
          primary e₁ in
      let t =
        new_trace_store-IsStoreOf A lru store store_laws (around.registers "secondary")
          (initial_primary_size ext.float cfg.primary_cache_size) primary cfg.secondary_cache_size c
          f₁ e₂ in
      let f₃ =
        made-IsFresh lru laws on_evict_sampled (around.registers "sampled_decision")
          (pos_part cfg.decision_cache_cfg.sampled_cache_size) sampled e₃ in
      let f₄ =
        made-IsFresh lru laws on_evict_not_sampled (around.registers "nonsampled_decision")
          (pos_part cfg.decision_cache_cfg.non_sampled_cache_size) other e₄ in
      subst (IsNew cfg) (some_inj r₆) (record {
        sound = record {
          exclusive = record {
            room = rw f₃.room f₃.positive;
            other_room = rw f₄.room f₄.positive;
            apart = λ q. inl (f₃.empty q);
          };
          buffers_belong = λ i. tt;
          working_belongs = λ i. tt;
          sending_belongs = tt;
        };
        store_inv = t.inv;
        no_trace = t.empty;
        undecided = λ id. record { no_sampled = f₃.empty id; no_not_sampled = f₄.empty id };
        initial_size = rw t.has_primary f₁.sized;
      })

  pub new_processor-IsNew :
      (around : Surroundings A) (cfg : Config F) (s : System A F R Re T D)
      → new_processor ext.float makers lru store around (processor_config cfg) ≡ some s
      → IsNew cfg s
  unfolding new_processor
  new_processor-IsNew around cfg s h =
      elim (if-cases
        (not around.builds_telemetry
          || ltb_ℤ cfg.shards (pos 0)
          || (ltb_ℤ (pos 0) cfg.shards && ltb_ℤ cfg.preprocess_buffer_size (pos 0)))
        none (make_processor ext.float makers lru store around cfg) h) [
          | inl (_, e) ↦ absurd (cc)
          | inr (_, e) ↦ make_processor-IsNew around cfg s e
        ]
