-- ===== src/Processor/Callbacks.antt =====
-- The eviction functions of processor.go and the check of the decision caches: what they do to the
-- decisions that are cached.
use atlassian_sampling_proce.Base.{
  ℕ, ◌≡◌, refl, sym, subst, ◌∙◌, ◌≢◌, ◌⊎◌, inl, inr, Option, none, some, arith, Option-cases,
}
use atlassian_sampling_proce.Library.Lru.{Lru, LruLaws}
use atlassian_sampling_proce.Library.Pdata.{TraceId}
use atlassian_sampling_proce.Cache.Interface.{Evictions, Evictions-keep}
use atlassian_sampling_proce.Evaluators.Decision.{Decision, unspecified, sampled, not_sampled}
use atlassian_sampling_proce.Processor.State.{primary, secondary, CacheName, Ref, World, add_metric}
use atlassian_sampling_proce.Processor.Decisions.{
  get_sampled, get_not_sampled, safe_check_decision_caches, cache_eviction_callback, record_evicted,
  primary_eviction_callback, secondary_eviction_callback,
}
use atlassian_sampling_proce.Processor.Exclusive.{
  sampled_at, not_sampled_at, IsExclusive, get_sampled-IsExclusive, get_not_sampled-IsExclusive,
  put_not_sampled-IsExclusive, sampled_at-get_sampled, sampled_at-gets, not_sampled_at-gets,
  get_sampled_lem, get_not_sampled_lem,
}

module _ {A D : Type 0} (lru : Lru TraceId ℕ D) where
  -- Each trace has the same cached decision before and after.
  pub record SameDecisions (w w' : World A D) : Type 0 where
    pub same_sampled : (q : TraceId) → sampled_at lru w' q ≡ sampled_at lru w q
    pub same_not_sampled : (q : TraceId) → not_sampled_at lru w' q ≡ not_sampled_at lru w q

  -- A decision on the trace is cached.
  abbrev pub IsDecided : TraceId → World A D → Type 0
  IsDecided id w = (sampled_at lru w id ≢ none) ⊎ (not_sampled_at lru w id ≢ none)

  pub SameDecisions-trans :
      {u v w : World A D} → SameDecisions u v → SameDecisions v w → SameDecisions u w
  SameDecisions-trans a b = record {
    same_sampled = λ q. b.same_sampled q ∙ a.same_sampled q;
    same_not_sampled = λ q. b.same_not_sampled q ∙ a.same_not_sampled q;
  }

  pub SameDecisions-refl : {w : World A D} → SameDecisions w w
  SameDecisions-refl = record { same_sampled = λ q. refl; same_not_sampled = λ q. refl }

  pub IsDecided-Same :
      (id : TraceId) {w w' : World A D} → SameDecisions w w' → IsDecided id w → IsDecided id w'
  IsDecided-Same id s (inl h) = inl (λ e. h (sym (s.same_sampled id) ∙ e))
  IsDecided-Same id s (inr h) = inr (λ e. h (sym (s.same_not_sampled id) ∙ e))

  -- One call of an eviction function for an entry of the caches of trace data.
  abbrev pub Called : TraceId → Ref → World A D → World A D → Type 0
  Called id td w w' =
      (w' ≡ primary_eviction_callback lru id td w) ⊎ (w' ≡ secondary_eviction_callback lru id td w)

-- What the check makes of two reads.
abbrev pub decision_of : Option ℕ → Option ℕ → Decision
decision_of (some _) n = sampled
decision_of none (some _) = not_sampled
decision_of none none = unspecified

module _ {A D : Type 0} (lru : Lru TraceId ℕ D) (laws : LruLaws lru) where
  pub gets-Same :
      (w : World A D) (id : TraceId)
      → SameDecisions lru w (get_not_sampled lru id (get_sampled lru id w).0).0
  gets-Same w id = record {
    same_sampled = sampled_at-gets lru laws w id;
    same_not_sampled = not_sampled_at-gets lru laws w id;
  }

  pub gets-IsExclusive :
      (w : World A D) (id : TraceId)
      → IsExclusive lru w
      → IsExclusive lru (get_not_sampled lru id (get_sampled lru id w).0).0
  gets-IsExclusive w id x =
      get_not_sampled-IsExclusive lru laws _ id (get_sampled-IsExclusive lru laws w id x)

  pub second_get_lem :
      (w : World A D) (id : TraceId)
      → (get_not_sampled lru id (get_sampled lru id w).0).1 ≡ not_sampled_at lru w id
  unfolding get_sampled
  second_get_lem w id = get_not_sampled_lem lru laws (get_sampled lru id w).0 id

  -- The check answers by what is cached, first of all by the sampled traces.
  pub safe_check_lem :
      (w : World A D) (id : TraceId)
      → (safe_check_decision_caches lru id w).1
        ≡ decision_of (sampled_at lru w id) (not_sampled_at lru w id)
  unfolding safe_check_decision_caches
  safe_check_lem w id = ground (arith, get_sampled_lem lru laws w id, second_get_lem w id)

  safe_check_cases :
      (P : World A D → Type 0) (w : World A D) (id : TraceId)
      → P (get_sampled lru id w).0
      → P (get_not_sampled lru id (get_sampled lru id w).0).0
      → P (safe_check_decision_caches lru id w).0
  unfolding safe_check_decision_caches
  safe_check_cases P w id one two = ground arith

  pub safe_check-IsExclusive :
      (w : World A D) (id : TraceId)
      → IsExclusive lru w
      → IsExclusive lru (safe_check_decision_caches lru id w).0
  safe_check-IsExclusive w id x =
      safe_check_cases (IsExclusive lru) w id (get_sampled-IsExclusive lru laws w id x)
        (gets-IsExclusive w id x)

  -- The check changes no decision.
  pub safe_check-Same :
      (w : World A D) (id : TraceId) → SameDecisions lru w (safe_check_decision_caches lru id w).0
  unfolding get_sampled
  safe_check-Same w id =
      safe_check_cases (SameDecisions lru w) w id
        (record {
          same_sampled = sampled_at-get_sampled lru laws w id;
          same_not_sampled = λ q. refl;
        })
        (gets-Same w id)

  -- An eviction decides only where no decision is cached.
  pub callback_cases :
      (P : World A D → Type 0) (name : CacheName) (id : TraceId) (td : Ref) (w : World A D)
      → (IsDecided lru id w → P (get_not_sampled lru id (get_sampled lru id w).0).0)
      → (sampled_at lru w id ≡ none
          → not_sampled_at lru w id ≡ none
          → P (
              record_evicted lru name id none none
                (get_not_sampled lru id (get_sampled lru id w).0).0))
      → P (cache_eviction_callback lru name id td w)
  unfolding cache_eviction_callback
  callback_cases P name id td w old new = elim (Option-cases (sampled_at lru w id)) [
    | inr (t, e) ↦ rw (get_sampled_lem lru laws w id, e) (old (inl (ground arith)))
    | inl e ↦ elim (Option-cases (not_sampled_at lru w id)) [
      | inr (t, e') ↦
          rw (get_sampled_lem lru laws w id, e, second_get_lem w id, e') (old (inr (ground arith)))
      | inl e' ↦ rw (get_sampled_lem lru laws w id, e, second_get_lem w id, e') (new e e')
    ]
  ]

  evicted-IsExclusive :
      (name : CacheName) (id : TraceId) (w : World A D)
      → IsExclusive lru w
      → sampled_at lru w id ≡ none
      → IsExclusive lru (record_evicted lru name id none none w)
  unfolding record_evicted add_metric
  evicted-IsExclusive name id w x e =
      let y = put_not_sampled-IsExclusive lru laws w id x e in
      record { room = y.room; other_room = y.other_room; apart = y.apart }

  pub callback-IsExclusive :
      (name : CacheName) (id : TraceId) (td : Ref) (w : World A D)
      → IsExclusive lru w
      → IsExclusive lru (cache_eviction_callback lru name id td w)
  callback-IsExclusive name id td w x =
      callback_cases (IsExclusive lru) name id td w (λ _. gets-IsExclusive w id x)
        λ e e'.
          evicted-IsExclusive name id _ (gets-IsExclusive w id x)
            (sampled_at-gets lru laws w id id ∙ e)

  callback-Same :
      (name : CacheName) (id : TraceId) (td : Ref) (w : World A D)
      → IsDecided lru id w
      → SameDecisions lru w (cache_eviction_callback lru name id td w)
  callback-Same name id td w d =
      callback_cases (SameDecisions lru w) name id td w (λ _. gets-Same w id)
        (λ e e'. absurd (ground arith))

  Called-IsExclusive :
      (id : TraceId) (td : Ref) (w w' : World A D)
      → Called lru id td w w'
      → IsExclusive lru w
      → IsExclusive lru w'
  unfolding primary_eviction_callback secondary_eviction_callback
  Called-IsExclusive id td w w' (inl e) x = rw e (callback-IsExclusive primary id td w x)
  Called-IsExclusive id td w w' (inr e) x =
      rw e (ground (arith, x, callback-IsExclusive secondary id td w x))

  Called-Same :
      (id : TraceId) (td : Ref) (w w' : World A D)
      → Called lru id td w w'
      → IsDecided lru id w
      → SameDecisions lru w w'
  unfolding primary_eviction_callback secondary_eviction_callback
  Called-Same id td w w' (inl e) d = rw e (callback-Same primary id td w d)
  Called-Same id td w w' (inr e) d =
      rw e (ground (arith, SameDecisions-refl lru {w = w}, callback-Same secondary id td w d))

  -- Whatever leaves the caches of trace data, the decisions stay exclusive.
  pub Evictions-IsExclusive :
      {Of : TraceId → Type 0} {w w' : World A D}
      → Evictions Of (Called lru) w w'
      → IsExclusive lru w
      → IsExclusive lru w'
  Evictions-IsExclusive =
      Evictions-keep (IsExclusive lru) (λ k v u u' _ c x. Called-IsExclusive k v u u' c x)

  -- What leaves for a trace that is decided changes no decision.
  pub Evictions-Same :
      (id : TraceId) {w w' : World A D}
      → Evictions (λ q. q ≡ id) (Called lru) w w'
      → IsDecided lru id w
      → SameDecisions lru w w'
  Evictions-Same id {w} ev d =
      Evictions-keep (λ u. SameDecisions lru w u)
        (λ k v u u' o c s. SameDecisions-trans lru s (
          Called-Same k v u u' c
            (subst (λ q. IsDecided lru q u) (sym o) (IsDecided-Same lru id s d))))
        ev (SameDecisions-refl lru)
