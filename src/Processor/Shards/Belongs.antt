-- ===== src/Processor/Shards/Belongs.antt =====
-- processor.go: the groups of spans that are on their way to a shard, and the invariant of a processor
-- with its shards.
use atlassian_sampling_proce.Base.{
  ℕ, zero, suc, ◌≡◌, refl, sym, subst, inl, inr, none, List, [], ◌∷◌, ◌++◌, All, ◌==◌, ==_iff,
  Bool-cases,
}
use atlassian_sampling_proce.Library.Lru.{Lru}
use atlassian_sampling_proce.Library.Pdata.{TraceId, Traces, AttributeMap}
use atlassian_sampling_proce.Processor.Spans.{GroupedTraceData, shard_id_for_trace}
use atlassian_sampling_proce.Processor.Decisions.{decision_span_key}
use atlassian_sampling_proce.Processor.Consume.{ShardedSpans}
use atlassian_sampling_proce.Processor.Exclusive.{IsExclusive}
use atlassian_sampling_proce.Processor.Shards.{System, Batch, update, sends}
use atlassian_sampling_proce.Processor.Shards.Steps.{NoDecisionSpans}

pub update-keeps :
    {X : Type 0} (P : ℕ → X → Type 0) (i : ℕ) (x : X) (f : ℕ → X)
    → P i x
    → ((j : ℕ) → P j (f j))
    → (j : ℕ) → P j (update i x f j)
unfolding update
update-keeps P i x f px pf j = elim (Bool-cases (j == i)) [
  | inl e ↦ rw (e, update) (subst (λ k. P k x) (sym ((==_iff j i).0 e)) px)
  | inr e ↦ rw (e, update) (pf j)
]

module _ {A : Type 0} (attrs : AttributeMap A) (n : ℕ) where
  -- A group that belongs on the shard, and is no decision span.
  abbrev pub Belongs : ℕ → GroupedTraceData A → Type 0
  Belongs i gtd =
      (shard_id_for_trace gtd.id n ≡ i)
      × (attrs.get gtd.resource.attributes decision_span_key ≡ none)

  abbrev pub BatchBelongs : ℕ → Batch A → Type 0
  BatchBelongs i = All (Belongs i)

  pub sends-Belong :
      (i k : ℕ) (sharded : ShardedSpans A)
      → ((j : ℕ) → BatchBelongs j (sharded j))
      → All (λ e. BatchBelongs e.0 e.1) (sends i k sharded)
  unfolding sends
  sends-Belong i zero sharded h = tt
  sends-Belong i (suc k) sharded h = sent (sharded i) (h i) (sends-Belong (suc i) k sharded h)
    where
      sent :
          (batch : Batch A)
          → BatchBelongs i batch
          → All (λ e. BatchBelongs e.0 e.1) (sends (suc i) k sharded)
          → All
              (λ e. BatchBelongs e.0 e.1)
              (elim batch [
                | [] ↦ sends (suc i) k sharded
                | gtd ∷ gtds ↦ (i, gtd ∷ gtds) ∷ sends (suc i) k sharded
              ])
      sent [] b rest = rest
      sent (gtd ∷ gtds) b rest = (b, rest)

  pub under_resources :
      (td : Traces A)
      → NoDecisionSpans attrs td
      → All
          (λ rs.
            (id : TraceId) (spans : List _)
            → Belongs
                (shard_id_for_trace id n)
                (record { id = id; resource = rs.resource; spans = spans }))
          td
  under_resources [] h = tt
  under_resources (rs ∷ rest) h = (λ id spans. (refl, h.0), under_resources rest h.1)

pub All-split :
    {X : Type 0} (P : X → Type 0) (before : List X) (x : X) (after : List X)
    → All P (before ++ x ∷ after)
    → P x × All P (before ++ after)
All-split P [] x after h = h
All-split P (y ∷ before) x after h =
    let (px, rest) = All-split P before x after h.1 in (px, (h.0, rest))

module _ {A F R Re T D : Type 0} (attrs : AttributeMap A) (lru : Lru TraceId ℕ D) where
  -- The decision caches have room and no trace is in both, and each group that is buffered, in the
  -- hands of a listener or waits to be sent belongs on its shard and is no decision span.
  pub record IsSound (s : System A F R Re T D) : Type 0 where
    pub exclusive : IsExclusive lru s.asp.world
    pub buffers_belong : (i : ℕ) → All (BatchBelongs attrs s.shard_count i) (s.buffered i)
    pub working_belongs : (i : ℕ) → BatchBelongs attrs s.shard_count i (s.working i)
    pub sending_belongs : All (λ e. BatchBelongs attrs s.shard_count e.0 e.1) s.sending
