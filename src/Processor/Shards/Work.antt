-- ===== src/Processor/Shards/Work.antt =====
-- processor.go: the work that the shards have left, with nothing new coming in.
use atlassian_sampling_proce.Base.{
  ℕ, zero, suc, ◌+◌, ◌<◌, ◌≡◌, ◌≢◌, refl, subst, List, [], ◌∷◌, ◌++◌, arith, length, ℕ_discrete,
}
use atlassian_sampling_proce.Library.Lru.{Lru}
use atlassian_sampling_proce.Library.Codec.{Codec}
use atlassian_sampling_proce.Library.Pdata.{TraceId}
use atlassian_sampling_proce.Decider.{Externals}
use atlassian_sampling_proce.Processor.Spans.{GroupedTraceData}
use atlassian_sampling_proce.Processor.State.{Ref}
use atlassian_sampling_proce.Processor.Shards.{
  System, Batch, Listener, not_started, running, draining, finished, deliver, hand_over, receive,
  handle_next, set_listener,
}

-- The values of a function at the shards below `n`, added up.
abbrev pub total : ℕ → (ℕ → ℕ) → ℕ
total zero f = 0
total (suc n) f = f n + total n f

total_eq : (n : ℕ) (f g : ℕ → ℕ) → ((j : ℕ) → j < n → g j ≡ f j) → total n g ≡ total n f
total_eq zero f g h = refl
total_eq (suc n) f g h = omega (arith, h n (omega arith), total_eq n f g (λ j l. h j (omega arith)))

-- A change at one shard changes the sum by as much.
pub total_change :
    (n i : ℕ) (f g : ℕ → ℕ)
    → i < n
    → ((j : ℕ) → j ≢ i → g j ≡ f j)
    → total n g + f i ≡ total n f + g i
total_change zero i f g l h = absurd (omega arith)
total_change (suc n) i f g l h = elim (ℕ_discrete n i) [
  | yes e ↦
      let rest = total_eq n f g (λ j m. h j (λ k. absurd (omega arith))) in
      subst (λ k. (g n + total n g) + f k ≡ (f n + total n f) + g k) e (omega (arith, rest))
  | no d ↦ omega (arith, h n d, total_change n i f g (omega arith) h)
]

-- What a batch that is not yet received, and a listener, have left to do.
abbrev pub batches_left : {A : Type 0} → List (Batch A) → ℕ
batches_left [] = 0
batches_left (b ∷ bs) = (length b + 1) + batches_left bs

abbrev pub sends_left : {A : Type 0} → List (ℕ × Batch A) → ℕ
sends_left [] = 0
sends_left ((i, b) ∷ rest) = (length b + 2) + sends_left rest

abbrev pub listener_left : Listener → ℕ
listener_left not_started = 0
listener_left running = 2
listener_left draining = 1
listener_left finished = 0

pub batches_left-append :
    {A : Type 0} (bs : List (Batch A)) (b : Batch A)
    → batches_left (bs ++ b ∷ []) ≡ batches_left bs + (length b + 1)
batches_left-append [] b = omega arith
batches_left-append (c ∷ bs) b = omega (arith, batches_left-append bs b)

pub sends_left-split :
    {A : Type 0} (before : List (ℕ × Batch A)) (i : ℕ) (b : Batch A) (after : List (ℕ × Batch A))
    → sends_left (before ++ (i, b) ∷ after) ≡ sends_left (before ++ after) + (length b + 2)
sends_left-split [] i b after = omega arith
sends_left-split ((j, c) ∷ before) i b after = omega (arith, sends_left-split before i b after)

module _ {A F R Re T D : Type 0} where
  abbrev pub shard_left : System A F R Re T D → ℕ → ℕ
  shard_left s i =
      listener_left (s.listeners i) + length (s.working i) + batches_left (s.buffered i)

  abbrev pub work_left : System A F R Re T D → ℕ
  work_left s = sends_left s.sending + total s.shard_count (shard_left s)

module _ {A F R Re T D : Type 0} (ext : Externals A F R Re) (codec : Codec A)
    (lru : Lru TraceId ℕ D) (store : Lru TraceId Ref T) where
  -- The ends of sends and the steps of the listeners of the shards.
  pub data Works : System A F R Re T D → System A F R Re T D → Type 0 where
    delivers :
        (i : ℕ) (batch : Batch A) (before after : List (ℕ × Batch A)) (s : System A F R Re T D)
        → i < s.shard_count
        → s.sending ≡ before ++ (i, batch) ∷ after
        → Works s (deliver i batch (before ++ after) s)
    hands_over :
        (i : ℕ) (batch : Batch A) (before after : List (ℕ × Batch A)) (s : System A F R Re T D)
        → i < s.shard_count
        → s.sending ≡ before ++ (i, batch) ∷ after
        → s.working i ≡ []
        → Works s (hand_over i batch (before ++ after) s)
    cancels :
        (i : ℕ) (batch : Batch A) (before after : List (ℕ × Batch A)) (s : System A F R Re T D)
        → s.sending ≡ before ++ (i, batch) ∷ after
        → Works s (record s { sending = before ++ after })
    receives :
        (i : ℕ) (s : System A F R Re T D) (batch : Batch A) (rest : List (Batch A))
        → i < s.shard_count
        → s.buffered i ≡ batch ∷ rest
        → s.working i ≡ []
        → Works s (receive i s)
    handles :
        (i : ℕ) (s : System A F R Re T D) (gtd : GroupedTraceData A) (rest : Batch A)
        → i < s.shard_count
        → s.working i ≡ gtd ∷ rest
        → Works s (handle_next ext codec lru store i s)
    drains :
        (i : ℕ) (s : System A F R Re T D)
        → i < s.shard_count
        → s.listeners i ≡ running
        → Works s (set_listener i draining s)
    stops :
        (i : ℕ) (s : System A F R Re T D)
        → i < s.shard_count
        → s.listeners i ≡ draining
        → Works s (set_listener i finished s)

  -- `k` such steps, one after another.
  pub data WorksFor : ℕ → System A F R Re T D → System A F R Re T D → Type 0 where
    none_yet : (s : System A F R Re T D) → WorksFor 0 s s
    one_more :
        {k : ℕ} {s t u : System A F R Re T D} → WorksFor k s t → Works t u → WorksFor (suc k) s u
