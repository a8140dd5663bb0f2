-- ===== src/Library/LruList.antt =====
-- A concrete least-recently-used list, most recent first: it shows that the laws of `Lru` can hold,
-- and the examples run on it.
use mathlib.Core.List.{reverse}
use mathlib.Core.Option
use atlassian_sampling_proce.Base.{
  ℕ, zero, suc, ◌==◌, ◌<◌, ◌≡◌, refl, ◌≢◌, ◌⊎◌, inl, inr, ite, Option, none, some, List, [], ◌∷◌,
  map, arith, ltb, if◌then◌else◌, length, take, drop, Option-cases,
}
use atlassian_sampling_proce.Library.Lru.{Lru, LruLaws}

pub record Items (K V : Type 0) : Type 0 where
  pub size : ℕ
  pub items : List (K × V)

module _ {K V : Type 0} (dec : Discrete K) where
  unfoldable pub find : K → List (K × V) → Option V
  find k [] = none
  find k ((j, v) ∷ l) = ite (dec j k) (some v) (find k l)

  unfoldable pub without : K → List (K × V) → List (K × V)
  without k [] = []
  without k ((j, v) ∷ l) = ite (dec j k) (without k l) ((j, v) ∷ without k l)

  unfoldable pub last_key : K → List (K × V) → K
  last_key d [] = d
  last_key d ((j, v) ∷ l) = last_key j l

  pub find-without_self : (k : K) (l : List (K × V)) → find k (without k l) ≡ none
  unfolding find without
  find-without_self k [] = refl
  find-without_self k ((j, v) ∷ l) = ground (arith, find-without_self k l)

  pub find-without_ne : (k q : K) (l : List (K × V)) → q ≢ k → find q (without k l) ≡ find q l
  unfolding find without
  find-without_ne k q [] h = refl
  find-without_ne k q ((j, v) ∷ l) h = ground (arith, find-without_ne k q l h)

  find-last_key : (d : K) (v : V) (l : List (K × V)) → find (last_key d l) ((d, v) ∷ l) ≢ none
  unfolding find last_key
  find-last_key d v [] = λ e. ground arith
  find-last_key d v ((j, u) ∷ l) = λ e. find-last_key j u l (ground arith)

  -- What becomes of the other entries when one is added.
  unfoldable pub make_room : ℕ → List (K × V) → List (K × V) × Option (K × V)
  make_room n [] = ([], none)
  make_room n ((j, v) ∷ l) =
      let q = last_key j l in
      if ltb n (suc (length ((j, v) ∷ l)))
      then (without q ((j, v) ∷ l), Option.map (λ u. (q, u)) (find q ((j, v) ∷ l)))
      else ((j, v) ∷ l, none)

  make_room_keeps :
      (n : ℕ) (q : K) (l : List (K × V))
      → Option.map (λ e. e.0) (make_room n l).1 ≢ some q
      → find q (make_room n l).0 ≡ find q l
  unfolding make_room
  make_room_keeps n q [] h = refl
  make_room_keeps n q ((j, v) ∷ l) h = ground (
    arith,
    find-without_ne (last_key j l) q ((j, v) ∷ l),
    find-last_key j v l,
    Option-cases (find (last_key j l) ((j, v) ∷ l)),
  )

  make_room_evicted :
      (n : ℕ) (q : K) (u : V) (l : List (K × V))
      → (make_room n l).1 ≡ some (q, u)
      → (find q l ≡ some u) × (find q (make_room n l).0 ≡ none)
  unfolding make_room
  make_room_evicted n q u [] h = absurd (ground arith)
  make_room_evicted n q u ((j, v) ∷ l) h = ground (
    arith,
    find-without_self (last_key j l) ((j, v) ∷ l),
    find-last_key j v l,
    Option-cases (find (last_key j l) ((j, v) ∷ l)),
  )

  -- A cache that was resized to nothing hands out at once what is added.
  unfoldable pub add : Items K V → K → V → Items K V × Option (K × V)
  add s k v =
      let rest = without k s.items in
      if s.size == 0
      then (record s { items = rest }, some (k, v))
      else (let (kept, out) = make_room s.size rest in (record s { items = (k, v) ∷ kept }, out))

  unfoldable pub get : Items K V → K → Items K V × Option V
  get s k = elim (find k s.items) [
    | none ↦ (s, none)
    | some v ↦ (record s { items = (k, v) ∷ without k s.items }, some v)
  ]

  unfoldable pub remove : Items K V → K → Items K V × Option (K × V)
  remove s k = (record s { items = without k s.items }, Option.map (λ v. (k, v)) (find k s.items))

  unfoldable pub new : ℕ → Option (Items K V)
  new zero = none
  new (suc n) = some (record { size = suc n; items = [] })

  new-cases :
      (n : ℕ)
      → (new n ≡ none) ⊎ ((m : ℕ) × (n ≡ suc m) × (new n ≡ some (record { size = n; items = [] })))
  unfolding new
  new-cases zero = inl refl
  new-cases (suc n) = inr (n, refl, refl)

  -- The least recent entries leave first.
  unfoldable pub resize : Items K V → ℕ → Items K V × List (K × V)
  resize s n = (record { size = n; items = take n s.items }, reverse (drop n s.items))

  abbrev pub lru_list : Lru K V (Items K V)
  lru_list = record {
    new = new;
    get = get;
    add = add;
    remove = remove;
    values = λ s. reverse (map (λ e. e.1) s.items);
    keys = λ s. reverse (map (λ e. e.0) s.items);
    resize = resize;
    purge = λ s. (record s { items = [] }, s.items);
    peek = λ s k. find k s.items;
    cap = λ s. s.size;
  }

  new_pos : (n : ℕ) → 0 < n → (s : Items K V) × (new n ≡ some s)
  unfolding new
  new_pos zero h = absurd (omega arith)
  new_pos (suc n) h = (record { size = suc n; items = [] }, refl)

  add_evicted :
      (s : Items K V) (k q : K) (v u : V)
      → 0 < s.size
      → (add s k v).1 ≡ some (q, u)
      → (q ≢ k) × (find q s.items ≡ some u) × (find q (add s k v).0.items ≡ none)
  unfolding add find
  add_evicted s k q v u h e = elim (dec q k) [
    | yes p ↦ absurd (
        ground
          (arith, make_room_evicted s.size q u (without k s.items), find-without_self k s.items))
    | no p ↦
        ground
          (arith, make_room_evicted s.size q u (without k s.items), find-without_ne k q s.items p)
  ]

  pub lru_list-LruLaws : LruLaws lru_list
  unfolding add get remove new resize find
  lru_list-LruLaws = record {
    new_zero = refl;
    new_pos = new_pos;
    new-cap = λ n s h. ground (arith, new-cases n);
    new-peek = λ n s q h. ground (arith, new-cases n);
    get-peek = λ s k. ground arith;
    peek-get = λ s k q. ground (arith, find-without_ne k q s.items);
    cap-get = λ s k. ground arith;
    peek-add_self = λ s k v h. ground arith;
    peek-add_ne = λ s k q v h e.
        ground (arith, find-without_ne k q s.items h, make_room_keeps s.size q (without k s.items));
    add_evicted = add_evicted;
    cap-add = λ s k v. ground arith;
    peek-remove_self = λ s k. find-without_self k s.items;
    peek-remove_ne = λ s k q h. find-without_ne k q s.items h;
    remove_evicted = λ s k. refl;
    cap-remove = λ s k. refl;
    cap-resize = λ s n. refl;
    peek-purge = λ s q. refl;
    cap-purge = λ s. refl;
  }
