-- ===== src/Config/Valid.antt =====
-- config.go, Validate: the configurations that it accepts.
use text.Mathlib.Text.{◌==◌ as str_eq}
use text.Mathlib.TextEquality.{eq_iff}
use atlassian_sampling_proce.Base.{
  ℕ, ◌+◌, ◌*◌, ◌<◌, ◌≤◌, ◌≡◌, ◌≢◌, refl, ◌↔◌, inl, inr, Bool, true, false, ◌||◌, Option, none, some,
  String, List, [], ◌∷◌, ◌++◌, All, arith, Bool-cases, Option-cases, if◌then◌else◌,
}
use atlassian_sampling_proce.Base.Int.{ℤ, pos, negsuc, pos_part, ltb_ℤ, leb_ℤ, quot, ◌≤ℤ◌}
use atlassian_sampling_proce.Policy.{DecisionMapping}
use atlassian_sampling_proce.Config.{
  RecordDecisionFrom, PolicyConfig, Config, primary_cache_size_error, secondary_cache_size_error,
  invalid_buffer_size, invalid_shard_count, empty_res_attr_key, contains_name, unique_names_from,
  validate_unique_policy_names, validate_mappings, validate_record, validate_record_decision_from,
  validate,
}

-- No policy has the name of one before it.
abbrev pub NamesDiffer : {F : Type 0} → List (PolicyConfig F) → Type 0
NamesDiffer [] = Unit {0}
NamesDiffer (p ∷ policies) =
    All (λ q. q.shared.name ≢ p.shared.name) policies × NamesDiffer policies

module _ {Re : Type 0} (compile : String → Option Re) where
  -- The pattern is not empty, and can be compiled.
  abbrev pub Compiles : DecisionMapping → Type 0
  Compiles m = (m.pattern ≢ "") × ((re : Re) × (compile m.pattern ≡ some re))

  abbrev pub RecordsWell : Option RecordDecisionFrom → Type 0
  RecordsWell none = Unit {0}
  RecordsWell (some rdf) = (rdf.res_attr_key ≢ "") × All Compiles rdf.mappings

  pub record IsValid {F : Type 0} (cfg : Config F) : Type 0 where
    pub some_shards : 0 < pos_part cfg.shards
    pub some_secondary : 0 < pos_part cfg.secondary_cache_size
    pub secondary_below_half :
        pos_part cfg.secondary_cache_size * 2 ≤ pos_part cfg.primary_cache_size
    pub buffer_size_ok : pos 0 ≤ℤ cfg.preprocess_buffer_size
    pub names_differ : NamesDiffer cfg.policy_config
    pub records_well : All (λ p. RecordsWell p.record_decision_from) cfg.policy_config

append_nil_iff : {X : Type 0} (xs ys : List X) → (xs ++ ys ≡ []) ↔ ((xs ≡ []) × (ys ≡ []))
append_nil_iff [] ys = (λ h. (refl, h), λ h. h.1)
append_nil_iff (x ∷ xs) ys = (λ h. absurd (ground arith), λ h. absurd (ground arith))

module _ {F : Type 0} where
  -- None of the policies has a name that the map holds.
  abbrev pub NoneNamed : List String → List (PolicyConfig F) → Type 0
  NoneNamed names policies = All (λ p. contains_name names p.shared.name ≡ false) policies

  pub NoneNamed-cons :
      (name : String) (names : List String) (policies : List (PolicyConfig F))
      → NoneNamed (name ∷ names) policies
        ↔ (All (λ q. q.shared.name ≢ name) policies × NoneNamed names policies)
  unfolding contains_name
  NoneNamed-cons name names [] = (λ h. (tt, tt), λ h. tt)
  NoneNamed-cons name names (p ∷ policies) =
      let ih = NoneNamed-cons name names policies in
      (
        λ h.
            let (a, b) = ih.0 h.1 in
            ((ground (arith, eq_iff name p.shared.name), a), (ground (arith, h.0), b)),
        λ h. (ground (arith, eq_iff name p.shared.name), ih.1 (h.0.1, h.1.1)),
      )

  unique_names_iff :
      (names : List String) (policies : List (PolicyConfig F))
      → (unique_names_from names policies ≡ []) ↔ (NoneNamed names policies × NamesDiffer policies)
  unfolding unique_names_from
  unique_names_iff names [] = (λ h. (tt, tt), λ h. refl)
  unique_names_iff names (p ∷ policies) =
      let ih = unique_names_iff (p.shared.name ∷ names) policies in
      let c = NoneNamed-cons p.shared.name names policies in
      elim (Bool-cases (contains_name names p.shared.name)) [
        | inl e ↦ (λ h. absurd (ground arith), λ h. absurd (cc (h.0.0)))
        | inr e ↦ (
          λ h. let (a, b) = ih.0 (ground (arith, h)) in let (d, n) = c.0 a in ((e, n), (d, b)),
          λ h. rw (e, unique_names_from) (ih.1 (c.1 (h.1.0, h.0.1), h.1.1)),
        )
      ]

pub none_named : {F : Type 0} (policies : List (PolicyConfig F)) → NoneNamed [] policies
unfolding contains_name
none_named [] = tt
none_named (p ∷ policies) = (refl, none_named policies)

if_nil_iff : {X : Type 0} (b : Bool) (x : X) → ((if b then x ∷ [] else []) ≡ []) ↔ (b ≡ false)
if_nil_iff true x = (λ h. absurd (ground arith), λ h. absurd (cc))
if_nil_iff false x = (λ h. refl, λ h. refl)

module _ {Re : Type 0} (compile : String → Option Re) where
  validate_mappings_iff :
      (name : String) (i : ℕ) (mappings : List DecisionMapping)
      → (validate_mappings compile name i mappings ≡ []) ↔ All (Compiles compile) mappings
  unfolding validate_mappings
  validate_mappings_iff name i [] = (λ h. tt, λ h. refl)
  validate_mappings_iff name i (m ∷ mappings) =
      let ih = validate_mappings_iff name (i + 1) mappings in
      elim (Bool-cases (str_eq m.pattern "")) [
        | inl e ↦ (λ h. absurd (ground (arith, h)), λ h. absurd (h.0.0 ((eq_iff m.pattern "").0 e)))
        | inr e ↦ elim (Option-cases (compile m.pattern)) [
          | inl c ↦ (λ h. absurd (ground (arith, h)), λ h. absurd (cc (h.0.1.1)))
          | inr (re, c) ↦ (
            λ h. ((ground (arith, eq_iff m.pattern ""), (re, c)), ih.0 (ground (arith, h))),
            λ h. rw (e, c, validate_mappings) (ih.1 h.1),
          )
        ]
      ]

  validate_record_iff :
      (name : String) (r : Option RecordDecisionFrom)
      → (validate_record compile name r ≡ []) ↔ RecordsWell compile r
  unfolding validate_record
  validate_record_iff name none = (λ h. tt, λ h. refl)
  validate_record_iff name (some rdf) =
      let split = append_nil_iff _ (validate_mappings compile name 0 rdf.mappings) in
      let key = if_nil_iff (str_eq rdf.res_attr_key "") (empty_res_attr_key name) in
      let ms = validate_mappings_iff name 0 rdf.mappings in
      (
        λ h.
            let (a, b) = split.0 h in
            let e = key.0 a in (ground (arith, e, eq_iff rdf.res_attr_key ""), ms.0 b),
        λ h. split.1 (key.1 (ground (arith, h.0, eq_iff rdf.res_attr_key "")), ms.1 h.1),
      )

  validate_records_iff :
      {F : Type 0} (policies : List (PolicyConfig F))
      → (validate_record_decision_from compile policies ≡ [])
        ↔ All (λ p. RecordsWell compile p.record_decision_from) policies
  unfolding validate_record_decision_from
  validate_records_iff [] = (λ h. tt, λ h. refl)
  validate_records_iff (p ∷ policies) =
      let split = append_nil_iff (validate_record compile p.shared.name p.record_decision_from) _ in
      let one = validate_record_iff p.shared.name p.record_decision_from in
      let rest = validate_records_iff policies in
      (λ h. let (a, b) = split.0 h in (one.0 a, rest.0 b), λ h. split.1 (one.1 h.0, rest.1 h.1))

-- The sizes of the two caches.
size_tests :
    (p s : ℤ)
    → ((leb_ℤ p (pos 0) ≡ false) × ((leb_ℤ s (pos 0) || ltb_ℤ (quot p 2) s) ≡ false))
      ↔ ((0 < pos_part s) × (pos_part s * 2 ≤ pos_part p))
unfolding quot
size_tests (pos p) (pos s) = (
  λ h. (ground (arith, h.0, h.1), ground (arith, h.0, h.1)),
  λ h. (ground (arith, h.0, h.1), ground (arith, h.0, h.1)),
)
size_tests (pos p) (negsuc s) =
    (λ h. absurd (ground (arith, h.1)), λ h. absurd (omega (arith, h.0)))
size_tests (negsuc p) (pos s) =
    (λ h. absurd (ground (arith, h.0)), λ h. absurd (omega (arith, h.0, h.1)))
size_tests (negsuc p) (negsuc s) =
    (λ h. absurd (ground (arith, h.1)), λ h. absurd (omega (arith, h.0)))

shard_test : (n : ℤ) → (leb_ℤ n (pos 0) ≡ false) ↔ (0 < pos_part n)
shard_test (pos n) = (λ h. ground arith, λ h. ground arith)
shard_test (negsuc n) = (λ h. absurd (ground arith), λ h. absurd (omega arith))

buffer_test : (n : ℤ) → (ltb_ℤ n (pos 0) ≡ false) ↔ (pos 0 ≤ℤ n)
buffer_test (pos n) = (λ h. ground arith, λ h. ground arith)
buffer_test (negsuc n) = (λ h. absurd (ground arith), λ h. absurd (omega arith))

-- Validate reports no error exactly if there is a shard, the secondary cache has at least one place
-- and at most half of those of the primary cache, the buffer size is not negative, no policy has
-- the name of another, and each record_decision_from has a key, and mappings each with a pattern
-- that is not empty and that can be compiled.
pub validate_iff :
    {F Re : Type 0} (compile : String → Option Re) (cfg : Config F)
    → (validate compile cfg ≡ []) ↔ IsValid compile cfg
unfolding validate validate_unique_policy_names
validate_iff compile cfg =
    let sizes = size_tests cfg.primary_cache_size cfg.secondary_cache_size in
    let primary = if_nil_iff (leb_ℤ cfg.primary_cache_size (pos 0)) primary_cache_size_error in
    let secondary =
      if_nil_iff
        (leb_ℤ cfg.secondary_cache_size (pos 0)
          || ltb_ℤ (quot cfg.primary_cache_size 2) cfg.secondary_cache_size)
        secondary_cache_size_error in
    let buffer = if_nil_iff (ltb_ℤ cfg.preprocess_buffer_size (pos 0)) invalid_buffer_size in
    let shards = if_nil_iff (leb_ℤ cfg.shards (pos 0)) invalid_shard_count in
    let names = unique_names_iff [] cfg.policy_config in
    let records = validate_records_iff compile cfg.policy_config in
    (
      λ h.
          let (p, h₁) = (append_nil_iff _ _).0 h in
          let (s, h₂) = (append_nil_iff _ _).0 h₁ in
          let (b, h₃) = (append_nil_iff _ _).0 h₂ in
          let (n, h₄) = (append_nil_iff _ _).0 h₃ in
          let (u, r) = (append_nil_iff _ _).0 h₄ in
          let (s₁, s₂) = sizes.0 (primary.0 p, secondary.0 s) in
          record {
            some_shards = (shard_test cfg.shards).0 (shards.0 n);
            some_secondary = s₁;
            secondary_below_half = s₂;
            buffer_size_ok = (buffer_test cfg.preprocess_buffer_size).0 (buffer.0 b);
            names_differ = (names.0 u).1;
            records_well = records.0 r;
          },
      λ v.
          let (p, s) = sizes.1 (v.some_secondary, v.secondary_below_half) in
          (append_nil_iff _ _).1 (
            primary.1 p,
            (append_nil_iff _ _).1 (
              secondary.1 s,
              (append_nil_iff _ _).1 (
                buffer.1 ((buffer_test cfg.preprocess_buffer_size).1 v.buffer_size_ok),
                (append_nil_iff _ _).1 (
                  shards.1 ((shard_test cfg.shards).1 v.some_shards),
                  (append_nil_iff _ _).1 (
                    names.1 (none_named cfg.policy_config, v.names_differ),
                    records.1 v.records_well,
                  ),
                ),
              ),
            ),
          ),
    )
