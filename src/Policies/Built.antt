-- ===== src/Policies/Built.antt =====
-- policy.go, newPolicies, and config.go, Validate: the policies of a configuration.
use atlassian_sampling_proce.Base.{
  ◌≡◌, refl, ◌⊎◌, inl, inr, Option, none, some, String, List, [], ◌∷◌, All, Option-cases,
}
use atlassian_sampling_proce.Library.Float64.{Float64}
use atlassian_sampling_proce.Evaluators.Evaluator.{Evaluator}
use atlassian_sampling_proce.Policy.{
  Policy, DecisionRule, DecisionMapping, compile_rules, new_decision_grouper,
}
use atlassian_sampling_proce.Config.{RecordDecisionFrom, PolicyConfig, Config, validate}
use atlassian_sampling_proce.Config.Valid.{
  NamesDiffer, Compiles, RecordsWell, NoneNamed, NoneNamed-cons, none_named, validate_iff,
}
use atlassian_sampling_proce.Policies.Conditions.{Makers}
use atlassian_sampling_proce.Policies.{
  get_policy_evaluator, no_evaluator, Made, made, not_made, recording, new_policy,
  new_policies_from, new_policies,
}

module _ {Re : Type 0} (compile : String → Option Re) where
  -- Each rule has the compiled pattern and the value of its mapping.
  abbrev pub RulesOf : List DecisionMapping → List (DecisionRule Re) → Type 0
  RulesOf [] [] = Unit {0}
  RulesOf (m ∷ ms) (r ∷ rs) = (compile m.pattern ≡ some r.re) × (r.value ≡ m.value) × RulesOf ms rs
  RulesOf [] (r ∷ rs) = ⊥
  RulesOf (m ∷ ms) [] = ⊥

  -- The grouper is nil without mappings.
  abbrev pub GroupsBy : List DecisionMapping → Option (List (DecisionRule Re)) → Type 0
  GroupsBy [] grouper = grouper ≡ none
  GroupsBy (m ∷ ms) none = ⊥
  GroupsBy (m ∷ ms) (some rules) = RulesOf (m ∷ ms) rules

  abbrev pub RecordsAs :
      Option RecordDecisionFrom → String → Option (List (DecisionRule Re)) → Type 0
  RecordsAs none key grouper = (key ≡ "") × (grouper ≡ none)
  RecordsAs (some rdf) key grouper = (key ≡ rdf.res_attr_key) × GroupsBy rdf.mappings grouper

  compile_rules_lem :
      (ms : List DecisionMapping)
      → All (Compiles compile) ms
      → (rules : List (DecisionRule Re)) × (compile_rules compile ms ≡ some rules)
        × RulesOf ms rules
  unfolding compile_rules
  compile_rules_lem [] h = ([], refl, tt)
  compile_rules_lem (m ∷ ms) h =
      let (rules, e, r) = compile_rules_lem ms h.1 in
      let (re, c) = h.0.1 in
      (record { re = re; value = m.value } ∷ rules, rw (c, compile_rules, e) refl, (c, refl, r))

  new_grouper_lem :
      (ms : List DecisionMapping)
      → All (Compiles compile) ms
      → (g : Option (List (DecisionRule Re))) × (new_decision_grouper compile ms ≡ some g)
        × GroupsBy ms g
  unfolding new_decision_grouper
  new_grouper_lem [] h = (none, refl, refl)
  new_grouper_lem (m ∷ ms) h =
      let (rules, e, r) = compile_rules_lem (m ∷ ms) h in
      (some rules, rw (e, new_decision_grouper) refl, r)

module _ {A Re : Type 0} (makers : Makers A Re) where
  recording_lem :
      (r : Option RecordDecisionFrom)
      → RecordsWell makers.compile r
      → (key : String) × (grouper : Option (List (DecisionRule Re))) × (recording makers r
          ≡ some (key, grouper))
        × RecordsAs makers.compile r key grouper
  unfolding recording
  recording_lem none h = ("", none, refl, (refl, refl))
  recording_lem (some rdf) h =
      let (g, e, b) = new_grouper_lem makers.compile rdf.mappings h.1 in
      (rdf.res_attr_key, g, rw (e, recording) refl, (refl, b))

module _ {A F Re : Type 0} (R : Type 0) (makers : Makers A Re) (float : Float64 F) where
  abbrev pub evaluator_of : PolicyConfig F → Option (Evaluator A F R)
  evaluator_of = get_policy_evaluator makers float

  -- The policy has the name, the options and the evaluator of its configuration.
  abbrev pub IsMadeFrom : PolicyConfig F → Policy A F R Re → Type 0
  IsMadeFrom cfg p =
      (p.name ≡ cfg.shared.name)
      × (p.emit_single_span_for_not_sampled ≡ cfg.shared.emit_single_span_for_not_sampled)
      × (evaluator_of cfg ≡ some p.evaluator)
      × RecordsAs makers.compile cfg.record_decision_from p.record_decision_from p.decision_grouper

  abbrev pub AllMadeFrom : List (PolicyConfig F) → List (Policy A F R Re) → Type 0
  AllMadeFrom [] [] = Unit {0}
  AllMadeFrom (cfg ∷ cfgs) (p ∷ ps) = IsMadeFrom cfg p × AllMadeFrom cfgs ps
  AllMadeFrom [] (p ∷ ps) = ⊥
  AllMadeFrom (cfg ∷ cfgs) [] = ⊥

  -- No evaluator can be made for one of the policies.
  abbrev pub SomeUnmade : List (PolicyConfig F) → Type 0
  SomeUnmade [] = ⊥
  SomeUnmade (cfg ∷ cfgs) = (evaluator_of cfg ≡ none) ⊎ SomeUnmade cfgs

  new_policy_cases :
      (cfg : PolicyConfig F)
      → RecordsWell makers.compile cfg.record_decision_from
      → ((evaluator_of cfg ≡ none) × (new_policy makers {R = R} float cfg ≡ not_made no_evaluator))
        ⊎ ((p : Policy A F R Re) × (new_policy makers float cfg ≡ made p) × IsMadeFrom cfg p)
  unfolding new_policy
  new_policy_cases cfg h = elim (Option-cases (evaluator_of cfg)) [
    | inl e ↦ inl (e, rw (e, new_policy) refl)
    | inr (ev, e) ↦
        let (key, g, r, b) = recording_lem makers cfg.record_decision_from h in
        inr (
          record {
            name = cfg.shared.name;
            emit_single_span_for_not_sampled = cfg.shared.emit_single_span_for_not_sampled;
            evaluator = ev;
            record_decision_from = key;
            decision_grouper = g;
          },
          rw (e, r, new_policy) refl,
          (refl, refl, e, b),
        )
  ]

  abbrev Outcome : List (PolicyConfig F) → Made (List (Policy A F R Re)) → Type 0
  Outcome cfgs result =
      ((ps : List (Policy A F R Re)) × (result ≡ made ps) × AllMadeFrom cfgs ps)
      ⊎ ((result ≡ not_made no_evaluator) × SomeUnmade cfgs)

  new_policies_from_lem :
      (names : List String) (cfgs : List (PolicyConfig F))
      → NoneNamed names cfgs
      → NamesDiffer cfgs
      → All (λ cfg. RecordsWell makers.compile cfg.record_decision_from) cfgs
      → Outcome cfgs (new_policies_from makers float names cfgs)
  unfolding new_policies_from
  new_policies_from_lem names [] n d w = inl ([], refl, tt)
  new_policies_from_lem names (cfg ∷ cfgs) n d w = elim (new_policy_cases cfg w.0) [
    | inl (u, e) ↦ inr (rw (n.0, new_policies_from, e) refl, inl u)
    | inr (p, e, m) ↦
        elim (new_policies_from_lem (cfg.shared.name ∷ names) cfgs
          ((NoneNamed-cons cfg.shared.name names cfgs).1 (d.0, n.1)) d.1 w.1) [
            | inl (ps, r, ms) ↦ inl (p ∷ ps, rw (n.0, new_policies_from, e, r) refl, (m, ms))
            | inr (r, u) ↦ inr (rw (n.0, new_policies_from, e, r) refl, inr u)
          ]
  ]

  -- For a configuration that Validate accepts, newPolicies either returns a policy for each entry
  -- in the order of the configuration, with its name, its options, the evaluator that is made for
  -- it and the compiled rules of its mappings, or it fails for the reason that no evaluator can be
  -- made for one of the entries: never for a name or a pattern.
  pub validated_policies :
      (cfg : Config F)
      → validate makers.compile cfg ≡ []
      → ((ps : List (Policy A F R Re)) × (new_policies makers float cfg.policy_config ≡ made ps)
          × AllMadeFrom cfg.policy_config ps)
        ⊎ ((new_policies makers {R = R} float cfg.policy_config ≡ not_made no_evaluator)
            × SomeUnmade cfg.policy_config)
  unfolding new_policies
  validated_policies cfg h =
      let v = (validate_iff makers.compile cfg).0 h in
      new_policies_from_lem [] cfg.policy_config (none_named cfg.policy_config) v.names_differ
        v.records_well
