-- ===== src/Decider/First.antt =====
-- MakeDecision in decider.go: which policy decides.
use text.Mathlib.TextEquality.{eq_iff}
use atlassian_sampling_proce.Base.{
  ◌≡◌, refl, ap, ◌⊎◌, inl, inr, Bool, true, false, none, some, String, List, [], ◌∷◌, ◌++◌, All,
  arith, Bool-cases,
}
use atlassian_sampling_proce.Library.Pdata.{TraceId, Traces}
use atlassian_sampling_proce.Tracedata.Merge.{Metadata}
use atlassian_sampling_proce.Evaluators.Decision.{pending, low_priority}
use atlassian_sampling_proce.Policy.{Policy}
use atlassian_sampling_proce.Decider.{
  Externals, is_decisive, adjust, policy_decision, make_decision,
}

module _ {A F R Re : Type 0} (ext : Externals A F R Re) (id : TraceId) (current_trace : Traces A)
    (merged : Metadata) where
  abbrev pub decides : Policy A F R Re → Bool
  decides p = is_decisive (policy_decision ext id current_trace merged p)

  -- MakeDecision returns pending with no policy if no policy decides; otherwise the policies can be
  -- split so that those before a policy do not decide, that policy does, and the result is its
  -- decision and itself.
  pub make_decision_first :
      (policies : List (Policy A F R Re))
      → (All (λ p. decides p ≡ false) policies
          × ((make_decision ext id current_trace merged policies).0 ≡ pending)
          × ((make_decision ext id current_trace merged policies).1 ≡ none))
        ⊎ ((before : List (Policy A F R Re)) × (p : Policy A F R Re) × (after : List
              (Policy A F R Re))
            × (policies ≡ before ++ p ∷ after)
            × All (λ q. decides q ≡ false) before
            × (decides p ≡ true)
            × ((make_decision ext id current_trace merged policies).0
                ≡ policy_decision ext id current_trace merged p)
            × ((make_decision ext id current_trace merged policies).1 ≡ some p))
  unfolding make_decision
  make_decision_first [] = inl (tt, refl, refl)
  make_decision_first (p ∷ policies) = elim (Bool-cases (decides p)) [
    | inl yes_p ↦ inr ([], p, policies, refl, tt, yes_p, ground arith, ground arith)
    | inr no_p ↦ elim (make_decision_first policies) [
      | inl (none_decides, d, o) ↦ inl ((no_p, none_decides), ground arith, ground arith)
      | inr (before, q, after, parts, skipped, yes_q, d, o) ↦ inr (
        p ∷ before,
        q,
        after,
        ap (◌∷◌ p) parts,
        (no_p, skipped),
        yes_q,
        ground arith,
        ground arith,
      )
    ]
  ]

  policy_decision-low_priority :
      (p : Policy A F R Re) (last : String)
      → merged.last_low_priority_decision_name ≡ some last
      → policy_decision ext id current_trace merged p ≡ low_priority
      → p.name ≡ last
  unfolding policy_decision adjust
  policy_decision-low_priority p last h d = ground (arith, eq_iff last p.name)

  -- If the metadata names the policy that gave low priority last, and MakeDecision returns low
  -- priority with a policy, then that policy has this name.
  pub low_priority_keeps_name :
      (policies : List (Policy A F R Re)) (p : Policy A F R Re) (last : String)
      → merged.last_low_priority_decision_name ≡ some last
      → (make_decision ext id current_trace merged policies).0 ≡ low_priority
      → (make_decision ext id current_trace merged policies).1 ≡ some p
      → p.name ≡ last
  low_priority_keeps_name policies p last h d e = elim (make_decision_first policies) [
    | inl (_, _, o) ↦ cc
    | inr (_, q, _, _, _, _, d', o) ↦
        ground (arith, policy_decision-low_priority p last h, policy_decision-low_priority q last h)
  ]
