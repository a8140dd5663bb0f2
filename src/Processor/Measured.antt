-- ===== src/Processor/Measured.antt =====
-- What recording the metrics of the policy decisions leaves as it is.
use atlassian_sampling_proce.Base.{ℕ, ◌≡◌, refl, List, [], ◌∷◌}
use atlassian_sampling_proce.Library.Lru.{Lru}
use atlassian_sampling_proce.Library.Pdata.{TraceId}
use atlassian_sampling_proce.Decider.{PolicyDecision}
use atlassian_sampling_proce.Processor.State.{policy_decided, World, add_metric}
use atlassian_sampling_proce.Processor.Process.{add_policy_decisions}
use atlassian_sampling_proce.Processor.Exclusive.{IsExclusive}

module _ {A D : Type 0} where
  -- What recording metrics leaves as it is.
  pub record Unmeasured (w w' : World A D) : Type 0 where
    pub same_sampled : w'.sampled_decision_cache ≡ w.sampled_decision_cache
    pub same_not_sampled : w'.non_sampled_decision_cache ≡ w.non_sampled_decision_cache
    pub same_heap : w'.heap ≡ w.heap
    pub same_exported : w'.exported ≡ w.exported
    pub same_now : w'.now ≡ w.now
    pub same_next_ref : w'.next_ref ≡ w.next_ref
    pub same_random_span_id : w'.random_span_id ≡ w.random_span_id

  pub add_policy_decisions-Unmeasured :
      (ms : List PolicyDecision) (w : World A D) → Unmeasured w (add_policy_decisions ms w)
  unfolding add_policy_decisions add_metric
  add_policy_decisions-Unmeasured [] w = record {
    same_sampled = refl;
    same_not_sampled = refl;
    same_heap = refl;
    same_exported = refl;
    same_now = refl;
    same_next_ref = refl;
    same_random_span_id = refl;
  }
  add_policy_decisions-Unmeasured (m ∷ ms) w =
      let u = add_policy_decisions-Unmeasured ms (add_metric (policy_decided m) w) in
      record {
        same_sampled = u.same_sampled;
        same_not_sampled = u.same_not_sampled;
        same_heap = u.same_heap;
        same_exported = u.same_exported;
        same_now = u.same_now;
        same_next_ref = u.same_next_ref;
        same_random_span_id = u.same_random_span_id;
      }

  pub IsExclusive-Unmeasured :
      (lru : Lru TraceId ℕ D) {w w' : World A D}
      → Unmeasured w w'
      → IsExclusive lru w
      → IsExclusive lru w'
  IsExclusive-Unmeasured lru u x = record {
    room = rw u.same_sampled x.room;
    other_room = rw u.same_not_sampled x.other_room;
    apart = λ q. rw (u.same_sampled, u.same_not_sampled) (x.apart q);
  }
