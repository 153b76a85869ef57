-- ===== src/Policy/Weights.antt =====
-- Every predicate that a detector of the console fires has a weight in web/src/lib/data/policy.ts.
use attesta_ai_powered_soc.Prelude.{◌≤◌, ◌≡◌, refl, inl, inr, String, some, In, arith}
use attesta_ai_powered_soc.Prelude.Assoc.{get, string_eq}
use attesta_ai_powered_soc.Types.{
  Tactic, initial_access, execution, persistence, privilege_escalation, defense_evasion,
  credential_access, discovery, lateral_movement, collection, command_and_control, exfiltration,
  impact,
}
use attesta_ai_powered_soc.Seed.Timeline.{predicates_by_tactic}
use attesta_ai_powered_soc.Policy.{PredicateWeight, build_synthetic_policy}

-- Each predicate of each tactic is priced, under that tactic, from 1200 to 2400.
pub predicate_is_priced :
    (tactic : Tactic) (predicate : String)
    → In predicate (predicates_by_tactic tactic)
    → (w : PredicateWeight) × (get build_synthetic_policy.predicate_weights predicate ≡ some w)
      × (w.tactic ≡ tactic)
      × (1200 ≤ w.weight)
      × (w.weight ≤ 2400)
unfolding build_synthetic_policy
predicate_is_priced initial_access p (inl e) = rw (← e) (_, refl, refl, omega arith, omega arith)
predicate_is_priced initial_access p (inr (inl e)) =
    rw (← e) (_, refl, refl, omega arith, omega arith)
predicate_is_priced initial_access p (inr (inr m)) = elim m [ ]
predicate_is_priced execution p (inl e) = rw (← e) (_, refl, refl, omega arith, omega arith)
predicate_is_priced execution p (inr (inl e)) = rw (← e) (_, refl, refl, omega arith, omega arith)
predicate_is_priced execution p (inr (inr m)) = elim m [ ]
predicate_is_priced persistence p (inl e) = rw (← e) (_, refl, refl, omega arith, omega arith)
predicate_is_priced persistence p (inr m) = elim m [ ]
predicate_is_priced privilege_escalation p (inl e) =
    rw (← e) (_, refl, refl, omega arith, omega arith)
predicate_is_priced privilege_escalation p (inr m) = elim m [ ]
predicate_is_priced defense_evasion p (inl e) = rw (← e) (_, refl, refl, omega arith, omega arith)
predicate_is_priced defense_evasion p (inr m) = elim m [ ]
predicate_is_priced credential_access p (inl e) = rw (← e) (_, refl, refl, omega arith, omega arith)
predicate_is_priced credential_access p (inr (inl e)) =
    rw (← e) (_, refl, refl, omega arith, omega arith)
predicate_is_priced credential_access p (inr (inr m)) = elim m [ ]
predicate_is_priced discovery p (inl e) = rw (← e) (_, refl, refl, omega arith, omega arith)
predicate_is_priced discovery p (inr m) = elim m [ ]
predicate_is_priced lateral_movement p (inl e) = rw (← e) (_, refl, refl, omega arith, omega arith)
predicate_is_priced lateral_movement p (inr m) = elim m [ ]
predicate_is_priced collection p (inl e) = rw (← e) (_, refl, refl, omega arith, omega arith)
predicate_is_priced collection p (inr m) = elim m [ ]
predicate_is_priced command_and_control p (inl e) =
    rw (← e) (_, refl, refl, omega arith, omega arith)
predicate_is_priced command_and_control p (inr (inl e)) =
    rw (← e) (_, refl, refl, omega arith, omega arith)
predicate_is_priced command_and_control p (inr (inr m)) = elim m [ ]
predicate_is_priced exfiltration p (inl e) = rw (← e) (_, refl, refl, omega arith, omega arith)
predicate_is_priced exfiltration p (inr m) = elim m [ ]
predicate_is_priced impact p (inl e) = rw (← e) (_, refl, refl, omega arith, omega arith)
predicate_is_priced impact p (inr m) = elim m [ ]
