-- ===== src/Policy.antt =====
-- web/src/lib/data/policy.ts: the synthetic policy bundle, and the part of
-- web/src/lib/kernel/kernel-wasm.ts that gives its type. `Record` is an insertion-ordered map.
pub mod Thresholds
pub mod Weights
use Prim.Native.String.{len}
use attesta_ai_powered_soc.Prelude.{
  ℕ, ◌+◌, ◌*◌, ◌%◌, String, Option, none, some, List, [], ◌∷◌, if◌then◌else◌,
}
use attesta_ai_powered_soc.Prelude.Assoc.{Assoc, get, set, string_eq}
use attesta_ai_powered_soc.Types
use attesta_ai_powered_soc.Types.{
  Severity, info, low, medium, high, critical, Tactic, initial_access, execution, persistence,
  credential_access, lateral_movement, collection, command_and_control, exfiltration, RawClaim,
}
use attesta_ai_powered_soc.Seed.Timeline.{predicates_by_tactic}

pub record PredicateWeight : Type 0 where
  pub tactic : Tactic
  pub weight : ℕ
  pub techniques : List String

pub record ChainMultiplier : Type 0 where
  pub from_tactic : Tactic
  pub to_tactic : Tactic
  pub bonus : ℕ

pub record PolicyBundle : Type 0 where
  pub policy_version : String
  pub predicate_weights : Assoc String PredicateWeight
  pub chain_multipliers : List ChainMultiplier
  pub severity_thresholds : List (ℕ × Severity)

pub record KernelRequest : Type 0 where
  pub kernel_version : String
  pub policy : PolicyBundle
  pub claims : List RawClaim

abbrev technique_by_predicate : Assoc String (List String)
technique_by_predicate =
    ("AUTH_FAILED_BURST", "T1110" ∷ [])
    ∷ ("AUTH_FROM_NEW_ASN", "T1078" ∷ [])
    ∷ ("INTERPRETER_SPAWNED_BY", "T1059" ∷ [])
    ∷ ("ENCODED_COMMAND", "T1027" ∷ "T1059.001" ∷ [])
    ∷ ("PERSISTENCE_REGISTRY_RUN_KEY", "T1547.001" ∷ [])
    ∷ ("PRIVILEGE_ESCALATION_ATTEMPT", "T1068" ∷ [])
    ∷ ("DEFENSE_EVASION_ATTEMPT", "T1562" ∷ [])
    ∷ ("AUTH_SUCCEEDED_AFTER_FAILURES", "T1110" ∷ [])
    ∷ ("TOKEN_REPLAYED", "T1550" ∷ [])
    ∷ ("RDP_INTERNAL_FIRST_TIME", "T1021.001" ∷ [])
    ∷ ("LATERAL_MOVEMENT_DETECTED", "T1021" ∷ [])
    ∷ ("DATA_STAGING_DETECTED", "T1074" ∷ [])
    ∷ ("INTERPRETER_NETWORK_EGRESS", "T1071" ∷ [])
    ∷ ("CONNECTED_TO_INDICATOR", "T1071" ∷ [])
    ∷ ("DATA_EXFILTRATED", "T1041" ∷ [])
    ∷ ("IMPACT_DETECTED", "T1485" ∷ [])
    ∷ []

abbrev or_empty : Option (List String) → List String
or_empty none = []
or_empty (some techniques) = techniques

-- The predicates are ASCII, so that `predicate.length` is their length in bytes.
abbrev weight_of : Tactic → String → PredicateWeight
weight_of tactic predicate = record {
  tactic = tactic;
  weight = 1200 + len predicate % 5 * 300;
  techniques = or_empty (get technique_by_predicate predicate);
}

pub add_predicates :
    Tactic → List String → Assoc String PredicateWeight → Assoc String PredicateWeight
add_predicates tactic [] weights = weights
add_predicates tactic (predicate ∷ rest) weights =
    add_predicates tactic rest (set weights predicate (weight_of tactic predicate))

pub add_tactics : List Tactic → Assoc String PredicateWeight → Assoc String PredicateWeight
add_tactics [] weights = weights
add_tactics (tactic ∷ rest) weights =
    add_tactics rest (add_predicates tactic (predicates_by_tactic tactic) weights)

abbrev pub chain_multipliers : List ChainMultiplier
chain_multipliers =
    record { from_tactic = initial_access; to_tactic = execution; bonus = 500 }
    ∷ record { from_tactic = execution; to_tactic = persistence; bonus = 400 }
    ∷ record { from_tactic = credential_access; to_tactic = lateral_movement; bonus = 600 }
    ∷ record { from_tactic = collection; to_tactic = exfiltration; bonus = 700 }
    ∷ record { from_tactic = command_and_control; to_tactic = exfiltration; bonus = 500 }
    ∷ []

abbrev pub severity_thresholds : List (ℕ × Severity)
severity_thresholds =
    (0, info) ∷ (1500, low) ∷ (3500, medium) ∷ (6000, high) ∷ (8500, critical) ∷ []

unfoldable pub build_synthetic_policy : PolicyBundle
unfolding add_tactics add_predicates get set
build_synthetic_policy = record {
  policy_version = "policy-2026.09.0";
  predicate_weights = add_tactics Types.tactics [];
  chain_multipliers = chain_multipliers;
  severity_thresholds = severity_thresholds;
}
