-- ===== src/Types.antt =====
-- web/src/lib/data/types.ts: the console's vocabulary. Times are natural numbers of milliseconds
-- (or nanoseconds, where the field says so); an optional or nullable field is an `Option`.
pub mod Equality
use attesta_ai_powered_soc.Prelude.{ℕ, String, Bool, Option, List, [], ◌∷◌}
use attesta_ai_powered_soc.Prelude.Int.{ℤ}

pub data Severity : Type 0 where
  info low medium high critical : Severity

abbrev pub severities : List Severity
severities = info ∷ low ∷ medium ∷ high ∷ critical ∷ []

pub data Disposition : Type 0 where
  benign suspicious malicious incomplete : Disposition

abbrev pub dispositions : List Disposition
dispositions = benign ∷ suspicious ∷ malicious ∷ incomplete ∷ []

pub data Tactic : Type 0 where
  initial_access execution persistence privilege_escalation defense_evasion : Tactic
  credential_access discovery lateral_movement collection : Tactic
  command_and_control exfiltration impact : Tactic

-- in kill-chain order
abbrev pub tactics : List Tactic
tactics =
    initial_access ∷ execution ∷ persistence ∷ privilege_escalation ∷ defense_evasion
    ∷ credential_access ∷ discovery ∷ lateral_movement ∷ collection ∷ command_and_control
    ∷ exfiltration ∷ impact ∷ []

abbrev pub tactic_text : Tactic → String
tactic_text initial_access = "initial-access"
tactic_text execution = "execution"
tactic_text persistence = "persistence"
tactic_text privilege_escalation = "privilege-escalation"
tactic_text defense_evasion = "defense-evasion"
tactic_text credential_access = "credential-access"
tactic_text discovery = "discovery"
tactic_text lateral_movement = "lateral-movement"
tactic_text collection = "collection"
tactic_text command_and_control = "command-and-control"
tactic_text exfiltration = "exfiltration"
tactic_text impact = "impact"

pub data CaseStatus : Type 0 where
  open_status investigating escalated dismissed closed : CaseStatus

pub data EntityType : Type 0 where
  host user process ip file session : EntityType

pub record Case : Type 0 where
  pub id : String
  pub tenant_id : String
  pub title : String
  pub primary_entity : String
  pub entity_type : EntityType
  pub severity : Severity
  pub disposition : Disposition
  pub risk_score : ℕ
  pub tactics : List Tactic
  pub claim_count : ℕ
  pub created_at_ms : ℕ
  pub updated_at_ms : ℕ
  pub status : CaseStatus
  pub assignee : Option String
  pub summary : String
  pub dismiss_reason : Option String

pub record DetectorFireEvent : Type 0 where
  pub id : String
  pub at_ms : ℕ
  pub rule_id : String
  pub entity : String

pub data StatUnit : Type 0 where
  count duration_s percent : StatUnit

pub data GoodDirection : Type 0 where
  up down : GoodDirection

pub record StatTile : Type 0 where
  pub id : String
  pub label : String
  pub value : ℕ
  pub unit : StatUnit
  pub delta : ℤ
  pub baseline_label : String
  pub trend : List ℕ
  pub good_direction : GoodDirection

pub record TimelineEvent : Type 0 where
  pub id : String
  pub at_ms : ℕ
  pub tactic : Tactic
  pub predicate : String
  pub entity : String
  pub claim_id : String

pub data ResponseActionKind : Type 0 where
  isolate_host disable_account revoke_session block_indicator quarantine_file : ResponseActionKind

pub record BlastRadius : Type 0 where
  pub affected_principals : List String
  pub affected_hosts : List String
  pub dependent_services : List String
  pub is_tier0 : Bool

pub data ActionStatus : Type 0 where
  pending approved modified rejected : ActionStatus

pub record ResponseAction : Type 0 where
  pub id : String
  pub case_id : String
  pub kind : ResponseActionKind
  pub target : String
  pub proposed_at_ms : ℕ
  pub rationale : String
  pub status : ActionStatus

pub data Polarity : Type 0 where
  supports refutes : Polarity

-- `LedgerClaim` without its `claim_id`, which is also the claim of a `KernelRequest`
pub record RawClaim : Type 0 where
  pub predicate : String
  pub subject : String
  pub object : Option String
  pub interval_start_ns : ℕ
  pub interval_end_ns : ℕ
  pub evidence : List String
  pub extractor_kind : String
  pub extractor_id : String
  pub extractor_version : String
  pub observed_value : Option ℕ
  pub polarity : Polarity
  pub hypothesis_ref : Option String

pub record LedgerClaim : Type 0 where
  pub raw : RawClaim
  pub open raw use *
  pub claim_id : String

pub record InferenceMeta : Type 0 where
  pub provider : String
  pub model_id : String
  pub weights_digest : String
  pub seed : Option ℕ

pub record Budget : Type 0 where
  pub tool_calls : ℕ
  pub turns : ℕ

pub record Manifest : Type 0 where
  pub investigation_id : String
  pub tenant_id : String
  pub case_id : String
  pub epoch_root : String
  pub epoch_id : ℕ
  pub index_snapshot_hash : String
  pub claim_set_hash : String
  pub claim_ids : List String
  pub inference : InferenceMeta
  pub policy_version : String
  pub kernel_version : String
  pub attack_model_version : String
  pub verdict_severity : Severity
  pub verdict_confidence : ℕ
  pub verdict_disposition : Disposition
  pub verdict_hash : String
  pub budget_consumed : Budget
  pub started_at_ns : ℕ
  pub completed_at_ns : ℕ
  pub prev_manifest_hash : String

pub record SealedManifest : Type 0 where
  pub manifest : Manifest
  pub manifest_hash : String
  pub signature : String
  pub public_key : String
  pub chain_broken : Bool

pub record PolicyDelta : Type 0 where
  pub predicate : String
  pub old_weight : ℕ
  pub new_weight : ℕ

pub record AttributedClaim : Type 0 where
  pub claim_id : String
  pub predicate : String
  pub attributed_weight : ℤ

pub record VerdictDrift : Type 0 where
  pub case_id : String
  pub tenant_id : String
  pub old_severity : Severity
  pub new_severity : Severity
  pub old_disposition : Disposition
  pub new_disposition : Disposition
  pub old_verdict_hash : String
  pub new_verdict_hash : String
  pub old_contributing_claims : List AttributedClaim
  pub new_contributing_claims : List AttributedClaim
  pub responsible_claim_ids : List String
  pub policy_deltas : List PolicyDelta
  pub indicator_corpus_version : String
  pub indicator_corpus_hash : String
  pub flipped_at_ms : ℕ
  pub closed_at_ms : ℕ

pub record GraphNode : Type 0 where
  pub id : String
  pub type : EntityType
  pub label : String
  pub first_seen_ms : ℕ
  pub prior_case_count : ℕ

pub record GraphEdge : Type 0 where
  pub id : String
  pub from_node_id : String
  pub to_node_id : String
  pub predicate : String
  pub polarity : Polarity
  pub interval_start_ms : ℕ
  pub interval_end_ms : ℕ
  pub extractor_kind : String
  pub extractor_id : String
  pub extractor_version : String
  pub confidence : ℕ
  pub evidence_ids : List String
  pub hypothesis_group : Option String
