-- ===== src/Examples/Screens.antt =====
-- Examples of the theorems on the Watchfloor and on the verification panel.
use attesta_ai_powered_soc.Prelude.{
  All, ◌≤◌, ◌≡◌, refl, ◌≢◌, ◌↔◌, String, true, false, none, some, List, [], ◌∷◌, map, length,
  get_elem?, In,
}
use attesta_ai_powered_soc.Prelude.Assoc.{string_eq}
use attesta_ai_powered_soc.Types.{
  DetectorFireEvent, Case, critical, high, malicious, escalated, dismissed, LedgerClaim, supports,
  Manifest, SealedManifest,
}
use attesta_ai_powered_soc.Types.Equality.{severity_eq}
use attesta_ai_powered_soc.Policy.{build_synthetic_policy}
use attesta_ai_powered_soc.Merkle.{InclusionProof, leaf_hash}
use attesta_ai_powered_soc.Merkle.Hex.{bytes_to_hex}
use attesta_ai_powered_soc.Watchfloor.{
  Input, snapshot, opened, message, new_case, update, fire, initial_stream, run_inputs, all_cases,
  FilterState, empty_filter_state, apply_filters, Client, key_j, key_k, key_e, on_key_down,
  on_confirm, index_of,
}
use attesta_ai_powered_soc.Watchfloor.Feed.{run_inputs_lem}
use attesta_ai_powered_soc.Watchfloor.Rate.{fire_times, recent_ones}
use attesta_ai_powered_soc.Watchfloor.Filters.{IsShown, apply_filters_iff}
use attesta_ai_powered_soc.Watchfloor.Queue.{
  after_j, after_k, on_key_down_moves, shown_case, decisions_lem,
}
use attesta_ai_powered_soc.Kernel.{ok}
use attesta_ai_powered_soc.Verification.{
  Services, returned, run_verification, match, Step, done, initial_steps,
}
use attesta_ai_powered_soc.Verification.Outcomes.{IsVerified, run_verification-match_iff}
use attesta_ai_powered_soc.Auth.{analyst}
use attesta_ai_powered_soc.Shell.{
  KeyboardEvent, Chrome, initial_chrome, on_chrome_key, pressed, start, after,
}
use attesta_ai_powered_soc.Shell.Reach.{IsOpenTo, visited_lem}
use attesta_ai_powered_soc.Examples.{checksum, a_case}

abbrev next_case : Case
next_case = record a_case { id = "case-1"; severity = high; assignee = some "a.patel" }

abbrev a_fire : DetectorFireEvent
a_fire = record { id = "fire-1"; at_ms = 1600; rule_id = "cdl.x"; entity = "WIN-SRV-3" }

-- A message that overtakes the snapshot, an update, and three fires, the first too old in the end.
abbrev inputs : List Input
inputs =
    opened
    ∷ message (new_case next_case) 1000
    ∷ snapshot (a_case ∷ [])
    ∷ message (update a_case) 1500
    ∷ message (fire a_fire) 1600
    ∷ message (fire a_fire) 4000
    ∷ message (fire a_fire) 7000
    ∷ []

run_inputs_lem_example :
    ((cs : List Case) × (all_cases
          (run_inputs inputs initial_stream).cases
          []
          (run_inputs inputs initial_stream).order
        ≡ some cs)
      × (length cs ≡ length (run_inputs inputs initial_stream).order))
    × (length (run_inputs inputs initial_stream).detector_fires ≤ 40)
    × ((run_inputs inputs initial_stream).recent_fires ≡ length (recent_ones (fire_times inputs)))
run_inputs_lem_example = run_inputs_lem inputs []

abbrev severe_only : FilterState
severe_only = record empty_filter_state {
  severities = critical ∷ high ∷ [];
  unassigned_only = true;
}

apply_filters_iff_example :
    In a_case (apply_filters (a_case ∷ next_case ∷ []) severe_only)
    ↔ (In a_case (a_case ∷ next_case ∷ []) × IsShown severe_only a_case)
apply_filters_iff_example = apply_filters_iff (a_case ∷ next_case ∷ []) severe_only a_case

abbrev client : Client
client = record {
  selected_id = some "case-0";
  overrides = [];
  dismiss_target = some next_case;
  visited = [];
}

on_key_down_moves_example :
    ((d : Case) × (get_elem? (a_case ∷ next_case ∷ []) (
          after_j
            (index_of (a_case ∷ next_case ∷ []) client.selected_id)
            (length (a_case ∷ next_case ∷ [])))
        ≡ some d)
      × ((on_key_down false key_j (a_case ∷ next_case ∷ []) client).selected_id ≡ some d.id))
    × ((d : Case) × (get_elem?
            (a_case ∷ next_case ∷ [])
            (after_k (index_of (a_case ∷ next_case ∷ []) client.selected_id))
          ≡ some d)
        × ((on_key_down false key_k (a_case ∷ next_case ∷ []) client).selected_id ≡ some d.id))
on_key_down_moves_example = on_key_down_moves a_case (next_case ∷ []) client

abbrev other_id : String
other_id = "case-7"

decisions_lem_example :
    ((shown_case (on_key_down false key_e (a_case ∷ []) client) "case-0" a_case).status ≡ escalated)
    × (a_case.id ≢ other_id
        → shown_case (on_key_down false key_e (a_case ∷ []) client) other_id a_case
          ≡ shown_case client other_id a_case)
    × ((shown_case (on_confirm "noise" client) next_case.id a_case).status ≡ dismissed)
    × (next_case.id ≢ other_id
        → shown_case (on_confirm "noise" client) other_id a_case
          ≡ shown_case client other_id a_case)
decisions_lem_example =
    decisions_lem a_case [] client "case-0" other_id "noise" next_case a_case refl refl

abbrev a_claim : LedgerClaim
a_claim = record {
  raw = record {
    predicate = "ENCODED_COMMAND";
    subject = "WIN-SRV-3";
    object = none;
    interval_start_ns = 1;
    interval_end_ns = 2;
    evidence = "e1" ∷ "e1" ∷ [];
    extractor_kind = "rule";
    extractor_id = "cdl.execution.encoded_command";
    extractor_version = "1";
    observed_value = none;
    polarity = supports;
    hypothesis_ref = none;
  };
  claim_id = "c1";
}

abbrev a_proof : InclusionProof
a_proof = record { leaf_index = 0; steps = []; root = bytes_to_hex (leaf_hash "e1") }

-- A server that proves the evidence in a tree of its own, and a kernel that returns the sealed hash.
abbrev services : Services
services = record {
  fetch_claims = λ id. returned (record { claims = a_claim ∷ []; policy = build_synthetic_policy });
  fetch_proof = λ id evidence_id. returned (some a_proof);
  verify_claim_set = λ request. returned (
      ok (record {
        severity = critical;
        confidence = 9000;
        disposition = malicious;
        attack_techniques = [];
        contributing_claims = [];
        policy_version = "policy-2026.09.0";
        kernel_version = request.kernel_version;
        verdict_hash = "abc";
        submitted_claim_ids = "c1" ∷ [];
      }));
}

abbrev a_manifest : Manifest
a_manifest = record {
  investigation_id = "inv-1";
  tenant_id = "tenant-alpha";
  case_id = "case-0";
  epoch_root = "ff";
  epoch_id = 1;
  index_snapshot_hash = "";
  claim_set_hash = "";
  claim_ids = "c1" ∷ [];
  inference = record { provider = "vllm"; model_id = "phi-4"; weights_digest = ""; seed = some 1 };
  policy_version = "policy-2026.09.0";
  kernel_version = "0.0.0";
  attack_model_version = "attack.v16.1";
  verdict_severity = critical;
  verdict_confidence = 9000;
  verdict_disposition = malicious;
  verdict_hash = "abc";
  budget_consumed = record { tool_calls = 3; turns = 1 };
  started_at_ns = 1;
  completed_at_ns = 2;
  prev_manifest_hash = "";
}

abbrev a_seal : SealedManifest
a_seal = record {
  manifest = a_manifest;
  manifest_hash = "";
  signature = "";
  public_key = "";
  chain_broken = false;
}

run_verification-match_iff_example :
    (((run_verification services true a_seal).result ≡ match) ↔ IsVerified services true a_seal)
    × ((run_verification services true a_seal).result ≡ match
        → (run_verification services true a_seal).steps
          ≡ map (λ (s : Step). record s { status = done }) initial_steps)
run_verification-match_iff_example = run_verification-match_iff services true a_seal

-- g, then a: the chord of the tenant administration
abbrev plain_key : String → KeyboardEvent
plain_key key = record {
  key = key;
  lower = key;
  default_prevented = false;
  editable = false;
  meta_key = false;
  ctrl_key = false;
  alt_key = false;
}

abbrev after_chord : Chrome
after_chord =
    on_chrome_key analyst (plain_key "a") (on_chrome_key analyst (plain_key "g") initial_chrome)

visited_lem_example : All (IsOpenTo analyst) after_chord.visited
visited_lem_example =
    visited_lem analyst after_chord
      (after (after start (pressed (plain_key "g"))) (pressed (plain_key "a")))
