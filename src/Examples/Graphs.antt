-- ===== src/Examples/Graphs.antt =====
-- Examples of the theorems on one case's evidence: its graph, and its drift.
use attesta_ai_powered_soc.Prelude.{ℕ, ◌≡◌, refl, String, true, none, some, List, [], ◌∷◌, inl}
use attesta_ai_powered_soc.Prelude.Assoc.{get, has, string_eq}
use attesta_ai_powered_soc.Prelude.Text.{to_string}
use attesta_ai_powered_soc.Prelude.Sort.{sort_by}
use attesta_ai_powered_soc.Types.{
  critical, malicious, supports, RawClaim, LedgerClaim, SealedManifest, GraphEdge,
}
use attesta_ai_powered_soc.Policy.{build_synthetic_policy}
use attesta_ai_powered_soc.Merkle.{
  MerkleTree, InclusionProof, build_merkle_tree, prove_inclusion, verify_inclusion,
}
use attesta_ai_powered_soc.Merkle.Complete.{verify_inclusion-prove_inclusion}
use attesta_ai_powered_soc.Verification.{unique}
use attesta_ai_powered_soc.Ledger.{LedgerCaseData, LedgerData, zero_hash, kernel_version}
use attesta_ai_powered_soc.Graph.Cache.{
  GraphCacheEntry, Cache, cache_key, get_or_build_graph, prove_in_graph,
}
use attesta_ai_powered_soc.Graph.Proofs.{
  IsBuilt, IsCache, get_or_build_graph-cached, prove_in_graph-checks,
}
use attesta_ai_powered_soc.Examples.{doubles, checksum}

abbrev evidence : List String
evidence = "blake3:a" ∷ "blake3:b" ∷ []

tree_at :
    (tree : MerkleTree) × (proof : InclusionProof) × (build_merkle_tree evidence ≡ some tree)
    × (prove_inclusion tree 0 ≡ some proof)
    × (proof.root ≡ tree.root)
    × (verify_inclusion "blake3:a" proof ≡ true)
tree_at = verify_inclusion-prove_inclusion evidence 0 "blake3:a" refl

abbrev edge : GraphEdge
edge = record {
  id = "case-0-claim-0-00000000";
  from_node_id = "host-case-0-0";
  to_node_id = "user-case-0-1";
  predicate = "ENCODED_COMMAND";
  polarity = supports;
  interval_start_ms = 1;
  interval_end_ms = 2;
  extractor_kind = "rule";
  extractor_id = "cdl.execution.encoded_command";
  extractor_version = "1";
  confidence = 5000;
  evidence_ids = "blake3:b" ∷ "blake3:a" ∷ [];
  hypothesis_group = none;
}

abbrev entry : GraphCacheEntry
entry = record {
  graph = record { case_id = "case-0"; nodes = []; edges = edge ∷ []; column_count = 40 };
  tree = tree_at.0;
  evidence_ids = evidence;
}

entry-IsBuilt : IsBuilt entry
unfolding unique sort_by has
entry-IsBuilt = record { evidence = refl; built = tree_at.2 }

prove_in_graph-checks_example :
    (proof : InclusionProof) × (prove_in_graph entry "blake3:b" ≡ some proof)
    × (proof.root ≡ entry.tree.root)
    × (verify_inclusion "blake3:b" proof ≡ true)
prove_in_graph-checks_example = prove_in_graph-checks entry "blake3:b" entry-IsBuilt (inl refl)

abbrev held : Cache
held = (cache_key "case-0" (some 2), entry) ∷ []

held_again : get_or_build_graph "case-0" (some 2) 5 held ≡ some (entry, held)
unfolding get_or_build_graph get cache_key to_string
held_again = refl

get_or_build_graph-cached_example :
    ((later : ℕ) → get_or_build_graph "case-0" (some 2) later held ≡ some (entry, held))
    × ((key : String) (other : GraphCacheEntry)
        → get held key ≡ some other
        → get held key ≡ some other)
    × (IsCache held → IsCache held × IsBuilt entry)
get_or_build_graph-cached_example =
    get_or_build_graph-cached "case-0" (some 2) 5 held entry held held_again

abbrev raw_claim : RawClaim
raw_claim = record {
  predicate = "ENCODED_COMMAND";
  subject = "WIN-SRV-3";
  object = none;
  interval_start_ns = 1;
  interval_end_ns = 2;
  evidence = "blake3:b" ∷ "blake3:a" ∷ [];
  extractor_kind = "rule";
  extractor_id = "cdl.execution.encoded_command";
  extractor_version = "1";
  observed_value = none;
  polarity = supports;
  hypothesis_ref = none;
}

abbrev claims : List LedgerClaim
claims =
    record { raw = raw_claim; claim_id = "c" } ∷ record { raw = raw_claim; claim_id = "c" } ∷ []

abbrev sealed : SealedManifest
sealed = record {
  manifest = record {
    investigation_id = "inv-case-0-000000";
    tenant_id = "tenant-alpha";
    case_id = "case-0";
    epoch_root = tree_at.0.root;
    epoch_id = 1;
    index_snapshot_hash = "";
    claim_set_hash = "";
    claim_ids = "c" ∷ "c" ∷ [];
    inference = record {
      provider = "vllm";
      model_id = "phi-4";
      weights_digest = "";
      seed = some 1;
    };
    policy_version = "policy-2026.09.0";
    kernel_version = kernel_version;
    attack_model_version = "attack.v16.1";
    verdict_severity = critical;
    verdict_confidence = 9000;
    verdict_disposition = malicious;
    verdict_hash = "abc";
    budget_consumed = record { tool_calls = 3; turns = 1 };
    started_at_ns = 1;
    completed_at_ns = 2;
    prev_manifest_hash = zero_hash;
  };
  manifest_hash = "";
  signature = "";
  public_key = "";
  chain_broken = true;
}

abbrev case_data : LedgerCaseData
case_data = record {
  investigation_id = "inv-case-0-000000";
  case_id = "case-0";
  claims = claims;
  merkle_root = tree_at.0.root;
  merkle_tree = tree_at.0;
  evidence_ids = evidence;
}

abbrev data_held : LedgerData
data_held = record {
  manifests = sealed ∷ [];
  case_data = ("inv-case-0-000000", case_data) ∷ [];
  policy = build_synthetic_policy;
}
