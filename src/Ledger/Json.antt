-- ===== src/Ledger/Json.antt =====
-- `syntheticHash` of web/src/lib/data/ledger.ts: BLAKE3 over the JSON text of a value, in hex.
use attesta_ai_powered_soc.Prelude.{ℕ, String, Option, none, some, List}
use attesta_ai_powered_soc.Types.{
  Severity, info, low, medium, high, critical, Disposition, benign, suspicious, malicious,
  incomplete, InferenceMeta, Budget, Manifest,
}
use attesta_ai_powered_soc.Merkle.{Hashing}
use attesta_ai_powered_soc.Merkle.Hex.{bytes_to_hex}

-- the values that are hashed
mutual
  pub data Json : Type 0 where
    null : Json
    number : ℕ → Json
    text : String → Json
    texts : List String → Json
    object : Fields → Json

  pub data Fields : Type 0 where
    end : Fields
    field : String → Json → Fields → Fields

-- `JSON.stringify`
pub record JsonText : Type 0 where
  pub stringify : Json → String

module _ ⦃hs : Hashing⦄ ⦃js : JsonText⦄ where
  unfoldable pub synthetic_hash : Json → String
  synthetic_hash value = bytes_to_hex (hs.blake3 (hs.encode (js.stringify value)))

abbrev pub severity_text : Severity → String
severity_text info = "info"
severity_text low = "low"
severity_text medium = "medium"
severity_text high = "high"
severity_text critical = "critical"

abbrev pub disposition_text : Disposition → String
disposition_text benign = "benign"
disposition_text suspicious = "suspicious"
disposition_text malicious = "malicious"
disposition_text incomplete = "incomplete"

abbrev number_or_null : Option ℕ → Json
number_or_null none = null
number_or_null (some n) = number n

abbrev inference_json : InferenceMeta → Json
inference_json i = object (
    field "provider" (text i.provider) (
      field "model_id" (text i.model_id) (
        field "weights_digest" (text i.weights_digest) (field "seed" (number_or_null i.seed) end))))

abbrev budget_json : Budget → Json
budget_json b =
    object (field "tool_calls" (number b.tool_calls) (field "turns" (number b.turns) end))

-- The manifest with its keys in the order of the literal of `buildManifest`.
unfoldable pub manifest_json : Manifest → Json
manifest_json m = object (
    field "investigation_id" (text m.investigation_id) (
      field "tenant_id" (text m.tenant_id) (
        field "case_id" (text m.case_id) (
          field "epoch_root" (text m.epoch_root) (
            field "epoch_id" (number m.epoch_id) (
              field "index_snapshot_hash" (text m.index_snapshot_hash) (
                field "claim_set_hash" (text m.claim_set_hash) (
                  field "claim_ids" (texts m.claim_ids) (
                    field "inference" (inference_json m.inference) (
                      field "policy_version" (text m.policy_version) (
                        field "kernel_version" (text m.kernel_version) (
                          field "attack_model_version" (text m.attack_model_version) (
                            field "verdict_severity" (text (severity_text m.verdict_severity)) (
                              field "verdict_confidence" (number m.verdict_confidence) (
                                field "verdict_disposition"
                                  (text (disposition_text m.verdict_disposition))
                                  (field "verdict_hash" (text m.verdict_hash) (
                                    field "budget_consumed" (budget_json m.budget_consumed) (
                                      field "started_at_ns" (number m.started_at_ns) (
                                        field "completed_at_ns" (number m.completed_at_ns) (
                                          field "prev_manifest_hash" (text m.prev_manifest_hash)
                                            end))))))))))))))))))))
