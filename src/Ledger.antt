-- ===== src/Ledger.antt =====
-- web/src/lib/data/ledger.ts: the sealed manifests of the verdict ledger, a chain of hashes for each
-- tenant, with the claims and the evidence tree behind each manifest. An exception (a rejected claim
-- set, an empty evidence set) and a read of `undefined` are both `none`.
pub mod Json
pub mod Claims
pub mod Drawn
pub mod Sealing
pub mod Chains
pub mod Building
pub mod Evidence
use attesta_ai_powered_soc.Prelude.{
  ℕ, zero, suc, ◌+◌, ◌-◌, ◌*◌, ◌/◌, ◌^◌, String, str_eq, Bool, ◌&&◌, Option, none, some, List, [],
  ◌∷◌, ◌++◌, map, length, filter, find_index, take, ltb, ◌==◌, if◌then◌else◌,
}
use attesta_ai_powered_soc.Prelude.Assoc.{Assoc, get, set, string_eq}
use attesta_ai_powered_soc.Prelude.Sort.{sort_by, earlier, text_after}
use attesta_ai_powered_soc.Prelude.Text.{◌<>◌, take_text}
use attesta_ai_powered_soc.Types.{
  Case, RawClaim, LedgerClaim, InferenceMeta, Budget, Manifest, SealedManifest,
}
use attesta_ai_powered_soc.Rng.{Xorshift32, Rand, ◌>>=◌, pure, new_rng, int, pick}
use attesta_ai_powered_soc.Rng.Fractions.{Doubles}
use attesta_ai_powered_soc.Policy.{PolicyBundle, KernelRequest, build_synthetic_policy}
use attesta_ai_powered_soc.Kernel.{KernelVerdict, KernelResult, ok, failed_with, Kernel}
use attesta_ai_powered_soc.Merkle.{
  Hashing, MerkleTree, InclusionProof, build_merkle_tree, prove_inclusion,
}
use attesta_ai_powered_soc.Seed.Timeline.{hex_text}
use attesta_ai_powered_soc.Verification.{evidence_ids, raw_claims, ClaimsAnswer}
use Json.{JsonText, synthetic_hash, manifest_json, text, texts, object, field, end}
use Claims.{second_ns, generate_claims}

abbrev pub kernel_version : String
kernel_version = "0.0.0-phase11"

-- `"0".repeat(64)`
abbrev pub zero_hash : String
zero_hash = "0000000000000000000000000000000000000000000000000000000000000000"

abbrev pub manifests_per_tenant : ℕ
manifests_per_tenant = 14

abbrev pub tenants : List String
tenants = "tenant-alpha" ∷ "tenant-beta" ∷ "tenant-gamma" ∷ []

pub record LedgerCaseData : Type 0 where
  pub investigation_id : String
  pub case_id : String
  pub claims : List LedgerClaim
  pub merkle_root : String
  pub merkle_tree : MerkleTree
  pub evidence_ids : List String

pub record LedgerData : Type 0 where
  pub manifests : List SealedManifest
  -- keyed by investigation id
  pub case_data : Assoc String LedgerCaseData
  pub policy : PolicyBundle

-- a read that is `undefined` or throws on `none`
abbrev pub given : {A : Type 0} → Option A → Rand A
given none r = none
given (some a) r = some (a, r)

abbrev pub accepted : KernelResult → Option KernelVerdict
accepted (ok verdict) = some verdict
accepted (failed_with message) = none

-- `claimsRaw.map((c, i) => ({ ...c, claim_id: submitted_claim_ids[i] }))`
unfoldable pub attach_ids : List RawClaim → List String → Option (List LedgerClaim)
attach_ids [] ids = some []
attach_ids (c ∷ cs) [] = none
attach_ids (c ∷ cs) (id ∷ ids) = elim (attach_ids cs ids) [
  | none ↦ none
  | some more ↦ some (record { raw = c; claim_id = id } ∷ more)
]

-- The request of `buildManifest`.
abbrev pub ledger_request : PolicyBundle → List RawClaim → KernelRequest
ledger_request policy claims = record {
  kernel_version = kernel_version;
  policy = policy;
  claims = claims;
}

-- What `buildManifest` has drawn, run and built before it writes the manifest.
pub record Findings : Type 0 where
  pub investigation_id : String
  pub base_ns : ℕ
  pub claims : List LedgerClaim
  pub verdict : KernelVerdict
  pub tree : MerkleTree
  pub evidence : List String

abbrev inv_json : String → String → String → Json.Json
inv_json id key value = object (field "investigationId" (text id) (field key (text value) end))

module _ ⦃hs : Hashing⦄ ⦃js : JsonText⦄ where
  abbrev pub broken_hash : String → String
  broken_hash investigation_id =
      synthetic_hash (object (field "broken" (text investigation_id) end))

  -- The literal of the sealed manifest.
  abbrev pub seal : String → Manifest → Bool → SealedManifest
  seal tenant_id manifest make_broken =
      let manifest_hash = synthetic_hash (manifest_json manifest) in
      record {
        manifest = manifest;
        manifest_hash = manifest_hash;
        signature = take_text 96 (synthetic_hash (object (field "sig" (text manifest_hash) end)));
        public_key = take_text 64 (synthetic_hash (object (field "pub" (text tenant_id) end)));
        chain_broken = make_broken;
      }

  -- The literal of the manifest, for its draws.
  abbrev pub manifest_of :
      String → String → String → Bool → Findings → ℕ → ℕ → InferenceMeta → Budget → Manifest
  manifest_of tenant_id case_id prev_hash make_broken f completed epoch inference budget = record {
    investigation_id = f.investigation_id;
    tenant_id = tenant_id;
    case_id = case_id;
    epoch_root = f.tree.root;
    epoch_id = epoch;
    index_snapshot_hash = synthetic_hash (inv_json f.investigation_id "snapshot" "index");
    claim_set_hash =
        synthetic_hash
          (texts (sort_by text_after (map (λ (c : LedgerClaim). c.claim_id) f.claims)));
    claim_ids = f.verdict.submitted_claim_ids;
    inference = inference;
    policy_version = f.verdict.policy_version;
    kernel_version = f.verdict.kernel_version;
    attack_model_version = "attack.v16.1";
    verdict_severity = f.verdict.severity;
    verdict_confidence = f.verdict.confidence;
    verdict_disposition = f.verdict.disposition;
    verdict_hash = f.verdict.verdict_hash;
    budget_consumed = budget;
    started_at_ns = f.base_ns;
    completed_at_ns = completed;
    prev_manifest_hash = if make_broken then broken_hash f.investigation_id else prev_hash;
  }

  abbrev pub case_data_of : String → Findings → LedgerCaseData
  case_data_of case_id f = record {
    investigation_id = f.investigation_id;
    case_id = case_id;
    claims = f.claims;
    merkle_root = f.tree.root;
    merkle_tree = f.tree;
    evidence_ids = f.evidence;
  }

-- `i === Math.floor(length / 2) && length > 3`
abbrev pub is_broken_at : ℕ → ℕ → Bool
is_broken_at i count = (i == count / 2) && ltb 3 count

-- The manifests and the case data so far.
pub record Sealed : Type 0 where
  pub manifests : List SealedManifest
  pub case_data : Assoc String LedgerCaseData

abbrev pub pushed : Sealed → SealedManifest → LedgerCaseData → Sealed
pushed acc sealed cd = record {
  manifests = acc.manifests ++ sealed ∷ [];
  case_data = set acc.case_data cd.investigation_id cd;
}

abbrev pub tenant_cases : List Case → String → List Case
tenant_cases cases tenant_id =
    take manifests_per_tenant (filter (λ (c : Case). str_eq c.tenant_id tenant_id) cases)

module _ ⦃fp : Doubles⦄ ⦃hs : Hashing⦄ ⦃js : JsonText⦄ (k : Kernel) (policy : PolicyBundle) where
  -- The first part of `buildManifest`: the claims, the kernel's run and the tree. The clock stands
  -- more than 30 days after 1970.
  unfoldable pub investigate : ℕ → String → String → Rand Findings
  investigate now_ms case_id entity = do
    suffix ← hex_text 6
    let investigation_id = "inv-" <> case_id <> "-" <> suffix
    days ← int 0 30
    let base_ns = fp.nearest (fp.nearest (now_ms * 1_000_000) - days * 86_400 * second_ns)
    raw ← generate_claims entity base_ns
    verdict ← given (accepted (k.verify_claim_set (ledger_request policy raw)))
    claims ← given (attach_ids raw verdict.submitted_claim_ids)
    let evidence = sort_by text_after (evidence_ids claims)
    tree ← given (build_merkle_tree evidence)
    pure (record {
      investigation_id = investigation_id;
      base_ns = base_ns;
      claims = claims;
      verdict = verdict;
      tree = tree;
      evidence = evidence;
    })

  unfoldable pub draw_inference : String → Rand InferenceMeta
  draw_inference investigation_id = do
    provider ← pick ("vllm" ∷ "anthropic" ∷ "ollama" ∷ [])
    model_id ← pick ("qwen2.5-32b-instruct" ∷ "mistral-small-2506" ∷ "phi-4" ∷ [])
    seed ← int 1 (2 ^ 31 - 1)
    let digest = synthetic_hash (inv_json investigation_id "part" "weights")
    pure (record {
      provider = provider;
      model_id = model_id;
      weights_digest = take_text 32 digest;
      seed = some seed;
    })

  unfoldable pub build_manifest :
      ℕ → String → String → String → String → Bool → Rand (SealedManifest × LedgerCaseData)
  unfolding investigate draw_inference
  build_manifest now_ms tenant_id case_id entity prev_hash make_broken = do
    f ← investigate now_ms case_id entity
    seconds ← int 5 45
    epoch ← int 1 400
    inference ← draw_inference f.investigation_id
    tool_calls ← int 3 22
    turns ← int 1 8
    let completed = fp.nearest (f.base_ns + seconds * second_ns)
    let budget : Budget = record { tool_calls = tool_calls; turns = turns }
    let manifest =
        manifest_of tenant_id case_id prev_hash make_broken f completed epoch inference budget
    pure (seal tenant_id manifest make_broken, case_data_of case_id f)

  -- The loop over a tenant's cases, from case `i` of `count` on; `clock` gives the reading of the
  -- clock while the manifest at a place is built.
  unfoldable pub tenant_loop : (ℕ → ℕ) → String → ℕ → List Case → ℕ → String → Sealed → Rand Sealed
  tenant_loop clock tenant_id count [] i prev_hash acc = pure acc
  tenant_loop clock tenant_id count (c ∷ rest) i prev_hash acc = do
    (sealed, cd) ←
        build_manifest (clock (length acc.manifests)) tenant_id c.id c.primary_entity prev_hash
          (is_broken_at i count)
    tenant_loop clock tenant_id count rest (i + 1) sealed.manifest_hash (pushed acc sealed cd)

  unfoldable pub tenants_loop : (ℕ → ℕ) → List Case → List String → Sealed → Rand Sealed
  unfolding tenant_loop
  tenants_loop clock cases [] acc = pure acc
  tenants_loop clock cases (tenant_id ∷ rest) acc = do
    let chosen = tenant_cases cases tenant_id
    more ← tenant_loop clock tenant_id (length chosen) chosen 0 zero_hash acc
    tenants_loop clock cases rest more

abbrev pub completed_of : SealedManifest → ℕ
completed_of m = m.manifest.completed_at_ns

-- `manifests.sort((a, b) => b.completed_at_ns - a.completed_at_ns)`
abbrev pub newest_first : List SealedManifest → List SealedManifest
newest_first manifests = sort_by (earlier completed_of) manifests

abbrev pub ledger_of : PolicyBundle → Option (Sealed × Xorshift32) → Option LedgerData
ledger_of policy none = none
ledger_of policy (some (acc, r)) =
    some (record {
      manifests = newest_first acc.manifests;
      case_data = acc.case_data;
      policy = policy;
    })

abbrev pub ledger_seed : ℕ
ledger_seed = 0x1edce4

module _ ⦃fp : Doubles⦄ ⦃hs : Hashing⦄ ⦃js : JsonText⦄ where
  -- `buildLedger`, for the cases that `listCases` returns
  unfoldable pub build_ledger : Kernel → (ℕ → ℕ) → List Case → Option LedgerData
  unfolding tenants_loop
  build_ledger k clock cases = ledger_of build_synthetic_policy (
      tenants_loop k build_synthetic_policy clock cases tenants
        (record { manifests = []; case_data = [] }) (new_rng ledger_seed))

-- `proveEvidenceInclusion`; `none` is `null`.
unfoldable pub prove_evidence_inclusion : LedgerData → String → String → Option InclusionProof
prove_evidence_inclusion d investigation_id evidence_id = elim (get d.case_data investigation_id) [
  | none ↦ none
  | some c ↦ elim (find_index (str_eq evidence_id) c.evidence_ids) [
    | none ↦ none
    | some i ↦ prove_inclusion c.merkle_tree i
  ]
]

-- web/src/app/api/ledger/manifests/[id]/claims: the claims and the policy, or not found
unfoldable pub get_claims : LedgerData → String → Option ClaimsAnswer
get_claims d investigation_id = elim (get d.case_data investigation_id) [
  | none ↦ none
  | some c ↦ some (record { claims = c.claims; policy = d.policy })
]
