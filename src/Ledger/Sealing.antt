-- ===== src/Ledger/Sealing.antt =====
-- `buildManifest` of web/src/lib/data/ledger.ts returns, and what the manifest and the case data that
-- it returns have to do with each other.
use Prim.Native.String.{count}
use attesta_ai_powered_soc.Prelude.{
  ℕ, ◌-◌, ◌*◌, ◌+◌, ◌^◌, ◌≤◌, ◌<◌, ◌≡◌, refl, ap, String, Bool, Option, some, List, [], ◌∷◌, ◌++◌,
  length, In, All, if◌then◌else◌, arith,
}
use attesta_ai_powered_soc.Prelude.Assoc.{has}
use attesta_ai_powered_soc.Prelude.Sort.{sort_by, text_after, length-sort_by}
use attesta_ai_powered_soc.Prelude.Text.{◌<>◌}
use attesta_ai_powered_soc.Types.{Tactic, RawClaim, LedgerClaim, Manifest, SealedManifest}
use attesta_ai_powered_soc.Rng.{Rand, ◌>>=◌}
use attesta_ai_powered_soc.Rng.Fractions.{Doubles}
use attesta_ai_powered_soc.Rng.Runs.{Runs, Runs-pure, Runs-bind, Runs-int, Runs-pick}
use attesta_ai_powered_soc.Policy.{PolicyBundle}
use attesta_ai_powered_soc.Kernel.{KernelVerdict, ok, Kernel}
use attesta_ai_powered_soc.Merkle.{Hashing, MerkleTree, build_merkle_tree}
use attesta_ai_powered_soc.Merkle.Complete.{verify_inclusion-prove_inclusion}
use attesta_ai_powered_soc.Seed.Timeline.{predicates_by_tactic}
use attesta_ai_powered_soc.Seed.Hex.{hex_text-count}
use attesta_ai_powered_soc.Verification.{evidence_ids, raw_claims, unique}
use attesta_ai_powered_soc.Ledger.Json.{JsonText, synthetic_hash, manifest_json}
use attesta_ai_powered_soc.Ledger.Claims.{second_ns}
use attesta_ai_powered_soc.Ledger.Drawn.{IsPlausible, IsClaimSet, latest, generate_claims-Runs}
use attesta_ai_powered_soc.Ledger.{
  LedgerCaseData, Findings, given, accepted, attach_ids, ledger_request, kernel_version,
  broken_hash, investigate, draw_inference, build_manifest,
}

-- What the console relies on the kernel for: it takes the ledger's claim sets (two to four claims,
-- each with evidence and with times in 64 bits) under the policy, gives each claim an id and names the
-- version that it was asked for. Of other requests, which it may refuse, nothing is said.
pub record IsKernel (k : Kernel) (policy : PolicyBundle) : Type 0 where
  pub verdict_of : List RawClaim → KernelVerdict
  pub accepts :
      (claims : List RawClaim)
      → IsClaimSet claims
      → k.verify_claim_set (ledger_request policy claims) ≡ ok (verdict_of claims)
  pub ids :
      (claims : List RawClaim)
      → IsClaimSet claims
      → length (verdict_of claims).submitted_claim_ids ≡ length claims
  pub version :
      (claims : List RawClaim)
      → IsClaimSet claims
      → (verdict_of claims).kernel_version ≡ kernel_version

abbrev pub IsPriced : RawClaim → Type 0
IsPriced c = (t : Tactic) × In c.predicate (predicates_by_tactic t)

attach_ids_lem :
    (raw : List RawClaim) (ids : List String)
    → length ids ≡ length raw
    → (claims : List LedgerClaim) × (attach_ids raw ids ≡ some claims) × (raw_claims claims ≡ raw)
unfolding attach_ids
attach_ids_lem [] ids h = ([], refl, refl)
attach_ids_lem (c ∷ raw) [] h = absurd (omega arith)
attach_ids_lem (c ∷ raw) (id ∷ ids) h =
    let (claims, e, same) = attach_ids_lem raw ids (omega arith) in
    (record { raw = c; claim_id = id } ∷ claims, rw e refl, ap (λ cs. c ∷ cs) same)

unique-some : (x : String) (xs : List String) → 0 < length (unique [] (x ∷ xs))
unfolding unique has
unique-some x xs = omega arith

-- A claim set with evidence in its first claim has evidence.
evidence_ids-some :
    (entity : String) (claims : List LedgerClaim)
    → All (IsPlausible entity) (raw_claims claims)
    → 2 ≤ length (raw_claims claims)
    → 0 < length (evidence_ids claims)
evidence_ids-some entity [] h few = absurd (omega arith)
evidence_ids-some entity (c ∷ cs) (h, _) few = go c.raw.evidence _ h.some_evidence
  where
    go : (es rest : List String) → 1 ≤ length es → 0 < length (unique [] (es ++ rest))
    go [] rest some_one = absurd (omega arith)
    go (e ∷ es) rest some_one = unique-some e (es ++ rest)

module _ ⦃hs : Hashing⦄ where
  tree_of :
      (ids : List String)
      → 0 < length ids
      → (tree : MerkleTree) × (build_merkle_tree ids ≡ some tree)
  tree_of [] h = absurd (omega arith)
  tree_of (id ∷ ids) h =
      let (tree, _, e, _, _, _) = verify_inclusion-prove_inclusion (id ∷ ids) 0 id refl in (tree, e)

-- The case data holds what the manifest was sealed from: the claims that the kernel judged, and a
-- tree over exactly their evidence, with the sealed root.
pub record IsBacked ⦃hs : Hashing⦄ (k : Kernel) (policy : PolicyBundle) (m : Manifest)
    (cd : LedgerCaseData) : Type 0 where
  pub same_id : cd.investigation_id ≡ m.investigation_id
  pub same_case : cd.case_id ≡ m.case_id
  pub verdict : KernelVerdict
  pub judged : k.verify_claim_set (ledger_request policy (raw_claims cd.claims)) ≡ ok verdict
  pub sealed_hash : verdict.verdict_hash ≡ m.verdict_hash
  pub sealed_severity : verdict.severity ≡ m.verdict_severity
  pub sealed_disposition : verdict.disposition ≡ m.verdict_disposition
  pub sealed_version : m.kernel_version ≡ kernel_version
  pub claim_set : IsClaimSet (raw_claims cd.claims)
  pub priced : All IsPriced (raw_claims cd.claims)
  pub all_evidence : cd.evidence_ids ≡ sort_by text_after (evidence_ids cd.claims)
  pub tree : build_merkle_tree cd.evidence_ids ≡ some cd.merkle_tree
  pub sealed_root : m.epoch_root ≡ cd.merkle_tree.root

-- The manifest's own hash, its flag, and the link to the manifest before it.
pub record IsLinked ⦃hs : Hashing⦄ ⦃js : JsonText⦄ (tenant_id case_id prev_hash : String)
    (broken : Bool) (s : SealedManifest) : Type 0 where
  pub tenant : s.manifest.tenant_id ≡ tenant_id
  pub of_case : s.manifest.case_id ≡ case_id
  pub named :
      (suffix : String) × (s.manifest.investigation_id
        ≡ "inv-" <> s.manifest.case_id <> "-" <> suffix)
      × (count suffix ≡ 6)
  pub flag : s.chain_broken ≡ broken
  pub link :
      s.manifest.prev_manifest_hash
      ≡ (if broken then broken_hash s.manifest.investigation_id else prev_hash)
  pub hashed : s.manifest_hash ≡ synthetic_hash (manifest_json s.manifest)

All-IsPriced :
    (entity : String) (cs : List RawClaim) → All (IsPlausible entity) cs → All IsPriced cs
All-IsPriced entity [] h = tt
All-IsPriced entity (c ∷ cs) (h, hs) = ((h.tactic, h.predicate), All-IsPriced entity cs hs)

module _ ⦃fp : Doubles⦄ ⦃hs : Hashing⦄ ⦃js : JsonText⦄ (k : Kernel) (policy : PolicyBundle)
    (good : IsKernel k policy) where
  abbrev Anything : {A : Type 0} → A → Type 0
  Anything a = Unit {0}

  -- A read that succeeds, and what follows it.
  given-bind :
      {A B : Type 0} {Q : B → Type 0} (n : ℕ) (o : Option A) (f : A → Rand B) (a : A)
      → o ≡ some a
      → Runs n Q (f a)
      → Runs n Q (given o >>= f)
  given-bind n o f a e h = rw e h

  base_ns-le :
      (now days : ℕ)
      → now * 1_000_000 ≤ latest
      → fp.nearest (fp.nearest (now * 1_000_000) - days) ≤ latest + 2 ^ 20
  base_ns-le now days early =
      let whole = now * 1_000_000 in
      omega (
        arith,
        fp.nearest_close whole (omega arith),
        fp.nearest_idem whole,
        fp.nearest_mono (fp.nearest whole - days) (fp.nearest whole) (omega arith),
      )

  record IsInvestigated (case_id : String) (f : Findings) : Type 0 where
    pub named :
        (suffix : String) × (f.investigation_id ≡ "inv-" <> case_id <> "-" <> suffix)
        × (count suffix ≡ 6)
    pub judged : k.verify_claim_set (ledger_request policy (raw_claims f.claims)) ≡ ok f.verdict
    pub version : f.verdict.kernel_version ≡ kernel_version
    pub claim_set : IsClaimSet (raw_claims f.claims)
    pub priced : All IsPriced (raw_claims f.claims)
    pub all_evidence : f.evidence ≡ sort_by text_after (evidence_ids f.claims)
    pub built : build_merkle_tree f.evidence ≡ some f.tree

  investigate-Runs :
      (now : ℕ) (case_id entity : String)
      → now * 1_000_000 ≤ latest
      → Runs 240 (IsInvestigated case_id) (investigate k policy now case_id entity)
  unfolding investigate
  investigate-Runs now case_id entity early = Runs-bind 6 234 _ _ (hex_text-count 6) λ suffix six.
      Runs-bind 1 233 _ _ (Runs-int 0 30 (omega arith) (omega arith)) λ days _.
        Runs-bind 233 0 _ _
          (generate_claims-Runs entity _ (base_ns-le now (days * 86_400 * second_ns) early))
          λ raw set.
            let verdict = good.verdict_of raw in
            let (claims, attached, same) =
              attach_ids_lem raw verdict.submitted_claim_ids (good.ids raw set) in
            let ids = evidence_ids claims in
            let (tree, built) = tree_of (sort_by text_after ids) (
              omega (
                arith,
                length-sort_by text_after ids,
                evidence_ids-some set.entity claims (rw same set.plausible) (rw same set.many),
              )) in
            given-bind 0 (accepted (k.verify_claim_set (ledger_request policy raw))) _ verdict
              (rw (good.accepts raw set) refl)
              (given-bind 0 (attach_ids raw verdict.submitted_claim_ids) _ claims attached (
                given-bind 0 (build_merkle_tree (sort_by text_after ids)) _ tree built (
                  Runs-pure _ (record {
                    named = (suffix, refl, six);
                    judged = rw same (good.accepts raw set);
                    version = good.version raw set;
                    claim_set = rw same set;
                    priced = rw same (All-IsPriced set.entity raw set.plausible);
                    all_evidence = refl;
                    built = built;
                  }))))

  draw_inference-Runs : (id : String) → Runs 3 Anything (draw_inference k policy id)
  unfolding draw_inference
  draw_inference-Runs id = Runs-bind 1 2 _ _ (Runs-pick _ (omega arith) (omega arith)) λ provider _.
      Runs-bind 1 1 _ _ (Runs-pick _ (omega arith) (omega arith)) λ model _.
        Runs-bind 1 0 _ _ (Runs-int 1 (2 ^ 31 - 1) (omega arith) (omega arith))
          λ seed _. Runs-pure {P = Anything} _ tt

  -- `buildManifest` makes at most 247 draws.
  pub build_manifest-Runs :
      (now : ℕ) (tenant_id case_id entity prev_hash : String) (broken : Bool)
      → now * 1_000_000 ≤ latest
      → Runs 247
          (λ b.
            IsLinked tenant_id case_id prev_hash broken b.0 × IsBacked k policy b.0.manifest b.1)
          (build_manifest k policy now tenant_id case_id entity prev_hash broken)
  unfolding build_manifest
  build_manifest-Runs now tenant_id case_id entity prev_hash broken early =
      Runs-bind 240 7 _ _ (investigate-Runs now case_id entity early) λ f h.
        Runs-bind 1 6 _ _ (Runs-int 5 45 (omega arith) (omega arith)) λ seconds _.
          Runs-bind 1 5 _ _ (Runs-int 1 400 (omega arith) (omega arith)) λ epoch _.
            Runs-bind 3 2 _ _ (draw_inference-Runs f.investigation_id) λ inference _.
              Runs-bind 1 1 _ _ (Runs-int 3 22 (omega arith) (omega arith)) λ tool_calls _.
                Runs-bind 1 0 _ _ (Runs-int 1 8 (omega arith) (omega arith)) λ turns _.
                  Runs-pure _ (
                    record {
                      tenant = refl;
                      of_case = refl;
                      named = h.named;
                      flag = refl;
                      link = refl;
                      hashed = refl;
                    },
                    record {
                      same_id = refl;
                      same_case = refl;
                      verdict = f.verdict;
                      judged = h.judged;
                      sealed_hash = refl;
                      sealed_severity = refl;
                      sealed_disposition = refl;
                      sealed_version = h.version;
                      claim_set = h.claim_set;
                      priced = h.priced;
                      all_evidence = h.all_evidence;
                      tree = h.built;
                      sealed_root = refl;
                    },
                  )
