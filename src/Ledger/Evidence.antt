-- ===== src/Ledger/Evidence.antt =====
-- The routes of web/src/app/api/ledger over the data of web/src/lib/data/ledger.ts, and what the
-- verification panel shows for the manifests that it holds.
use attesta_ai_powered_soc.Prelude.{
  ℕ, suc, ◌≡◌, refl, sym, ap, ◌∙◌, String, str_eq, str_eq_iff, true, false, Option, none, some,
  List, [], ◌∷◌, map, get_elem?, find_index, In, inl, inr, All, Bool-cases, some_inj, arith,
}
use attesta_ai_powered_soc.Prelude.Assoc.{get, string_eq}
use attesta_ai_powered_soc.Prelude.Sort.{text_after, In-sort_by}
use attesta_ai_powered_soc.Types.{LedgerClaim, SealedManifest}
use attesta_ai_powered_soc.Kernel.{Kernel}
use attesta_ai_powered_soc.Merkle.{
  Hashing, MerkleTree, InclusionProof, build_merkle_tree, verify_inclusion,
}
use attesta_ai_powered_soc.Merkle.Complete.{verify_inclusion-prove_inclusion}
use attesta_ai_powered_soc.Verification.{
  Attempt, returned, threw, ClaimsAnswer, Services, match, Step, done, initial_steps, evidence_ids,
  run_verification,
}
use attesta_ai_powered_soc.Verification.Outcomes.{
  IsIncluded, IsVerified, run_verification-match_iff,
}
use attesta_ai_powered_soc.Ledger.Sealing.{IsBacked}
use attesta_ai_powered_soc.Ledger.Chains.{HasData}
use attesta_ai_powered_soc.Ledger.{LedgerCaseData, LedgerData, prove_evidence_inclusion, get_claims}

-- Of a case that is not found the answer has no claims, and reading their number throws.
abbrev pub claims_answer : Option ClaimsAnswer → Attempt ClaimsAnswer
claims_answer none = threw "Cannot read properties of undefined (reading 'length')"
claims_answer (some answer) = returned answer

-- `fetchClaims`, `fetchProof` and `verifyClaimSet` of the panel against this server and the kernel.
abbrev pub ledger_services : LedgerData → Kernel → Services
ledger_services d k = record {
  fetch_claims = λ id. claims_answer (get_claims d id);
  fetch_proof = λ id evidence_id. returned (prove_evidence_inclusion d id evidence_id);
  verify_claim_set = λ request. returned (k.verify_claim_set request);
}

-- The index of a member holds it.
pub find_index-In :
    (id : String) (ids : List String)
    → In id ids
    → (i : ℕ) × (find_index (str_eq id) ids ≡ some i) × (get_elem? ids i ≡ some id)
find_index-In id [] m = elim m [ ]
find_index-In id (x ∷ xs) m = elim (Bool-cases (str_eq id x)) [
  | inl e ↦ (0, rw e refl, ap some (sym ((str_eq_iff id x).0 e)))
  | inr e ↦ elim m [
    | inl here ↦ let gone : str_eq id x ≡ true = (str_eq_iff id x).1 (sym here) in absurd (cc)
    | inr there ↦
        let (i, at, there') = find_index-In id xs there in (suc i, rw (e, at) refl, there')
  ]
]

module _ ⦃hs : Hashing⦄ (d : LedgerData) where
  -- A piece of evidence of an investigation whose tree is over its evidence has a proof that checks.
  pub prove_evidence_inclusion-checks :
      (investigation_id id : String) (cd : LedgerCaseData)
      → get d.case_data investigation_id ≡ some cd
      → build_merkle_tree cd.evidence_ids ≡ some cd.merkle_tree
      → In id cd.evidence_ids
      → (proof : InclusionProof) × (prove_evidence_inclusion d investigation_id id ≡ some proof)
        × (proof.root ≡ cd.merkle_tree.root)
        × (verify_inclusion id proof ≡ true)
  unfolding prove_evidence_inclusion
  prove_evidence_inclusion-checks investigation_id id cd found built m =
      let (i, at, here) = find_index-In id cd.evidence_ids m in
      let (tree, proof, built', made, root, checks) =
        verify_inclusion-prove_inclusion cd.evidence_ids i id here in
      let same : tree ≡ cd.merkle_tree = some_inj (sym built' ∙ built) in
      (
        proof,
        rw (prove_evidence_inclusion, found, at, ← same) made,
        root ∙ ap (λ (t : MerkleTree). t.root) same,
        checks,
      )

  module _ (k : Kernel) (s : SealedManifest) where
    all_ids-IsIncluded :
        (cd : LedgerCaseData) (ids : List String)
        → get d.case_data s.manifest.investigation_id ≡ some cd
        → build_merkle_tree cd.evidence_ids ≡ some cd.merkle_tree
        → ((id : String) → In id ids → In id cd.evidence_ids)
        → All (IsIncluded (ledger_services d k) s.manifest.investigation_id) ids
    all_ids-IsIncluded cd [] found built within = tt
    all_ids-IsIncluded cd (id ∷ ids) found built within =
        let (proof, made, root, checks) =
          prove_evidence_inclusion-checks s.manifest.investigation_id id cd found built
            (within id (inl refl)) in
        (
          (proof, ap returned made, checks),
          all_ids-IsIncluded cd ids found built (λ x m. within x (inr m)),
        )

    backed-IsVerified :
        (claims : List LedgerClaim) (cd : LedgerCaseData)
        → cd.claims ≡ claims
        → get d.case_data s.manifest.investigation_id ≡ some cd
        → IsBacked k d.policy s.manifest cd
        → IsVerified (ledger_services d k) false s
    unfolding get_claims
    backed-IsVerified [] cd e found b =
        let few = b.claim_set.many in absurd (omega (arith, rw e at few))
    backed-IsVerified (c ∷ cs) cd e found b = record {
      answer = record { claims = cd.claims; policy = d.policy };
      first = c;
      more = cs;
      verdict = b.verdict;
      fetched = rw (get_claims, found) refl;
      some_claims = e;
      included =
          all_ids-IsIncluded cd (evidence_ids (c ∷ cs)) found b.tree
            (λ id m. rw (b.all_evidence, e) (In-sort_by text_after id (evidence_ids (c ∷ cs)) m));
      recomputed = rw b.sealed_version (ap returned b.judged);
      same_hash = b.sealed_hash;
    }

    -- For every manifest whose case data is backed under its id, the verification panel, asking this
    -- server and the same kernel, ends in a match with all four of its steps done.
    pub run_verification-backed :
        HasData k d.policy d.case_data s
        → ((run_verification (ledger_services d k) false s).result ≡ match)
          × ((run_verification (ledger_services d k) false s).steps
              ≡ map (λ (step : Step). record step { status = done }) initial_steps)
    run_verification-backed (cd, found, b) =
        let (iff, steps) = run_verification-match_iff (ledger_services d k) false s in
        let matches = iff.1 (backed-IsVerified cd.claims cd refl found b) in
        (matches, steps matches)
