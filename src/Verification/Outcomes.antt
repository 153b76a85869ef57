-- ===== src/Verification/Outcomes.antt =====
-- When the verification panel shows a match.
use attesta_ai_powered_soc.Prelude.{
  ◌≡◌, refl, String, str_eq, str_eq_iff, str_eq-refl, Bool, true, false, Option, none, some, List,
  [], ◌∷◌, All, map, Bool-cases, inl, inr, ◌↔◌,
}
use attesta_ai_powered_soc.Types.{LedgerClaim, SealedManifest}
use attesta_ai_powered_soc.Merkle.{Hashing, InclusionProof, verify_inclusion}
use attesta_ai_powered_soc.Kernel.{KernelVerdict, KernelResult, ok, failed_with}
use attesta_ai_powered_soc.Verification.{
  Attempt, returned, threw, ClaimsAnswer, Services, match, Panel, check_evidence, evidence_ids,
  request_for, run_verification, after_kernel, after_evidence, after_claims, after_fetch, set_step,
  active, started, done, compared, Step, initial_steps,
}

abbrev pub with_epoch_root : String → SealedManifest → SealedManifest
with_epoch_root root sealed = record sealed {
  manifest = record sealed.manifest { epoch_root = root };
}

module _ ⦃hs : Hashing⦄ (sv : Services) where
  abbrev pub IsIncluded : String → String → Type 0
  IsIncluded investigation_id id =
      (proof : InclusionProof) × (sv.fetch_proof investigation_id id ≡ returned (some proof))
      × (verify_inclusion id proof ≡ true)

  check_evidence-IsIncluded :
      (inv : String) (ids : List String)
      → check_evidence sv inv ids ≡ returned true
      → All (IsIncluded inv) ids
  unfolding check_evidence
  check_evidence-IsIncluded inv [] h = tt
  check_evidence-IsIncluded inv (id ∷ ids) h =
      go (sv.fetch_proof inv id) refl (check_evidence-IsIncluded inv ids)
    where
      go :
          (a : Attempt (Option InclusionProof))
          → sv.fetch_proof inv id ≡ a
          → (check_evidence sv inv ids ≡ returned true → All (IsIncluded inv) ids)
          → IsIncluded inv id × All (IsIncluded inv) ids
      go (threw message) e rest = let gone = rw (check_evidence, e) at h in absurd (cc)
      go (returned none) e rest = let gone = rw (check_evidence, e) at h in absurd (cc)
      go (returned (some proof)) e rest = elim (Bool-cases (verify_inclusion id proof)) [
        | inl valid ↦ ((proof, e, valid), rest (rw (check_evidence, e, valid) at h))
        | inr bad ↦ let gone = rw (check_evidence, e, bad) at h in absurd (cc)
      ]

  IsIncluded-check_evidence :
      (inv : String) (ids : List String)
      → All (IsIncluded inv) ids
      → check_evidence sv inv ids ≡ returned true
  unfolding check_evidence
  IsIncluded-check_evidence inv [] h = refl
  IsIncluded-check_evidence inv (id ∷ ids) ((proof, e, valid), hs) =
      rw (check_evidence, e, valid) (IsIncluded-check_evidence inv ids hs)

  -- What a match is evidence of.
  pub record IsVerified (with_tamper : Bool) (sealed : SealedManifest) : Type 0 where
    pub answer : ClaimsAnswer
    pub first : LedgerClaim
    pub more : List LedgerClaim
    pub verdict : KernelVerdict
    pub fetched : sv.fetch_claims sealed.manifest.investigation_id ≡ returned answer
    pub some_claims : answer.claims ≡ first ∷ more
    pub included : All (IsIncluded sealed.manifest.investigation_id) (evidence_ids (first ∷ more))
    pub recomputed :
        sv.verify_claim_set (request_for sv with_tamper sealed answer) ≡ returned (ok verdict)
    pub same_hash : verdict.verdict_hash ≡ sealed.manifest.verdict_hash

  module _ (with_tamper : Bool) (sealed : SealedManifest) where
    compared-match :
        (verdict : KernelVerdict) (p : Panel)
        → (compared sv sealed verdict p).result ≡ match
        → verdict.verdict_hash ≡ sealed.manifest.verdict_hash
    compared-match verdict p h =
        elim (Bool-cases (str_eq verdict.verdict_hash sealed.manifest.verdict_hash)) [
          | inl same ↦ (str_eq_iff verdict.verdict_hash sealed.manifest.verdict_hash).0 same
          | inr other ↦ let gone = rw other at h in absurd (cc)
        ]

    kernel-match :
        (a : Attempt KernelResult) (p : Panel)
        → (after_kernel sv sealed a p).result ≡ match
        → (verdict : KernelVerdict) × (a ≡ returned (ok verdict))
          × (verdict.verdict_hash ≡ sealed.manifest.verdict_hash)
    kernel-match (threw message) p h = absurd (cc)
    kernel-match (returned (failed_with message)) p h = absurd (cc)
    kernel-match (returned (ok verdict)) p h =
        (verdict, refl, compared-match verdict (set_step "kernel" done p) h)

    evidence-match :
        (answer : ClaimsAnswer) (a : Attempt Bool) (p : Panel)
        → (after_evidence sv with_tamper sealed answer a p).result ≡ match
        → (a ≡ returned true)
          × ((verdict : KernelVerdict) × (sv.verify_claim_set
                  (request_for sv with_tamper sealed answer)
                ≡ returned (ok verdict))
              × (verdict.verdict_hash ≡ sealed.manifest.verdict_hash))
    evidence-match answer (threw message) p h = absurd (cc)
    evidence-match answer (returned false) p h = absurd (cc)
    evidence-match answer (returned true) p h = (
      refl,
      kernel-match (sv.verify_claim_set (request_for sv with_tamper sealed answer))
          (set_step "kernel" active (set_step "evidence" done p)) h,
    )

    claims-match :
        (answer : ClaimsAnswer) (claims : List LedgerClaim) (p : Panel)
        → sv.fetch_claims sealed.manifest.investigation_id ≡ returned answer
        → answer.claims ≡ claims
        → (after_claims sv with_tamper sealed answer claims p).result ≡ match
        → IsVerified with_tamper sealed
    claims-match answer [] p e c h = absurd (cc)
    claims-match answer (first ∷ more) p e c h =
        let (checked, (verdict, recomputed, same)) =
          evidence-match answer
            (check_evidence sv sealed.manifest.investigation_id (evidence_ids (first ∷ more)))
            (set_step "evidence" active (set_step "fetch" done p)) h in
        record {
          answer = answer;
          first = first;
          more = more;
          verdict = verdict;
          fetched = e;
          some_claims = c;
          included =
              check_evidence-IsIncluded sealed.manifest.investigation_id
                (evidence_ids (first ∷ more)) checked;
          recomputed = recomputed;
          same_hash = same;
        }

    fetch-match :
        (a : Attempt ClaimsAnswer) (p : Panel)
        → sv.fetch_claims sealed.manifest.investigation_id ≡ a
        → (after_fetch sv with_tamper sealed a p).result ≡ match
        → IsVerified with_tamper sealed
    fetch-match (threw message) p e h = absurd (cc)
    fetch-match (returned answer) p e h = claims-match answer answer.claims _ e refl h

    match-IsVerified :
        (run_verification sv with_tamper sealed).result ≡ match → IsVerified with_tamper sealed
    unfolding run_verification
    match-IsVerified h = fetch-match (sv.fetch_claims sealed.manifest.investigation_id) _ refl h

    claims-verified :
        (answer : ClaimsAnswer) (claims more : List LedgerClaim) (first : LedgerClaim)
        (verdict : KernelVerdict)
        → claims ≡ first ∷ more
        → check_evidence sv sealed.manifest.investigation_id (evidence_ids (first ∷ more))
          ≡ returned true
        → sv.verify_claim_set (request_for sv with_tamper sealed answer) ≡ returned (ok verdict)
        → verdict.verdict_hash ≡ sealed.manifest.verdict_hash
        → let p =
            after_claims sv with_tamper sealed answer claims
              (set_step "fetch" active (started with_tamper)) in
          (p.result ≡ match)
          × (p.steps ≡ map (λ (s : Step). record s { status = done }) initial_steps)
    claims-verified answer claims more first verdict c checked recomputed same =
        rw (c, checked, recomputed, same, str_eq-refl sealed.manifest.verdict_hash) (refl, refl)

    IsVerified-match :
        IsVerified with_tamper sealed
        → ((run_verification sv with_tamper sealed).result ≡ match)
          × ((run_verification sv with_tamper sealed).steps
              ≡ map (λ (s : Step). record s { status = done }) initial_steps)
    unfolding run_verification
    IsVerified-match v = rw v.fetched (
        claims-verified v.answer v.answer.claims v.more v.first v.verdict v.some_claims
          (IsIncluded-check_evidence sealed.manifest.investigation_id
            (evidence_ids (v.first ∷ v.more)) v.included)
          v.recomputed v.same_hash)

    -- The panel shows a match exactly when the server gave at least one claim, a proof of every
    -- evidence id of the claims that checks, and the kernel returned a verdict with the sealed hash;
    -- then all four of its steps are done.
    pub run_verification-match_iff :
        (((run_verification sv with_tamper sealed).result ≡ match) ↔ IsVerified with_tamper sealed)
        × ((run_verification sv with_tamper sealed).result ≡ match
            → (run_verification sv with_tamper sealed).steps
              ≡ map (λ (s : Step). record s { status = done }) initial_steps)
    run_verification-match_iff = (
      (match-IsVerified, λ v. (IsVerified-match v).0),
      λ h. (IsVerified-match (match-IsVerified h)).1,
    )

    -- The root of the epoch that was sealed plays no part: with any other root in the manifest the
    -- panel ends in the same state, so that proofs of another tree pass.
    pub run_verification-epoch_root :
        (root : String)
        → run_verification sv with_tamper (with_epoch_root root sealed)
          ≡ run_verification sv with_tamper sealed
    unfolding run_verification
    run_verification-epoch_root root = refl
