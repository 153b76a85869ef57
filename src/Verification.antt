-- ===== src/Verification.antt =====
-- The verification panel of the verdict ledger:
-- web/src/components/verdict-ledger/verification-panel.tsx. The server's answers and the kernel
-- (compiled to WebAssembly) are parameters; each may throw.
pub mod Outcomes
use attesta_ai_powered_soc.Prelude.{
  ℕ, ◌+◌, String, str_eq, Bool, true, false, Option, none, some, List, [], ◌∷◌, ◌++◌, map,
  if◌then◌else◌,
}
use attesta_ai_powered_soc.Prelude.Assoc.{has, string_eq}
use attesta_ai_powered_soc.Types.{RawClaim, LedgerClaim, Manifest, SealedManifest}
use attesta_ai_powered_soc.Policy.{PolicyBundle, KernelRequest}
use attesta_ai_powered_soc.Kernel.{KernelVerdict, KernelResult, ok, failed_with}
use attesta_ai_powered_soc.Merkle.{Hashing, InclusionProof, verify_inclusion}

-- What an awaited call does: it returns, or throws an error with a message.
pub data Attempt (A : Type 0) : Type 0 where
  returned : A → Attempt A
  threw : String → Attempt A

pub record ClaimsAnswer : Type 0 where
  pub claims : List LedgerClaim
  pub policy : PolicyBundle

-- `fetchClaims`, `fetchProof` (`none` when the answer is not ok) and `verifyClaimSet`
pub record Services : Type 0 where
  pub fetch_claims : String → Attempt ClaimsAnswer
  pub fetch_proof : String → String → Attempt (Option InclusionProof)
  pub verify_claim_set : KernelRequest → Attempt KernelResult

pub data StepStatus : Type 0 where
  pending active done failed : StepStatus

pub record Step : Type 0 where
  pub id : String
  pub label : String
  pub status : StepStatus

abbrev pub initial_steps : List Step
initial_steps =
    record { id = "fetch"; label = "Fetch claim set"; status = pending }
    ∷ record { id = "evidence"; label = "Verify evidence inclusion"; status = pending }
    ∷ record { id = "kernel"; label = "Run kernel (WASM, in-browser)"; status = pending }
    ∷ record { id = "compare"; label = "Compare verdict hash"; status = pending }
    ∷ []

pub data Result : Type 0 where
  idle match mismatch error : Result

pub record Panel : Type 0 where
  pub steps : List Step
  pub result : Result
  pub recomputed_hash : Option String
  pub error_msg : Option String
  pub tampered : Bool
  pub running : Bool

abbrev pub set_step : String → StepStatus → Panel → Panel
set_step id status p = record p {
  steps = map (λ (s : Step). if str_eq s.id id then record s { status = status } else s) p.steps;
}

abbrev with_result : Result → String → Panel → Panel
with_result result message p = record p { result = result; error_msg = some message }

abbrev pub started : Bool → Panel
started with_tamper = record {
  steps = initial_steps;
  result = idle;
  recomputed_hash = none;
  error_msg = none;
  tampered = with_tamper;
  running = true;
}

-- `Array.from(new Set(xs))`, after the members that were seen
unfoldable pub unique : List String → List String → List String
unique seen [] = []
unique seen (x ∷ xs) =
    let without = unique seen xs in
    let more = unique (x ∷ seen) xs in if has seen x then without else x ∷ more

abbrev all_evidence : List LedgerClaim → List String
all_evidence [] = []
all_evidence (c ∷ cs) = c.raw.evidence ++ all_evidence cs

abbrev pub evidence_ids : List LedgerClaim → List String
evidence_ids claims = unique [] (all_evidence claims)

abbrev or_zero : Option ℕ → ℕ
or_zero none = 0
or_zero (some n) = n

abbrev pub raw_claims : List LedgerClaim → List RawClaim
raw_claims claims = map (λ (c : LedgerClaim). c.raw) claims

-- the first claim, with its observed value raised
abbrev tamper : List RawClaim → List RawClaim
tamper [] = []
tamper (c ∷ cs) = record c { observed_value = some (or_zero c.observed_value + 999_999) } ∷ cs

abbrev pub request_claims : Bool → List RawClaim → List RawClaim
request_claims with_tamper claims = if with_tamper then tamper claims else claims

module _ ⦃hs : Hashing⦄ (sv : Services) where
  -- The loop over the evidence ids: whether all of them are included.
  unfoldable pub check_evidence : String → List String → Attempt Bool
  check_evidence investigation_id [] = returned true
  check_evidence investigation_id (id ∷ ids) =
      let rest = check_evidence investigation_id ids in
      elim (sv.fetch_proof investigation_id id) [
        | threw message ↦ threw message
        | returned none ↦ returned false
        | returned (some proof) ↦ if verify_inclusion id proof then rest else returned false
      ]

  abbrev pub compared : SealedManifest → KernelVerdict → Panel → Panel
  compared sealed verdict p =
      let matches = str_eq verdict.verdict_hash sealed.manifest.verdict_hash in
      let q = set_step "compare" (if matches then done else failed) (set_step "compare" active p) in
      record q {
        recomputed_hash = some verdict.verdict_hash;
        result = if matches then match else mismatch;
      }

  abbrev pub after_kernel : SealedManifest → Attempt KernelResult → Panel → Panel
  after_kernel sealed (threw message) p = with_result error message p
  after_kernel sealed (returned (failed_with message)) p =
      with_result error message (set_step "kernel" failed p)
  after_kernel sealed (returned (ok verdict)) p = compared sealed verdict (set_step "kernel" done p)

  abbrev pub request_for : Bool → SealedManifest → ClaimsAnswer → KernelRequest
  request_for with_tamper sealed answer = record {
    kernel_version = sealed.manifest.kernel_version;
    policy = answer.policy;
    claims = request_claims with_tamper (raw_claims answer.claims);
  }

  abbrev pub after_evidence : Bool → SealedManifest → ClaimsAnswer → Attempt Bool → Panel → Panel
  after_evidence with_tamper sealed answer (threw message) p = with_result error message p
  after_evidence with_tamper sealed answer (returned false) p =
      with_result mismatch "An evidence hash failed inclusion verification against the epoch root."
        (set_step "evidence" failed p)
  after_evidence with_tamper sealed answer (returned true) p =
      after_kernel sealed (sv.verify_claim_set (request_for with_tamper sealed answer))
        (set_step "kernel" active (set_step "evidence" done p))

  abbrev pub after_claims : Bool → SealedManifest → ClaimsAnswer → List LedgerClaim → Panel → Panel
  after_claims with_tamper sealed answer [] p =
      with_result error "no claims returned for this investigation" p
  after_claims with_tamper sealed answer (c ∷ cs) p =
      after_evidence with_tamper sealed answer
        (check_evidence sealed.manifest.investigation_id (evidence_ids (c ∷ cs)))
        (set_step "evidence" active (set_step "fetch" done p))

  abbrev pub after_fetch : Bool → SealedManifest → Attempt ClaimsAnswer → Panel → Panel
  after_fetch with_tamper sealed (threw message) p = with_result error message p
  after_fetch with_tamper sealed (returned answer) p =
      after_claims with_tamper sealed answer answer.claims p

  -- `runVerification`: the panel once it has ended.
  unfoldable pub run_verification : Bool → SealedManifest → Panel
  unfolding check_evidence unique
  run_verification with_tamper sealed =
      let p =
        after_fetch with_tamper sealed (sv.fetch_claims sealed.manifest.investigation_id)
          (set_step "fetch" active (started with_tamper)) in
      record p { running = false }
