-- ===== src/Drift/Flips.antt =====
-- When web/src/lib/data/drift.ts reports a drift, on the data of the ledger.
use attesta_ai_powered_soc.Prelude.{
  ℕ, ◌%◌, ◌≡◌, String, none, some, List, length, get_elem?, if◌then◌else◌,
}
use attesta_ai_powered_soc.Prelude.Assoc.{get, string_eq}
use attesta_ai_powered_soc.Types.{RawClaim, SealedManifest}
use attesta_ai_powered_soc.Types.Equality.{severity_eq, disposition_eq}
use attesta_ai_powered_soc.Policy.{PredicateWeight, build_synthetic_policy}
use attesta_ai_powered_soc.Kernel.{KernelVerdict, ok, Kernel}
use attesta_ai_powered_soc.Merkle.{Hashing}
use attesta_ai_powered_soc.Verification.{raw_claims}
use attesta_ai_powered_soc.Ledger.{LedgerCaseData, LedgerData, kernel_version}
use attesta_ai_powered_soc.Ledger.Sealing.{IsKernel}
use attesta_ai_powered_soc.Drift.{
  augmented, is_unmoved, drift_of, judge, subject_of, old_verdict_of, drift_at,
}

module _ ⦃hs : Hashing⦄ (k : Kernel) where
  -- The kernel takes the ledger's claim sets under the console's policy with one price raised.
  abbrev pub TakesRaised : Type 0
  TakesRaised =
      (predicate : String) (existing : PredicateWeight)
      → get build_synthetic_policy.predicate_weights predicate ≡ some existing
      → IsKernel k (augmented build_synthetic_policy predicate existing)

  -- The claim of the case whose predicate is repriced, the kernel's verdicts under the ledger's
  -- policy and under the raised price, and the answer: a drift exactly if that verdict's severity or disposition is another.
  pub record IsRepriced (clock : ℕ → ℕ × ℕ) (d : LedgerData) (i : ℕ) (s : SealedManifest)
      : Type 0 where
    pub case_data : LedgerCaseData
    pub claims : List RawClaim
    pub target : RawClaim
    pub existing : PredicateWeight
    pub recomputed : KernelVerdict
    pub verdict : KernelVerdict
    pub responsible : String
    pub stored : get d.case_data s.manifest.investigation_id ≡ some case_data
    pub of_case : raw_claims case_data.claims ≡ claims
    pub at : get_elem? claims (i % length claims) ≡ some target
    pub priced : get d.policy.predicate_weights target.predicate ≡ some existing
    pub judged_again : judge k kernel_version claims d.policy ≡ ok recomputed
    pub judged :
        judge k kernel_version claims (augmented d.policy target.predicate existing) ≡ ok verdict
    pub same_as_sealed : recomputed.verdict_hash ≡ s.manifest.verdict_hash
    pub named : get_elem? verdict.submitted_claim_ids (i % length claims) ≡ some responsible
    pub answered :
        drift_at k clock d i s
        ≡ some (
            if is_unmoved (old_verdict_of s) verdict
            then none
            else some (
                drift_of
                  (subject_of clock i s)
                  target.predicate
                  existing
                  (old_verdict_of s)
                  recomputed
                  verdict
                  (i % length claims)
                  responsible))
