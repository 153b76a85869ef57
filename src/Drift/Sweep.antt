-- ===== src/Drift/Sweep.antt =====
-- `buildDrift` of web/src/lib/data/drift.ts on the data of the ledger: it returns, and every drift
-- names a sealed manifest whose verdict changes.
use attesta_ai_powered_soc.Prelude.{◌+◌, ◌≡◌, Option, none, some, List, [], ◌∷◌, In}
use attesta_ai_powered_soc.Types.{SealedManifest, PolicyDelta, VerdictDrift}
use attesta_ai_powered_soc.Types.Equality.{severity_eq, disposition_eq}
use attesta_ai_powered_soc.Kernel.{Kernel}

-- The drift is of a sealed manifest, its new severity or disposition differs from the sealed one, and
-- one predicate's weight rose by 5000.
pub record IsDriftOf (ms : List SealedManifest) (v : VerdictDrift) : Type 0 where
  pub sealed : SealedManifest
  pub member : In sealed ms
  pub of_case : v.case_id ≡ sealed.manifest.case_id
  pub old_hash : v.old_verdict_hash ≡ sealed.manifest.verdict_hash
  pub old_severity : v.old_severity ≡ sealed.manifest.verdict_severity
  pub old_disposition : v.old_disposition ≡ sealed.manifest.verdict_disposition
  pub moved : ¬ ((v.new_severity ≡ v.old_severity) × (v.new_disposition ≡ v.old_disposition))
  pub delta : PolicyDelta
  pub deltas : v.policy_deltas ≡ delta ∷ []
  pub raised : delta.new_weight ≡ delta.old_weight + 5000

abbrev DriftOr : List SealedManifest → Option VerdictDrift → Type 0
DriftOr ms none = Unit
DriftOr ms (some v) = IsDriftOf ms v
