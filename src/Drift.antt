-- ===== src/Drift.antt =====
-- web/src/lib/data/drift.ts: closed cases judged again under a policy in which one predicate has
-- risen in price. A read of `undefined` is `none`; `null` is `none` inside a result that is returned.
pub mod Flips
pub mod Sweep
use attesta_ai_powered_soc.Prelude.{
  ℕ, zero, suc, ◌+◌, ◌-◌, ◌*◌, ◌%◌, String, str_eq, Bool, true, false, ◌&&◌, not, Option, none,
  some, List, [], ◌∷◌, length, get_elem?, if◌then◌else◌,
}
use attesta_ai_powered_soc.Prelude.Assoc.{get, set, string_eq}
use attesta_ai_powered_soc.Prelude.Sort.{sort_by, earlier}
use attesta_ai_powered_soc.Types.{
  Severity, Disposition, RawClaim, SealedManifest, PolicyDelta, VerdictDrift,
}
use attesta_ai_powered_soc.Types.Equality.{severity_eq, disposition_eq}
use attesta_ai_powered_soc.Policy.{PredicateWeight, PolicyBundle, KernelRequest}
use attesta_ai_powered_soc.Kernel.{KernelVerdict, KernelResult, ok, failed_with, Kernel}
use attesta_ai_powered_soc.Merkle.{Hashing}
use attesta_ai_powered_soc.Merkle.Hex.{bytes_to_hex}
use attesta_ai_powered_soc.Verification.{raw_claims}
use attesta_ai_powered_soc.Ledger.{LedgerCaseData, LedgerData}

abbrev pub corpus_version : String
corpus_version = "corpus-2026.09.3"

abbrev pub day_ms : ℕ
day_ms = 86_400_000

pub record OldVerdict : Type 0 where
  pub severity : Severity
  pub disposition : Disposition
  pub verdict_hash : String

-- `augmented`: the policy with the predicate's weight raised
abbrev pub augmented : PolicyBundle → String → PredicateWeight → PolicyBundle
augmented policy predicate existing = record policy {
  predicate_weights =
      set policy.predicate_weights predicate (record existing { weight = existing.weight + 5000 });
}

-- Who the drift is about, and the two readings of the clock.
pub record Subject : Type 0 where
  pub case_id : String
  pub tenant_id : String
  pub flipped_clock : ℕ
  pub closed_clock : ℕ

-- The kernel did not flip.
abbrev pub is_unmoved : OldVerdict → KernelVerdict → Bool
is_unmoved old new =
    severity_eq.beq new.severity old.severity && disposition_eq.beq new.disposition old.disposition

abbrev pub subject_of : (ℕ → ℕ × ℕ) → ℕ → SealedManifest → Subject
subject_of clock i s = record {
  case_id = s.manifest.case_id;
  tenant_id = s.manifest.tenant_id;
  flipped_clock = (clock i).0;
  closed_clock = (clock i).1;
}

abbrev pub old_verdict_of : SealedManifest → OldVerdict
old_verdict_of s = record {
  severity = s.manifest.verdict_severity;
  disposition = s.manifest.verdict_disposition;
  verdict_hash = s.manifest.verdict_hash;
}

abbrev pub add_drift :
    Option (Option VerdictDrift) → Option (List VerdictDrift) → Option (List VerdictDrift)
add_drift none rest = none
add_drift (some none) rest = rest
add_drift (some (some drift)) none = none
add_drift (some (some drift)) (some rest) = some (drift ∷ rest)

abbrev pub flipped_of : VerdictDrift → ℕ
flipped_of drift = drift.flipped_at_ms

abbrev pub latest_first : Option (List VerdictDrift) → Option (List VerdictDrift)
latest_first none = none
latest_first (some drifts) = some (sort_by (earlier flipped_of) drifts)

module _ ⦃hs : Hashing⦄ where
  unfoldable pub corpus_hash : String
  corpus_hash = bytes_to_hex (hs.blake3 (hs.encode corpus_version))

  -- the literal of the drift
  abbrev pub drift_of :
      Subject
      → String
      → PredicateWeight
      → OldVerdict
      → KernelVerdict
      → KernelVerdict
      → ℕ
      → String
      → VerdictDrift
  drift_of subject predicate existing old recomputed new index responsible = record {
    case_id = subject.case_id;
    tenant_id = subject.tenant_id;
    old_severity = old.severity;
    new_severity = new.severity;
    old_disposition = old.disposition;
    new_disposition = new.disposition;
    old_verdict_hash = old.verdict_hash;
    new_verdict_hash = new.verdict_hash;
    old_contributing_claims = recomputed.contributing_claims;
    new_contributing_claims = new.contributing_claims;
    responsible_claim_ids = responsible ∷ [];
    policy_deltas =
        record {
          predicate = predicate;
          old_weight = existing.weight;
          new_weight = existing.weight + 5000;
        }
        ∷ [];
    indicator_corpus_version = corpus_version;
    indicator_corpus_hash = corpus_hash;
    flipped_at_ms = subject.flipped_clock - index % 6 * day_ms;
    closed_at_ms = subject.closed_clock - (index % 20 + 10) * day_ms;
  }

  -- The last line: the responsible claim's id is read, and the drift returned.
  abbrev pub reported :
      Subject
      → String
      → PredicateWeight
      → OldVerdict
      → KernelVerdict
      → KernelVerdict
      → ℕ
      → Option String
      → Option (Option VerdictDrift)
  reported subject predicate existing old recomputed new index none = none
  reported subject predicate existing old recomputed new index (some id) =
      some (some (drift_of subject predicate existing old recomputed new index id))

  -- From the kernel's two answers on.
  unfoldable pub weigh :
      Subject
      → String
      → PredicateWeight
      → OldVerdict
      → ℕ
      → KernelResult
      → KernelResult
      → Option (Option VerdictDrift)
  unfolding corpus_hash
  weigh subject predicate existing old index (ok recomputed) (ok new) =
      if is_unmoved old new
      then some none
      else if not (str_eq recomputed.verdict_hash old.verdict_hash)
      then some none
      else reported subject predicate existing old recomputed new index
          (get_elem? new.submitted_claim_ids index)
  weigh subject predicate existing old index _ _ = some none

  module _ (k : Kernel) where
    abbrev pub judge : String → List RawClaim → PolicyBundle → KernelResult
    judge version claims policy =
        k.verify_claim_set (record { kernel_version = version; policy = policy; claims = claims })

    -- The kernel's reader drops the claims' ids, which are not part of a request.
    unfoldable pub compute_drift_for_case :
        Subject
        → String
        → List RawClaim
        → PolicyBundle
        → OldVerdict
        → ℕ
        → Option (Option VerdictDrift)
    unfolding weigh
    compute_drift_for_case subject version claims policy old index = elim (get_elem? claims index) [
      | none ↦ none
      | some target ↦ elim (get policy.predicate_weights target.predicate) [
        | none ↦ some none
        | some existing ↦
            weigh subject target.predicate existing old index (judge version claims policy)
              (judge version claims (augmented policy target.predicate existing))
      ]
    ]

    abbrev drift_of_claims :
        (ℕ → ℕ × ℕ)
        → PolicyBundle
        → ℕ
        → SealedManifest
        → List RawClaim
        → Option (Option VerdictDrift)
    drift_of_claims clock policy i s [] = some none
    drift_of_claims clock policy i s (c ∷ cs) =
        compute_drift_for_case (subject_of clock i s) s.manifest.kernel_version (c ∷ cs) policy
          (old_verdict_of s) (i % length (c ∷ cs))

    -- The body of the loop, for the manifest at `i`; `clock` gives the two readings there.
    unfoldable pub drift_at :
        (ℕ → ℕ × ℕ) → LedgerData → ℕ → SealedManifest → Option (Option VerdictDrift)
    unfolding compute_drift_for_case
    drift_at clock d i s = elim (get d.case_data s.manifest.investigation_id) [
      | none ↦ some none
      | some cd ↦ drift_of_claims clock d.policy i s (raw_claims cd.claims)
    ]

    -- `for (let i = 0; i < manifests.length; i += 3)`, on the manifests from `i` on
    unfoldable pub drift_loop :
        (ℕ → ℕ × ℕ) → LedgerData → ℕ → List SealedManifest → Option (List VerdictDrift)
    unfolding drift_at
    drift_loop clock d i (s ∷ _ ∷ _ ∷ rest) =
        add_drift (drift_at clock d i s) (drift_loop clock d (i + 3) rest)
    drift_loop clock d i (s ∷ rest) = add_drift (drift_at clock d i s) (some [])
    drift_loop clock d i [] = some []

    -- `buildDrift`
    unfoldable pub build_drift : (ℕ → ℕ × ℕ) → LedgerData → Option (List VerdictDrift)
    unfolding drift_loop
    build_drift clock d = latest_first (drift_loop clock d 0 d.manifests)
