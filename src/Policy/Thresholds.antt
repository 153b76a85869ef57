-- ===== src/Policy/Thresholds.antt =====
-- The thresholds of web/src/lib/data/policy.ts, as kernel/src/policy.rs reads them, against the
-- ladder of `severityForScore` in web/src/lib/data/seed.ts.
use attesta_ai_powered_soc.Prelude.{
  ℕ, ◌≤◌, ◌≡◌, Option, none, some, List, [], ◌∷◌, arith, leb, if◌then◌else◌,
}
use attesta_ai_powered_soc.Types.{Severity}
use attesta_ai_powered_soc.Types.Equality.{severity_rank, disposition_rank}
use attesta_ai_powered_soc.Seed.{severity_for_score, disposition_for}
use attesta_ai_powered_soc.Policy.{PolicyBundle, build_synthetic_policy}
use attesta_ai_powered_soc.Prelude.{false}

-- the loop of `PolicyBundle::classify` of the kernel
pub classify_loop : ℕ → Severity → List (ℕ × Severity) → Severity
classify_loop score result [] = result
classify_loop score result ((threshold, severity) ∷ rest) =
    classify_loop score (if leb threshold score then severity else result) rest

abbrev classify_from : ℕ → List (ℕ × Severity) → Option Severity
classify_from score [] = none
classify_from score ((threshold, severity) ∷ rest) =
    some (classify_loop score severity ((threshold, severity) ∷ rest))

-- `none` is the panic at an empty list, which a bundle's validation excludes.
unfoldable pub classify : PolicyBundle → ℕ → Option Severity
unfolding classify_loop
classify policy score = classify_from score policy.severity_thresholds

-- For every score, the kernel classifies it under the console's synthetic policy as the console's
-- own ladder does.
pub classify-build_synthetic_policy :
    (score : ℕ) → classify build_synthetic_policy score ≡ some (severity_for_score score)
unfolding classify build_synthetic_policy severity_for_score
classify-build_synthetic_policy score = ground arith

-- A higher score has no lower severity, and no lower disposition of a complete case.
pub severity_for_score_mono :
    (a b : ℕ)
    → a ≤ b
    → (severity_rank (severity_for_score a) ≤ severity_rank (severity_for_score b))
      × (disposition_rank (disposition_for (severity_for_score a) false)
          ≤ disposition_rank (disposition_for (severity_for_score b) false))
unfolding severity_for_score disposition_for
severity_for_score_mono a b h = ground arith
