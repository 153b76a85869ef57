-- ===== src/Seed/Classify.antt =====
-- The cases that web/src/lib/data/seed.ts generates are classified by their scores.
use attesta_ai_powered_soc.Prelude.{
  ℕ, zero, suc, ◌+◌, ◌≡◌, refl, Bool, Option, none, some, List, [], ◌∷◌, min, All, some_inj,
}
use attesta_ai_powered_soc.Types.{Case}
use attesta_ai_powered_soc.Rng.{Xorshift32, new_rng, int, bool, pick}
use attesta_ai_powered_soc.Rng.Fractions.{Doubles}
use attesta_ai_powered_soc.Rng.Ensures.{Ensures, Ensures-pure, Ensures-then, Ensures-bind}
use attesta_ai_powered_soc.Seed.{
  generate_case, generate_cases, cases_loop, results, random_entity, tactics_for_severity,
  status_for_severity, title_templates, tenants, assignees, severity_for_score, disposition_for,
}

-- A case's severity is that of its score, and its disposition that of its severity.
abbrev pub IsClassified : Case → Type 0
IsClassified c =
    (c.severity ≡ severity_for_score c.risk_score)
    × ((b : Bool) × (c.disposition ≡ disposition_for c.severity b))

module _ ⦃fp : Doubles⦄ where
  generate_case-Ensures : (index now_ms : ℕ) → Ensures IsClassified (generate_case index now_ms)
  unfolding generate_case
  generate_case-Ensures index now_ms = Ensures-then random_entity _ λ (entity, entity_type).
      Ensures-then (int 0 10000) _ λ risk. Ensures-then (bool 4 100) _ λ b.
        Ensures-then (tactics_for_severity (severity_for_score risk)) _ λ ts.
          Ensures-then (int 60_000 1_814_400_000) _ λ age.
            Ensures-then (pick title_templates) _ λ template.
              Ensures-then (pick tenants) _ λ tenant. Ensures-then (int 1 12) _ λ claims.
                Ensures-then (int 0 (min age 3_600_000)) _ λ idle.
                  Ensures-then (status_for_severity (severity_for_score risk)) _ λ status.
                    Ensures-then (pick assignees) _ λ assignee. Ensures-pure _ (refl, (b, refl))

  cases_loop-Ensures : (n index now_ms : ℕ) → Ensures (All IsClassified) (cases_loop n index now_ms)
  unfolding cases_loop
  cases_loop-Ensures zero index now_ms = Ensures-pure [] tt
  cases_loop-Ensures (suc n) index now_ms =
      Ensures-bind (generate_case index now_ms) _ (generate_case-Ensures index now_ms) λ c hc.
        Ensures-bind (cases_loop n (index + 1) now_ms) _ (cases_loop-Ensures n (index + 1) now_ms)
          λ rest h. Ensures-pure (c ∷ rest) (hc, h)

  -- Whatever `generateCases` returns is classified.
  pub generate_cases-IsClassified :
      (count seed now_ms : ℕ) (cases : List Case)
      → generate_cases count seed now_ms ≡ some cases
      → All IsClassified cases
  unfolding generate_cases
  generate_cases-IsClassified count seed now_ms cases e =
      go (cases_loop count 0 now_ms (new_rng seed)) refl e
    where
      go :
          (o : Option (List Case × Xorshift32))
          → cases_loop count 0 now_ms (new_rng seed) ≡ o
          → results o ≡ some cases
          → All IsClassified cases
      go none p q = cc
      go (some (cs, r)) p q =
          let same : cs ≡ cases = some_inj q in
          rw (← same) ((cases_loop-Ensures count 0 now_ms).holds (new_rng seed) r cs p)
