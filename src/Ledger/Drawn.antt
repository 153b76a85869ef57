-- ===== src/Ledger/Drawn.antt =====
-- What `generateClaims` of web/src/lib/data/ledger.ts returns: its claims, and how many.
use attesta_ai_powered_soc.Prelude.{
  ℕ, zero, ◌+◌, ◌*◌, ◌^◌, ◌≤◌, ◌<◌, ◌≡◌, refl, String, Bool, true, false, List, [], ◌∷◌, length, In,
  All, arith,
}
use attesta_ai_powered_soc.Types
use attesta_ai_powered_soc.Types.{Tactic, RawClaim}
use attesta_ai_powered_soc.Rng.{Rand}
use attesta_ai_powered_soc.Rng.Fractions.{Doubles}
use attesta_ai_powered_soc.Rng.Runs.{
  Runs, Runs-pure, Runs-bind, Runs-weaken, Runs-bool, Runs-int, Runs-pick, Runs-pick_n,
  Runs-array_from,
}
use attesta_ai_powered_soc.Seed.Timeline.{predicates_by_tactic}
use attesta_ai_powered_soc.Seed.Events.{hex_text-Runs, predicates_some}
use attesta_ai_powered_soc.Ledger.Claims.{
  optional, observed_objects, second_ns, evidence_id, draw_claim, claims_loop, generate_claims,
}

-- A claim about the entity, with a predicate of some tactic, from one to three pieces of evidence,
-- and an interval of 64-bit integers that does not end before it starts.
pub record IsPlausible (entity : String) (c : RawClaim) : Type 0 where
  pub tactic : Tactic
  pub predicate : In c.predicate (predicates_by_tactic tactic)
  pub subject : c.subject ≡ entity
  pub some_evidence : 1 ≤ length c.evidence
  pub few_evidence : length c.evidence ≤ 3
  pub ordered : c.interval_start_ns ≤ c.interval_end_ns
  pub within : c.interval_end_ns < 2 ^ 63

-- A claim set as the ledger hands it to the kernel: from two to four such claims about one entity.
pub record IsClaimSet (claims : List RawClaim) : Type 0 where
  pub entity : String
  pub plausible : All (IsPlausible entity) claims
  pub many : 2 ≤ length claims
  pub few : length claims ≤ 4

-- How far the clock, in nanoseconds, and the claims' times may go.
abbrev pub latest : ℕ
latest = 2 ^ 61

abbrev limit : ℕ
limit = 2 ^ 61 + 2 ^ 60

module _ ⦃fp : Doubles⦄ where
  abbrev pub Anything : {A : Type 0} → A → Type 0
  Anything a = Unit {0}

  pub evidence_id-Runs : Runs 16 Anything evidence_id
  unfolding evidence_id
  evidence_id-Runs = Runs-bind 16 0 _ _ (hex_text-Runs 16) λ digits _. Runs-pure {P = Anything} _ tt

  pub optional-Runs :
      {A : Type 0} (b : Bool) (m : Rand A) → Runs 1 Anything m → Runs 1 Anything (optional b m)
  optional-Runs true m h = Runs-bind 1 0 _ _ h λ a _. Runs-pure {P = Anything} _ tt
  optional-Runs false m h =
      Runs-weaken 0 1 _ (omega arith) (λ _ _. tt) (Runs-pure {P = Anything} _ tt)

  nearest-grows : (a b : ℕ) → fp.nearest a ≤ fp.nearest (fp.nearest a + b)
  nearest-grows a b =
      omega
        (arith, fp.nearest_idem a, fp.nearest_mono (fp.nearest a) (fp.nearest a + b) (omega arith))

  nearest_step :
      (cursor step : ℕ)
      → cursor ≤ limit
      → step ≤ 600
      → fp.nearest (cursor + step * second_ns) ≤ cursor + 2 ^ 40
  nearest_step cursor step h few =
      let close = fp.nearest_close (cursor + step * second_ns) (omega arith) in omega (arith, close)

  nearest_end :
      (cursor step span : ℕ)
      → cursor ≤ limit
      → step ≤ 600
      → span ≤ 5_000_000_000
      → fp.nearest (fp.nearest (cursor + step * second_ns) + span) < 2 ^ 63
  nearest_end cursor step span h few short =
      let start = fp.nearest (cursor + step * second_ns) in
      let before : start ≤ cursor + 2 ^ 40 = nearest_step cursor step h few in
      let close = fp.nearest_close (start + span) (omega arith) in omega (arith, close, before)

  draw_claim-Runs :
      (entity : String) (t : Tactic) (cursor : ℕ)
      → cursor ≤ limit
      → Runs 57
          (λ c. IsPlausible entity c × (c.interval_start_ns ≤ cursor + 2 ^ 40))
          (draw_claim entity t cursor)
  unfolding draw_claim
  draw_claim-Runs entity t cursor early =
      Runs-bind 1 56 _ _
        (Runs-pick (predicates_by_tactic t) (predicates_some t).0 (predicates_some t).1)
        λ predicate pm.
          Runs-bind 1 55 _ _ (Runs-int 1 600 (omega arith) (omega arith)) λ step (_, brief).
            Runs-bind 1 54 _ _ (Runs-int 1 3 (omega arith) (omega arith)) λ n (n1, n3).
              Runs-bind 48 6 _ _
                (Runs-weaken (n * 16) 48 _ (omega arith) (λ _ p. p)
                  (Runs-array_from n 16 evidence_id evidence_id-Runs))
                λ evidence (len, _). Runs-bind 1 5 _ _ (Runs-bool 4 10) λ with_object _.
                  Runs-bind 1 4 _ _
                    (optional-Runs with_object _ (
                      Runs-weaken 1 1 _ (omega arith) (λ _ _. tt)
                        (Runs-pick observed_objects (omega arith) (omega arith))))
                    λ observed _.
                      Runs-bind 1 3 _ _ (Runs-int 1 5_000_000_000 (omega arith) (omega arith))
                        λ span (_, short). Runs-bind 1 2 _ _ (Runs-bool 6 10) λ with_value _.
                          Runs-bind 1 1 _ _
                            (optional-Runs with_value _ (
                              Runs-weaken 1 1 _ (omega arith) (λ _ _. tt)
                                (Runs-int 1 200 (omega arith) (omega arith))))
                            λ value _. Runs-bind 1 0 _ _ (Runs-bool 92 100) λ supporting _.
                              Runs-pure _ (
                                record {
                                  tactic = t;
                                  within = nearest_end cursor step span early brief short;
                                  predicate = pm;
                                  subject = refl;
                                  some_evidence = omega arith;
                                  few_evidence = omega arith;
                                  ordered = nearest-grows (cursor + step * second_ns) span;
                                },
                                nearest_step cursor step early brief,
                              )

  claims_loop-Runs :
      (entity : String) (ts : List Tactic) (cursor : ℕ)
      → cursor + length ts * 2 ^ 40 ≤ limit
      → Runs
          (57 * length ts)
          (λ cs. All (IsPlausible entity) cs × (length cs ≡ length ts))
          (claims_loop entity ts cursor)
  unfolding claims_loop
  claims_loop-Runs entity [] cursor early =
      Runs-weaken 0 (57 * zero) _ (omega arith) (λ _ p. p) (Runs-pure [] (tt, refl))
  claims_loop-Runs entity (t ∷ ts) cursor early =
      Runs-weaken (57 + (57 * length ts + 0)) (57 * length (t ∷ ts)) _ (omega arith) (λ _ p. p)
        (Runs-bind 57 (57 * length ts + 0) _ _ (draw_claim-Runs entity t cursor (omega arith))
          λ c (pc, before).
            Runs-bind (57 * length ts) 0 _ _
              (claims_loop-Runs entity ts c.interval_start_ns (omega arith))
              λ cs (pcs, len). Runs-pure (c ∷ cs) ((pc, pcs), omega arith))

  -- From two to four claims, each plausible, for a time that is not too late.
  pub generate_claims-Runs :
      (entity : String) (base : ℕ)
      → base ≤ latest + 2 ^ 20
      → Runs 233 IsClaimSet (generate_claims entity base)
  unfolding generate_claims
  generate_claims-Runs entity base early =
      Runs-bind 1 232 _ _ (Runs-int 2 4 (omega arith) (omega arith)) λ n (n2, n4).
        Runs-bind 4 228 _ _
          (Runs-weaken n 4 _ (omega arith) (λ _ p. p) (Runs-pick_n Types.tactics n (omega arith)))
          λ ts len.
            Runs-weaken (57 * length ts) 228 _ (omega (arith, len))
              (λ _ (all, same). record {
                entity = entity;
                plausible = all;
                many = omega (arith, len, same);
                few = omega (arith, len, same);
              })
              (claims_loop-Runs entity ts base (omega (arith, len)))
