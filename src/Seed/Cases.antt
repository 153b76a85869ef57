-- ===== src/Seed/Cases.antt =====
-- The cases of web/src/lib/data/seed.ts are generated, and are consistent in themselves.
use attesta_ai_powered_soc.Prelude.{
  ℕ, zero, suc, ◌+◌, ◌*◌, ◌≤◌, ◌≡◌, refl, ap, Bool, List, [], ◌∷◌, length, All, arith, min, some,
}
use attesta_ai_powered_soc.Types.{
  Severity, high, critical, Tactic, EntityType, host, user, process, ip, file, session, Case,
}
use attesta_ai_powered_soc.Rng.{Xorshift32, new_rng, ◌>>=◌}
use attesta_ai_powered_soc.Rng.Fractions.{Doubles}
use attesta_ai_powered_soc.Rng.Runs.{
  Runs, Runs-pure, Runs-bind, Runs-weaken, Runs-next, Runs-bool, Runs-int, Runs-pick, Runs-pick_n,
}
use attesta_ai_powered_soc.Rng.Sample.{Stays, Stays-le}
use attesta_ai_powered_soc.Seed.{
  severity_for_score, disposition_for, entity_of_type, random_entity, tactic_count, insert_tactic,
  sort_tactics, tactics_for_severity, status_for_severity, generate_case, cases_loop,
  generate_cases,
}

-- the bounds of `tacticsForSeverity`
abbrev pub fewest_tactics : Severity → ℕ
fewest_tactics critical = 3
fewest_tactics high = 2
fewest_tactics _ = 1

abbrev pub most_tactics : Severity → ℕ
most_tactics critical = 5
most_tactics high = 4
most_tactics _ = 2

pub record IsConsistent (now_ms : ℕ) (c : Case) : Type 0 where
  pub scored : c.risk_score ≤ 10000
  pub classified : c.severity ≡ severity_for_score c.risk_score
  pub disposed : (b : Bool) × (c.disposition ≡ disposition_for c.severity b)
  pub enough_tactics : fewest_tactics c.severity ≤ length c.tactics
  pub few_tactics : length c.tactics ≤ most_tactics c.severity
  pub claimed : (1 ≤ c.claim_count) × (c.claim_count ≤ 12)
  pub ordered : c.created_at_ms ≤ c.updated_at_ms
  pub past : c.updated_at_ms ≤ now_ms

length-insert_tactic : (t : Tactic) (ts : List Tactic) → length (insert_tactic t ts) ≡ length ts + 1
unfolding insert_tactic
length-insert_tactic t [] = omega arith
length-insert_tactic t (u ∷ us) = ground (arith, length-insert_tactic t us)

length-sort_tactics : (ts : List Tactic) → length (sort_tactics ts) ≡ length ts
unfolding sort_tactics
length-sort_tactics [] = refl
length-sort_tactics (t ∷ ts) =
    omega (arith, length-insert_tactic t (sort_tactics ts), length-sort_tactics ts)

module _ ⦃fp : Doubles⦄ where
  abbrev Anything : {A : Type 0} → A → Type 0
  Anything a = Unit {0}

  entity_of_type-Runs : (t : EntityType) → Runs 4 Anything (entity_of_type t)
  unfolding entity_of_type
  entity_of_type-Runs host =
      Runs-weaken 2 4 _ (omega arith) (λ _ _. tt)
        (Runs-bind 1 1 _ _ (Runs-pick _ (omega arith) (omega arith)) λ name _.
          Runs-bind 1 0 _ _ (Runs-int 1 99 (omega arith) (omega arith))
            λ n _. Runs-pure {P = Anything} _ tt)
  entity_of_type-Runs user =
      Runs-weaken 1 4 _ (omega arith) (λ _ _. tt)
        (Runs-bind 1 0 _ _ (Runs-pick _ (omega arith) (omega arith))
          λ name _. Runs-pure {P = Anything} _ tt)
  entity_of_type-Runs ip = Runs-bind 1 3 _ _ (Runs-int 10 203 (omega arith) (omega arith)) λ a _.
      Runs-bind 1 2 _ _ (Runs-int 0 255 (omega arith) (omega arith)) λ b _.
        Runs-bind 1 1 _ _ (Runs-int 0 255 (omega arith) (omega arith)) λ c _.
          Runs-bind 1 0 _ _ (Runs-int 1 254 (omega arith) (omega arith)) λ d _. Runs-pure _ tt
  entity_of_type-Runs process =
      Runs-weaken 1 4 _ (omega arith) (λ _ _. tt) (Runs-pick _ (omega arith) (omega arith))
  entity_of_type-Runs file =
      Runs-weaken 2 4 _ (omega arith) (λ _ _. tt)
        (Runs-bind 1 1 _ _ (Runs-pick _ (omega arith) (omega arith)) λ name _.
          Runs-bind 1 0 _ _ (Runs-pick _ (omega arith) (omega arith))
            λ ext _. Runs-pure {P = Anything} _ tt)
  entity_of_type-Runs session =
      Runs-weaken 1 4 _ (omega arith) (λ _ _. tt)
        (Runs-bind 1 0 _ _ (Runs-int 100000 999999 (omega arith) (omega arith))
          λ n _. Runs-pure {P = Anything} _ tt)

  tactic_count-Runs :
      (s : Severity) → Runs 1 (λ n. (fewest_tactics s ≤ n) × (n ≤ most_tactics s)) (tactic_count s)
  unfolding tactic_count
  tactic_count-Runs critical = Runs-int 3 5 (omega arith) (omega arith)
  tactic_count-Runs high = Runs-int 2 4 (omega arith) (omega arith)
  tactic_count-Runs _ = Runs-int 1 2 (omega arith) (omega arith)

  random_entity-Runs : Runs 5 Anything random_entity
  unfolding random_entity
  random_entity-Runs =
      Runs-bind 1 4 _ _ (Runs-pick _ (omega arith) (omega arith))
        λ t _. Runs-bind 4 0 _ _ (entity_of_type-Runs t) λ e _. Runs-pure _ tt

  abbrev HasTactics : Severity → List Tactic → Type 0
  HasTactics s ts = (fewest_tactics s ≤ length ts) × (length ts ≤ most_tactics s)

  enough_drawn :
      (s : Severity) (n : ℕ) (ts : List Tactic)
      → fewest_tactics s ≤ n
      → n ≤ most_tactics s
      → length ts ≡ min n 12
      → HasTactics s (sort_tactics ts)
  enough_drawn s n ts lo hi len = ground (arith, length-sort_tactics ts)

  pick_at_most : (s : Severity) (n : ℕ) → n ≤ most_tactics s → n ≤ 5
  pick_at_most s n h = ground arith

  tactics_for_severity-Runs : (s : Severity) → Runs 6 (HasTactics s) (tactics_for_severity s)
  unfolding tactics_for_severity
  tactics_for_severity-Runs s = Runs-bind 1 5 _ _ (tactic_count-Runs s) λ n (lo, hi).
      Runs-bind 5 0 _ _
        (Runs-weaken n 5 _ (pick_at_most s n hi) (λ _ len. len) (Runs-pick_n _ n (omega arith)))
        λ ts len. Runs-pure _ (enough_drawn s n ts lo hi len)

  status_for_severity-Runs : (s : Severity) → Runs 1 Anything (status_for_severity s)
  unfolding status_for_severity
  status_for_severity-Runs critical =
      Runs-weaken 1 1 _ (omega arith) (λ _ _. tt) (Runs-pick _ (omega arith) (omega arith))
  status_for_severity-Runs high =
      Runs-weaken 1 1 _ (omega arith) (λ _ _. tt) (Runs-pick _ (omega arith) (omega arith))
  status_for_severity-Runs _ = Runs-bind 1 0 _ _ Runs-next λ u _. Runs-pure _ tt

  pub generate_case-Runs :
      (index now_ms : ℕ) → Runs 20 (IsConsistent now_ms) (generate_case index now_ms)
  unfolding generate_case
  generate_case-Runs index now_ms = Runs-bind 5 15 _ _ random_entity-Runs λ (entity, entity_type) _.
      Runs-bind 1 14 _ _ (Runs-int 0 10000 (omega arith) (omega arith)) λ risk scored.
        Runs-bind 1 13 _ _ (Runs-bool 4 100) λ b _.
          Runs-bind 6 7 _ _ (tactics_for_severity-Runs (severity_for_score risk)) λ ts some_tactics.
            Runs-bind 1 6 _ _ (Runs-int 60_000 1_814_400_000 (omega arith) (omega arith)) λ age _.
              Runs-bind 1 5 _ _ (Runs-pick _ (omega arith) (omega arith)) λ template _.
                Runs-bind 1 4 _ _ (Runs-pick _ (omega arith) (omega arith)) λ tenant _.
                  Runs-bind 1 3 _ _ (Runs-int 1 12 (omega arith) (omega arith)) λ claims claimed.
                    Runs-bind 1 2 _ _ (Runs-int 0 _ (omega arith) (omega arith)) λ idle idled.
                      Runs-bind 1 1 _ _ (status_for_severity-Runs _) λ status _.
                        Runs-bind 1 0 _ _ (Runs-pick _ (omega arith) (omega arith)) λ assignee _.
                          Runs-pure _ (record {
                            scored = scored.1;
                            classified = refl;
                            disposed = (b, refl);
                            enough_tactics = some_tactics.0;
                            few_tactics = some_tactics.1;
                            claimed = claimed;
                            ordered = omega (arith, idled.1);
                            past = omega arith;
                          })

  -- `generateCase` returns a case with at most 20 draws, as long as those stay below 0xffffffff. Its
  -- severity is that of its score, which is at most 10000, its disposition follows, the number of
  -- its tactics is in the severity's range, and it was created no later than updated, and not later
  -- than now.
  pub generate_case-IsConsistent :
      (index now_ms : ℕ) (r : Xorshift32)
      → Stays 20 r
      → (c : Case) × (r' : Xorshift32) × (generate_case index now_ms r ≡ some (c, r'))
        × IsConsistent now_ms c
  generate_case-IsConsistent index now_ms r s =
      let (c, r', e, consistent, _) =
        (generate_case-Runs index now_ms).run 0 r (Stays-le (20 + 0) 20 r (omega arith) s) in
      (c, r', e, consistent)

  cases_loop_one :
      (now_ms : ℕ) (r r' : Xorshift32) (c : Case)
      → generate_case 0 now_ms r ≡ some (c, r')
      → cases_loop 1 0 now_ms r ≡ some (c ∷ [], r')
  unfolding cases_loop
  cases_loop_one now_ms r r' c e = rw (◌>>=◌, e) refl

  -- One case, from a generator whose outputs stay below 0xffffffff.
  pub generate_cases_one :
      (seed now_ms : ℕ)
      → Stays 20 (new_rng seed)
      → (c : Case) × (generate_cases 1 seed now_ms ≡ some (c ∷ []))
  unfolding generate_cases
  generate_cases_one seed now_ms h =
      let (c, r', e, _) = generate_case-IsConsistent 0 now_ms (new_rng seed) h in
      (c, rw (cases_loop_one now_ms (new_rng seed) r' c e) refl)

  cases_loop-Runs :
      (n index now_ms : ℕ)
      → Runs
          (n * 20)
          (λ l. (length l ≡ n) × All (IsConsistent now_ms) l)
          (cases_loop n index now_ms)
  unfolding cases_loop
  cases_loop-Runs zero index now_ms =
      Runs-weaken 0 (0 * 20) _ (omega arith) (λ l p. p) (Runs-pure [] (refl, tt))
  cases_loop-Runs (suc n) index now_ms =
      Runs-weaken (20 + (n * 20 + 0)) (suc n * 20) _ (omega arith) (λ l p. p)
        (Runs-bind 20 (n * 20 + 0) _ _ (generate_case-Runs index now_ms) λ c hc.
          Runs-bind (n * 20) 0 _ _ (cases_loop-Runs n (index + 1) now_ms)
            λ rest (len, hs). Runs-pure (c ∷ rest) (ap suc len, (hc, hs)))

  -- `generateCases(count, seed)` returns `count` consistent cases while the 20 * count outputs that
  -- it may draw stay below 0xffffffff.
  pub generate_cases-IsConsistent :
      (count seed now_ms : ℕ)
      → Stays (count * 20) (new_rng seed)
      → (cases : List Case) × (generate_cases count seed now_ms ≡ some cases)
        × (length cases ≡ count)
        × All (IsConsistent now_ms) cases
  unfolding generate_cases
  generate_cases-IsConsistent count seed now_ms h =
      let (cases, r', e, (len, all), _) =
        (cases_loop-Runs count 0 now_ms).run 0 (new_rng seed)
          (Stays-le (count * 20 + 0) (count * 20) (new_rng seed) (omega arith) h) in
      (cases, rw e refl, len, all)
