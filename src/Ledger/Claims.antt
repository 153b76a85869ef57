-- ===== src/Ledger/Claims.antt =====
-- `generateClaims` of web/src/lib/data/ledger.ts: the claims of an investigation, before the kernel
-- has given them their ids.
use attesta_ai_powered_soc.Prelude.{
  ℕ, ◌+◌, ◌*◌, String, Bool, Option, none, some, List, [], ◌∷◌, if◌then◌else◌,
}
use attesta_ai_powered_soc.Prelude.Text.{◌<>◌, to_lower}
use attesta_ai_powered_soc.Types
use attesta_ai_powered_soc.Types.{Tactic, tactic_text, RawClaim, Polarity, supports, refutes}
use attesta_ai_powered_soc.Rng.{Rand, ◌>>=◌, pure, bool, int, pick, pick_n, array_from}
use attesta_ai_powered_soc.Rng.Fractions.{Doubles}
use attesta_ai_powered_soc.Seed.Timeline.{predicates_by_tactic, hex_text}

abbrev pub observed_objects : List String
observed_objects = "powershell.exe" ∷ "cmd.exe" ∷ "bash" ∷ "203.0.113.7" ∷ []

abbrev pub second_ns : ℕ
second_ns = 1_000_000_000

-- `b ? draw : null`
abbrev pub optional : {A : Type 0} → Bool → Rand A → Rand (Option A)
optional b draw = if b then (do a ← draw; pure (some a)) else pure none

module _ ⦃fp : Doubles⦄ where
  unfoldable pub evidence_id : Rand String
  evidence_id = do digits ← hex_text 16; pure ("blake3:" <> digits)

  -- The body of the loop: a claim that starts after `cursor_ns`.
  unfoldable pub draw_claim : String → Tactic → ℕ → Rand RawClaim
  draw_claim entity tactic cursor_ns = do
    predicate ← pick (predicates_by_tactic tactic)
    step ← int 1 600
    let start_ns = fp.nearest (cursor_ns + step * second_ns)
    evidence_count ← int 1 3
    evidence ← array_from evidence_count evidence_id
    with_object ← bool 4 10
    observed_object ← optional with_object (pick observed_objects)
    span_ns ← int 1 5_000_000_000
    with_value ← bool 6 10
    observed_value ← optional with_value (int 1 200)
    supporting ← bool 92 100
    pure (record {
      predicate = predicate;
      subject = entity;
      object = observed_object;
      interval_start_ns = start_ns;
      interval_end_ns = fp.nearest (start_ns + span_ns);
      evidence = evidence;
      extractor_kind = "rule";
      extractor_id = "cdl." <> tactic_text tactic <> "." <> to_lower predicate;
      extractor_version = "1";
      observed_value = observed_value;
      polarity = if supporting then supports else refutes;
      hypothesis_ref = none;
    })

  -- The loop; a claim's start is the cursor of the next round.
  unfoldable pub claims_loop : String → List Tactic → ℕ → Rand (List RawClaim)
  unfolding draw_claim
  claims_loop entity [] cursor_ns = pure []
  claims_loop entity (tactic ∷ rest) cursor_ns = do
    c ← draw_claim entity tactic cursor_ns
    more ← claims_loop entity rest c.interval_start_ns
    pure (c ∷ more)

  unfoldable pub generate_claims : String → ℕ → Rand (List RawClaim)
  unfolding claims_loop
  generate_claims entity base_ns = do
    n ← int 2 4
    tactics ← pick_n Types.tactics n
    claims_loop entity tactics base_ns
