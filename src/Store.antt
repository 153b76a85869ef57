-- ===== src/Store.antt =====
-- web/src/lib/data/store.ts: the in-memory store behind the console's routes. A function that mutates
-- the store returns the new one; `none` is a read of `undefined`. The readings of `Date.now()` are
-- arguments.
pub mod Actions
pub mod Stats
pub mod Invariant
pub mod Progress
pub mod Decisions
pub mod Proposals
pub mod Radius
use attesta_ai_powered_soc.Prelude.{
  ℕ, ◌+◌, ◌-◌, ◌*◌, ◌^◌, min, String, Bool, Option, none, some, List, [], ◌∷◌, ◌++◌, map, length,
  drop, ltb, ◌==◌, if◌then◌else◌,
}
use attesta_ai_powered_soc.Prelude.Assoc.{Assoc, get, set, set_all, string_eq}
use attesta_ai_powered_soc.Prelude.Int.{ℤ, pos, negsuc, sub_ℕ, ◌+ℤ◌}
use attesta_ai_powered_soc.Prelude.Text.{◌<>◌, decimal, to_string}
use attesta_ai_powered_soc.Types.{
  Case, DetectorFireEvent, ResponseAction, Disposition, benign, suspicious, malicious, incomplete,
}
use attesta_ai_powered_soc.Types.Equality.{disposition_rank}
use attesta_ai_powered_soc.Rng.{
  Xorshift32, Rand, ◌>>=◌, pure, new_rng, next_rand, int, draw, pick, at_index,
}
use attesta_ai_powered_soc.Rng.Fractions.{Doubles}
use attesta_ai_powered_soc.Seed.{severity_for_score, disposition_for, generate_cases, below_percent}

pub record Store : Type 0 where
  pub cases : Assoc String Case
  pub order : List String
  pub detector_fires : List DetectorFireEvent
  pub response_actions : Assoc String ResponseAction
  pub live_rng : Xorshift32
  pub ingest_rate_per_sec : ℕ

-- The store that `initStore` makes of the generated cases and the response actions built for them.
unfoldable pub init_store : List Case → Assoc String ResponseAction → Xorshift32 → Store
init_store cases actions rng = record {
  cases = set_all [] (map (λ (c : Case). (c.id, c)) cases);
  order = map (λ (c : Case). c.id) cases;
  detector_fires = [];
  response_actions = actions;
  live_rng = rng;
  ingest_rate_per_sec = 40;
}

unfoldable pub get_case : Store → String → Option Case
get_case s id = get s.cases id

abbrev cons_case : Option Case → Option (List Case) → Option (List Case)
cons_case (some c) (some cs) = some (c ∷ cs)
cons_case _ _ = none

pub cases_at : Assoc String Case → List String → Option (List Case)
cases_at cases [] = some []
cases_at cases (id ∷ ids) = cons_case (get cases id) (cases_at cases ids)

-- `store.order.map((id) => store.cases.get(id)!)`
unfoldable pub list_cases : Store → Option (List Case)
unfolding cases_at
list_cases s = cases_at s.cases s.order

pub data TickEvent : Type 0 where
  update : Case → TickEvent
  new_case : Case → TickEvent
  fire : DetectorFireEvent → TickEvent

-- What a part of `tick` returns: the event, the store and the generator after it.
abbrev Outcome : Type 0
Outcome = TickEvent × Store

abbrev rule_ids : List String
rule_ids =
    "cdl.credential.auth-burst-then-success" ∷ "cdl.execution.interpreter-spawned"
    ∷ "cdl.execution.encoded-command" ∷ "cdl.c2.interpreter-network-egress"
    ∷ "cdl.c2.connected-to-indicator" ∷ []

-- `Math.max(0, Math.min(10000, z))`
abbrev pub clamp_risk : ℤ → ℕ
clamp_risk (pos n) = min 10000 n
clamp_risk (negsuc n) = 0

abbrev pub is_incomplete : Disposition → Bool
is_incomplete d = disposition_rank d == 3

-- A new case at the top of the queue.
pub add_case : Case → Store → Store
add_case c s = record s { cases = set s.cases c.id c; order = c.id ∷ s.order }

-- A case whose risk score moved by `delta`, classified again.
pub rescored : ℤ → ℕ → Case → Case
rescored delta now_ms existing =
    let risk_score = clamp_risk (pos existing.risk_score +ℤ delta) in
    let severity = severity_for_score risk_score in
    record existing {
      risk_score = risk_score;
      severity = severity;
      disposition = disposition_for severity (is_incomplete existing.disposition);
      updated_at_ms = now_ms;
    }

pub put_case : String → Case → Store → Store
put_case id c s = record s { cases = set s.cases id c }

-- `push`, and `shift` when there are more than 200
pub push_fire : DetectorFireEvent → Store → Store
push_fire event s =
    let fires = s.detector_fires ++ event ∷ [] in
    record s { detector_fires = if ltb 200 (length fires) then drop 1 fires else fires }

abbrev first_case : Option (List Case) → Rand Case
first_case (some (c ∷ cs)) r = some (c, r)
first_case _ r = none

abbrev found : Option Case → Rand Case
found (some c) r = some (c, r)
found none r = none

abbrev renamed : String → ℕ → Case → Case
renamed id now_ms c = record c { id = id; created_at_ms = now_ms; updated_at_ms = now_ms }

abbrev fire_event : String → ℕ → String → String → DetectorFireEvent
fire_event id at_ms rule_id entity = record {
  id = id;
  at_ms = at_ms;
  rule_id = rule_id;
  entity = entity;
}

module _ ⦃fp : Doubles⦄ where
  -- `roll < 0.06`; `now_a` is read for the id and `now_b` for the times.
  pub spawn : ℕ → ℕ → Store → Rand Outcome
  unfolding add_case
  spawn now_a now_b s = do
    n ← int 0 9999
    seed ← int 1 (2 ^ 31 - 1)
    generated ← first_case (generate_cases 1 seed now_b)
    let c = renamed ("case-" <> to_string 36 now_a <> "-" <> decimal n) now_b generated
    pure (new_case c, add_case c s)

  -- `Math.floor(next() ** 3 * order.length)`, at most the last place
  pub biased_index : ℕ → Rand ℕ
  biased_index n = do u ← next_rand; pure (min (fp.cube_scaled u n) (n - 1))

  -- `roll < 0.26`
  pub rescore : ℕ → Store → Rand Outcome
  unfolding biased_index rescored put_case
  rescore now_ms s = do
    i ← biased_index (length s.order)
    id ← at_index s.order i
    existing ← found (get s.cases id)
    k ← draw 301
    let c = rescored (sub_ℕ k 150) now_ms existing
    pure (update c, put_case id c s)

  abbrev case_entity : Case → String
  case_entity c = c.primary_entity

  pub fire_entity : Store → Rand String
  fire_entity s =
      if ltb 0 (length s.order)
      then (do id ← pick s.order; c ← found (get s.cases id); pure (case_entity c))
      else pure "unknown"

  pub detector_fire : ℕ → ℕ → Store → Rand Outcome
  unfolding fire_entity push_fire
  detector_fire now_a now_b s = do
    n ← int 0 9999
    rule_id ← pick rule_ids
    entity ← fire_entity s
    let event = fire_event ("fire-" <> to_string 36 now_a <> "-" <> decimal n) now_b rule_id entity
    pure (fire event, push_fire event s)

  -- The store keeps the generator that the tick leaves.
  abbrev with_rng : Option (Outcome × Xorshift32) → Option Outcome
  with_rng none = none
  with_rng (some ((event, s), r)) = some (event, record s { live_rng = r })

  pub tick_by : ℕ → ℕ → ℕ → Store → Rand Outcome
  unfolding spawn rescore detector_fire
  tick_by roll now_a now_b s =
      if below_percent roll 6
      then spawn now_a now_b s
      else if below_percent roll 26
      then rescore now_a s
      else detector_fire now_a now_b s

  pub tick_body : ℕ → ℕ → Store → Rand Outcome
  unfolding tick_by
  tick_body now_a now_b s = do roll ← next_rand; tick_by roll now_a now_b s

  unfoldable pub tick : ℕ → ℕ → Store → Option Outcome
  unfolding tick_body
  tick now_a now_b s = with_rng (tick_body now_a now_b s s.live_rng)
