-- ===== src/Seed/Timeline.antt =====
-- `PREDICATES_BY_TACTIC` and `generateTimelineEvents` of web/src/lib/data/seed.ts.
use attesta_ai_powered_soc.Prelude.{
  ℕ, zero, suc, ◌+◌, ◌-◌, String, Option, none, some, List, [], ◌∷◌, ◌++◌, length, map, ◌==◌,
  if◌then◌else◌,
}
use attesta_ai_powered_soc.Prelude.Sort.{sort_by, later}
use attesta_ai_powered_soc.Prelude.Text.{◌<>◌, decimal, to_string, concat}
use attesta_ai_powered_soc.Types.{
  Tactic, initial_access, execution, persistence, privilege_escalation, defense_evasion,
  credential_access, discovery, lateral_movement, collection, command_and_control, exfiltration,
  impact, Case, TimelineEvent,
}
use attesta_ai_powered_soc.Rng.{
  Xorshift32, Rand, ◌>>=◌, pure, new_rng, next_rand, int, pick, array_from,
}
use attesta_ai_powered_soc.Rng.Fractions.{Doubles}

abbrev pub predicates_by_tactic : Tactic → List String
predicates_by_tactic initial_access = "AUTH_FAILED_BURST" ∷ "AUTH_FROM_NEW_ASN" ∷ []
predicates_by_tactic execution = "INTERPRETER_SPAWNED_BY" ∷ "ENCODED_COMMAND" ∷ []
predicates_by_tactic persistence = "PERSISTENCE_REGISTRY_RUN_KEY" ∷ []
predicates_by_tactic privilege_escalation = "PRIVILEGE_ESCALATION_ATTEMPT" ∷ []
predicates_by_tactic defense_evasion = "DEFENSE_EVASION_ATTEMPT" ∷ []
predicates_by_tactic credential_access = "AUTH_SUCCEEDED_AFTER_FAILURES" ∷ "TOKEN_REPLAYED" ∷ []
predicates_by_tactic discovery = "RDP_INTERNAL_FIRST_TIME" ∷ []
predicates_by_tactic lateral_movement = "LATERAL_MOVEMENT_DETECTED" ∷ []
predicates_by_tactic collection = "DATA_STAGING_DETECTED" ∷ []
predicates_by_tactic command_and_control =
    "INTERPRETER_NETWORK_EGRESS" ∷ "CONNECTED_TO_INDICATOR" ∷ []
predicates_by_tactic exfiltration = "DATA_EXFILTRATED" ∷ []
predicates_by_tactic impact = "IMPACT_DETECTED" ∷ []

-- `c.updatedAtMs - c.createdAtMs || 60_000`, for a case that was not updated before it was created
unfoldable pub window_ms : Case → ℕ
window_ms c =
    if c.updated_at_ms - c.created_at_ms == 0 then 60_000 else c.updated_at_ms - c.created_at_ms

-- `sort((a, b) => a.atMs - b.atMs)`
abbrev pub at_ms_of : TimelineEvent → ℕ
at_ms_of e = e.at_ms

abbrev pub sort_events : List TimelineEvent → List TimelineEvent
sort_events events = sort_by (later at_ms_of) events

-- The event literal of the loop, for the event at place `index` of the list.
abbrev pub event_of : Case → Tactic → ℕ → ℕ → String → String → TimelineEvent
event_of c tactic index offset predicate claim_id = record {
  id = c.id <> "-ev-" <> decimal index;
  at_ms = c.created_at_ms + offset;
  tactic = tactic;
  predicate = predicate;
  entity = c.primary_entity;
  claim_id = claim_id;
}

module _ ⦃fp : Doubles⦄ where
  -- `Array.from({ length: n }, () => rng.int(0, 15).toString(16)).join("")`
  unfoldable pub hex_text : ℕ → Rand String
  unfolding array_from
  hex_text n = do digits ← array_from n (int 0 15); pure (concat (map (to_string 16) digits))

  -- `Math.round(rng.next() * windowMs)`
  unfoldable pub offset_in : ℕ → Rand ℕ
  offset_in window = do u ← next_rand; pure (fp.round_scaled u window)

  -- the inner loop, on the rounds left
  unfoldable pub tactic_events : Case → Tactic → ℕ → List TimelineEvent → Rand (List TimelineEvent)
  tactic_events c tactic zero events = pure events
  tactic_events c tactic (suc left) events = do
    offset ← offset_in (window_ms c)
    predicate ← pick (predicates_by_tactic tactic)
    claim_id ← hex_text 16
    tactic_events c tactic left
        (events ++ event_of c tactic (length events) offset predicate claim_id ∷ [])

  unfoldable pub all_events : Case → List Tactic → List TimelineEvent → Rand (List TimelineEvent)
  unfolding tactic_events
  all_events c [] events = pure events
  all_events c (tactic ∷ rest) events = do
    n ← int 1 3
    more ← tactic_events c tactic n events
    all_events c rest more

  abbrev sorted : Option (List TimelineEvent × Xorshift32) → Option (List TimelineEvent)
  sorted none = none
  sorted (some (events, r)) = some (sort_events events)

  unfoldable pub generate_timeline_events : Case → ℕ → Option (List TimelineEvent)
  unfolding all_events offset_in
  generate_timeline_events c seed = sorted (all_events c c.tactics [] (new_rng seed))
