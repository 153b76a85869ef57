-- ===== src/Store/Actions.antt =====
-- The response actions of web/src/lib/data/store.ts, their two routes
-- (web/src/app/api/response-actions/[id]) and the timeline of a case.
use attesta_ai_powered_soc.Prelude.{
  ℕ, ◌+◌, ◌*◌, ◌%◌, ◌^◌, String, Bool, true, false, Option, none, some, List, [], ◌∷◌, filter, take,
  length, if◌then◌else◌, str_eq,
}
use attesta_ai_powered_soc.Prelude.Assoc.{Assoc, get, set, string_eq, values}
use attesta_ai_powered_soc.Prelude.Text.{◌<>◌, decimal}
use attesta_ai_powered_soc.Types.{
  Case, info, low, medium, high, critical, ResponseActionKind, isolate_host, disable_account,
  revoke_session, block_indicator, quarantine_file, ResponseAction, ActionStatus, pending, approved,
  modified, rejected, BlastRadius, TimelineEvent,
}
use attesta_ai_powered_soc.Rng.{Xorshift32, Rand, ◌>>=◌, pure, new_rng, int, bool, pick, array_from}
use attesta_ai_powered_soc.Rng.Fractions.{Doubles}
use attesta_ai_powered_soc.Seed.{generate_cases}
use attesta_ai_powered_soc.Seed.Timeline.{generate_timeline_events}
use attesta_ai_powered_soc.Store.{Store, init_store, get_case}

abbrev pub action_kinds : List ResponseActionKind
action_kinds =
    isolate_host ∷ disable_account ∷ revoke_session ∷ block_indicator ∷ quarantine_file ∷ []

-- `c.severity === "high" || c.severity === "critical"`
abbrev pub is_severe : Case → Bool
is_severe c = elim c.severity [
  | info ↦ false
  | low ↦ false
  | medium ↦ false
  | high ↦ true
  | critical ↦ true
]

abbrev pub action_id : Case → String
action_id c = "ra-" <> c.id

-- The action that is proposed for a case.
abbrev pub proposed : Case → ResponseActionKind → ResponseAction
proposed c kind = record {
  id = action_id c;
  case_id = c.id;
  kind = kind;
  target = c.primary_entity;
  proposed_at_ms = c.updated_at_ms;
  rationale =
      decimal (length c.tactics)
      <> " contributing tactic(s), risk score "
      <> decimal c.risk_score
      <> "/10000 -- see case "
      <> c.id
      <> ".";
  status = pending;
}

unfoldable pub candidates : List Case → List Case
candidates cases = take 40 (filter is_severe cases)

unfoldable pub list_response_actions : Store → List ResponseAction
list_response_actions s = values s.response_actions

unfoldable pub get_response_action : Store → String → Option ResponseAction
get_response_action s id = get s.response_actions id

abbrev pub with_status : ActionStatus → ResponseAction → ResponseAction
with_status status action = record action { status = status }

abbrev pub decided :
    Store → String → ActionStatus → Option ResponseAction → Option ResponseAction × Store
decided s id status none = (none, s)
decided s id status (some action) =
    let updated = with_status status action in
    (some updated, record s { response_actions = set s.response_actions id updated })

unfoldable pub decide_response_action :
    Store → String → ActionStatus → Option ResponseAction × Store
unfolding get_response_action
decide_response_action s id status = decided s id status (get_response_action s id)

-- What the decision route answers: a status of HTTP and the action of a 200.
pub data Response : Type 0 where
  ok : ResponseAction → Response
  not_found : Response
  bad_request : Response

abbrev answer : Option ResponseAction × Store → Response × Store
answer (none, s) = (not_found, s)
answer (some action, s) = (ok action, s)

-- `VALID.has(status)`, for the `status` of the body when it is a string
abbrev pub valid_status : String → Option ActionStatus
valid_status status =
    if str_eq status "approved"
    then some approved
    else if str_eq status "modified"
    then some modified
    else if str_eq status "rejected"
    then some rejected
    else none

abbrev pub decision_for : Store → String → Option ActionStatus → Response × Store
decision_for s id none = (bad_request, s)
decision_for s id (some status) = answer (decide_response_action s id status)

abbrev pub status_of : Option String → Option ActionStatus
status_of none = none
status_of (some text) = valid_status text

-- `POST`; `none` stands for a body that is not JSON or has no string as its `status`.
unfoldable pub post_decision : Store → String → Option String → Response × Store
unfolding decide_response_action
post_decision s id status = decision_for s id (status_of status)

-- `seed = (seed * 31 + caseId.charCodeAt(i)) | 0`, as a 32-bit pattern, over the codes of the id
abbrev pub hash_codes : ℕ → List ℕ → ℕ
hash_codes seed [] = seed
hash_codes seed (code ∷ codes) = hash_codes ((seed * 31 + code) % 2 ^ 32) codes

abbrev pub service_names : List String
service_names =
    "billing-api" ∷ "auth-gateway" ∷ "case-search" ∷ "report-export" ∷ "ingest-collector" ∷ []

abbrev pub principal_names : List String
principal_names = "jdoe" ∷ "asmith" ∷ "mchen" ∷ "rkumar" ∷ "svc-backup" ∷ []

abbrev pub blast_hosts : List String
blast_hosts = "WIN-CLIENT" ∷ "WIN-SRV" ∷ "LNX-WEB" ∷ "LNX-DB" ∷ []

abbrev radius_of : Option (BlastRadius × Xorshift32) → Option BlastRadius
radius_of none = none
radius_of (some (radius, r)) = some radius

abbrev timeline_for :
    (Case → Option (List TimelineEvent)) → Option Case → Option (Option (List TimelineEvent))
timeline_for generate none = some none
timeline_for generate (some c) = elim (generate c) [
  | none ↦ none
  | some events ↦ some (some events)
]

module _ ⦃fp : Doubles⦄ where
  -- the loop of `buildResponseActions`
  unfoldable pub propose_all :
      List Case → Assoc String ResponseAction → Rand (Assoc String ResponseAction)
  propose_all [] actions = pure actions
  propose_all (c ∷ cs) actions = do
    kind ← pick action_kinds
    propose_all cs (set actions (action_id c) (proposed c kind))

  unfoldable pub build_response_actions : List Case → Rand (Assoc String ResponseAction)
  unfolding candidates propose_all
  build_response_actions cases = propose_all (candidates cases) []

  abbrev store_of : List Case → Option (Assoc String ResponseAction × Xorshift32) → Option Store
  store_of cases none = none
  store_of cases (some (actions, r)) = some (init_store cases actions r)

  abbrev stored : Option (List Case) → Option Store
  stored none = none
  stored (some cases) = store_of cases (build_response_actions cases (new_rng 0xc0ffee))

  -- `initStore` for `count` cases, of which the source generates 10000
  unfoldable pub start_store : ℕ → ℕ → Option Store
  unfolding build_response_actions
  start_store count now_ms = stored (generate_cases count 20_260_910 now_ms)

  unfoldable pub principal : Rand String
  principal = do name ← pick principal_names; pure ("user:" <> name)

  unfoldable pub blast_host : Rand String
  blast_host = do name ← pick blast_hosts; n ← int 1 99; pure (name <> "-" <> decimal n)

  abbrev blast_radius : List String → List String → List String → Bool → BlastRadius
  blast_radius principals hosts services tier0 = record {
    affected_principals = principals;
    affected_hosts = hosts;
    dependent_services = services;
    is_tier0 = tier0;
  }

  unfoldable pub draw_blast_radius : Rand BlastRadius
  unfolding principal blast_host
  draw_blast_radius = do
    principal_count ← int 1 6
    host_count ← int 1 5
    service_count ← int 0 4
    tier0 ← bool 2 10
    principals ← array_from principal_count principal
    hosts ← array_from host_count blast_host
    services ← array_from service_count (pick service_names)
    pure (blast_radius principals hosts services tier0)

  -- `id_length` is `action.id.length`.
  unfoldable pub compute_blast_radius : ℕ → ResponseAction → Option BlastRadius
  unfolding draw_blast_radius
  compute_blast_radius id_length action =
      radius_of (draw_blast_radius (new_rng (id_length * 7919 + action.proposed_at_ms)))

  -- `codes` are the UTF-16 codes of `id`; `some none` is the `null` of an unknown case.
  unfoldable pub get_case_timeline : Store → String → List ℕ → Option (Option (List TimelineEvent))
  unfolding get_case
  get_case_timeline s id codes =
      timeline_for (λ c. generate_timeline_events c (hash_codes 0 codes)) (get_case s id)
