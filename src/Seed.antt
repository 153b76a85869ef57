-- ===== src/Seed.antt =====
-- web/src/lib/data/seed.ts: the synthetic cases. Each function of the source that draws from the
-- generator is a `Rand`, with its draws in the order in which JavaScript evaluates them.
pub mod Timeline
pub mod Events
pub mod Hex
pub mod Classify
pub mod Cases
use attesta_ai_powered_soc.Prelude.{
  ℕ, zero, suc, ◌+◌, ◌-◌, ◌*◌, ◌/◌, min, String, Bool, true, false, Option, none, some, List, [],
  ◌∷◌, length, ltb, leb, ◌==◌, if◌then◌else◌,
}
use attesta_ai_powered_soc.Prelude.Text.{◌<>◌, decimal, to_string, pad_start, concat}
use attesta_ai_powered_soc.Types
use attesta_ai_powered_soc.Types.{
  Severity, info, low, medium, high, critical, Disposition, benign, suspicious, malicious,
  incomplete, Tactic, CaseStatus, open_status, investigating, escalated, dismissed, closed,
  EntityType, host, user, process, ip, file, session, Case,
}
use attesta_ai_powered_soc.Types.Equality.{tactic_rank}
use attesta_ai_powered_soc.Rng.{
  Xorshift32, Rand, ◌>>=◌, pure, new_rng, next_rand, int, pick, pick_n, bool,
}
use attesta_ai_powered_soc.Rng.Fractions.{Doubles}

abbrev entity_types : List EntityType
entity_types = host ∷ user ∷ process ∷ ip ∷ file ∷ session ∷ []

abbrev host_names : List String
host_names = "WIN-CLIENT" ∷ "WIN-SRV" ∷ "LNX-WEB" ∷ "LNX-DB" ∷ "MAC-CORP" ∷ []

abbrev user_names : List String
user_names = "jdoe" ∷ "asmith" ∷ "mchen" ∷ "rkumar" ∷ "tlee" ∷ "svc-backup" ∷ "svc-deploy" ∷ []

abbrev tenants : List String
tenants = "tenant-alpha" ∷ "tenant-beta" ∷ "tenant-gamma" ∷ []

-- weighted toward unassigned
abbrev assignees : List (Option String)
assignees = some "a.patel" ∷ some "j.nguyen" ∷ some "k.oconnor" ∷ none ∷ none ∷ []

-- The templates without the "{entity}" that each of them ends with.
abbrev title_templates : List String
title_templates =
    "Credential access burst on " ∷ "Suspicious interpreter spawn on " ∷ "Lateral movement from "
    ∷ "C2 beacon candidate on " ∷ "Privilege escalation attempt on " ∷ "Data staging detected on "
    ∷ "Anomalous auth from new ASN for " ∷ "Persistence mechanism installed on " ∷ []

unfoldable pub severity_for_score : ℕ → Severity
severity_for_score score =
    if leb 8500 score
    then critical
    else if leb 6000 score
    then high
    else if leb 3500 score
    then medium
    else if leb 1500 score
    then low
    else info

abbrev disposition_of : Severity → Disposition
disposition_of info = benign
disposition_of low = benign
disposition_of medium = suspicious
disposition_of high = malicious
disposition_of critical = malicious

unfoldable pub disposition_for : Severity → Bool → Disposition
disposition_for severity is_incomplete =
    if is_incomplete then incomplete else disposition_of severity

-- `sort((a, b) => TACTICS.indexOf(a) - TACTICS.indexOf(b))`, which is stable
pub insert_tactic : Tactic → List Tactic → List Tactic
insert_tactic t [] = t ∷ []
insert_tactic t (u ∷ us) =
    if ltb (tactic_rank u) (tactic_rank t) then u ∷ insert_tactic t us else t ∷ u ∷ us

pub sort_tactics : List Tactic → List Tactic
sort_tactics [] = []
sort_tactics (t ∷ ts) = insert_tactic t (sort_tactics ts)

-- `Math.round(ageMs / 3_600_000) || 1`
abbrev age_hours : ℕ → ℕ
age_hours age_ms =
    let hours : ℕ = (2 * age_ms + 3_600_000) / 7_200_000 in if hours == 0 then 1 else hours

-- below num / 100, as a test of the fraction's numerator
abbrev pub below_percent : ℕ → ℕ → Bool
below_percent u num = ltb (u * 100) (num * 0xffffffff)

abbrev status_of_roll : ℕ → CaseStatus
status_of_roll u =
    if below_percent u 15
    then dismissed
    else if below_percent u 35
    then closed
    else if below_percent u 60
    then investigating
    else open_status

module _ ⦃fp : Doubles⦄ where
  entity_of_type : EntityType → Rand String
  entity_of_type host = do
    name ← pick host_names
    n ← int 1 99
    pure (name <> "-" <> pad_start (decimal n) 2 "0")
  entity_of_type user = do name ← pick user_names; pure ("user:" <> name)
  entity_of_type ip = do
    a ← int 10 203
    b ← int 0 255
    c ← int 0 255
    d ← int 1 254
    pure (concat (decimal a ∷ "." ∷ decimal b ∷ "." ∷ decimal c ∷ "." ∷ decimal d ∷ []))
  entity_of_type process =
      pick ("powershell.exe" ∷ "cmd.exe" ∷ "bash" ∷ "rundll32.exe" ∷ "curl" ∷ [])
  entity_of_type file = do
    name ← pick ("update" ∷ "svc" ∷ "cache" ∷ "payload" ∷ [])
    ext ← pick ("bin" ∷ "sh" ∷ "dll" ∷ [])
    pure ("/tmp/" <> name <> "." <> ext)
  entity_of_type session = do n ← int 100000 999999; pure ("sess-" <> decimal n)

  unfoldable pub random_entity : Rand (String × EntityType)
  unfolding entity_of_type
  random_entity = do
    entity_type ← pick entity_types
    entity ← entity_of_type entity_type
    pure (entity, entity_type)

  tactic_count : Severity → Rand ℕ
  tactic_count critical = int 3 5
  tactic_count high = int 2 4
  tactic_count _ = int 1 2

  unfoldable pub tactics_for_severity : Severity → Rand (List Tactic)
  unfolding tactic_count sort_tactics insert_tactic
  tactics_for_severity severity = do
    n ← tactic_count severity
    drawn ← pick_n Types.tactics n
    pure (sort_tactics drawn)

  unfoldable pub status_for_severity : Severity → Rand CaseStatus
  status_for_severity critical = pick (escalated ∷ investigating ∷ escalated ∷ [])
  status_for_severity high = pick (investigating ∷ escalated ∷ open_status ∷ [])
  status_for_severity _ = do roll ← next_rand; pure (status_of_roll roll)

  abbrev plural : ℕ → String
  plural n = if n == 1 then "" else "s"

  unfoldable pub generate_case : ℕ → ℕ → Rand Case
  generate_case index now_ms = do
    (entity, entity_type) ← random_entity
    risk_score ← int 0 10000
    let severity = severity_for_score risk_score
    is_incomplete ← bool 4 100
    let disposition = disposition_for severity is_incomplete
    tactics ← tactics_for_severity severity
    age_ms ← int 60_000 1_814_400_000
    template ← pick title_templates
    tenant_id ← pick tenants
    claim_count ← int 1 12
    idle_ms ← int 0 (min age_ms 3_600_000)
    status ← status_for_severity severity
    assignee ← pick assignees
    pure (record {
      id = "case-" <> to_string 36 index;
      tenant_id = tenant_id;
      title = template <> entity;
      primary_entity = entity;
      entity_type = entity_type;
      severity = severity;
      disposition = disposition;
      risk_score = risk_score;
      tactics = tactics;
      claim_count = claim_count;
      created_at_ms = now_ms - age_ms;
      updated_at_ms = now_ms - idle_ms;
      status = status;
      assignee = assignee;
      summary = concat (
          decimal (length tactics)
          ∷ " tactic"
          ∷ plural (length tactics)
          ∷ " observed against "
          ∷ entity
          ∷ " over the last "
          ∷ decimal (age_hours age_ms)
          ∷ "h. Risk score "
          ∷ decimal risk_score
          ∷ "/10000."
          ∷ []);
      dismiss_reason = none;
    })

  -- The loop of `generateCases`, on the rounds left, from case `index` on.
  pub cases_loop : ℕ → ℕ → ℕ → Rand (List Case)
  cases_loop zero index now_ms = pure []
  cases_loop (suc left) index now_ms = do
    c ← generate_case index now_ms
    rest ← cases_loop left (index + 1) now_ms
    pure (c ∷ rest)

  abbrev results : Option (List Case × Xorshift32) → Option (List Case)
  results none = none
  results (some (cases, r)) = some cases

  unfoldable pub generate_cases : ℕ → ℕ → ℕ → Option (List Case)
  unfolding cases_loop
  generate_cases count seed now_ms = results (cases_loop count 0 now_ms (new_rng seed))
