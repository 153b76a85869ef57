-- ===== src/Types/Equality.antt =====
-- `===` on the enumerations of web/src/lib/data/types.ts, by their places in the arrays there.
use attesta_ai_powered_soc.Prelude.{
  ℕ, ◌≡◌, ap, ◌∙◌, sym, ◌↔◌, true, some, List, get_elem?, ◌==◌, ==_iff, arith, some_inj,
}
use attesta_ai_powered_soc.Prelude.Assoc.{Eq}
use attesta_ai_powered_soc.Types.{
  Severity, info, low, medium, high, critical, severities, Disposition, benign, suspicious,
  malicious, incomplete, dispositions, Tactic, tactics, initial_access, execution, persistence,
  privilege_escalation, defense_evasion, credential_access, discovery, lateral_movement, collection,
  command_and_control, exfiltration, impact,
}

-- An enumeration whose values stand in a list at their ranks is compared by rank.
module _ {A : Type 0} (all : List A) (rank : A → ℕ)
    (at : (a : A) → get_elem? all (rank a) ≡ some a) where
  rank_iff : (a b : A) → ((rank a == rank b) ≡ true) ↔ (a ≡ b)
  rank_iff a b = (
    λ h. some_inj (sym (at a) ∙ ap (get_elem? all) ((==_iff (rank a) (rank b)).0 h) ∙ at b),
    λ h. (==_iff (rank a) (rank b)).1 (ap rank h),
  )

-- `SEVERITIES.indexOf`
abbrev pub severity_rank : Severity → ℕ
severity_rank info = 0
severity_rank low = 1
severity_rank medium = 2
severity_rank high = 3
severity_rank critical = 4

severity_at : (s : Severity) → get_elem? severities (severity_rank s) ≡ some s
severity_at s = ground arith

pub severity_beq_iff : (a b : Severity) → ((severity_rank a == severity_rank b) ≡ true) ↔ (a ≡ b)
severity_beq_iff = rank_iff severities severity_rank severity_at

instance abbrev pub severity_eq : Eq Severity
severity_eq = record { beq = λ a b. severity_rank a == severity_rank b; beq_iff = severity_beq_iff }

abbrev pub disposition_rank : Disposition → ℕ
disposition_rank benign = 0
disposition_rank suspicious = 1
disposition_rank malicious = 2
disposition_rank incomplete = 3

disposition_at : (d : Disposition) → get_elem? dispositions (disposition_rank d) ≡ some d
disposition_at d = ground arith

pub disposition_beq_iff :
    (a b : Disposition) → ((disposition_rank a == disposition_rank b) ≡ true) ↔ (a ≡ b)
disposition_beq_iff = rank_iff dispositions disposition_rank disposition_at

instance abbrev pub disposition_eq : Eq Disposition
disposition_eq = record {
  beq = λ a b. disposition_rank a == disposition_rank b;
  beq_iff = disposition_beq_iff;
}

-- `TACTICS.indexOf`
abbrev pub tactic_rank : Tactic → ℕ
tactic_rank initial_access = 0
tactic_rank execution = 1
tactic_rank persistence = 2
tactic_rank privilege_escalation = 3
tactic_rank defense_evasion = 4
tactic_rank credential_access = 5
tactic_rank discovery = 6
tactic_rank lateral_movement = 7
tactic_rank collection = 8
tactic_rank command_and_control = 9
tactic_rank exfiltration = 10
tactic_rank impact = 11

tactic_at : (t : Tactic) → get_elem? tactics (tactic_rank t) ≡ some t
tactic_at t = ground arith

pub tactic_beq_iff : (a b : Tactic) → ((tactic_rank a == tactic_rank b) ≡ true) ↔ (a ≡ b)
tactic_beq_iff = rank_iff tactics tactic_rank tactic_at

instance abbrev pub tactic_eq : Eq Tactic
tactic_eq = record { beq = λ a b. tactic_rank a == tactic_rank b; beq_iff = tactic_beq_iff }
