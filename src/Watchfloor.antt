-- ===== src/Watchfloor.antt =====
-- The Watchfloor: web/src/components/watchfloor/use-case-stream.ts (the live feed),
-- web/src/components/watchfloor/filter-rail.tsx (the filters) and
-- web/src/components/watchfloor/watchfloor-client.tsx (the queue and its keys).
pub mod Feed
pub mod Rate
pub mod Filters
pub mod Queue
use attesta_ai_powered_soc.Prelude.{
  ℕ, zero, suc, ◌+◌, ◌-◌, String, str_eq, Bool, true, false, Option, none, some, List, [], ◌∷◌,
  ◌++◌, map, filter, any, find, find_index, take, length, min, max, ltb, if◌then◌else◌, ◌||◌, ◌&&◌,
  not,
}
use attesta_ai_powered_soc.Prelude.Assoc.{Assoc, Eq, get, set, set_all, has, string_eq}
use attesta_ai_powered_soc.Types.{
  Case, CaseStatus, escalated, dismissed, Severity, Disposition, Tactic, DetectorFireEvent,
}
use attesta_ai_powered_soc.Types.Equality.{severity_eq, disposition_eq, tactic_eq}

pub data StreamEvent : Type 0 where
  hello : ℕ → StreamEvent
  new_case : Case → StreamEvent
  update : Case → StreamEvent
  fire : DetectorFireEvent → StreamEvent

-- The state of the hook, with its two refs. The rate is a fifth of `recent_fires`.
pub record CaseStream : Type 0 where
  pub cases : Assoc String Case
  pub order : List String
  pub detector_fires : List DetectorFireEvent
  pub recent_fires : ℕ
  pub connected : Bool
  pub fire_timestamps : List ℕ
  pub seeded : Bool

abbrev pub initial_stream : CaseStream
initial_stream = record {
  cases = [];
  order = [];
  detector_fires = [];
  recent_fires = 0;
  connected = false;
  fire_timestamps = [];
  seeded = false;
}

-- What the hook's listeners are called with: the snapshot, the connection, and a message at a time.
pub data Input : Type 0 where
  snapshot : List Case → Input
  opened : Input
  errored : Input
  message : StreamEvent → ℕ → Input

abbrev pub is_empty : {A : Type 0} → List A → Bool
is_empty [] = true
is_empty (x ∷ xs) = false

unfoldable pub seed_cases : List Case → CaseStream → CaseStream
seed_cases initial s = if s.seeded || is_empty initial then s else record s {
  cases = set_all [] (map (λ (c : Case). (c.id, c)) initial);
  order = map (λ (c : Case). c.id) initial;
  seeded = true;
}

-- `now - t < 5000`, of the clock's readings
abbrev is_recent : ℕ → ℕ → Bool
is_recent now t = ltb now (t + 5000)

unfoldable pub on_message : StreamEvent → ℕ → CaseStream → CaseStream
on_message (hello at_ms) now s = s
on_message (new_case c) now s = record s { cases = set s.cases c.id c; order = c.id ∷ s.order }
on_message (update c) now s = record s { cases = set s.cases c.id c }
on_message (fire event) now s =
    let stamps = filter (is_recent now) (s.fire_timestamps ++ now ∷ []) in
    record s {
      detector_fires = take 40 (event ∷ s.detector_fires);
      recent_fires = length stamps;
      fire_timestamps = stamps;
    }

unfoldable pub on_input : Input → CaseStream → CaseStream
unfolding seed_cases on_message
on_input (snapshot initial) s = seed_cases initial s
on_input opened s = record s { connected = true }
on_input errored s = record s { connected = false }
on_input (message event now) s = on_message event now s

-- the state after the inputs, in their order
unfoldable pub run_inputs : List Input → CaseStream → CaseStream
unfolding on_input
run_inputs [] s = s
run_inputs (i ∷ is) s = run_inputs is (on_input i s)

pub record FilterState : Type 0 where
  pub severities : List Severity
  pub dispositions : List Disposition
  pub tenants : List String
  pub tactics : List Tactic
  pub unassigned_only : Bool

abbrev pub empty_filter_state : FilterState
empty_filter_state = record {
  severities = [];
  dispositions = [];
  tenants = [];
  tactics = [];
  unassigned_only = false;
}

-- `set.size > 0 && !set.has(value)` rejects
abbrev pub passes : {A : Type 0} ⦃e : Eq A⦄ → List A → A → Bool
passes selected value = is_empty selected || has selected value

abbrev pub is_unassigned : Option String → Bool
is_unassigned none = true
is_unassigned (some name) = false

-- The early returns of the predicate, in their order.
unfoldable pub shown : FilterState → Case → Bool
shown f c =
    if not (passes f.severities c.severity)
    then false
    else if not (passes f.dispositions c.disposition)
    then false
    else if not (passes f.tenants c.tenant_id)
    then false
    else if not (is_empty f.tactics) && not (any (λ t. has f.tactics t) c.tactics)
    then false
    else if f.unassigned_only && not (is_unassigned c.assignee)
    then false
    else true

unfoldable pub apply_filters : List Case → FilterState → List Case
unfolding shown
apply_filters cases f = filter (shown f) cases

-- `next.delete(value)` or `next.add(value)`, of a set without repetitions
unfoldable pub toggle : {A : Type 0} ⦃e : Eq A⦄ → List A → A → List A
toggle ⦃e⦄ selected value =
    if has selected value
    then filter (λ v. not (e.beq v value)) selected
    else selected ++ value ∷ []

-- `Partial<Case>`, with the two fields that the client patches
pub record Patch : Type 0 where
  pub status : CaseStatus
  pub dismiss_reason : Option String

-- `{ ...next.get(id), ...patch }`: an escalation keeps the reason of an earlier dismissal.
abbrev reason_after : Option String → Option Patch → Option String
reason_after (some reason) earlier = some reason
reason_after none none = none
reason_after none (some earlier) = earlier.dismiss_reason

abbrev pub merge_patch : Option Patch → Patch → Patch
merge_patch earlier patch = record {
  status = patch.status;
  dismiss_reason = reason_after patch.dismiss_reason earlier;
}

abbrev reason_or : Option String → Option String → Option String
reason_or (some reason) base = some reason
reason_or none base = base

abbrev pub overridden : Option Patch → Case → Case
overridden none c = c
overridden (some p) c = record c {
  status = p.status;
  dismiss_reason = reason_or p.dismiss_reason c.dismiss_reason;
}

-- The component's state; `dismiss_target` is the case that the dialog is open for, and `visited` is
-- where the router was sent.
pub record Client : Type 0 where
  pub selected_id : Option String
  pub overrides : Assoc String Patch
  pub dismiss_target : Option Case
  pub visited : List String

unfoldable pub set_status : String → Patch → Client → Client
set_status id patch s = record s {
  overrides = set s.overrides id (merge_patch (get s.overrides id) patch);
}

pub data Key : Type 0 where
  key_j key_k key_e key_d key_i other_key : Key

abbrev pub index_of : List Case → Option String → Option ℕ
index_of cases none = none
index_of cases (some id) = find_index (λ (c : Case). str_eq c.id id) cases

-- Math.min(currentIndex + 1, length - 1), where no index is -1
abbrev pub next_index : Option ℕ → ℕ → ℕ
next_index none n = min 0 (n - 1)
next_index (some i) n = min (i + 1) (n - 1)

abbrev pub previous_index : Option ℕ → ℕ
previous_index none = 0
previous_index (some i) = i - 1

-- `filteredCases[i]`, which is there
abbrev pub case_at : ℕ → Case → List Case → Case
case_at zero c cs = c
case_at (suc i) c [] = c
case_at (suc i) c (d ∷ ds) = case_at i d ds

-- With a selected case: escalate, dismiss, investigate.
abbrev on_selected : Key → List Case → String → Client → Client
on_selected key_e cases id s =
    set_status id (record { status = escalated; dismiss_reason = none }) s
on_selected key_d cases id s = record s {
  dismiss_target = find (λ (c : Case). str_eq c.id id) cases;
}
on_selected key_i cases id s = record s { visited = id ∷ s.visited }
on_selected _ cases id s = s

abbrev if_selected : Key → List Case → Option String → Client → Client
if_selected key cases none s = s
if_selected key cases (some id) s = on_selected key cases id s

abbrev select : Case → Client → Client
select c s = record s { selected_id = some c.id }

-- The handler after its guards; nothing happens when no case is shown.
abbrev on_queue : Key → List Case → Client → Client
on_queue key [] s = s
on_queue key_j (c ∷ cs) s =
    select (case_at (next_index (index_of (c ∷ cs) s.selected_id) (length (c ∷ cs))) c cs) s
on_queue key_k (c ∷ cs) s =
    select (case_at (previous_index (index_of (c ∷ cs) s.selected_id)) c cs) s
on_queue key (c ∷ cs) s = if_selected key (c ∷ cs) s.selected_id s

-- `blocked`: an overlay is open, the target is editable, or a modifier key is down.
unfoldable pub on_key_down : Bool → Key → List Case → Client → Client
unfolding set_status
on_key_down blocked key cases s = if blocked then s else on_queue key cases s

-- the dialog's `onConfirm`
abbrev confirmed : Option Case → String → Client → Client
confirmed none reason s = s
confirmed (some c) reason s =
    set_status c.id (record { status = dismissed; dismiss_reason = some reason }) s

unfoldable pub on_confirm : String → Client → Client
unfolding set_status
on_confirm reason s = confirmed s.dismiss_target reason s

-- `stream.order.map(...)`; `none` is a read of a case that is not there.
abbrev add_row : Option Case → Option Patch → Option (List Case) → Option (List Case)
add_row (some c) patch (some cs) = some (overridden patch c ∷ cs)
add_row _ patch _ = none

unfoldable pub all_cases : Assoc String Case → Assoc String Patch → List String → Option (List Case)
all_cases cases overrides [] = some []
all_cases cases overrides (id ∷ ids) =
    add_row (get cases id) (get overrides id) (all_cases cases overrides ids)
