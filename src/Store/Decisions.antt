-- ===== src/Store/Decisions.antt =====
-- What the decision route of a response action answers, and what it leaves alone.
use attesta_ai_powered_soc.Prelude.{
  ◌≡◌, refl, ap, sym, false, ◌≢◌, ◌⊎◌, String, str_eq, str_eq_iff, Option, none, some, List, [],
  ◌∷◌, In, arith, inl, inr, Option-cases, Bool-cases,
}
use attesta_ai_powered_soc.Prelude.Assoc.{get, string_eq, get-set_self, get-set_ne}
use attesta_ai_powered_soc.Types.{
  ResponseAction, ActionStatus, pending, approved, modified, rejected,
}
use attesta_ai_powered_soc.Store.{Store}
use attesta_ai_powered_soc.Store.Actions.{
  get_response_action, decide_response_action, post_decision, Response, ok, not_found, bad_request,
  with_status, status_of, valid_status, decision_for,
}

-- The texts that the route takes as a `status`, and what they stand for.
abbrev pub taken_statuses : List (String × ActionStatus)
taken_statuses = ("approved", approved) ∷ ("modified", modified) ∷ ("rejected", rejected) ∷ []

-- What a decision may change of an action: its status.
pub record IsDecided (status : ActionStatus) (old new : ResponseAction) : Type 0 where
  pub status_now : new.status ≡ status
  pub same_id : new.id ≡ old.id
  pub same_case : new.case_id ≡ old.case_id
  pub same_kind : new.kind ≡ old.kind
  pub same_target : new.target ≡ old.target
  pub same_time : new.proposed_at_ms ≡ old.proposed_at_ms
  pub same_rationale : new.rationale ≡ old.rationale

-- The answers of the route: 400 for a body with none of the three texts, 404 for an unknown id, and
-- 200 with the action decided, which is what the store then holds.
pub data IsAnswer (s : Store) (id : String) : Option String → Response × Store → Type 0 where
  malformed :
      {body : Option String}
      → ((text : String) (status : ActionStatus)
          → In (text, status) taken_statuses
          → body ≢ some text)
      → IsAnswer s id body (bad_request, s)
  unknown :
      {text : String} {status : ActionStatus}
      → In (text, status) taken_statuses
      → get s.response_actions id ≡ none
      → IsAnswer s id (some text) (not_found, s)
  decided_as :
      {text : String} {status : ActionStatus} {old new : ResponseAction} {s' : Store}
      → In (text, status) taken_statuses
      → get s.response_actions id ≡ some old
      → IsDecided status old new
      → get s'.response_actions id ≡ some new
      → IsAnswer s id (some text) (ok new, s')

with_status-IsDecided :
    (status : ActionStatus) (old : ResponseAction) → IsDecided status old (with_status status old)
with_status-IsDecided status old = record {
  status_now = refl;
  same_id = refl;
  same_case = refl;
  same_kind = refl;
  same_target = refl;
  same_time = refl;
  same_rationale = refl;
}

decision_for-IsAnswer :
    (s : Store) (id text : String) (status : ActionStatus)
    → In (text, status) taken_statuses
    → IsAnswer s id (some text) (decision_for s id (some status))
unfolding decide_response_action get_response_action
decision_for-IsAnswer s id text status m = elim (Option-cases (get s.response_actions id)) [
  | inl gone ↦ rw gone (unknown m gone)
  | inr (old, there) ↦ rw there (
      decided_as m there (with_status-IsDecided status old)
        (get-set_self s.response_actions id (with_status status old)))
]

differs :
    (text taken other : String) (status status' : ActionStatus)
    → str_eq text taken ≡ false
    → ◌≡◌ {A = String × ActionStatus} (taken, status) (other, status')
    → some text ≢ some other
differs text taken other status status' ne e same =
    let pair : ◌≡◌ {A = String × ActionStatus} (taken, status) (other, status') = e in
    let equal : text ≡ taken = cc in let yes = (str_eq_iff text taken).1 equal in cc

-- What `valid_status` makes of a text agrees with the list of the taken texts.
valid_status_lem :
    (text : String)
    → ((status : ActionStatus) × (valid_status text ≡ some status)
        × In (text, status) taken_statuses)
      ⊎ ((valid_status text ≡ none)
          × ((other : String) (status : ActionStatus)
              → In (other, status) taken_statuses
              → some text ≢ some other))
valid_status_lem text = elim (Bool-cases (str_eq text "approved")) [
  | inl a ↦ inl (approved, rw a refl, inl (ap (λ t. (t, approved)) (sym ((str_eq_iff _ _).0 a))))
  | inr a ↦ elim (Bool-cases (str_eq text "modified")) [
    | inl m ↦
        inl (
          modified,
          rw (a, m) refl,
          inr (inl (ap (λ t. (t, modified)) (sym ((str_eq_iff _ _).0 m)))),
        )
    | inr m ↦ elim (Bool-cases (str_eq text "rejected")) [
      | inl r ↦ inl (
        rejected,
        rw (a, m, r) refl,
        inr (inr (inl (ap (λ t. (t, rejected)) (sym ((str_eq_iff _ _).0 r))))),
      )
      | inr r ↦ inr (
        rw (a, m, r) refl,
        λ other status member same. elim member [
          | inl e ↦ differs text "approved" other approved status a e same
          | inr (inl e) ↦ differs text "modified" other modified status m e same
          | inr (inr (inl e)) ↦ differs text "rejected" other rejected status r e same
          | inr (inr (inr x)) ↦ elim x [ ]
        ],
      )
    ]
  ]
]

-- The route's answer for any body is one of the three: 400 for a body whose status is none of
-- "approved", "modified" and "rejected", and 404 for an id without an action, both with the store as
-- it was; otherwise 200 with the action, of which only the status has changed, to the one that the
-- text names, and that is what the store then holds under the id.
pub post_decision-IsAnswer :
    (s : Store) (id : String) (body : Option String) → IsAnswer s id body (post_decision s id body)
unfolding post_decision
post_decision-IsAnswer s id none = malformed (λ text status m e. cc)
post_decision-IsAnswer s id (some text) = elim (valid_status_lem text) [
  | inl (status, e, m) ↦ rw e (decision_for-IsAnswer s id text status m)
  | inr (e, others) ↦ rw e (malformed others)
]

-- A decision on one action leaves every other action, the cases and the queue as they were.
pub post_decision_frame :
    (s : Store) (id other : String) (body : Option String)
    → id ≢ other
    → (get_response_action (post_decision s id body).1 other ≡ get_response_action s other)
      × ((post_decision s id body).1.cases ≡ s.cases)
      × ((post_decision s id body).1.order ≡ s.order)
unfolding post_decision decide_response_action get_response_action
post_decision_frame s id other body h = elim (Option-cases (status_of body)) [
  | inl e ↦ rw e (refl, refl, refl)
  | inr (status, e) ↦ elim (Option-cases (get s.response_actions id)) [
    | inl gone ↦ rw (e, gone) (refl, refl, refl)
    | inr (action, there) ↦
        rw (e, there)
          (get-set_ne s.response_actions id (with_status status action) other h, refl, refl)
  ]
]

not_pending :
    (body : Option String) (status : ActionStatus) → status_of body ≡ some status → status ≢ pending
not_pending none status e = cc
not_pending (some text) status e = λ p. ground (arith, e, p)

-- An action that the route answers with has been decided: its status is not `pending`.
pub post_decision-ok :
    (s s' : Store) (id : String) (body : Option String) (action : ResponseAction)
    → post_decision s id body ≡ (ok action, s')
    → action.status ≢ pending
unfolding post_decision decide_response_action get_response_action
post_decision-ok s s' id body action e = elim (Option-cases (status_of body)) [
  | inl bad ↦ absurd (ground (arith, bad, e))
  | inr (status, good) ↦ elim (Option-cases (get s.response_actions id)) [
    | inl gone ↦ absurd (ground (arith, good, gone, e))
    | inr (old, there) ↦
        let same : with_status status old ≡ action = ground (arith, good, there, e) in
        rw (← same) (not_pending body status good)
  ]
]
