-- ===== src/Watchfloor/Queue.antt =====
-- The queue's keys: where the selection goes, and what a decision changes.
use attesta_ai_powered_soc.Prelude.{
  ℕ, zero, suc, ◌+◌, ◌-◌, ◌<◌, ◌≡◌, refl, ◌≢◌, String, false, Option, none, some, List, [], ◌∷◌,
  length, get_elem?, min, arith,
}
use attesta_ai_powered_soc.Prelude.Assoc.{get, string_eq, get-set_self, get-set_ne}
use attesta_ai_powered_soc.Types.{Case, escalated, dismissed}
use attesta_ai_powered_soc.Watchfloor.{
  Patch, overridden, merge_patch, Client, set_status, key_j, key_k, key_e, index_of, next_index,
  previous_index, case_at, on_key_down, on_confirm,
}

case_at_lem :
    (i : ℕ) (c : Case) (cs : List Case)
    → i < length (c ∷ cs)
    → get_elem? (c ∷ cs) i ≡ some (case_at i c cs)
case_at_lem zero c cs h = refl
case_at_lem (suc i) c [] h = absurd (omega arith)
case_at_lem (suc i) c (d ∷ ds) h = case_at_lem i d ds (omega arith)

index_of-lt :
    (cases : List Case) (id : String) (i : ℕ) → index_of cases (some id) ≡ some i → i < length cases
index_of-lt [] id i h = absurd (cc)
index_of-lt (c ∷ cs) id zero h = omega arith
index_of-lt (c ∷ cs) id (suc i) h = ground (arith, index_of-lt cs id i)

-- where `j` and `k` lead, of n cases
abbrev pub after_j : Option ℕ → ℕ → ℕ
after_j none n = 0
after_j (some i) n = min (i + 1) (n - 1)

abbrev pub after_k : Option ℕ → ℕ
after_k none = 0
after_k (some i) = i - 1

previous-lt :
    (c : Case) (cs : List Case) (o : Option String)
    → previous_index (index_of (c ∷ cs) o) < length (c ∷ cs)
previous-lt c cs none = omega arith
previous-lt c cs (some id) = go (index_of (c ∷ cs) (some id)) refl
  where
    go : (i : Option ℕ) → index_of (c ∷ cs) (some id) ≡ i → previous_index i < length (c ∷ cs)
    go none e = omega arith
    go (some i) e = omega (arith, index_of-lt (c ∷ cs) id i e)

next-lt : (i : Option ℕ) (n : ℕ) → next_index i (suc n) < suc n
next-lt none n = omega arith
next-lt (some i) n = omega arith

next-after : (i : Option ℕ) (n : ℕ) → next_index i n ≡ after_j i n
next-after none n = omega arith
next-after (some i) n = refl

previous-after : (i : Option ℕ) → previous_index i ≡ after_k i
previous-after none = refl
previous-after (some i) = refl

-- With a case shown and no guard in the way, `j` selects the case after the selected one and `k` the
-- one before it, at the ends the last and the first, and both the first case when the selection is
-- not shown: the selection is always a case that is shown.
pub on_key_down_moves :
    (c : Case) (cs : List Case) (s : Client)
    → ((d : Case) × (get_elem?
            (c ∷ cs)
            (after_j (index_of (c ∷ cs) s.selected_id) (length (c ∷ cs)))
          ≡ some d)
        × ((on_key_down false key_j (c ∷ cs) s).selected_id ≡ some d.id))
      × ((d : Case) × (get_elem? (c ∷ cs) (after_k (index_of (c ∷ cs) s.selected_id)) ≡ some d)
          × ((on_key_down false key_k (c ∷ cs) s).selected_id ≡ some d.id))
unfolding on_key_down
on_key_down_moves c cs s =
    let i = index_of (c ∷ cs) s.selected_id in
    (
      (
        case_at (next_index i (length (c ∷ cs))) c cs,
        rw (← next-after i (length (c ∷ cs))) (case_at_lem _ c cs (next-lt i (length cs))),
        refl,
      ),
      (
        case_at (previous_index i) c cs,
        rw (← previous-after i) (case_at_lem _ c cs (previous-lt c cs s.selected_id)),
        refl,
      ),
    )

-- What the client shows of a case.
abbrev pub shown_case : Client → String → Case → Case
shown_case s id base = overridden (get s.overrides id) base

shown-set_status :
    (id : String) (patch : Patch) (s : Client) (base : Case)
    → (shown_case (set_status id patch s) id base).status ≡ patch.status
unfolding set_status
shown-set_status id patch s base =
    rw (get-set_self s.overrides id (merge_patch (get s.overrides id) patch)) refl

frame-set_status :
    (id other : String) (patch : Patch) (s : Client) (base : Case)
    → id ≢ other
    → shown_case (set_status id patch s) other base ≡ shown_case s other base
unfolding set_status
frame-set_status id other patch s base h =
    rw (get-set_ne s.overrides id (merge_patch (get s.overrides id) patch) other h) refl

-- `e` shows the selected case as escalated whatever the feed says of it, and confirming the dialog
-- shows the case that it is open for as dismissed; no other case is shown differently.
pub decisions_lem :
    (c : Case) (cs : List Case) (s : Client) (id other reason : String) (target base : Case)
    → s.selected_id ≡ some id
    → s.dismiss_target ≡ some target
    → ((shown_case (on_key_down false key_e (c ∷ cs) s) id base).status ≡ escalated)
      × (id ≢ other
          → shown_case (on_key_down false key_e (c ∷ cs) s) other base ≡ shown_case s other base)
      × ((shown_case (on_confirm reason s) target.id base).status ≡ dismissed)
      × (target.id ≢ other → shown_case (on_confirm reason s) other base ≡ shown_case s other base)
unfolding on_key_down on_confirm
decisions_lem c cs s id other reason target base selected opened =
    let escalation : Patch = record { status = escalated; dismiss_reason = none } in
    let dismissal : Patch = record { status = dismissed; dismiss_reason = some reason } in
    rw (selected, opened)
      (
        shown-set_status id escalation s base,
        λ h. frame-set_status id other escalation s base h,
        shown-set_status target.id dismissal s base,
        λ h. frame-set_status target.id other dismissal s base h,
      )
