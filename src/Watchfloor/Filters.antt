-- ===== src/Watchfloor/Filters.antt =====
-- What the filters let through.
use attesta_ai_powered_soc.Prelude.{
  ◌≡◌, refl, ◌↔◌, String, Bool, true, false, Option, none, some, List, [], ◌∷◌, ◌++◌, filter, any,
  In, inl, inr, ◌⊎◌, arith, Bool-cases, not, if◌then◌else◌, ◌||◌, ◌&&◌,
}
use attesta_ai_powered_soc.Prelude.Assoc.{Eq, has, has_iff, string_eq}
use attesta_ai_powered_soc.Types.{Case, Tactic}
use attesta_ai_powered_soc.Types.Equality.{severity_eq, disposition_eq, tactic_eq}
use attesta_ai_powered_soc.Watchfloor.{
  FilterState, is_empty, passes, is_unassigned, shown, apply_filters, toggle,
}

-- A set that selects nothing lets every value through, any other its members.
abbrev Allows : {A : Type 0} → List A → A → Type 0
Allows selected value = (selected ≡ []) ⊎ In value selected

pub record IsShown (f : FilterState) (c : Case) : Type 0 where
  pub severity : Allows f.severities c.severity
  pub disposition : Allows f.dispositions c.disposition
  pub tenant : Allows f.tenants c.tenant_id
  pub tactic : (f.tactics ≡ []) ⊎ ((t : Tactic) × In t c.tactics × In t f.tactics)
  pub assignee : (f.unassigned_only ≡ false) ⊎ (c.assignee ≡ none)

is_empty_iff : {A : Type 0} (xs : List A) → (is_empty xs ≡ true) ↔ (xs ≡ [])
is_empty_iff [] = (λ h. refl, λ h. refl)
is_empty_iff (x ∷ xs) = (λ h. cc, λ h. cc)

or_iff : (a b : Bool) → ((a || b) ≡ true) ↔ ((a ≡ true) ⊎ (b ≡ true))
or_iff true b = (λ h. inl refl, λ h. refl)
or_iff false b = (λ h. inr h, λ h. elim h [ inl e ↦ absurd (cc) | inr e ↦ e ])

passes_iff :
    {A : Type 0} ⦃e : Eq A⦄ (selected : List A) (v : A)
    → (passes selected v ≡ true) ↔ Allows selected v
passes_iff selected v = (
  λ h. elim ((or_iff (is_empty selected) (has selected v)).0 h) [
    | inl e ↦ inl ((is_empty_iff selected).0 e)
    | inr e ↦ inr ((has_iff selected v).0 e)
  ],
  λ h. elim h [
    | inl e ↦ (or_iff (is_empty selected) (has selected v)).1 (inl ((is_empty_iff selected).1 e))
    | inr e ↦ (or_iff (is_empty selected) (has selected v)).1 (inr ((has_iff selected v).1 e))
  ],
)

any_iff :
    (selected ts : List Tactic)
    → (any (λ t. has selected t) ts ≡ true) ↔ ((t : Tactic) × In t ts × In t selected)
any_iff selected [] = (λ h. absurd (cc), λ (t, m, s). absurd m)
any_iff selected (t ∷ ts) = (
  λ h. elim ((or_iff (has selected t) (any (λ t. has selected t) ts)).0 h) [
    | inl e ↦ (t, inl refl, (has_iff selected t).0 e)
    | inr e ↦ let (u, m, s) = (any_iff selected ts).0 e in (u, inr m, s)
  ],
  λ (u, m, s). elim m [
    | inl e ↦
        (or_iff (has selected t) (any (λ t. has selected t) ts)).1
          (inl ((has_iff selected t).1 (rw e s)))
    | inr n ↦
        (or_iff (has selected t) (any (λ t. has selected t) ts)).1
          (inr ((any_iff selected ts).1 (u, n, s)))
  ],
)

unassigned_iff : (o : Option String) → (is_unassigned o ≡ true) ↔ (o ≡ none)
unassigned_iff none = (λ h. refl, λ h. refl)
unassigned_iff (some name) = (λ h. cc, λ h. cc)

-- The five tests as one.
shown_iff :
    (f : FilterState) (c : Case)
    → (shown f c ≡ true) ↔ (
        (passes f.severities c.severity ≡ true)
        × (passes f.dispositions c.disposition ≡ true)
        × (passes f.tenants c.tenant_id ≡ true)
        × ((is_empty f.tactics || any (λ t. has f.tactics t) c.tactics) ≡ true)
        × ((not f.unassigned_only || is_unassigned c.assignee) ≡ true))
unfolding shown
shown_iff f c =
    table (passes f.severities c.severity) (passes f.dispositions c.disposition)
      (passes f.tenants c.tenant_id) (is_empty f.tactics) (any (λ t. has f.tactics t) c.tactics)
      f.unassigned_only (is_unassigned c.assignee)
  where
    table :
        (a b c d e g h : Bool)
        → ((if not a
              then false
              else if not b
              then false
              else if not c
              then false
              else if not d && not e
              then false
              else if g && not h
              then false
              else true)
            ≡ true)
          ↔ ((a ≡ true) × (b ≡ true) × (c ≡ true) × ((d || e) ≡ true) × ((not g || h) ≡ true))
    table a b c d e g h = ground arith

IsShown-iff : (f : FilterState) (c : Case) → (shown f c ≡ true) ↔ IsShown f c
IsShown-iff f c = (
  λ h.
      let (a, b, t, d, e) = (shown_iff f c).0 h in
      record {
        severity = (passes_iff f.severities c.severity).0 a;
        disposition = (passes_iff f.dispositions c.disposition).0 b;
        tenant = (passes_iff f.tenants c.tenant_id).0 t;
        tactic = elim ((or_iff (is_empty f.tactics) (any (λ u. has f.tactics u) c.tactics)).0 d) [
          | inl x ↦ inl ((is_empty_iff f.tactics).0 x)
          | inr x ↦ inr ((any_iff f.tactics c.tactics).0 x)
        ];
        assignee = elim ((or_iff (not f.unassigned_only) (is_unassigned c.assignee)).0 e) [
          | inl x ↦ inl (not-true f.unassigned_only x)
          | inr x ↦ inr ((unassigned_iff c.assignee).0 x)
        ];
      },
  λ s. (shown_iff f c).1 (
    (passes_iff f.severities c.severity).1 s.severity,
    (passes_iff f.dispositions c.disposition).1 s.disposition,
    (passes_iff f.tenants c.tenant_id).1 s.tenant,
    (or_iff (is_empty f.tactics) (any (λ u. has f.tactics u) c.tactics)).1 (elim s.tactic [
      | inl x ↦ inl ((is_empty_iff f.tactics).1 x)
      | inr x ↦ inr ((any_iff f.tactics c.tactics).1 x)
    ]),
    (or_iff (not f.unassigned_only) (is_unassigned c.assignee)).1 (elim s.assignee [
      | inl x ↦ inl (rw x refl)
      | inr x ↦ inr ((unassigned_iff c.assignee).1 x)
    ]),
  ),
)
  where
    not-true : (b : Bool) → not b ≡ true → b ≡ false
    not-true b h = ground arith

In-filter_iff :
    {A : Type 0} (p : A → Bool) (a : A) (xs : List A)
    → In a (filter p xs) ↔ (In a xs × (p a ≡ true))
In-filter_iff p a [] = (λ h. absurd h, λ h. absurd h.0)
In-filter_iff p a (x ∷ xs) = elim (Bool-cases (p x)) [
  | inl holds ↦ rw holds (
    λ m. elim m [
      | inl e ↦ (inl e, rw (← e) holds)
      | inr n ↦ (inr ((In-filter_iff p a xs).0 n).0, ((In-filter_iff p a xs).0 n).1)
    ],
    λ (m, h). elim m [ inl e ↦ inl e | inr n ↦ inr ((In-filter_iff p a xs).1 (n, h)) ],
  )
  | inr fails ↦ rw fails (
    λ m. (inr ((In-filter_iff p a xs).0 m).0, ((In-filter_iff p a xs).0 m).1),
    λ (m, h). elim m [
      | inl e ↦ let held = rw (← e) at h in absurd (ground (arith, held, fails))
      | inr n ↦ (In-filter_iff p a xs).1 (n, h)
    ],
  )
]

-- A case is in the filtered list exactly when it is in the list and each filter that selects
-- something selects it: its severity, its disposition, its tenant, one of its tactics, and, for
-- "unassigned only", that it has no assignee.
pub apply_filters_iff :
    (cases : List Case) (f : FilterState) (c : Case)
    → In c (apply_filters cases f) ↔ (In c cases × IsShown f c)
unfolding apply_filters
apply_filters_iff cases f c = (
  λ m.
      let (member, holds) = (In-filter_iff (shown f) c cases).0 m in
      (member, (IsShown-iff f c).0 holds),
  λ (m, s). (In-filter_iff (shown f) c cases).1 (m, (IsShown-iff f c).1 s),
)

module _ {A : Type 0} ⦃e : Eq A⦄ where
  has-without :
      (xs : List A) (v w : A)
      → has (filter (λ x. not (e.beq x v)) xs) w ≡ (if e.beq v w then false else has xs w)
  unfolding has
  has-without [] v w = ground arith
  has-without (x ∷ xs) v w =
      ground (arith, e.beq_iff x v, e.beq_iff v w, e.beq_iff x w, has-without xs v w)

  has-append : (xs : List A) (v w : A) → has (xs ++ v ∷ []) w ≡ (e.beq v w || has xs w)
  unfolding has
  has-append [] v w = ground arith
  has-append (x ∷ xs) v w = ground (arith, has-append xs v w)

  has-same : (xs : List A) (v w : A) → e.beq v w ≡ true → has xs v ≡ has xs w
  has-same xs v w h = let same : v ≡ w = (e.beq_iff v w).0 h in rw same refl

  -- Toggling a value of a filter flips whether that value is selected, and no other.
  pub toggle_lem :
      (selected : List A) (v w : A)
      → has (toggle selected v) w ≡ (if e.beq v w then not (has selected v) else has selected w)
  unfolding toggle
  toggle_lem selected v w = elim (Bool-cases (has selected v)) [
    | inl member ↦ rw member (rw (has-without selected v w) (ground arith))
    | inr missing ↦
        rw missing (rw (has-append selected v w) (ground (arith, missing, has-same selected v w)))
  ]
