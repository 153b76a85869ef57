-- ===== src/Store/Proposals.antt =====
-- The response actions that `buildResponseActions` proposes, and the store that `initStore` makes.
use attesta_ai_powered_soc.Prelude.{
  ℕ, zero, suc, ◌+◌, ◌*◌, ◌≤◌, ◌≡◌, refl, Bool, true, Bool-cases, String, some, List, [], ◌∷◌, map,
  length, filter, take, In, inl, inr, All, arith, length-take, length-map, subst, sym, ◌⊎◌,
}
use attesta_ai_powered_soc.Prelude.Assoc.{Assoc, get, set, set_all, string_eq, get-set_self}
use attesta_ai_powered_soc.Types.{
  Case, ResponseAction, ResponseActionKind, Severity, info, low, medium, high, critical, pending,
}
use attesta_ai_powered_soc.Prelude.Text.{◌<>◌}
use attesta_ai_powered_soc.Rng.{Xorshift32, new_rng}
use attesta_ai_powered_soc.Rng.Fractions.{Doubles}
use attesta_ai_powered_soc.Rng.Sample.{Stays, Stays-le}
use attesta_ai_powered_soc.Rng.Runs.{Runs, Runs-pure, Runs-bind, Runs-weaken, Runs-pick}
use attesta_ai_powered_soc.Seed.Classify.{IsClassified, generate_cases-IsClassified}
use attesta_ai_powered_soc.Seed.Cases.{generate_cases-IsConsistent}
use attesta_ai_powered_soc.Store.{Store, init_store}
use attesta_ai_powered_soc.Store.Invariant.{IsValid, Has, Has-set, IsClassified-set}
use attesta_ai_powered_soc.Store.Actions.{
  is_severe, action_id, action_kinds, proposed, candidates, propose_all, build_response_actions,
  start_store,
}

-- An entry of the map, written out: a pending action for one of the cases, which is high or critical.
pub record IsProposal (cases : List Case) (entry : String × ResponseAction) : Type 0 where
  pub subject : Case
  pub listed : In subject cases
  pub severe : (subject.severity ≡ high) ⊎ (subject.severity ≡ critical)
  pub filed : entry.0 ≡ "ra-" <> subject.id
  pub named : entry.1.id ≡ entry.0
  pub of_case : entry.1.case_id ≡ subject.id
  pub target : entry.1.target ≡ subject.primary_entity
  pub proposed_at : entry.1.proposed_at_ms ≡ subject.updated_at_ms
  pub undecided : entry.1.status ≡ pending

is_severe_lem : (c : Case) → is_severe c ≡ true → (c.severity ≡ high) ⊎ (c.severity ≡ critical)
is_severe_lem c h = go c.severity refl
  where
    go : (v : Severity) → c.severity ≡ v → (c.severity ≡ high) ⊎ (c.severity ≡ critical)
    go info e = absurd (ground (arith, e, h))
    go low e = absurd (ground (arith, e, h))
    go medium e = absurd (ground (arith, e, h))
    go high e = inl e
    go critical e = inr e

proposed-IsProposal :
    (cases : List Case) (c : Case) (kind : ResponseActionKind)
    → In c cases
    → is_severe c ≡ true
    → IsProposal cases (action_id c, proposed c kind)
proposed-IsProposal cases c kind listed severe = record {
  subject = c;
  listed = listed;
  severe = is_severe_lem c severe;
  filed = refl;
  named = refl;
  of_case = refl;
  target = refl;
  proposed_at = refl;
  undecided = refl;
}

In-take : {A : Type 0} (n : ℕ) (a : A) (xs : List A) → In a (take n xs) → In a xs
In-take zero a xs h = elim h [ ]
In-take (suc n) a [] h = elim h [ ]
In-take (suc n) a (x ∷ xs) (inl e) = inl e
In-take (suc n) a (x ∷ xs) (inr h) = inr (In-take n a xs h)

In-filter :
    {A : Type 0} (p : A → Bool) (a : A) (xs : List A) → In a (filter p xs) → In a xs × (p a ≡ true)
In-filter p a [] h = elim h [ ]
In-filter p a (x ∷ xs) h = elim (Bool-cases (p x)) [
  | inl keep ↦ elim (rw keep at h) [
    | inl e ↦ (inl e, rw (← e) keep)
    | inr m ↦ (inr (In-filter p a xs m).0, (In-filter p a xs m).1)
  ]
  | inr omit ↦ let m = In-filter p a xs (rw omit at h) in (inr m.0, m.1)
]

candidates_lem :
    (cases : List Case) (c : Case) → In c (candidates cases) → In c cases × (is_severe c ≡ true)
unfolding candidates
candidates_lem cases c h = In-filter is_severe c cases (In-take 40 c (filter is_severe cases) h)

All-set :
    (P : String × ResponseAction → Type 0) (m : Assoc String ResponseAction) (k : String)
    (a : ResponseAction)
    → P (k, a)
    → All P m
    → All P (set m k a)
unfolding set
All-set P [] k a h all = (h, tt)
All-set P ((j, b) ∷ m) k a h (hd, tl) = elim (Bool-cases (string_eq.beq j k)) [
  | inl e ↦
      let same : j ≡ k = (string_eq.beq_iff j k).0 e in
      rw e (subst (λ x. P (x, a)) (sym same) h, tl)
  | inr e ↦ rw e (hd, All-set P m k a h tl)
]

length-set :
    (m : Assoc String ResponseAction) (k : String) (a : ResponseAction)
    → length (set m k a) ≤ suc (length m)
unfolding set
length-set [] k a = omega arith
length-set ((j, b) ∷ m) k a = ground (arith, length-set m k a)

-- The map of the cases holds every case that is listed.
set_all_lem :
    (m : Assoc String Case) (cs : List Case)
    → ((id : String) (c : Case) → get m id ≡ some c → IsClassified c)
    → All IsClassified cs
    → ((id : String)
        → Has m id ⊎ In id (map (λ (c : Case). c.id) cs)
        → Has (set_all m (map (λ (c : Case). (c.id, c)) cs)) id)
      × ((id : String) (c : Case)
          → get (set_all m (map (λ (c : Case). (c.id, c)) cs)) id ≡ some c
          → IsClassified c)
unfolding set_all
set_all_lem m [] h all = (λ id e. elim e [ inl there ↦ there | inr absent ↦ absurd absent ], h)
set_all_lem m (c ∷ cs) h (hc, hcs) =
    let (listed, classified) = set_all_lem (set m c.id c) cs (IsClassified-set m c.id c hc h) hcs in
    (
      λ id e. elim e [
        | inl there ↦ listed id (inl (Has-set m c.id c id there))
        | inr (inl same) ↦ listed id (inl (rw (← same) (c, get-set_self m c.id c)))
        | inr (inr later) ↦ listed id (inr later)
      ],
      classified,
    )

pub init_store-IsValid :
    (cs : List Case) (actions : Assoc String ResponseAction) (r : Xorshift32)
    → All IsClassified cs
    → IsValid (init_store cs actions r)
unfolding init_store
init_store-IsValid cs actions r all =
    let (listed, classified) = set_all_lem [] cs (λ id c e. unfold get in absurd (cc)) all in
    record { listed = λ id m. listed id (inr m); classified = classified; bounded = omega arith }

module _ ⦃fp : Doubles⦄ (cases : List Case) where
  propose_all-Runs :
      (cs : List Case) (actions : Assoc String ResponseAction)
      → All (IsProposal cases) actions
      → ((c : Case) → In c cs → In c cases × (is_severe c ≡ true))
      → Runs
          (length cs)
          (λ m. All (IsProposal cases) m × (length m ≤ length actions + length cs))
          (propose_all cs actions)
  unfolding propose_all
  propose_all-Runs [] actions all from = Runs-pure _ (all, omega arith)
  propose_all-Runs (c ∷ cs) actions all from =
      Runs-weaken (1 + length cs) (length (c ∷ cs)) _ (omega arith) (λ m p. p)
        (Runs-bind 1 (length cs) _ _ (Runs-pick action_kinds (omega arith) (omega arith)) λ kind _.
          let (member, severe) = from c (inl refl) in
          let more = set actions (action_id c) (proposed c kind) in
          Runs-weaken (length cs) (length cs) _ (omega arith)
            (λ m p. (p.0, omega (arith, p.1, length-set actions (action_id c) (proposed c kind))))
            (propose_all-Runs cs more
              (All-set (IsProposal cases) actions (action_id c) (proposed c kind)
                (proposed-IsProposal cases c kind member severe) all)
              (λ d m. from d (inr m))))

  build-Runs :
      Runs 40 (λ m. All (IsProposal cases) m × (length m ≤ 40)) (build_response_actions cases)
  unfolding build_response_actions
  build-Runs =
      let few : length (candidates cases) ≤ 40 =
        unfold candidates in omega (arith, length-take 40 (filter is_severe cases)) in
      Runs-weaken (length (candidates cases)) 40 _ few (λ m p. (p.0, omega (arith, p.1)))
        (propose_all-Runs (candidates cases) [] tt (candidates_lem cases))

  -- While the outputs stay below 0xffffffff, `buildResponseActions` returns at most forty actions:
  -- each is filed under "ra-" and the id of a case of the list that is high or critical, has that
  -- id, names the case, its entity and the time of its last update, and is pending.
  pub build_response_actions-IsProposal :
      (r : Xorshift32)
      → Stays 40 r
      → (actions : Assoc String ResponseAction) × (r' : Xorshift32) × (build_response_actions cases
            r
          ≡ some (actions, r'))
        × All (IsProposal cases) actions
        × (length actions ≤ 40)
  build_response_actions-IsProposal r h =
      let (actions, r', e, (all, few), _) =
        build-Runs.run 0 r (Stays-le (40 + 0) 40 r (omega arith) h) in
      (actions, r', e, all, few)

module _ ⦃fp : Doubles⦄ where
  -- `initStore` returns a valid store of the number of cases that it asks for, while the outputs of
  -- its two generators stay below 0xffffffff.
  pub start_store-IsValid :
      (count now_ms : ℕ)
      → Stays (count * 20) (new_rng 20_260_910)
      → Stays 40 (new_rng 0xc0ffee)
      → (s : Store) × (start_store count now_ms ≡ some s) × IsValid s × (length s.order ≡ count)
  unfolding start_store init_store
  start_store-IsValid count now_ms hc ha =
      let (cases, e, len, _) = generate_cases-IsConsistent count 20_260_910 now_ms hc in
      let (actions, r, ea, _, _) = build_response_actions-IsProposal cases (new_rng 0xc0ffee) ha in
      let all = generate_cases-IsClassified count 20_260_910 now_ms cases e in
      (
        init_store cases actions r,
        rw (e, ea) refl,
        init_store-IsValid cases actions r all,
        omega (arith, len, length-map cases (λ (c : Case). c.id)),
      )
