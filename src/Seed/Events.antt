-- ===== src/Seed/Events.antt =====
-- The timeline of a case (`generateTimelineEvents` of web/src/lib/data/seed.ts): what its events are,
-- how many there are for each tactic, and their order.
use mathlib.Core.List.{Perm}
use mathlib.Core.List.{append_assoc, append-nil}
use attesta_ai_powered_soc.Prelude.{
  ℕ, zero, suc, ◌+◌, ◌*◌, ◌^◌, ◌≤◌, ◌<◌, ◌≡◌, refl, sym, ap, ◌∙◌, subst, some, List, [], ◌∷◌, ◌++◌,
  length, In, All, arith,
}
use attesta_ai_powered_soc.Prelude.Sort.{
  sort_by, later, IsSortedBy, sort_by-IsSortedBy, sort_by-perm,
}
use attesta_ai_powered_soc.Types.{Tactic, Case, TimelineEvent}
use attesta_ai_powered_soc.Rng.{new_rng, int}
use attesta_ai_powered_soc.Rng.Fractions.{Doubles}
use attesta_ai_powered_soc.Rng.Sample.{Stays, Stays-le}
use attesta_ai_powered_soc.Rng.Runs.{
  Runs, Runs-pure, Runs-bind, Runs-weaken, Runs-next, Runs-int, Runs-pick, Runs-array_from,
}
use attesta_ai_powered_soc.Seed.Timeline.{
  predicates_by_tactic, window_ms, at_ms_of, event_of, hex_text, offset_in, tactic_events,
  all_events, generate_timeline_events,
}

-- An event of the case for a tactic: a predicate of that tactic, about the case's entity, in the window
-- from its creation on.
pub record IsEventOf (c : Case) (t : Tactic) (e : TimelineEvent) : Type 0 where
  pub tactic : e.tactic ≡ t
  pub predicate : In e.predicate (predicates_by_tactic t)
  pub entity : e.entity ≡ c.primary_entity
  pub begun : c.created_at_ms ≤ e.at_ms
  pub ended : e.at_ms ≤ c.created_at_ms + window_ms c

-- From one to three events for each of the tactics, in their order.
abbrev pub AreGroups : Case → List Tactic → List (List TimelineEvent) → Type 0
AreGroups c [] [] = Unit {0}
AreGroups c [] (g ∷ gs) = ⊥
AreGroups c (t ∷ ts) [] = ⊥
AreGroups c (t ∷ ts) (g ∷ gs) =
    All (IsEventOf c t) g × (1 ≤ length g) × (length g ≤ 3) × AreGroups c ts gs

abbrev pub joined : List (List TimelineEvent) → List TimelineEvent
joined [] = []
joined (g ∷ gs) = g ++ joined gs

pub predicates_some :
    (t : Tactic)
    → (0 < length (predicates_by_tactic t)) × (length (predicates_by_tactic t) < 2 ^ 53)
predicates_some t = ground arith

module _ ⦃fp : Doubles⦄ where
  abbrev Anything : {A : Type 0} → A → Type 0
  Anything a = Unit {0}

  pub hex_text-Runs : (n : ℕ) → Runs n Anything (hex_text n)
  unfolding hex_text
  hex_text-Runs n =
      Runs-weaken (n * 1 + 0) n _ (omega arith) (λ _ _. tt)
        (Runs-bind (n * 1) 0 _ _
          (Runs-array_from n 1 (int 0 15) (Runs-int 0 15 (omega arith) (omega arith)))
          λ digits _. Runs-pure {P = Anything} _ tt)

  offset_in-Runs : (window : ℕ) → window < 2 ^ 53 → Runs 1 (λ k. k ≤ window) (offset_in window)
  unfolding offset_in
  offset_in-Runs window q =
      Runs-bind 1 0 _ _ Runs-next
        λ u below. Runs-pure _ (fp.round_scaled-le u window (omega arith) q)

  module _ (c : Case) (fits : window_ms c < 2 ^ 53) where
    tactic_events-Runs :
        (t : Tactic) (left : ℕ) (events : List TimelineEvent)
        → Runs
            (18 * left)
            (λ l.
              (g : List TimelineEvent) × (l ≡ events ++ g)
              × All (IsEventOf c t) g
              × (length g ≡ left))
            (tactic_events c t left events)
    unfolding tactic_events
    tactic_events-Runs t zero events =
        Runs-weaken 0 (18 * zero) _ (omega arith) (λ l p. p)
          (Runs-pure events ([], sym (append-nil events), tt, refl))
    tactic_events-Runs t (suc left) events =
        Runs-weaken (1 + (1 + (16 + 18 * left))) (18 * suc left) _ (omega arith) (λ l p. p)
          (Runs-bind 1 (1 + (16 + 18 * left)) _ _ (offset_in-Runs (window_ms c) fits)
            λ offset inside.
              Runs-bind 1 (16 + 18 * left) _ _
                (Runs-pick (predicates_by_tactic t) (predicates_some t).0 (predicates_some t).1)
                λ predicate pm. Runs-bind 16 (18 * left) _ _ (hex_text-Runs 16) λ claim_id _.
                  let e = event_of c t (length events) offset predicate claim_id in
                  let of_case : IsEventOf c t e = record {
                    tactic = refl;
                    predicate = pm;
                    entity = refl;
                    begun = omega arith;
                    ended = omega arith;
                  } in
                  Runs-weaken (18 * left) (18 * left) _ (omega arith)
                    (λ l (g, made, all, len).
                      (e ∷ g, made ∙ append_assoc events (e ∷ []) g, (of_case, all), ap suc len))
                    (tactic_events-Runs t left (events ++ e ∷ [])))

    all_events-Runs :
        (ts : List Tactic) (events : List TimelineEvent)
        → Runs
            (55 * length ts)
            (λ l. (gs : List (List TimelineEvent)) × (l ≡ events ++ joined gs) × AreGroups c ts gs)
            (all_events c ts events)
    unfolding all_events
    all_events-Runs [] events =
        Runs-weaken 0 (55 * zero) _ (omega arith) (λ l p. p)
          (Runs-pure events ([], sym (append-nil events), tt))
    all_events-Runs (t ∷ ts) events =
        Runs-weaken (1 + (54 + 55 * length ts)) (55 * length (t ∷ ts)) _ (omega arith) (λ l p. p)
          (Runs-bind 1 (54 + 55 * length ts) _ _ (Runs-int 1 3 (omega arith) (omega arith))
            λ n (n1, n3).
              Runs-bind 54 (55 * length ts) _ _
                (Runs-weaken (18 * n) 54 _ (omega arith) (λ l p. p) (tactic_events-Runs t n events))
                λ more (g, made, all, len).
                  Runs-weaken (55 * length ts) (55 * length ts) _ (omega arith)
                    (λ l (gs, e, groups). (
                      g ∷ gs,
                      e ∙ ap (λ xs. xs ++ joined gs) made ∙ append_assoc events g (joined gs),
                      (all, omega (arith, len), omega (arith, len), groups),
                    ))
                    (all_events-Runs ts more))

    -- While the outputs it may draw, 55 for each tactic, stay below 0xffffffff,
    -- `generateTimelineEvents` returns the case's timeline, in the order of its times: rearranged, it is
    -- from one to three events for the case's first tactic, then as many for the second, and so on, each
    -- with a predicate of its tactic, the case's entity and a time in the case's window.
    pub generate_timeline_events-IsSortedBy :
        (seed : ℕ)
        → Stays (55 * length c.tactics) (new_rng seed)
        → (events : List TimelineEvent) × (groups : List (List TimelineEvent))
          × (generate_timeline_events c seed ≡ some events)
          × IsSortedBy (later at_ms_of) events
          × Perm events (joined groups)
          × AreGroups c c.tactics groups
    unfolding generate_timeline_events
    generate_timeline_events-IsSortedBy seed h =
        let n = 55 * length c.tactics in
        let (events, r', e, (gs, made, groups), _) =
          (all_events-Runs c.tactics []).run 0 (new_rng seed)
            (Stays-le (n + 0) n (new_rng seed) (omega arith) h) in
        (
          sort_by (later at_ms_of) events,
          gs,
          rw e refl,
          sort_by-IsSortedBy at_ms_of events,
          subst (λ xs. Perm (sort_by (later at_ms_of) events) xs) made
              (sort_by-perm (later at_ms_of) events),
          groups,
        )
