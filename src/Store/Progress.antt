-- ===== src/Store/Progress.antt =====
-- `tick` of web/src/lib/data/store.ts never reads `undefined` while the generators stay below
-- 0xffffffff: every branch of it returns.
use attesta_ai_powered_soc.Prelude.{
  ℕ, ◌+◌, ◌-◌, ◌^◌, ◌<◌, ◌≡◌, refl, String, some, length, In, inl, inr, arith, Bool-cases, ltb,
}
use attesta_ai_powered_soc.Prelude.Assoc.{get, string_eq}
use attesta_ai_powered_soc.Rng.{Xorshift32, new_rng, next, next_rand, int}
use attesta_ai_powered_soc.Rng.Fractions.{Doubles}
use attesta_ai_powered_soc.Rng.Sample.{Stays}
use attesta_ai_powered_soc.Rng.Draw.{int_lem}
use attesta_ai_powered_soc.Rng.Runs.{
  Runs, bind_lem, Runs-pure, Runs-bind, Runs-weaken, Runs-next, Runs-int, Runs-pick, Runs-draw,
  Runs-at_index, Runs-given, Runs-if,
}
use attesta_ai_powered_soc.Seed.{generate_cases, below_percent}
use attesta_ai_powered_soc.Seed.Cases.{generate_cases_one}
use attesta_ai_powered_soc.Store.{
  Store, TickEvent, biased_index, found, rescore, fire_entity, detector_fire, rule_ids, spawn,
  first_case, tick_by, tick_body, tick,
}
use attesta_ai_powered_soc.Store.Invariant.{IsValid, tick-IsValid}

-- The seed that `spawn` draws after the number of the case's id.
abbrev pub spawn_seed : ⦃fp : Doubles⦄ → Xorshift32 → ℕ
spawn_seed ⦃fp⦄ r = 1 + fp.floor_scaled (next (next r).1).0 (2 ^ 31 - 1)

abbrev Anything : {A : Type 0} → A → Type 0
Anything a = Unit {0}

module _ ⦃fp : Doubles⦄ (s : Store) (v : IsValid s) (some_case : 0 < length s.order)
    (fits : length s.order < 2 ^ 53) where
  biased_index-Runs : Runs 1 (λ i. i < length s.order) (biased_index (length s.order))
  unfolding biased_index
  biased_index-Runs = Runs-bind 1 0 _ _ Runs-next λ u _. Runs-pure _ (omega arith)

  found-Runs : (id : String) → In id s.order → Runs 0 Anything (found (get s.cases id))
  found-Runs id m = let (c, at) = v.listed id m in Runs-given _ c tt (λ r. rw at refl)

  rescore-Runs : (now_ms : ℕ) → Runs 3 Anything (rescore now_ms s)
  unfolding rescore
  rescore-Runs now_ms = Runs-bind 1 2 _ _ biased_index-Runs λ i below.
      Runs-bind 0 2 _ _ (Runs-at_index s.order i below) λ id m.
        Runs-bind 0 2 _ _ (found-Runs id m) λ c _.
          Runs-weaken 1 2 _ (omega arith) (λ _ _. tt)
            (Runs-bind 1 0 _ _ (Runs-draw 301 (omega arith) (omega arith))
              λ k _. Runs-pure {P = Anything} _ tt)

  fire_entity-Runs : Runs 1 Anything (fire_entity s)
  unfolding fire_entity
  fire_entity-Runs =
      Runs-if 1 (ltb 0 (length s.order)) _ _
        (Runs-bind 1 0 _ _ (Runs-pick s.order some_case fits)
          λ id m. Runs-bind 0 0 _ _ (found-Runs id m) λ c _. Runs-pure _ tt)
        (Runs-weaken 0 1 _ (omega arith) (λ _ _. tt) (Runs-pure {P = Anything} _ tt))

  detector_fire-Runs : (now_a now_b : ℕ) → Runs 3 Anything (detector_fire now_a now_b s)
  unfolding detector_fire
  detector_fire-Runs now_a now_b =
      Runs-bind 1 2 _ _ (Runs-int 0 9999 (omega arith) (omega arith)) λ n _.
        Runs-bind 1 1 _ _ (Runs-pick rule_ids (omega arith) (omega arith))
          λ rule _. Runs-bind 1 0 _ _ fire_entity-Runs λ entity _. Runs-pure _ tt

  -- Whatever the branch, the tick returns when its own draws and, for a new case, those of the
  -- case's generator stay below 0xffffffff.
  spawn_lem :
      (now_a now_b : ℕ) (r : Xorshift32)
      → Stays 20 (new_rng (spawn_seed r))
      → (o : TickEvent × Store) × (r' : Xorshift32) × (spawn now_a now_b s r ≡ some (o, r'))
  unfolding spawn
  spawn_lem now_a now_b r h =
      let (c, e) = generate_cases_one (spawn_seed r) now_b h in
      (
        _,
        _,
        bind_lem (int 0 9999) _ r (next r).1 _ _ (int_lem 0 9999 r) (
            bind_lem (int 1 (2 ^ 31 - 1)) _ (next r).1 (next (next r).1).1 (spawn_seed r) _
              (int_lem 1 (2 ^ 31 - 1) (next r).1)
              (bind_lem (first_case (generate_cases 1 (spawn_seed r) now_b)) _ (next (next r).1).1
                (next (next r).1).1 c _ (rw e refl) refl)),
      )

  tick_by_lem :
      (roll now_a now_b : ℕ) (r : Xorshift32)
      → Stays 3 r
      → Stays 20 (new_rng (spawn_seed r))
      → (o : TickEvent × Store) × (r' : Xorshift32) × (tick_by roll now_a now_b s r ≡ some (o, r'))
  unfolding tick_by
  tick_by_lem roll now_a now_b r h hs = elim (Bool-cases (below_percent roll 6)) [
    | inl b ↦ rw b (spawn_lem now_a now_b r hs)
    | inr b ↦
        let (o, r', e, _, _) =
          (Runs-if {P = Anything} 3 (below_percent roll 26) _ _ (rescore-Runs now_a)
              (detector_fire-Runs now_a now_b)).run
            0 r h in
        rw b (o, r', e)
  ]

  -- A tick of a valid store with a case returns an event and a valid store, whichever branch the
  -- roll takes, while the four outputs that it may draw, and the twenty of the generator of a new
  -- case, stay below 0xffffffff.
  pub tick-returns :
      (now_a now_b : ℕ)
      → Stays 4 s.live_rng
      → Stays 20 (new_rng (spawn_seed (next s.live_rng).1))
      → (event : TickEvent) × (s' : Store) × (tick now_a now_b s ≡ some (event, s')) × IsValid s'
  unfolding tick tick_body next_rand
  tick-returns now_a now_b h hs =
      let ((event, t), r', e) =
        tick_by_lem (next s.live_rng).0 now_a now_b (next s.live_rng).1 h.1 hs in
      let s' = record t { live_rng = r' } in
      let ticked : tick now_a now_b s ≡ some (event, s') = rw e refl in
      (event, s', ticked, tick-IsValid now_a now_b s s' event v ticked)
