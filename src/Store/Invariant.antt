-- ===== src/Store/Invariant.antt =====
-- What `tick` of web/src/lib/data/store.ts keeps true of the store, and the listing of its cases.
use attesta_ai_powered_soc.Prelude.{
  ℕ, ◌≤◌, ◌≡◌, refl, String, Option, none, some, List, [], ◌∷◌, ◌++◌, length, In, inl, inr, ◌⊎◌,
  arith, length-append, length-drop, some_inj, ap, suc, ◌-◌, ◌^◌, Bool-cases, str_eq,
}
use attesta_ai_powered_soc.Prelude.Assoc.{Assoc, get, set, string_eq, get-set, get-set_self}
use attesta_ai_powered_soc.Prelude.Int.{ℤ, sub_ℕ}
use attesta_ai_powered_soc.Types.{Case, DetectorFireEvent}
use attesta_ai_powered_soc.Rng.{Xorshift32, next_rand, draw, int, pick, at_index}
use attesta_ai_powered_soc.Rng.Fractions.{Doubles}
use attesta_ai_powered_soc.Seed.{generate_cases, below_percent}
use attesta_ai_powered_soc.Seed.Classify.{IsClassified, generate_cases-IsClassified}
use attesta_ai_powered_soc.Rng.Ensures.{
  Ensures, Ensures-pure, Ensures-then, Ensures-bind, Ensures-if,
}
use attesta_ai_powered_soc.Store.{
  Store, TickEvent, add_case, rescored, put_case, push_fire, cases_at, list_cases, spawn, rescore,
  detector_fire, tick_by, tick_body, tick, biased_index, found, rule_ids, fire_entity, first_case,
  renamed, with_rng,
}

abbrev pub Has : Assoc String Case → String → Type 0
Has cases id = (c : Case) × (get cases id ≡ some c)

pub record IsValid (s : Store) : Type 0 where
  -- every id of the queue has a case
  pub listed : (id : String) → In id s.order → Has s.cases id
  pub classified : (id : String) (c : Case) → get s.cases id ≡ some c → IsClassified c
  pub bounded : length s.detector_fires ≤ 200

pub Has-set :
    (cases : Assoc String Case) (k : String) (c : Case) (id : String)
    → Has cases id
    → Has (set cases k c) id
Has-set cases k c id (old, e) = elim (Bool-cases (str_eq k id)) [
  | inl same ↦ (c, rw (get-set cases k c id, same) refl)
  | inr other ↦ (old, rw (get-set cases k c id, other) e)
]

pub IsClassified-set :
    (cases : Assoc String Case) (k : String) (c : Case)
    → IsClassified c
    → ((id : String) (d : Case) → get cases id ≡ some d → IsClassified d)
    → (id : String) (d : Case) → get (set cases k c) id ≡ some d
    → IsClassified d
IsClassified-set cases k c hc h id d e = elim (Bool-cases (str_eq k id)) [
  | inl same ↦ let put : c ≡ d = some_inj (rw (get-set cases k c id, same) at e) in rw (← put) hc
  | inr other ↦ h id d (rw (get-set cases k c id, other) at e)
]

put_case-IsValid :
    (id : String) (c : Case) (s : Store) → IsClassified c → IsValid s → IsValid (put_case id c s)
unfolding put_case
put_case-IsValid id c s hc v = record {
  listed = λ j m. Has-set s.cases id c j (v.listed j m);
  classified = IsClassified-set s.cases id c hc v.classified;
  bounded = v.bounded;
}

add_case-IsValid : (c : Case) (s : Store) → IsClassified c → IsValid s → IsValid (add_case c s)
unfolding add_case
add_case-IsValid c s hc v = record {
  listed = λ id m. listed_then id m;
  classified = IsClassified-set s.cases c.id c hc v.classified;
  bounded = v.bounded;
}
  where
    listed_then : (id : String) → (c.id ≡ id) ⊎ In id s.order → Has (set s.cases c.id c) id
    listed_then id (inl same) = rw (← same) (c, get-set_self s.cases c.id c)
    listed_then id (inr m) = Has-set s.cases c.id c id (v.listed id m)

rescored-IsClassified : (delta : ℤ) (now_ms : ℕ) (c : Case) → IsClassified (rescored delta now_ms c)
unfolding rescored
rescored-IsClassified delta now_ms c = (refl, (_, refl))

push_fire-IsValid : (e : DetectorFireEvent) (s : Store) → IsValid s → IsValid (push_fire e s)
unfolding push_fire
push_fire-IsValid e s v = record {
  listed = v.listed;
  classified = v.classified;
  bounded =
      ground (
        arith,
        length-append s.detector_fires (e ∷ []),
        length-drop 1 (s.detector_fires ++ e ∷ []),
      );
}

abbrev Good : TickEvent × Store → Type 0
Good o = IsValid o.1

module _ ⦃fp : Doubles⦄ where
  rescore-IsValid : (now_ms : ℕ) (s : Store) → IsValid s → Ensures Good (rescore now_ms s)
  unfolding rescore
  rescore-IsValid now_ms s v = Ensures-then (biased_index (length s.order)) _ λ i.
      Ensures-then (at_index s.order i) _ λ id. Ensures-then (found (get s.cases id)) _ λ c.
        Ensures-then (draw 301) _ λ k. Ensures-pure _ (
          put_case-IsValid id (rescored (sub_ℕ k 150) now_ms c) s (rescored-IsClassified _ now_ms c)
            v)

  detector_fire-IsValid :
      (now_a now_b : ℕ) (s : Store) → IsValid s → Ensures Good (detector_fire now_a now_b s)
  unfolding detector_fire
  detector_fire-IsValid now_a now_b s v = Ensures-then (int 0 9999) _ λ n.
      Ensures-then (pick rule_ids) _
        λ rule. Ensures-then (fire_entity s) _ λ entity. Ensures-pure _ (push_fire-IsValid _ s v)

  first_case-IsClassified :
      (seed now_ms : ℕ) → Ensures IsClassified (first_case (generate_cases 1 seed now_ms))
  first_case-IsClassified seed now_ms = record {
    holds = λ r r' c e. go (generate_cases 1 seed now_ms) r r' c refl e;
  }
    where
      go :
          (o : Option (List Case)) (r r' : Xorshift32) (c : Case)
          → generate_cases 1 seed now_ms ≡ o
          → first_case o r ≡ some (c, r')
          → IsClassified c
      go none r r' c p q = cc
      go (some []) r r' c p q = cc
      go (some (x ∷ xs)) r r' c p q =
          let same : x ≡ c = cc in
          rw (← same) (generate_cases-IsClassified 1 seed now_ms (x ∷ xs) p).0

  spawn-IsValid : (now_a now_b : ℕ) (s : Store) → IsValid s → Ensures Good (spawn now_a now_b s)
  unfolding spawn
  spawn-IsValid now_a now_b s v = Ensures-then (int 0 9999) _ λ n.
      Ensures-then (int 1 (2 ^ 31 - 1)) _ λ seed.
        Ensures-bind (first_case (generate_cases 1 seed now_b)) _
          (first_case-IsClassified seed now_b)
          λ c hc. Ensures-pure _ (add_case-IsValid (renamed _ now_b c) s hc v)

  tick_by-IsValid :
      (roll now_a now_b : ℕ) (s : Store) → IsValid s → Ensures Good (tick_by roll now_a now_b s)
  unfolding tick_by
  tick_by-IsValid roll now_a now_b s v =
      Ensures-if (below_percent roll 6) (spawn now_a now_b s) _ (spawn-IsValid now_a now_b s v) (
        Ensures-if (below_percent roll 26) (rescore now_a s) (detector_fire now_a now_b s)
          (rescore-IsValid now_a s v) (detector_fire-IsValid now_a now_b s v))

  tick_body-IsValid :
      (now_a now_b : ℕ) (s : Store) → IsValid s → Ensures Good (tick_body now_a now_b s)
  unfolding tick_body
  tick_body-IsValid now_a now_b s v =
      Ensures-then next_rand _ λ roll. tick_by-IsValid roll now_a now_b s v

  -- A tick of a valid store leaves a valid store: every id of the queue still has a case, every case
  -- has the severity of its score and a disposition of that severity, and the ticker holds at most
  -- 200 fires.
  pub tick-IsValid :
      (now_a now_b : ℕ) (s s' : Store) (event : TickEvent)
      → IsValid s
      → tick now_a now_b s ≡ some (event, s')
      → IsValid s'
  unfolding tick
  tick-IsValid now_a now_b s s' event v e = go (tick_body now_a now_b s s.live_rng) refl e
    where
      go :
          (o : Option ((TickEvent × Store) × Xorshift32))
          → tick_body now_a now_b s s.live_rng ≡ o
          → with_rng o ≡ some (event, s')
          → IsValid s'
      go none p q = cc
      go (some ((ev, t), r)) p q =
          let good = (tick_body-IsValid now_a now_b s v).holds s.live_rng r (ev, t) p in
          let same : record t { live_rng = r } ≡ s' =
            ap (λ (o : TickEvent × Store). o.1) (some_inj q) in
          rw (← same)
            (record { listed = good.listed; classified = good.classified; bounded = good.bounded })

cases_at-returns :
    (cases : Assoc String Case) (ids : List String)
    → ((id : String) → In id ids → Has cases id)
    → (cs : List Case) × (cases_at cases ids ≡ some cs) × (length cs ≡ length ids)
unfolding cases_at
cases_at-returns cases [] h = ([], refl, refl)
cases_at-returns cases (id ∷ ids) h =
    let (c, at) = h id (inl refl) in
    let (cs, rest, len) = cases_at-returns cases ids (λ j m. h j (inr m)) in
    (c ∷ cs, rw (at, rest) refl, ap suc len)

-- `listCases` of a valid store returns a case for each id of the queue, in its order.
pub list_cases-returns :
    (s : Store)
    → IsValid s
    → (cs : List Case) × (list_cases s ≡ some cs) × (length cs ≡ length s.order)
unfolding list_cases
list_cases-returns s v = cases_at-returns s.cases s.order v.listed
