-- ===== src/Watchfloor/Feed.antt =====
-- The live feed never lists an id without a case, and its lists stay within their limits.
use attesta_ai_powered_soc.Prelude.{
  ℕ, suc, ◌≤◌, ◌≡◌, refl, ap, String, Bool, true, false, some, List, [], ◌∷◌, map, length, In, inl,
  inr, ◌⊎◌, arith, length-take, ◌||◌, if◌then◌else◌,
}
use attesta_ai_powered_soc.Prelude.Assoc.{Assoc, get, set, set_all, string_eq, get-set_self}
use attesta_ai_powered_soc.Types.{Case}
use attesta_ai_powered_soc.Store.Invariant.{Has, Has-set}
use attesta_ai_powered_soc.Watchfloor.{
  StreamEvent, hello, new_case, update, fire, CaseStream, initial_stream, Input, snapshot, opened,
  errored, message, is_empty, seed_cases, on_message, on_input, run_inputs, Patch, overridden,
  all_cases,
}
use attesta_ai_powered_soc.Watchfloor.Rate.{fire_times, recent_ones, recent_fires_lem}

pub record IsFeed (s : CaseStream) : Type 0 where
  pub listed : (id : String) → In id s.order → Has s.cases id
  pub few_fires : length s.detector_fires ≤ 40

set_all-Has :
    (m : Assoc String Case) (cs : List Case) (id : String)
    → Has m id ⊎ In id (map (λ (c : Case). c.id) cs)
    → Has (set_all m (map (λ (c : Case). (c.id, c)) cs)) id
unfolding set_all
set_all-Has m [] id (inl h) = h
set_all-Has m [] id (inr h) = absurd h
set_all-Has m (c ∷ cs) id (inl h) = set_all-Has (set m c.id c) cs id (inl (Has-set m c.id c id h))
set_all-Has m (c ∷ cs) id (inr (inl e)) =
    set_all-Has (set m c.id c) cs id (inl (rw (← e) (c, get-set_self m c.id c)))
set_all-Has m (c ∷ cs) id (inr (inr h)) = set_all-Has (set m c.id c) cs id (inr h)

seed_cases-IsFeed :
    (initial : List Case) (s : CaseStream) → IsFeed s → IsFeed (seed_cases initial s)
unfolding seed_cases
seed_cases-IsFeed initial s v = go s.seeded (is_empty initial)
  where
    seeded : CaseStream
    seeded = record s {
      cases = set_all [] (map (λ (c : Case). (c.id, c)) initial);
      order = map (λ (c : Case). c.id) initial;
      seeded = true;
    }

    go : (a b : Bool) → IsFeed (if a || b then s else seeded)
    go true b = v
    go false true = v
    go false false = record {
      listed = λ id m. set_all-Has [] initial id (inr m);
      few_fires = v.few_fires;
    }

on_message-IsFeed :
    (e : StreamEvent) (now : ℕ) (s : CaseStream) → IsFeed s → IsFeed (on_message e now s)
unfolding on_message
on_message-IsFeed (hello at_ms) now s v = v
on_message-IsFeed (new_case c) now s v = record {
  listed = λ id m. elim m [
    | inl same ↦ rw (← same) (c, get-set_self s.cases c.id c)
    | inr old ↦ Has-set s.cases c.id c id (v.listed id old)
  ];
  few_fires = v.few_fires;
}
on_message-IsFeed (update c) now s v = record {
  listed = λ id m. Has-set s.cases c.id c id (v.listed id m);
  few_fires = v.few_fires;
}
on_message-IsFeed (fire event) now s v = record {
  listed = v.listed;
  few_fires = omega (arith, length-take 40 (event ∷ s.detector_fires));
}

on_input-IsFeed : (i : Input) (s : CaseStream) → IsFeed s → IsFeed (on_input i s)
unfolding on_input
on_input-IsFeed (snapshot initial) s v = seed_cases-IsFeed initial s v
on_input-IsFeed opened s v = record { listed = v.listed; few_fires = v.few_fires }
on_input-IsFeed errored s v = record { listed = v.listed; few_fires = v.few_fires }
on_input-IsFeed (message e now) s v = on_message-IsFeed e now s v

run_inputs-IsFeed : (is : List Input) (s : CaseStream) → IsFeed s → IsFeed (run_inputs is s)
unfolding run_inputs
run_inputs-IsFeed [] s v = v
run_inputs-IsFeed (i ∷ is) s v = run_inputs-IsFeed is (on_input i s) (on_input-IsFeed i s v)

initial-IsFeed : IsFeed initial_stream
initial-IsFeed = record { listed = λ id m. absurd m; few_fires = omega arith }

all_cases_lem :
    (cases : Assoc String Case) (overrides : Assoc String Patch) (ids : List String)
    → ((id : String) → In id ids → Has cases id)
    → (cs : List Case) × (all_cases cases overrides ids ≡ some cs) × (length cs ≡ length ids)
unfolding all_cases
all_cases_lem cases overrides [] h = ([], refl, refl)
all_cases_lem cases overrides (id ∷ ids) h =
    let (c, at) = h id (inl refl) in
    let (cs, rest, len) = all_cases_lem cases overrides ids (λ j m. h j (inr m)) in
    (overridden (get overrides id) c ∷ cs, rw (at, rest) refl, ap suc len)

-- Whatever the order in which the snapshot, the messages and the changes of the connection arrive,
-- the table has a row for each id of the order (no case is read that is not there), the ticker has
-- at most forty fires, and the rate counts those of all the fires that no later fire came 5000 ms or
-- more after.
pub run_inputs_lem :
    (inputs : List Input) (overrides : Assoc String Patch)
    → let s = run_inputs inputs initial_stream in
      ((cs : List Case) × (all_cases s.cases overrides s.order ≡ some cs)
        × (length cs ≡ length s.order))
      × (length s.detector_fires ≤ 40)
      × (s.recent_fires ≡ length (recent_ones (fire_times inputs)))
run_inputs_lem inputs overrides =
    let v = run_inputs-IsFeed inputs initial_stream initial-IsFeed in
    let s = run_inputs inputs initial_stream in
    (all_cases_lem s.cases overrides s.order v.listed, v.few_fires, recent_fires_lem inputs)
