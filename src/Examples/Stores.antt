-- ===== src/Examples/Stores.antt =====
-- Examples of the theorems on the store.
use attesta_ai_powered_soc.Prelude.{
  ◌+◌, ◌*◌, ◌^◌, ◌≤◌, ◌<◌, ◌≡◌, refl, ◌≢◌, String, some, List, [], ◌∷◌, length, All, arith,
  str_eq_iff,
}
use attesta_ai_powered_soc.Prelude.Assoc.{Assoc, get, set, set_all, string_eq}
use attesta_ai_powered_soc.Types.{Case, ResponseAction, approved, BlastRadius, StatTile}
use attesta_ai_powered_soc.Rng.{Xorshift32, new_rng, next}
use attesta_ai_powered_soc.Rng.Sample.{Stays}
use attesta_ai_powered_soc.Store.{Store, TickEvent, init_store, list_cases, tick}
use attesta_ai_powered_soc.Store.Invariant.{IsValid, tick-IsValid}
use attesta_ai_powered_soc.Store.Progress.{spawn_seed, tick-returns}
use attesta_ai_powered_soc.Store.Actions.{
  get_response_action, post_decision, ok, with_status, build_response_actions, start_store,
  compute_blast_radius,
}
use attesta_ai_powered_soc.Store.Decisions.{IsAnswer, post_decision-IsAnswer, post_decision_frame}
use attesta_ai_powered_soc.Store.Proposals.{
  IsProposal, build_response_actions-IsProposal, start_store-IsValid,
}
use attesta_ai_powered_soc.Store.Radius.{IsRadius, compute_blast_radius-IsRadius}
use attesta_ai_powered_soc.Store.Stats.{AreTiles, compute_stats, compute_stats-returns}
use attesta_ai_powered_soc.Examples.{
  doubles, stays-Stays, a_case, an_action, a_store, a_store-IsValid,
}

abbrev Ticked : Type 0
Ticked =
    (event : TickEvent) × (s' : Store) × (tick 5000 5000 a_store ≡ some (event, s')) × IsValid s'

draws_stay : Stays 4 a_store.live_rng
unfolding next new_rng init_store
draws_stay = stays-Stays 4 (new_rng 0xc0ffee) refl

spawn-Stays : Stays 20 (new_rng (spawn_seed (next a_store.live_rng).1))
unfolding next new_rng init_store
spawn-Stays = stays-Stays 20 (new_rng (spawn_seed (next (new_rng 0xc0ffee)).1)) refl

one_case : 0 < length a_store.order
unfolding init_store
one_case = omega arith

few_cases : length a_store.order < 2 ^ 53
unfolding init_store
few_cases = omega arith

tick-returns_example : Ticked
tick-returns_example =
    tick-returns a_store a_store-IsValid one_case few_cases 5000 5000 draws_stay spawn-Stays

ticked : Ticked
ticked = tick-returns a_store a_store-IsValid one_case few_cases 5000 5000 draws_stay spawn-Stays

tick-IsValid_example : IsValid ticked.1
tick-IsValid_example = tick-IsValid 5000 5000 a_store ticked.1 ticked.0 a_store-IsValid ticked.2

abbrev Listed : Type 0
Listed = (cs : List Case) × (list_cases a_store ≡ some cs) × (length cs ≡ length a_store.order)

action_there : get_response_action a_store "ra-case-0" ≡ some an_action
unfolding get_response_action init_store get
action_there = refl

post_decision-IsAnswer_example :
    IsAnswer a_store "ra-case-0"
      (some "approved")
      (post_decision a_store "ra-case-0" (some "approved"))
post_decision-IsAnswer_example = post_decision-IsAnswer a_store "ra-case-0" (some "approved")

abbrev first_id : String
first_id = "ra-case-0"

abbrev second_id : String
second_id = "ra-case-1"

other_action : first_id ≢ second_id
other_action = λ e. let same = (str_eq_iff first_id second_id).1 e in absurd (cc)

post_decision_frame_example :
    (get_response_action (post_decision a_store "ra-case-0" (some "rejected")).1 "ra-case-1"
      ≡ get_response_action a_store "ra-case-1")
    × ((post_decision a_store "ra-case-0" (some "rejected")).1.cases ≡ a_store.cases)
    × ((post_decision a_store "ra-case-0" (some "rejected")).1.order ≡ a_store.order)
post_decision_frame_example =
    post_decision_frame a_store "ra-case-0" "ra-case-1" (some "rejected") other_action

approval_lem :
    post_decision a_store "ra-case-0" (some "approved")
    ≡ (ok (with_status approved an_action), (post_decision a_store "ra-case-0" (some "approved")).1)
unfolding post_decision get_response_action init_store get
approval_lem = refl

forty_stay : Stays 40 (new_rng 0xc0ffee)
unfolding next new_rng
forty_stay = stays-Stays 40 (new_rng 0xc0ffee) refl

build_response_actions-IsProposal_example :
    (actions : Assoc String ResponseAction) × (r' : Xorshift32) × (build_response_actions
        (a_case ∷ [])
        (new_rng 0xc0ffee)
      ≡ some (actions, r'))
    × All (IsProposal (a_case ∷ [])) actions
    × (length actions ≤ 40)
build_response_actions-IsProposal_example =
    build_response_actions-IsProposal (a_case ∷ []) (new_rng 0xc0ffee) forty_stay

cases_stay : Stays (3 * 20) (new_rng 20_260_910)
unfolding next new_rng
cases_stay = stays-Stays 60 (new_rng 20_260_910) refl

start_store-IsValid_example :
    (s : Store) × (start_store 3 1_800_000_000_000 ≡ some s) × IsValid s × (length s.order ≡ 3)
start_store-IsValid_example = start_store-IsValid 3 1_800_000_000_000 cases_stay forty_stay

radius-Stays : Stays 24 (new_rng (9 * 7919 + an_action.proposed_at_ms))
unfolding next new_rng
radius-Stays = stays-Stays 24 (new_rng (9 * 7919 + 2000)) refl

compute_blast_radius-IsRadius_example :
    (b : BlastRadius) × (compute_blast_radius 9 an_action ≡ some b) × IsRadius b
compute_blast_radius-IsRadius_example = compute_blast_radius-IsRadius 9 an_action radius-Stays

one_listed : list_cases a_store ≡ some (a_case ∷ [])
unfolding list_cases init_store set_all set get
one_listed = refl

stats_stay : Stays 60 (new_rng (0x57a75 + 1))
unfolding next new_rng
stats_stay = stays-Stays 60 (new_rng (0x57a75 + 1)) refl

compute_stats-returns_example :
    (tiles : List StatTile) × (compute_stats a_store ≡ some tiles) × AreTiles 1 tiles
compute_stats-returns_example =
    compute_stats-returns a_store (a_case ∷ []) one_listed (omega arith) stats_stay
