-- ===== src/Examples/Draws.antt =====
-- Examples of the theorems on the generator, the policy and the seed data.
use attesta_ai_powered_soc.Prelude.{
  ℕ, ◌+◌, ◌≤◌, ◌≡◌, refl, ◌↔◌, none, some, List, [], ◌∷◌, ◌++◌, length, min, All, arith,
}
use mathlib.Core.List.{Perm}
use attesta_ai_powered_soc.Prelude.Assoc.{string_eq}
use attesta_ai_powered_soc.Types.{Case}
use attesta_ai_powered_soc.Rng.{Xorshift32, new_rng, next, int, pick, pick_n}
use attesta_ai_powered_soc.Rng.State.{new_rng-IsValid}
use attesta_ai_powered_soc.Rng.Draw.{int_range, pick-eq-none_iff}
use attesta_ai_powered_soc.Rng.Sample.{Stays, pick_n_lem}
use attesta_ai_powered_soc.Seed.{severity_for_score, generate_cases}
use attesta_ai_powered_soc.Seed.Cases.{IsConsistent, generate_cases-IsConsistent}
use attesta_ai_powered_soc.Policy.{build_synthetic_policy}
use attesta_ai_powered_soc.Policy.Thresholds.{classify, classify-build_synthetic_policy}
use attesta_ai_powered_soc.Examples.{doubles, stays-Stays}

-- the seed 1584200935, whose first output is 0xffffffff
top_output : (next (new_rng 1_584_200_935)).0 ≡ 0xffffffff
unfolding next new_rng
top_output = refl

int_range_example :
    (k : ℕ) × (int 0 9999 (new_rng 1_584_200_935) ≡ some (k, (next (new_rng 1_584_200_935)).1))
    × (0 ≤ k)
    × (k ≤ 9999 + 1)
    × ((k ≡ 9999 + 1) ↔ ((next (new_rng 1_584_200_935)).0 ≡ 0xffffffff))
int_range_example =
    int_range (new_rng 1_584_200_935) 0 9999 (new_rng-IsValid 1_584_200_935) (omega arith)
      (omega arith)

pick-eq-none_iff_example :
    (pick {A = ℕ} (1 ∷ 2 ∷ []) (new_rng 1_584_200_935) ≡ none)
    ↔ ((next (new_rng 1_584_200_935)).0 ≡ 0xffffffff)
pick-eq-none_iff_example =
    pick-eq-none_iff (1 ∷ 2 ∷ []) (new_rng 1_584_200_935) (new_rng-IsValid 1_584_200_935) (λ e. cc)
      (omega arith)

pick_n_lem_example :
    (result : List ℕ) × (r' : Xorshift32) × (left : List ℕ) × (pick_n
        (5 ∷ 6 ∷ 7 ∷ [])
        2
        (new_rng 42)
      ≡ some (result, r'))
    × Perm (result ++ left) (5 ∷ 6 ∷ 7 ∷ [])
    × (length result ≡ min 2 (length {A = ℕ} (5 ∷ 6 ∷ 7 ∷ [])))
    × Stays 1 r'
unfolding next new_rng
pick_n_lem_example =
    pick_n_lem (5 ∷ 6 ∷ 7 ∷ []) 2 1 (new_rng 42) (stays-Stays 3 (new_rng 42) refl) (omega arith)

two_cases_stay : Stays 40 (new_rng 20_260_910)
unfolding next new_rng
two_cases_stay = stays-Stays 40 (new_rng 20_260_910) refl

abbrev Generated : Type 0
Generated =
    (cases : List Case) × (generate_cases 2 20_260_910 1_800_000_000_000 ≡ some cases)
    × (length cases ≡ 2)
    × All (IsConsistent 1_800_000_000_000) cases

generate_cases-IsConsistent_example : Generated
generate_cases-IsConsistent_example =
    generate_cases-IsConsistent 2 20_260_910 1_800_000_000_000 two_cases_stay

two_cases : Generated
two_cases = generate_cases-IsConsistent 2 20_260_910 1_800_000_000_000 two_cases_stay

classify-build_synthetic_policy_example :
    classify build_synthetic_policy 6000 ≡ some (severity_for_score 6000)
classify-build_synthetic_policy_example = classify-build_synthetic_policy 6000
