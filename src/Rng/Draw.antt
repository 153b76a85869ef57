-- ===== src/Rng/Draw.antt =====
-- The ranges of `int` and `pick` of rng.ts, and the one output at which both leave them: `next`
-- divides by 0xffffffff, so that at the output 0xffffffff its fraction is 1 and not below 1.
use native.Mathlib.Decide.{dec_le}
use attesta_ai_powered_soc.Prelude.{
  ℕ, zero, suc, ◌+◌, ◌-◌, ◌^◌, ◌≤◌, ◌<◌, ◌≡◌, refl, ◌≢◌, ◌↔◌, ◌⊎◌, List, [], ◌∷◌, none, some,
  length, get_elem?, arith,
}
use attesta_ai_powered_soc.Rng.{word, Xorshift32, next, draw, int, pick, at_index}
use attesta_ai_powered_soc.Rng.Fractions.{Doubles}
use attesta_ai_powered_soc.Rng.State.{IsValid, next-IsWord}

pub get_elem?-of_lt :
    {A : Type 0} (xs : List A) (i : ℕ) → i < length xs → (a : A) × (get_elem? xs i ≡ some a)
get_elem?-of_lt [] i h = elim h [ ]
get_elem?-of_lt (x ∷ xs) zero h = (x, refl)
get_elem?-of_lt (x ∷ xs) (suc i) h = get_elem?-of_lt xs i (omega arith)

pub get_elem?-beyond : {A : Type 0} (xs : List A) (i : ℕ) → length xs ≤ i → get_elem? xs i ≡ none
get_elem?-beyond [] i h = refl
get_elem?-beyond (x ∷ xs) zero h = absurd (omega arith)
get_elem?-beyond (x ∷ xs) (suc i) h = get_elem?-beyond xs i (omega arith)

at_index-eq-none_iff :
    {A : Type 0} (xs : List A) (i : ℕ) (r : Xorshift32) → (at_index xs i r ≡ none) ↔ (length xs ≤ i)
at_index-eq-none_iff xs i r = (
  λ e. elim (dec_le (length xs) i) [
    | yes p ↦ p
    | no p ↦ let (a, at) = get_elem?-of_lt xs i (omega arith) in absurd (ground (arith, at))
  ],
  λ h. rw (at_index, get_elem?-beyond xs i h) refl,
)

length-pos : {A : Type 0} (xs : List A) → xs ≢ [] → 0 < length xs
length-pos [] h = absurd (h refl)
length-pos (x ∷ xs) h = omega arith

module _ ⦃fp : Doubles⦄ where
  floor_scaled-le : (u n : ℕ) → u < word → 0 < n → n < 2 ^ 53 → fp.floor_scaled u n ≤ n
  floor_scaled-le u n h p q = ground (arith, fp.floor_scaled-lt u n, fp.floor_scaled-top n, below)
    where
      below : (u < 0xffffffff) ⊎ (u ≡ 0xffffffff)
      below = omega arith

  -- The scaled fraction reaches the length of the range at the largest output alone.
  pub floor_scaled-eq_iff :
      (u n : ℕ) → u < word → 0 < n → n < 2 ^ 53 → (fp.floor_scaled u n ≡ n) ↔ (u ≡ 0xffffffff)
  floor_scaled-eq_iff u n h p q =
      (λ e. ground (arith, fp.floor_scaled-lt u n), λ e. rw e (fp.floor_scaled-top n q))

  pub draw_lem :
      (span : ℕ) (r : Xorshift32) → draw span r ≡ some (fp.floor_scaled (next r).0 span, (next r).1)
  unfolding draw
  draw_lem span r = refl

  pub int_lem :
      (lo hi : ℕ) (r : Xorshift32)
      → int lo hi r ≡ some (lo + fp.floor_scaled (next r).0 (hi + 1 - lo), (next r).1)
  unfolding int
  int_lem lo hi r = refl

  pub pick_lem :
      {A : Type 0} (items : List A) (r : Xorshift32)
      → pick items r ≡ at_index items (fp.floor_scaled (next r).0 (length items)) (next r).1
  unfolding pick
  pick_lem items r = refl

  -- `int(lo, hi)` from a valid state returns a number from lo to hi + 1, and hi + 1 exactly at the
  -- output 0xffffffff.
  pub int_range :
      (r : Xorshift32) (lo hi : ℕ)
      → IsValid r
      → lo ≤ hi
      → hi < 2 ^ 53 - 1
      → (k : ℕ) × (int lo hi r ≡ some (k, (next r).1))
        × (lo ≤ k)
        × (k ≤ hi + 1)
        × ((k ≡ hi + 1) ↔ ((next r).0 ≡ 0xffffffff))
  int_range r lo hi v h q =
      let u = (next r).0 in
      let fits = (next-IsWord r v).1 in
      let span = hi + 1 - lo in
      let same = floor_scaled-eq_iff u span fits (omega arith) (omega arith) in
      (
        lo + fp.floor_scaled u span,
        int_lem lo hi r,
        omega arith,
        omega (arith, floor_scaled-le u span fits (omega arith) (omega arith)),
        (λ e. same.0 (omega arith), λ e. omega (arith, same.1 e)),
      )

  -- `pick` of a non-empty array is `undefined` exactly at the output 0xffffffff.
  pub pick-eq-none_iff :
      {A : Type 0} (items : List A) (r : Xorshift32)
      → IsValid r
      → items ≢ []
      → length items < 2 ^ 53
      → (pick items r ≡ none) ↔ ((next r).0 ≡ 0xffffffff)
  pick-eq-none_iff items r v ne q =
      let u = (next r).0 in
      let n = length items in
      let fits = (next-IsWord r v).1 in
      let pos = length-pos items ne in
      let outside = at_index-eq-none_iff items (fp.floor_scaled u n) (next r).1 in
      let same = floor_scaled-eq_iff u n fits pos q in
      let most = floor_scaled-le u n fits pos q in
      rw pick_lem
        (λ e. same.0 (omega (arith, outside.0 e)), λ e. outside.1 (omega (arith, same.1 e)))
