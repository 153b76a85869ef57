-- ===== src/Seed/Hex.antt =====
-- The random hex texts of web/src/lib/data: `Array.from({ length: n }, …).join("")` has n characters.
use Prim.Native.String.{count}
use text.Mathlib.TextLemmas.{length-append as count-append}
use attesta_ai_powered_soc.Prelude.{
  ℕ, zero, suc, ◌+◌, ◌*◌, ◌≤◌, ◌<◌, ◌≡◌, refl, ◌∙◌, List, [], ◌∷◌, length, map, All, arith, Bool,
  true, ◌&&◌, ◌==◌, ==_iff, Bool-cases, inl, inr,
}
use attesta_ai_powered_soc.Prelude.Text.{to_string, concat}
use attesta_ai_powered_soc.Rng.{int}
use attesta_ai_powered_soc.Rng.Fractions.{Doubles}
use attesta_ai_powered_soc.Rng.Runs.{
  Runs, Runs-pure, Runs-bind, Runs-weaken, Runs-int, Runs-array_from,
}
use attesta_ai_powered_soc.Seed.Timeline.{hex_text}

-- whether each number below `n` is one hex digit
one_digit : ℕ → Bool
one_digit zero = true
one_digit (suc n) = (count (to_string 16 n) == 1) && one_digit n

one_digit_lem : (n d : ℕ) → one_digit n ≡ true → d < n → count (to_string 16 d) ≡ 1
unfolding one_digit
one_digit_lem zero d h lt = absurd (omega arith)
one_digit_lem (suc n) d h lt = elim (Bool-cases (d == n)) [
  | inl e ↦ rw ((==_iff d n).0 e) (ground arith)
  | inr e ↦ one_digit_lem n d (ground arith) (ground (arith, e))
]

count-digit : (d : ℕ) → d ≤ 15 → count (to_string 16 d) ≡ 1
unfolding one_digit to_string
count-digit d h = one_digit_lem 16 d refl (omega arith)

count-concat :
    (ds : List ℕ) → All (λ d. d ≤ 15) ds → count (concat (map (to_string 16) ds)) ≡ length ds
count-concat [] h = refl
count-concat (d ∷ ds) (small, h) =
    count-append (to_string 16 d) (concat (map (to_string 16) ds))
    ∙ omega (arith, count-digit d small, count-concat ds h)

module _ ⦃fp : Doubles⦄ where
  pub hex_text-count : (n : ℕ) → Runs n (λ s. count s ≡ n) (hex_text n)
  unfolding hex_text
  hex_text-count n =
      Runs-weaken (n * 1 + 0) n _ (omega arith) (λ _ p. p)
        (Runs-bind (n * 1) 0 _ _
          (Runs-weaken (n * 1) (n * 1) _ (omega arith) (λ _ p. p)
            (Runs-array_from n 1 (int 0 15) (Runs-int 0 15 (omega arith) (omega arith))))
          λ digits (len, all). Runs-pure _ (count-concat digits (digits_small digits all) ∙ len))
    where
      digits_small : (ds : List ℕ) → All (λ k. (0 ≤ k) × (k ≤ 15)) ds → All (λ k. k ≤ 15) ds
      digits_small [] h = tt
      digits_small (d ∷ ds) ((_, h), hs) = (h, digits_small ds hs)
