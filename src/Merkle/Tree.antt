-- ===== src/Merkle/Tree.antt =====
-- The shape of the trees of web/src/lib/kernel/merkle.ts: the number of leaves is the least power of
-- two that the ids fit, each level has half as many nodes as the one below, and every node is bytes.
use native.Mathlib.Nat.{pow-suc, one-le-pow}
use attesta_ai_powered_soc.Prelude.{
  ℕ, zero, suc, ◌+◌, ◌-◌, ◌*◌, ◌^◌, ◌≤◌, ◌<◌, ◌≡◌, refl, ap, String, some, List, [], ◌∷◌, ◌++◌, map,
  length, length-append, length-map, get_elem?, All, arith, ltb, Bool-cases, inl, inr,
}
use attesta_ai_powered_soc.Merkle.{
  Bytes, Hashing, power_loop, next_power_of_two, leaf_hash, internal_hash, pad_hash, pad_level,
  leaf_level, combine,
}

pub le-two-pow : (n : ℕ) → n ≤ 2 ^ n
le-two-pow zero = omega arith
le-two-pow (suc n) = omega (arith, le-two-pow n, pow-suc 2 n, one-le-pow n 2)

power_loop_lem :
    (fuel j p n : ℕ)
    → p ≡ 2 ^ j
    → n ≤ p * 2 ^ fuel
    → p < 2 * n
    → (k : ℕ) × (power_loop fuel p n ≡ 2 ^ k) × (n ≤ 2 ^ k) × (2 ^ k < 2 * n)
unfolding power_loop
power_loop_lem zero j p n e h m = (j, e, omega arith, omega arith)
power_loop_lem (suc fuel) j p n e h m = elim (Bool-cases (ltb p n)) [
  | inl more ↦ rw more (
      power_loop_lem fuel (suc j) (p * 2) n (omega (arith, pow-suc 2 j))
        (omega (arith, ap (λ t. p * t) (pow-suc 2 fuel))) (ground arith))
  | inr done ↦ rw done (j, e, ground arith, ground arith)
]

-- The number of leaves for n ids, n > 0, is a power of two from n to 2 n - 1: the loop's fuel is
-- enough.
pub next_power_of_two_lem :
    (n : ℕ) → 0 < n → (k : ℕ) × (next_power_of_two n ≡ 2 ^ k) × (n ≤ 2 ^ k) × (2 ^ k < 2 * n)
unfolding next_power_of_two
next_power_of_two_lem n h = power_loop_lem n 0 1 n refl (omega (arith, le-two-pow n)) (omega arith)

abbrev pub IsBytes : Bytes → Type 0
IsBytes = All (λ b. b < 256)

module _ ⦃hs : Hashing⦄ where
  pub length-combine : (n : ℕ) (cur : List Bytes) → length cur ≡ 2 * n → length (combine cur) ≡ n
  unfolding combine
  length-combine zero [] h = refl
  length-combine (suc n) (l ∷ r ∷ rest) h = ap suc (length-combine n rest (omega arith))
  length-combine zero (l ∷ rest) h = absurd (omega arith)
  length-combine (suc n) [] h = absurd (omega arith)
  length-combine (suc n) (l ∷ []) h = absurd (omega arith)

  pub internal_hash-IsBytes : (l r : Bytes) → IsBytes (internal_hash l r)
  unfolding internal_hash
  internal_hash-IsBytes l r = hs.blake3_bytes _

  pub combine-IsBytes : (cur : List Bytes) → All IsBytes (combine cur)
  unfolding combine
  combine-IsBytes [] = tt
  combine-IsBytes (l ∷ []) = tt
  combine-IsBytes (l ∷ r ∷ rest) = (internal_hash-IsBytes l r, combine-IsBytes rest)

  -- Two neighbours are combined at half their place.
  pub combine_at :
      (cur : List Bytes) (i : ℕ) (l r : Bytes)
      → get_elem? cur (2 * i) ≡ some l
      → get_elem? cur (2 * i + 1) ≡ some r
      → get_elem? (combine cur) i ≡ some (internal_hash l r)
  unfolding combine
  combine_at [] i l r p q = cc
  combine_at (a ∷ []) zero l r p q = cc
  combine_at (a ∷ []) (suc i) l r p q =
      let double : 2 * suc i ≡ suc (suc (2 * i)) = omega arith in cc (rw double at p)
  combine_at (a ∷ b ∷ rest) zero l r p q = cc
  combine_at (a ∷ b ∷ rest) (suc i) l r p q =
      let double : 2 * suc i ≡ suc (suc (2 * i)) = omega arith in
      let next : 2 * suc i + 1 ≡ suc (suc (2 * i + 1)) = omega arith in
      combine_at rest i l r (rw double at p) (rw next at q)

  All-map_leaf : (ids : List String) → All IsBytes (map leaf_hash ids)
  unfolding leaf_hash
  All-map_leaf [] = tt
  All-map_leaf (id ∷ ids) = (hs.blake3_bytes _, All-map_leaf ids)

  All-pad_level : (count start : ℕ) → All IsBytes (pad_level count start)
  unfolding pad_level pad_hash
  All-pad_level zero start = tt
  All-pad_level (suc count) start = (hs.blake3_bytes _, All-pad_level count (start + 1))

  length-pad_level : (count start : ℕ) → length (pad_level count start) ≡ count
  unfolding pad_level
  length-pad_level zero start = refl
  length-pad_level (suc count) start = ap suc (length-pad_level count (start + 1))

  All-append_bytes : (xs ys : List Bytes) → All IsBytes xs → All IsBytes ys → All IsBytes (xs ++ ys)
  All-append_bytes [] ys hx hy = hy
  All-append_bytes (x ∷ xs) ys hx hy = (hx.0, All-append_bytes xs ys hx.1 hy)

  pub leaf_level-IsBytes : (ids : List String) → All IsBytes (leaf_level ids)
  unfolding leaf_level
  leaf_level-IsBytes ids = All-append_bytes _ _ (All-map_leaf ids) (All-pad_level _ _)

  pub length-leaf_level :
      (ids : List String)
      → 0 < length ids
      → length (leaf_level ids) ≡ next_power_of_two (length ids)
  length-leaf_level ids h =
      let (k, e, fits, _) = next_power_of_two_lem (length ids) h in
      unfold leaf_level in
      omega (
        arith,
        e,
        length-append (map leaf_hash ids)
            (pad_level (next_power_of_two (length ids) - length ids) (length ids)),
        length-map ids leaf_hash,
        length-pad_level (next_power_of_two (length ids) - length ids) (length ids),
      )

  -- An id's leaf stands at the id's place.
  pub leaf_level_at :
      (ids : List String) (i : ℕ) (id : String)
      → get_elem? ids i ≡ some id
      → get_elem? (leaf_level ids) i ≡ some (leaf_hash id)
  unfolding leaf_level
  leaf_level_at ids i id h = leaf_at ids _ i id h
    where
      leaf_at :
          (xs : List String) (ys : List Bytes) (j : ℕ) (x : String)
          → get_elem? xs j ≡ some x
          → get_elem? (map leaf_hash xs ++ ys) j ≡ some (leaf_hash x)
      leaf_at [] ys j x e = cc
      leaf_at (y ∷ xs) ys zero x e = ground (arith, e)
      leaf_at (y ∷ xs) ys (suc j) x e = leaf_at xs ys j x e
