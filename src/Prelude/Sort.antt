-- ===== src/Prelude/Sort.antt =====
-- JavaScript's `sort`, which is stable, for a comparator by its test "is after"; the same for texts,
-- which it compares by their UTF-16 codes.
use Prim.Native.Char.{code}
use Prim.Native.String.{[] as empty, ◌∷◌ as text_cons}
use mathlib.Core.List.{Perm}
use mathlib.Core.List.Perm
use attesta_ai_powered_soc.Prelude.{
  ℕ, suc, ◌≡◌, refl, ◌⊎◌, inl, inr, String, Bool, true, false, List, [], ◌∷◌, length, In, All, ltb,
  Bool-cases, if◌then◌else◌, arith,
}

module _ {A : Type 0} where
  -- `x` goes before the first item that it is not after.
  unfoldable pub insert_by : (A → A → Bool) → A → List A → List A
  insert_by after x [] = x ∷ []
  insert_by after x (y ∷ ys) = if after x y then y ∷ insert_by after x ys else x ∷ y ∷ ys

  unfoldable pub sort_by : (A → A → Bool) → List A → List A
  unfolding insert_by
  sort_by after [] = []
  sort_by after (x ∷ xs) = insert_by after x (sort_by after xs)

  -- No item is after a later one.
  abbrev pub IsSortedBy : (A → A → Bool) → List A → Type 0
  IsSortedBy after [] = Unit
  IsSortedBy after (x ∷ xs) = All (λ y. after x y ≡ false) xs × IsSortedBy after xs

  insert_by-perm :
      (after : A → A → Bool) (x : A) (ys : List A) → Perm (insert_by after x ys) (x ∷ ys)
  unfolding insert_by
  insert_by-perm after x [] = Perm.refl _
  insert_by-perm after x (y ∷ ys) = elim (Bool-cases (after x y)) [
    | inl e ↦ rw e (Perm.trans (Perm.cons y (insert_by-perm after x ys)) (Perm.swap x y ys))
    | inr e ↦ rw e (Perm.refl _)
  ]

  -- Sorting rearranges.
  pub sort_by-perm : (after : A → A → Bool) (xs : List A) → Perm (sort_by after xs) xs
  unfolding sort_by
  sort_by-perm after [] = Perm.refl []
  sort_by-perm after (x ∷ xs) =
      Perm.trans (insert_by-perm after x (sort_by after xs)) (Perm.cons x (sort_by-perm after xs))

  In-insert_by :
      (after : A → A → Bool) (x a : A) (ys : List A)
      → (x ≡ a) ⊎ In a ys
      → In a (insert_by after x ys)
  unfolding insert_by
  In-insert_by after x a [] m = m
  In-insert_by after x a (y ∷ ys) m = elim (Bool-cases (after x y)) [
    | inr e ↦ rw e m
    | inl e ↦ rw e (elim m [
      | inl same ↦ inr (In-insert_by after x a ys (inl same))
      | inr (inl here) ↦ inl here
      | inr (inr there) ↦ inr (In-insert_by after x a ys (inr there))
    ])
  ]

  insert_by-In :
      (after : A → A → Bool) (x a : A) (ys : List A)
      → In a (insert_by after x ys)
      → (x ≡ a) ⊎ In a ys
  unfolding insert_by
  insert_by-In after x a [] m = m
  insert_by-In after x a (y ∷ ys) m = elim (Bool-cases (after x y)) [
    | inr e ↦ rw e at m
    | inl e ↦ elim (rw e at m) [
      | inl here ↦ inr (inl here)
      | inr there ↦ elim (insert_by-In after x a ys there) [ inl s ↦ inl s | inr t ↦ inr (inr t) ]
    ]
  ]

  -- Sorting keeps the members.
  pub In-sort_by : (after : A → A → Bool) (a : A) (xs : List A) → In a xs → In a (sort_by after xs)
  unfolding sort_by
  In-sort_by after a [] m = m
  In-sort_by after a (x ∷ xs) (inl e) = In-insert_by after x a (sort_by after xs) (inl e)
  In-sort_by after a (x ∷ xs) (inr m) =
      In-insert_by after x a (sort_by after xs) (inr (In-sort_by after a xs m))

  pub sort_by-In : (after : A → A → Bool) (a : A) (xs : List A) → In a (sort_by after xs) → In a xs
  unfolding sort_by
  sort_by-In after a [] m = m
  sort_by-In after a (x ∷ xs) m = elim (insert_by-In after x a (sort_by after xs) m) [
    | inl e ↦ inl e
    | inr n ↦ inr (sort_by-In after a xs n)
  ]

  All-insert_by :
      (after : A → A → Bool) (P : A → Type 0) (x : A) (ys : List A)
      → P x
      → All P ys
      → All P (insert_by after x ys)
  unfolding insert_by
  All-insert_by after P x [] px h = (px, tt)
  All-insert_by after P x (y ∷ ys) px (py, h) = elim (Bool-cases (after x y)) [
    | inl e ↦ rw e (py, All-insert_by after P x ys px h)
    | inr e ↦ rw e (px, (py, h))
  ]

  pub All-sort_by :
      (after : A → A → Bool) (P : A → Type 0) (xs : List A) → All P xs → All P (sort_by after xs)
  unfolding sort_by
  All-sort_by after P [] h = tt
  All-sort_by after P (x ∷ xs) (px, h) =
      All-insert_by after P x (sort_by after xs) px (All-sort_by after P xs h)

  length-insert_by :
      (after : A → A → Bool) (x : A) (ys : List A) → length (insert_by after x ys) ≡ suc (length ys)
  unfolding insert_by
  length-insert_by after x [] = refl
  length-insert_by after x (y ∷ ys) = ground (arith, length-insert_by after x ys)

  pub length-sort_by : (after : A → A → Bool) (xs : List A) → length (sort_by after xs) ≡ length xs
  unfolding sort_by
  length-sort_by after [] = refl
  length-sort_by after (x ∷ xs) =
      rw (length-insert_by after x (sort_by after xs), length-sort_by after xs) refl

-- Sorting by a test that is the strict part of a total order sorts.
module _ {A : Type 0} (after : A → A → Bool)
    (asym : (x y : A) → after x y ≡ true → after y x ≡ false)
    (trans : (x y z : A) → after x y ≡ false → after y z ≡ false → after x z ≡ false) where
  All-trans :
      (x y : A) (zs : List A)
      → after x y ≡ false
      → All (λ z. after y z ≡ false) zs
      → All (λ z. after x z ≡ false) zs
  All-trans x y [] h a = tt
  All-trans x y (z ∷ zs) h (hz, a) = (trans x y z h hz, All-trans x y zs h a)

  insert_by-IsSortedBy :
      (x : A) (ys : List A) → IsSortedBy after ys → IsSortedBy after (insert_by after x ys)
  unfolding insert_by
  insert_by-IsSortedBy x [] h = (tt, tt)
  insert_by-IsSortedBy x (y ∷ ys) (hy, h) = elim (Bool-cases (after x y)) [
    | inl e ↦ rw e (
      All-insert_by after (λ z. after y z ≡ false) x ys (asym x y e) hy,
      insert_by-IsSortedBy x ys h,
    )
    | inr e ↦ rw e ((e, All-trans x y ys e hy), (hy, h))
  ]

  pub sort_by-IsSorted : (xs : List A) → IsSortedBy after (sort_by after xs)
  unfolding sort_by
  sort_by-IsSorted [] = tt
  sort_by-IsSorted (x ∷ xs) = insert_by-IsSortedBy x (sort_by after xs) (sort_by-IsSorted xs)

-- By a number of each item, ascending and descending.
module _ {A : Type 0} (key : A → ℕ) where
  abbrev pub later : A → A → Bool
  later x y = ltb (key y) (key x)

  abbrev pub earlier : A → A → Bool
  earlier x y = ltb (key x) (key y)

  pub sort_by-IsSortedBy : (xs : List A) → IsSortedBy later (sort_by later xs)
  sort_by-IsSortedBy xs =
      sort_by-IsSorted later (λ x y h. ground arith) (λ x y z h g. ground arith) xs

  pub sort_by-earlier-IsSortedBy : (xs : List A) → IsSortedBy earlier (sort_by earlier xs)
  sort_by-earlier-IsSortedBy xs =
      sort_by-IsSorted earlier (λ x y h. ground arith) (λ x y z h g. ground arith) xs

-- `s > t`, of texts
abbrev pub text_after : String → String → Bool
text_after empty t = false
text_after (text_cons c s) empty = true
text_after (text_cons c s) (text_cons d t) =
    if ltb (code d) (code c) then true else if ltb (code c) (code d) then false else text_after s t
