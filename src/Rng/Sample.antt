-- ===== src/Rng/Sample.antt =====
-- `pickN` of rng.ts draws without replacement.
use mathlib.Core.List.{Perm, perm_middle, append_assoc}
use mathlib.Core.List.Perm
use attesta_ai_powered_soc.Prelude.{
  ℕ, zero, suc, ◌+◌, ◌^◌, ◌≤◌, ◌<◌, ◌≡◌, refl, ap, List, [], ◌∷◌, ◌++◌, some, length, get_elem?,
  take, drop, arith, length-append, min, Option-cases, inl, inr,
}
use attesta_ai_powered_soc.Rng.{Xorshift32, pick_n_loop, pick_n, next}
use attesta_ai_powered_soc.Rng.Draw.{get_elem?-of_lt}
use attesta_ai_powered_soc.Rng.Fractions.{Doubles}

-- What `splice(i, 1)` removes, in its place between what it leaves.
splice_middle :
    {A : Type 0} (xs : List A) (i : ℕ) (a : A)
    → get_elem? xs i ≡ some a
    → take i xs ++ a ∷ drop (suc i) xs ≡ xs
splice_middle [] i a h = cc
splice_middle (x ∷ xs) zero a h = ground arith
splice_middle (x ∷ xs) (suc i) a h = ap (λ l. x ∷ l) (splice_middle xs i a h)

length-splice :
    {A : Type 0} (xs : List A) (i : ℕ) (a : A)
    → get_elem? xs i ≡ some a
    → suc (length (take i xs ++ drop (suc i) xs)) ≡ length xs
length-splice [] i a h = cc
length-splice (x ∷ xs) zero a h = refl
length-splice (x ∷ xs) (suc i) a h = ap suc (length-splice xs i a h)

-- What was taken before, one more item, and the rest: a rearrangement of what there was.
splice_perm :
    {A : Type 0} (out xs : List A) (i : ℕ) (a : A)
    → get_elem? xs i ≡ some a
    → Perm ((out ++ a ∷ []) ++ (take i xs ++ drop (suc i) xs)) (out ++ xs)
splice_perm out xs i a h =
    let middle = perm_middle {a = a} (take i xs) (drop (suc i) xs) in
    rw append_assoc (Perm.append_left out (rw (splice_middle xs i a h) at (Perm.symm middle)))

module _ ⦃fp : Doubles⦄ where
  -- One round of the loop that returned.
  pick_n_loop_step :
      {A : Type 0} (n : ℕ) (x : A) (xs out result : List A) (r r' : Xorshift32)
      → pick_n_loop (suc n) (x ∷ xs) out r ≡ some (result, r')
      → (i : ℕ) × (a : A) × (get_elem? (x ∷ xs) i ≡ some a)
        × (pick_n_loop n (take i (x ∷ xs) ++ drop (suc i) (x ∷ xs)) (out ++ a ∷ []) (next r).1
            ≡ some (result, r'))
  unfolding pick_n_loop
  pick_n_loop_step n x xs out result r r' h =
      let i = fp.floor_scaled (next r).0 (suc (length xs)) in
      elim (Option-cases (get_elem? (x ∷ xs) i)) [
        | inl e ↦ absurd (ground (arith, e))
        | inr (a, e) ↦ (i, a, e, ground (arith, e))
      ]

  pick_n_loop_perm :
      {A : Type 0} (n : ℕ) (pool out result : List A) (r r' : Xorshift32)
      → pick_n_loop n pool out r ≡ some (result, r')
      → (left : List A) × Perm (result ++ left) (out ++ pool)
        × (length result ≡ length out + min n (length pool))
  pick_n_loop_perm zero pool out result r r' h =
      unfold pick_n_loop in
      let e : out ≡ result = ground arith in (pool, rw e (Perm.refl _), omega (arith, ap length e))
  pick_n_loop_perm (suc n) [] out result r r' h =
      unfold pick_n_loop in
      let e : out ≡ result = ground arith in ([], rw e (Perm.refl _), omega (arith, ap length e))
  pick_n_loop_perm (suc n) (x ∷ xs) out result r r' h =
      let (i, a, at, more) = pick_n_loop_step n x xs out result r r' h in
      let pool = take i (x ∷ xs) ++ drop (suc i) (x ∷ xs) in
      let (left, perm, len) = pick_n_loop_perm n pool (out ++ a ∷ []) result (next r).1 r' more in
      (
        left,
        Perm.trans perm (splice_perm out (x ∷ xs) i a at),
        omega (arith, len, length-splice (x ∷ xs) i a at, length-append out (a ∷ [])),
      )

  pick_n_perm :
      {A : Type 0} (items : List A) (n : ℕ) (result : List A) (r r' : Xorshift32)
      → pick_n items n r ≡ some (result, r')
      → (left : List A) × Perm (result ++ left) items × (length result ≡ min n (length items))
  unfolding pick_n
  pick_n_perm items n result r r' h =
      let (left, perm, len) = pick_n_loop_perm n items [] result r r' h in
      (left, perm, omega (arith, len))

-- The next `n` outputs are all below 0xffffffff.
abbrev pub Stays : ℕ → Xorshift32 → Type 0
Stays zero r = Unit
Stays (suc n) r = ((next r).0 < 0xffffffff) × Stays n (next r).1

pub Stays-le : (m n : ℕ) (r : Xorshift32) → m ≤ n → Stays n r → Stays m r
Stays-le zero n r h s = tt
Stays-le (suc m) zero r h s = absurd (omega arith)
Stays-le (suc m) (suc n) r h (s, ss) = (s, Stays-le m n (next r).1 (omega arith) ss)

pub Stays-one :
    (k : ℕ) (r : Xorshift32) → Stays (1 + k) r → ((next r).0 < 0xffffffff) × Stays k (next r).1
Stays-one k r s = Stays-le (suc k) (1 + k) r (omega arith) s

module _ ⦃fp : Doubles⦄ where
  pick_n_loop_returns :
      {A : Type 0} (n k : ℕ) (pool out : List A) (r : Xorshift32)
      → Stays (n + k) r
      → length pool < 2 ^ 53
      → (result : List A) × (r' : Xorshift32) × (pick_n_loop n pool out r ≡ some (result, r'))
        × Stays k r'
  unfolding pick_n_loop
  pick_n_loop_returns zero k pool out r h q = (out, r, refl, Stays-le k (0 + k) r (omega arith) h)
  pick_n_loop_returns (suc n) k [] out r h q =
      (out, r, refl, Stays-le k (suc n + k) r (omega arith) h)
  pick_n_loop_returns (suc n) k (x ∷ xs) out r s q =
      let (h, hs) = Stays-le (suc (n + k)) (suc n + k) r (omega arith) s in
      let i = fp.floor_scaled (next r).0 (suc (length xs)) in
      let below = fp.floor_scaled-lt (next r).0 (suc (length xs)) h (omega arith) q in
      let (a, at) = get_elem?-of_lt (x ∷ xs) i below in
      let pool = take i (x ∷ xs) ++ drop (suc i) (x ∷ xs) in
      let shorter = length-splice (x ∷ xs) i a at in
      let (result, r', e, rest) =
        pick_n_loop_returns n k pool (out ++ a ∷ []) (next r).1 hs (omega arith) in
      (result, r', ground (arith, at, e), rest)

  -- While the outputs stay below 0xffffffff, `pickN(items, n)` returns min(n, items.length) items,
  -- which with some others are a rearrangement of `items`, so that no place is drawn twice, and it
  -- makes at most n draws.
  pub pick_n_lem :
      {A : Type 0} (items : List A) (n k : ℕ) (r : Xorshift32)
      → Stays (n + k) r
      → length items < 2 ^ 53
      → (result : List A) × (r' : Xorshift32) × (left : List A) × (pick_n items n r
          ≡ some (result, r'))
        × Perm (result ++ left) items
        × (length result ≡ min n (length items))
        × Stays k r'
  pick_n_lem items n k r h q =
      let (result, r', e, rest) = pick_n_loop_returns n k items [] r h q in
      let (left, perm, len) = pick_n_perm items n result r r' (unfold pick_n in e) in
      (result, r', left, unfold pick_n in e, perm, len, rest)
