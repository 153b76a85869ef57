-- ===== src/Rng/Runs.antt =====
-- Code that draws from the generator of rng.ts returns while the outputs stay below 0xffffffff: a
-- rule for each way to build it, with the number of draws and what holds of the result.
use attesta_ai_powered_soc.Prelude.{
  ℕ, zero, suc, ◌+◌, ◌-◌, ◌*◌, ◌^◌, ◌≤◌, ◌<◌, ◌≡◌, refl, Bool, true, false, if◌then◌else◌, some,
  List, [], ◌∷◌, length, get_elem?, In, inl, inr, arith, Option, ◌∙◌, min, All, ap,
}
use attesta_ai_powered_soc.Rng.{
  Xorshift32, Rand, ◌>>=◌, pure, next, next_rand, bool, draw, int, pick, pick_n, at_index,
  array_from,
}
use attesta_ai_powered_soc.Rng.Fractions.{Doubles}
use attesta_ai_powered_soc.Rng.Draw.{draw_lem, int_lem, pick_lem, get_elem?-of_lt}
use attesta_ai_powered_soc.Rng.Sample.{Stays, Stays-le, Stays-one, pick_n_lem}

-- `m` makes at most `n` draws, and returns an `a` with `P a`.
pub record Runs {A : Type 0} (n : ℕ) (P : A → Type 0) (m : Rand A) : Type 0 where
  pub run :
      (k : ℕ) (r : Xorshift32)
      → Stays (n + k) r
      → (a : A) × (r' : Xorshift32) × (m r ≡ some (a, r')) × P a × Stays k r'

pub Runs-pure : {A : Type 0} {P : A → Type 0} (a : A) → P a → Runs 0 P (pure a)
Runs-pure a h = record { run = λ k r s. (a, r, refl, h, Stays-le k (0 + k) r (omega arith) s) }

pub bind_lem :
    {A B : Type 0} (m : Rand A) (f : A → Rand B) (r r1 : Xorshift32) (a : A)
    (result : Option (B × Xorshift32))
    → m r ≡ some (a, r1)
    → f a r1 ≡ result
    → (m >>= f) r ≡ result
bind_lem m f r r1 a result e1 e2 = rw (◌>>=◌, e1) e2

pub Runs-bind :
    {A B : Type 0} {P : A → Type 0} {Q : B → Type 0} (n l : ℕ) (m : Rand A) (f : A → Rand B)
    → Runs n P m
    → ((a : A) → P a → Runs l Q (f a))
    → Runs (n + l) Q (m >>= f)
Runs-bind n l m f hm hf = record {
  run = λ k r s.
      let (a, r1, e1, pa, s1) =
        hm.run (l + k) r (Stays-le (n + (l + k)) (n + l + k) r (omega arith) s) in
      let (b, r2, e2, qb, s2) = (hf a pa).run k r1 s1 in
      (b, r2, bind_lem m f r r1 a (some (b, r2)) e1 e2, qb, s2);
}

-- Fewer draws, and a weaker result.
pub Runs-weaken :
    {A : Type 0} {P Q : A → Type 0} (n l : ℕ) (m : Rand A)
    → n ≤ l
    → ((a : A) → P a → Q a)
    → Runs n P m
    → Runs l Q m
Runs-weaken n l m h w hm = record {
  run = λ k r s.
      let (a, r1, e, pa, s1) = hm.run k r (Stays-le (n + k) (l + k) r (omega arith) s) in
      (a, r1, e, w a pa, s1);
}

pub Runs-next : Runs 1 (λ u. u < 0xffffffff) next_rand
Runs-next = record {
  run = λ k r s.
      ((next r).0, (next r).1, unfold next_rand in refl, (Stays-one k r s).0, (Stays-one k r s).1);
}

bool_lem : (num den : ℕ) (r : Xorshift32) → (b : Bool) × (bool num den r ≡ some (b, (next r).1))
unfolding bool
bool_lem num den r = (_, refl)

pub Runs-bool : (num den : ℕ) → Runs 1 (λ b. Unit {0}) (bool num den)
Runs-bool num den = record {
  run = λ k r s.
      ((bool_lem num den r).0, (next r).1, (bool_lem num den r).1, tt, (Stays-one k r s).1);
}

-- The item at a place is a member.
get_elem?-In : {A : Type 0} (xs : List A) (i : ℕ) (a : A) → get_elem? xs i ≡ some a → In a xs
get_elem?-In [] i a e = cc
get_elem?-In (x ∷ xs) zero a e = inl (cc)
get_elem?-In (x ∷ xs) (suc i) a e = inr (get_elem?-In xs i a e)

at_index_lem :
    {A : Type 0} (xs : List A) (i : ℕ) (a : A) (r : Xorshift32)
    → get_elem? xs i ≡ some a
    → at_index xs i r ≡ some (a, r)
at_index_lem xs i a r e = rw (at_index, e) refl

pub Runs-at_index :
    {A : Type 0} (xs : List A) (i : ℕ) → i < length xs → Runs 0 (λ a. In a xs) (at_index xs i)
Runs-at_index xs i h = record {
  run = λ k r s.
      let (a, at) = get_elem?-of_lt xs i h in
      (
        a,
        r,
        at_index_lem xs i a r at,
        get_elem?-In xs i a at,
        Stays-le k (0 + k) r (omega arith) s,
      );
}

-- A read that is known to succeed.
pub Runs-given :
    {A : Type 0} {P : A → Type 0} (m : Rand A) (a : A)
    → P a
    → ((r : Xorshift32) → m r ≡ some (a, r))
    → Runs 0 P m
Runs-given m a h e = record { run = λ k r s. (a, r, e r, h, Stays-le k (0 + k) r (omega arith) s) }

pub Runs-if :
    {A : Type 0} {P : A → Type 0} (n : ℕ) (b : Bool) (x y : Rand A)
    → Runs n P x
    → Runs n P y
    → Runs n P (if b then x else y)
Runs-if n true x y hx hy = hx
Runs-if n false x y hx hy = hy

-- `Array.from` runs its body once for each item.
pub Runs-array_from :
    {A : Type 0} {P : A → Type 0} (n m : ℕ) (f : Rand A)
    → Runs m P f
    → Runs (n * m) (λ l. (length l ≡ n) × All P l) (array_from n f)
unfolding array_from
Runs-array_from zero m f h =
    Runs-weaken 0 (0 * m) _ (omega arith) (λ l p. p) (Runs-pure [] (refl, tt))
Runs-array_from (suc n) m f h =
    Runs-weaken (m + (n * m + 0)) (suc n * m) _ (omega arith) (λ l p. p)
      (Runs-bind m (n * m + 0) _ _ h λ a pa.
        Runs-bind (n * m) 0 _ _ (Runs-array_from n m f h)
          λ l (len, pl). Runs-pure (a ∷ l) (ap suc len, (pa, pl)))

module _ ⦃fp : Doubles⦄ where
  pub Runs-draw : (span : ℕ) → 0 < span → span < 2 ^ 53 → Runs 1 (λ k. k < span) (draw span)
  Runs-draw span h q = record {
    run = λ k r s.
        let (below, rest) = Stays-one k r s in
        (_, (next r).1, draw_lem span r, fp.floor_scaled-lt (next r).0 span below h q, rest);
  }

  pub Runs-int :
      (lo hi : ℕ) → lo ≤ hi → hi < 2 ^ 53 - 1 → Runs 1 (λ k. (lo ≤ k) × (k ≤ hi)) (int lo hi)
  Runs-int lo hi h q = record {
    run = λ k r s.
        let (below, rest) = Stays-one k r s in
        let inside =
          fp.floor_scaled-lt (next r).0 (hi + 1 - lo) below (omega arith) (omega arith) in
        (_, (next r).1, int_lem lo hi r, (omega arith, omega arith), rest);
  }

  pub Runs-pick :
      {A : Type 0} (items : List A)
      → 0 < length items
      → length items < 2 ^ 53
      → Runs 1 (λ a. In a items) (pick items)
  Runs-pick items h q = record {
    run = λ k r s.
        let (below, rest) = Stays-one k r s in
        let i = fp.floor_scaled (next r).0 (length items) in
        let (a, at) =
          get_elem?-of_lt items i (fp.floor_scaled-lt (next r).0 (length items) below h q) in
        (
          a,
          (next r).1,
          pick_lem items r ∙ at_index_lem items i a (next r).1 at,
          get_elem?-In items i a at,
          rest,
        );
  }

  -- `pickN` makes at most n draws, one for each item.
  pub Runs-pick_n :
      {A : Type 0} (items : List A) (n : ℕ)
      → length items < 2 ^ 53
      → Runs n (λ l. length l ≡ min n (length items)) (pick_n items n)
  Runs-pick_n items n q = record {
    run = λ k r s.
        let (result, r', left, e, perm, len, rest) = pick_n_lem items n k r s q in
        (result, r', e, len, rest);
  }
