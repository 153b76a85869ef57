-- ===== src/Rng.antt =====
-- web/src/lib/data/rng.ts: `Xorshift32`. The state is the 32-bit pattern of the signed number that
-- the source stores. `next` returns the numerator `x >>> 0` of the fraction over 0xffffffff that
-- the source returns, and each use of the fraction is an operation of `Doubles`.
pub mod Fractions
pub mod State
pub mod Draw
pub mod Sample
pub mod Runs
pub mod Ensures
use Prim.Native.Nat.{bit_xor}
use Fractions.{Doubles}
use attesta_ai_powered_soc.Prelude.{
  ℕ, zero, suc, ◌+◌, ◌-◌, ◌*◌, ◌/◌, ◌%◌, ◌^◌, String, Bool, Option, none, some, List, [], ◌∷◌, ◌++◌,
  length, get_elem?, take, drop, ltb, ◌==◌, if◌then◌else◌,
}

abbrev pub word : ℕ
word = 2 ^ 32

pub record Xorshift32 : Type 0 where
  pub state : ℕ

-- `seed | 0 || 0xdeadbeef`, for a seed given as a natural number or as a 32-bit pattern
unfoldable pub new_rng : ℕ → Xorshift32
new_rng seed = record { state = if seed % word == 0 then 0xdeadbeef else seed % word }

-- x ^ (x << 13), x ^ (x >>> 17) and x ^ (x << 5)
pub mix_left13 : ℕ → ℕ
mix_left13 x = bit_xor x (x * 2 ^ 13 % word)

pub mix_right17 : ℕ → ℕ
mix_right17 x = bit_xor x (x / 2 ^ 17)

pub mix_left5 : ℕ → ℕ
mix_left5 x = bit_xor x (x * 2 ^ 5 % word)

unfoldable pub next : Xorshift32 → ℕ × Xorshift32
unfolding mix_left13 mix_right17 mix_left5
next r = let x = mix_left5 (mix_right17 (mix_left13 r.state)) in (x, record { state = x })

-- Code that draws from a generator. `none` is a read of `undefined`: an index outside its array.
abbrev pub Rand : Type 0 → Type 0
Rand A = Xorshift32 → Option (A × Xorshift32)

infixl 5 ◌>>=◌ ◌>>◌
abbrev pub ◌>>=◌ : {A B : Type 0} → Rand A → (A → Rand B) → Rand B
◌>>=◌ m f r = elim (m r) [ none ↦ none | some (a, r') ↦ f a r' ]

abbrev pub ◌>>◌ : {B : Type 0} → Rand (Unit {0}) → Rand B → Rand B
m >> k = m >>= λ _. k

abbrev pub pure : {A : Type 0} → A → Rand A
pure a r = some (a, r)

-- `items[i]`
abbrev pub at_index : {A : Type 0} → List A → ℕ → Rand A
at_index items i r = elim (get_elem? items i) [ none ↦ none | some a ↦ some (a, r) ]

unfoldable pub next_rand : Rand ℕ
unfolding next
next_rand r = some (next r)

-- `bool(num / den)`: the fraction is below the probability exactly when its numerator is, since the
-- two roundings are monotone and the two values equal or far apart.
unfoldable pub bool : ℕ → ℕ → Rand Bool
unfolding next
bool num den r = let (u, r') = next r in some (ltb (u * den) (num * 0xffffffff), r')

-- `Array.from({ length: n }, f)`
unfoldable pub array_from : {A : Type 0} → ℕ → Rand A → Rand (List A)
array_from zero f = pure []
array_from (suc n) f = do a ← f; rest ← array_from n f; pure (a ∷ rest)

module _ ⦃fp : Doubles⦄ where
  -- `Math.floor(next() * span)`
  unfoldable pub draw : ℕ → Rand ℕ
  unfolding next
  draw span r = let (u, r') = next r in some (fp.floor_scaled u span, r')

  -- `int(min, max)`, for natural bounds with min ≤ max + 1
  unfoldable pub int : ℕ → ℕ → Rand ℕ
  unfolding draw
  int lo hi = do k ← draw (hi + 1 - lo); pure (lo + k)

  -- `pick(items)`: the index is `int(0, items.length - 1)`
  unfoldable pub pick : {A : Type 0} → List A → Rand A
  unfolding draw
  pick items = do i ← draw (length items); at_index items i

  -- The loop of `pickN`, on the rounds left. `splice(idx, 1)` of an index that is out of range
  -- removes nothing, but `pool[idx]` has read `undefined` by then.
  pub pick_n_loop : {A : Type 0} → ℕ → List A → List A → Rand (List A)
  unfolding draw
  pick_n_loop zero pool out = pure out
  pick_n_loop (suc n) [] out = pure out
  pick_n_loop (suc n) (x ∷ xs) out = do
    idx ← draw (length (x ∷ xs))
    a ← at_index (x ∷ xs) idx
    pick_n_loop n (take idx (x ∷ xs) ++ drop (suc idx) (x ∷ xs)) (out ++ a ∷ [])

  unfoldable pub pick_n : {A : Type 0} → List A → ℕ → Rand (List A)
  unfolding pick_n_loop
  pick_n items n = pick_n_loop n items []
