-- ===== src/Rng/Ensures.antt =====
-- What code that draws from the generator of rng.ts ensures of its result, whenever it returns.
use attesta_ai_powered_soc.Prelude.{◌≡◌, refl, Option, none, some, Bool, true, false, if◌then◌else◌}
use attesta_ai_powered_soc.Rng.{Xorshift32, Rand, ◌>>=◌, pure}

pub record Ensures {A : Type 0} (P : A → Type 0) (m : Rand A) : Type 0 where
  pub holds : (r r' : Xorshift32) (a : A) → m r ≡ some (a, r') → P a

pub Ensures-pure : {A : Type 0} {P : A → Type 0} (a : A) → P a → Ensures P (pure a)
Ensures-pure {P} a h = record { holds = λ r r' b e. let same : a ≡ b = cc in rw (← same) h }

pub Ensures-any : {A : Type 0} (m : Rand A) → Ensures (λ a. Unit {0}) m
Ensures-any m = record { holds = λ r r' a e. tt }

-- A result of a chain comes from a result of its first part.
bind_cases :
    {A B : Type 0} (o : Option (A × Xorshift32)) (f : A → Rand B) (result : B × Xorshift32)
    → elim o [ none ↦ none | some (a, r1) ↦ f a r1 ] ≡ some result
    → (a : A) × (r1 : Xorshift32) × (o ≡ some (a, r1)) × (f a r1 ≡ some result)
bind_cases none f result e = cc
bind_cases (some (a, r1)) f result e = (a, r1, refl, e)

pub Ensures-bind :
    {A B : Type 0} {P : A → Type 0} {Q : B → Type 0} (m : Rand A) (f : A → Rand B)
    → Ensures P m
    → ((a : A) → P a → Ensures Q (f a))
    → Ensures Q (m >>= f)
Ensures-bind m f hm hf = record {
  holds = λ r r' b e.
      let (a, r1, first, second) = bind_cases (m r) f (b, r') e in
      (hf a (hm.holds r r1 a first)).holds r1 r' b second;
}

pub Ensures-then :
    {A B : Type 0} {Q : B → Type 0} (m : Rand A) (f : A → Rand B)
    → ((a : A) → Ensures Q (f a))
    → Ensures Q (m >>= f)
Ensures-then m f hf = Ensures-bind m f (Ensures-any m) (λ a _. hf a)

pub Ensures-if :
    {A : Type 0} {P : A → Type 0} (b : Bool) (m n : Rand A)
    → Ensures P m
    → Ensures P n
    → Ensures P (if b then m else n)
Ensures-if true m n hm hn = hm
Ensures-if false m n hm hn = hn

pub ruleset ensures_rules = (Ensures-pure, Ensures-then, Ensures-if)
