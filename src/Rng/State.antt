-- ===== src/Rng/State.antt =====
-- The generator of rng.ts never sticks: its state stays a non-zero 32-bit pattern.
use attesta_ai_powered_soc.Prelude.{ℕ, ◌*◌, ◌/◌, ◌%◌, ◌^◌, ◌<◌, ◌≡◌, refl, ◌≢◌, arith}
use attesta_ai_powered_soc.Prelude.Bits.{bit_xor-eq-zero, bit_xor-lt-pow}
use attesta_ai_powered_soc.Rng.{word, Xorshift32, new_rng, mix_left13, mix_right17, mix_left5, next}

abbrev IsWord : ℕ → Type 0
IsWord x = (0 < x) × (x < word)

pub record IsValid (r : Xorshift32) : Type 0 where
  pub nonzero : 0 < r.state
  pub fits : r.state < word

pos_of_ne : (n : ℕ) → n ≢ 0 → 0 < n
pos_of_ne n h = omega arith

fixed_left13 : (x : ℕ) → x < word → x ≡ x * 2 ^ 13 % word → x ≡ 0
fixed_left13 x p h = omega arith

fixed_left5 : (x : ℕ) → x < word → x ≡ x * 2 ^ 5 % word → x ≡ 0
fixed_left5 x p h = omega arith

fixed_right17 : (x : ℕ) → x ≡ x / 2 ^ 17 → x ≡ 0
fixed_right17 x h = omega arith

mix_left13-IsWord : (x : ℕ) → IsWord x → IsWord (mix_left13 x)
unfolding mix_left13
mix_left13-IsWord x (p, q) = (
  pos_of_ne _ (λ e. absurd (omega (arith, fixed_left13 x q (bit_xor-eq-zero _ _ e)))),
  bit_xor-lt-pow 32 _ _ q (omega arith),
)

mix_right17-IsWord : (x : ℕ) → IsWord x → IsWord (mix_right17 x)
unfolding mix_right17
mix_right17-IsWord x (p, q) = (
  pos_of_ne _ (λ e. absurd (omega (arith, fixed_right17 x (bit_xor-eq-zero _ _ e)))),
  bit_xor-lt-pow 32 _ _ q (omega arith),
)

mix_left5-IsWord : (x : ℕ) → IsWord x → IsWord (mix_left5 x)
unfolding mix_left5
mix_left5-IsWord x (p, q) = (
  pos_of_ne _ (λ e. absurd (omega (arith, fixed_left5 x q (bit_xor-eq-zero _ _ e)))),
  bit_xor-lt-pow 32 _ _ q (omega arith),
)

-- Whatever the seed, the first state is a non-zero 32-bit pattern.
pub new_rng-IsValid : (seed : ℕ) → IsValid (new_rng seed)
unfolding new_rng
new_rng-IsValid seed = ground arith

pub next-IsWord : (r : Xorshift32) → IsValid r → IsWord (next r).0
unfolding next
next-IsWord r h =
    mix_left5-IsWord _ (mix_right17-IsWord _ (mix_left13-IsWord r.state (h.nonzero, h.fits)))

pub state-next : (r : Xorshift32) → (next r).1.state ≡ (next r).0
unfolding next
state-next r = refl

-- From a valid state, `next` leaves a valid state: it is never zero, where the generator would
-- repeat zero for ever.
pub next-IsValid : (r : Xorshift32) → IsValid r → IsValid (next r).1
next-IsValid r h =
    let (p, q) = next-IsWord r h in
    record { nonzero = rw (state-next r) p; fits = rw (state-next r) q }
