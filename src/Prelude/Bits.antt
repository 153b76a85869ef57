-- ===== src/Prelude/Bits.antt =====
-- `^` of two numbers at variables: the equation of its lowest digit, when it is 0, and its width.
use Prim.Native.Nat.{digits, differ, bit_xor, bit_xor-bitwise}
use native.Mathlib.Nat.{pow-suc}
use attesta_ai_powered_soc.Prelude.{
  ℕ, zero, suc, ◌+◌, ◌*◌, ◌/◌, ◌%◌, ◌^◌, ◌≤◌, ◌<◌, ◌≡◌, refl, ◌∙◌, ◌⊎◌, inl, inr, Bool-cases, leb,
  leb→le, arith,
}

-- `bit_xor` by its definition, on `n` digits of which `a` has some.
abbrev on_digits : ℕ → ℕ → ℕ → ℕ
on_digits n a b = digits (λ rest. rest) differ n a b

-- A digit more than there are changes nothing.
one_more : (n a b : ℕ) → a ≤ n → on_digits (suc n) a b ≡ on_digits n a b
one_more zero zero b h = refl
one_more zero (suc a) b h = absurd (omega arith)
one_more (suc n) zero b h = refl
one_more (suc n) (suc a) b h = omega (arith, one_more n (suc a / 2) (b / 2) (omega arith))

at_most : (n a : ℕ) → a ≤ suc n → (a ≤ n) ⊎ (a ≡ suc n)
at_most n a h = elim (Bool-cases (leb a n)) [
  | inl e ↦ inl (leb→le a n e)
  | inr e ↦ inr (ground (arith, e, h))
]

settled : (n a b : ℕ) → a ≤ n → on_digits n a b ≡ on_digits a a b
settled zero a b h = let none_left : a ≡ 0 = omega arith in rw none_left refl
settled (suc n) a b h = elim (at_most n a h) [
  | inl below ↦ one_more n a b below ∙ settled n a b below
  | inr top ↦ rw top refl
]

pub bit_xor_step : (a b : ℕ) → bit_xor a b ≡ bit_xor (a / 2) (b / 2) * 2 + differ (a % 2) (b % 2)
bit_xor_step zero b = omega (arith, bit_xor-bitwise 0 b, bit_xor-bitwise 0 (b / 2))
bit_xor_step (suc a) b =
    let halved = settled a (suc a / 2) (b / 2) (omega arith) in
    omega (arith, bit_xor-bitwise (suc a) b, bit_xor-bitwise (suc a / 2) (b / 2), halved)

differ-eq-zero : (x y : ℕ) → x < 2 → y < 2 → differ x y ≡ 0 → x ≡ y
differ-eq-zero zero y p q h = omega arith
differ-eq-zero (suc zero) zero p q h = omega arith
differ-eq-zero (suc zero) (suc zero) p q h = refl
differ-eq-zero (suc zero) (suc (suc y)) p q h = absurd (omega arith)
differ-eq-zero (suc (suc x)) y p q h = absurd (omega arith)

differ-lt : (x y : ℕ) → x < 2 → y < 2 → differ x y < 2
differ-lt zero y p q = q
differ-lt (suc zero) zero p q = omega arith
differ-lt (suc zero) (suc zero) p q = omega arith
differ-lt (suc zero) (suc (suc y)) p q = absurd (omega arith)
differ-lt (suc (suc x)) y p q = absurd (omega arith)

eq_of_halves : (a b : ℕ) → a / 2 ≡ b / 2 → a % 2 ≡ b % 2 → a ≡ b
eq_of_halves a b p q = omega arith

bit_xor-eq-zero_below : (n a b : ℕ) → a ≤ n → bit_xor a b ≡ 0 → a ≡ b
bit_xor-eq-zero_below n zero b p h = omega (arith, bit_xor-bitwise 0 b)
bit_xor-eq-zero_below zero (suc a) b p h = absurd (omega arith)
bit_xor-eq-zero_below (suc n) (suc a) b p h =
    let step = bit_xor_step (suc a) b in
    eq_of_halves (suc a) b (bit_xor-eq-zero_below n (suc a / 2) (b / 2) (omega arith) (omega arith))
      (differ-eq-zero (suc a % 2) (b % 2) (omega arith) (omega arith) (omega arith))

-- The exclusive or is 0 only of equal numbers.
pub bit_xor-eq-zero : (a b : ℕ) → bit_xor a b ≡ 0 → a ≡ b
bit_xor-eq-zero a b h = bit_xor-eq-zero_below a a b (omega arith) h

-- It needs no more digits than its arguments.
pub bit_xor-lt-pow : (k a b : ℕ) → a < 2 ^ k → b < 2 ^ k → bit_xor a b < 2 ^ k
bit_xor-lt-pow zero zero b p q = omega (arith, bit_xor-bitwise 0 b)
bit_xor-lt-pow zero (suc a) b p q = absurd (omega arith)
bit_xor-lt-pow (suc k) a b p q = omega (
  arith,
  bit_xor_step a b,
  pow-suc 2 k,
  bit_xor-lt-pow k (a / 2) (b / 2) (omega (arith, pow-suc 2 k)) (omega (arith, pow-suc 2 k)),
  differ-lt (a % 2) (b % 2) (omega arith) (omega arith),
)
