-- ===== src/Rng/Fractions.antt =====
-- What the sources compute with the fraction u / 0xffffffff of `Xorshift32.next` in JavaScript's
-- double-precision numbers, as operations on u, with what IEEE 754 arithmetic makes of them.
use native.Mathlib.Nat.{mul-le-mul_right}
use attesta_ai_powered_soc.Prelude.{ℕ, ◌*◌, ◌/◌, ◌^◌, ◌≤◌, ◌<◌, ◌≡◌, ◌+◌, refl, arith}

pub record Doubles : Type 0 where
  -- `Math.floor(u / 0xffffffff * n)`: the fraction is 1 at the largest u, and otherwise so far
  -- below 1 that no rounding reaches n.
  pub floor_scaled : ℕ → ℕ → ℕ
  pub floor_scaled-lt : (u n : ℕ) → u < 0xffffffff → 0 < n → n < 2 ^ 53 → floor_scaled u n < n
  pub floor_scaled-top : (n : ℕ) → n < 2 ^ 53 → floor_scaled 0xffffffff n ≡ n
  -- `Math.round(u / 0xffffffff * n)`
  pub round_scaled : ℕ → ℕ → ℕ
  pub round_scaled-le : (u n : ℕ) → u ≤ 0xffffffff → n < 2 ^ 53 → round_scaled u n ≤ n
  -- `Math.floor((u / 0xffffffff) ** 3 * n)`
  pub cube_scaled : ℕ → ℕ → ℕ
  -- `Math.floor((u / 0xffffffff) ** 1.6 * n)`
  pub skew_scaled : ℕ → ℕ → ℕ
  pub skew_scaled-le : (u n : ℕ) → u ≤ 0xffffffff → n < 2 ^ 53 → skew_scaled u n ≤ n
  -- the double next to a natural number, which a sum or a product above 2 ^ 53 is rounded to
  pub nearest : ℕ → ℕ
  pub nearest_mono : (a b : ℕ) → a ≤ b → nearest a ≤ nearest b
  pub nearest_idem : (a : ℕ) → nearest (nearest a) ≡ nearest a
  -- up to 2 ^ 62 the doubles stand at most 512 apart
  pub nearest_close : (a : ℕ) → a ≤ 2 ^ 62 → nearest a ≤ a + 512

abbrev top : ℕ
top = 0xffffffff

scaled-le : (u n : ℕ) → u ≤ top → u * n ≤ top * n
scaled-le u n h = grind arith

pub floor-lt : (u n : ℕ) → u < top → 0 < n → n < 2 ^ 53 → u * n / top < n
floor-lt u n h p q =
    let below : u * n ≤ 0xfffffffe * n = mul-le-mul_right n (omega arith) in omega arith

pub floor-top : (n : ℕ) → n < 2 ^ 53 → top * n / top ≡ n
floor-top n q = omega arith

pub floor-le : (u n : ℕ) → u ≤ top → n < 2 ^ 53 → u * n / top ≤ n
floor-le u n h q = omega (arith, scaled-le u n h)

pub round-le : (u n : ℕ) → u ≤ top → n < 2 ^ 53 → (2 * (u * n) + top) / (2 * top) ≤ n
round-le u n h q = omega (arith, scaled-le u n h)

-- The operations of exact fractions (with exponent 1 in place of 1.6, whose root is no fraction).
abbrev pub exact : Doubles
exact = record {
  floor_scaled = λ u n. u * n / top;
  floor_scaled-lt = floor-lt;
  floor_scaled-top = floor-top;
  round_scaled = λ u n. (2 * (u * n) + top) / (2 * top);
  round_scaled-le = round-le;
  cube_scaled = λ u n. u * u * u * n / (top * top * top);
  skew_scaled = λ u n. u * n / top;
  skew_scaled-le = floor-le;
  nearest = λ a. a;
  nearest_mono = λ a b h. h;
  nearest_idem = λ a. refl;
  nearest_close = λ a h. omega arith;
}
