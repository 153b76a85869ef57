-- ===== src/Merkle/Hex.antt =====
-- `bytesToHex` and `hexToBytes` of web/src/lib/kernel/merkle.ts, and the round trip between them.
use Prim.Native.Char.{code}
use Prim.Native.String.{[], ◌∷◌}
use text.Mathlib.TextLemmas.{nil-append, cons-append}
use attesta_ai_powered_soc.Prelude.{
  ℕ, zero, suc, ◌+◌, ◌-◌, ◌*◌, ◌%◌, ◌<◌, ◌≤◌, ◌≡◌, refl, ap, Bool-cases, inl, inr, ◌∙◌, sym, String,
  Bool, true, false, ◌&&◌, ◌||◌, Option, none, some, List, All, leb, ◌==◌, ==_iff, if◌then◌else◌,
  arith,
}
use attesta_ai_powered_soc.Prelude.Text.{◌<>◌, to_string, pad_start}

-- `b.toString(16).padStart(2, "0")`
unfoldable pub hex_pair : ℕ → String
unfolding to_string pad_start
hex_pair b = pad_start (to_string 16 b) 2 "0"

unfoldable pub bytes_to_hex : List ℕ → String
unfolding hex_pair
bytes_to_hex List.[] = ""
bytes_to_hex (List.◌∷◌ b bs) = hex_pair b <> bytes_to_hex bs

hex_digit : ℕ → Option ℕ
hex_digit c =
    if leb b'0' c && leb c b'9'
    then some (c - b'0')
    else if leb b'a' c && leb c b'f'
    then some (c - b'a' + 10)
    else if leb b'A' c && leb c b'F'
    then some (c - b'A' + 10)
    else none

-- The white space that `parseInt` skips.
is_space : ℕ → Bool
is_space c =
    (leb 9 c && leb c 13)
    || c == 32
    || c == 160
    || c == 0xfeff
    || c == 0x1680
    || (leb 0x2000 c && leb c 0x200a)
    || c == 0x2028
    || c == 0x2029
    || c == 0x202f
    || c == 0x205f
    || c == 0x3000

abbrev or_zero : Option ℕ → ℕ
or_zero none = 0
or_zero (some d) = d

-- `parseInt` of two characters in radix 16, stored in a `Uint8Array`: `NaN` becomes 0, and a
-- negative number wraps.
abbrev two_digits : Option ℕ → Option ℕ → ℕ
two_digits (some hi) (some lo) = hi * 16 + lo
two_digits (some hi) none = hi
two_digits none _ = 0

parse_pair : ℕ → ℕ → ℕ
unfolding hex_digit is_space
parse_pair c d =
    if is_space c || c == b'+'
    then or_zero (hex_digit d)
    else if c == b'-'
    then (256 - or_zero (hex_digit d)) % 256
    else two_digits (hex_digit c) (hex_digit d)

-- An odd last character is left out, as the array has `hex.length / 2` elements, rounded down.
unfoldable pub hex_to_bytes : String → List ℕ
unfolding parse_pair
hex_to_bytes (c ∷ d ∷ rest) = List.◌∷◌ (parse_pair (code c) (code d)) (hex_to_bytes rest)
hex_to_bytes _ = List.[]

-- `s` is two characters that parse to `b`
is_pair : ℕ → String → Bool
is_pair b (c ∷ d ∷ []) = parse_pair (code c) (code d) == b
is_pair b _ = false

hex_to_bytes-pair :
    (b : ℕ) (s rest : String)
    → is_pair b s ≡ true
    → hex_to_bytes (s <> rest) ≡ List.◌∷◌ b (hex_to_bytes rest)
unfolding is_pair hex_to_bytes
hex_to_bytes-pair b (c ∷ d ∷ []) rest h =
    rw (cons-append, cons-append, nil-append)
      (ap (λ n. List.◌∷◌ n (hex_to_bytes rest)) ((==_iff _ b).0 h))
hex_to_bytes-pair b [] rest h = cc
hex_to_bytes-pair b (c ∷ []) rest h = cc
hex_to_bytes-pair b (c ∷ d ∷ e ∷ s) rest h = cc

-- `count` bytes from `b` on, each written as a pair that parses back
pairs_from : ℕ → ℕ → Bool
pairs_from zero b = true
pairs_from (suc count) b =
    let rest = pairs_from count (b + 1) in if is_pair b (hex_pair b) then rest else false

pairs_from_lem :
    (count b c : ℕ)
    → pairs_from count b ≡ true
    → b ≤ c
    → c < b + count
    → is_pair c (hex_pair c) ≡ true
unfolding pairs_from
pairs_from_lem zero b c h low high = absurd (omega arith)
pairs_from_lem (suc count) b c h low high = elim (Bool-cases (is_pair b (hex_pair b))) [
  | inr bad ↦ let gone = rw bad at h in absurd (cc)
  | inl good ↦ elim (Bool-cases (b == c)) [
    | inl same ↦ rw (← (==_iff b c).0 same) good
    | inr other ↦
        pairs_from_lem count (b + 1) c (rw good at h) (ground (arith, other)) (omega arith)
  ]
]

every_pair : pairs_from 256 0 ≡ true
unfolding pairs_from is_pair hex_pair parse_pair
every_pair = refl

-- Reading back what was written gives the same bytes.
pub hex_to_bytes-bytes_to_hex :
    (bytes : List ℕ) → All (λ b. b < 256) bytes → hex_to_bytes (bytes_to_hex bytes) ≡ bytes
unfolding bytes_to_hex
hex_to_bytes-bytes_to_hex List.[] h = unfold hex_to_bytes in refl
hex_to_bytes-bytes_to_hex (List.◌∷◌ b bs) (hb, h) =
    hex_to_bytes-pair b (hex_pair b) (bytes_to_hex bs)
      (pairs_from_lem 256 0 b every_pair (omega arith) (omega arith))
    ∙ ap (λ l. List.◌∷◌ b l) (hex_to_bytes-bytes_to_hex bs h)

-- So two byte arrays with the same text are the same.
pub bytes_to_hex_inj :
    (a b : List ℕ)
    → All (λ x. x < 256) a
    → All (λ x. x < 256) b
    → bytes_to_hex a ≡ bytes_to_hex b
    → a ≡ b
bytes_to_hex_inj a b ha hb e =
    sym (hex_to_bytes-bytes_to_hex a ha) ∙ ap hex_to_bytes e ∙ hex_to_bytes-bytes_to_hex b hb
