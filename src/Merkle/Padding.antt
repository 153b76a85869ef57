-- ===== src/Merkle/Padding.antt =====
-- The bytes that `padHash` of web/src/lib/kernel/merkle.ts hashes, against those of `padHash` of
-- ledger/merkle.go, which it says it matches. JavaScript takes a shift count modulo 32.
use attesta_ai_powered_soc.Prelude.{
  ℕ, ◌-◌, ◌*◌, ◌/◌, ◌%◌, ◌^◌, ◌<◌, ◌≡◌, refl, ◌↔◌, ap, [], ◌∷◌, get_or, arith,
}
use attesta_ai_powered_soc.Merkle.{Bytes, pad_preimage}

-- `buf[1 + i] = byte(index >> (56 - 8 * i))`, of a `uint64`
abbrev go_pad_byte : ℕ → ℕ → ℕ
go_pad_byte index i = index / 2 ^ (56 - 8 * i) % 256

unfoldable pub go_pad_preimage : ℕ → Bytes
go_pad_preimage index =
    0x02
    ∷ go_pad_byte index 0
    ∷ go_pad_byte index 1
    ∷ go_pad_byte index 2
    ∷ go_pad_byte index 3
    ∷ go_pad_byte index 4
    ∷ go_pad_byte index 5
    ∷ go_pad_byte index 6
    ∷ go_pad_byte index 7
    ∷ []

byte_at : Bytes → ℕ → ℕ
byte_at bytes i = get_or bytes i 0

low_bytes_zero :
    (index : ℕ) → index < 2 ^ 32 → pad_preimage index ≡ go_pad_preimage index → index ≡ 0
unfolding pad_preimage go_pad_preimage byte_at
low_bytes_zero index q e = omega (
  arith,
  ap (λ l. byte_at l 1) e,
  ap (λ l. byte_at l 2) e,
  ap (λ l. byte_at l 3) e,
  ap (λ l. byte_at l 4) e,
)

-- For an index below 2 ^ 32 the two files hash the same bytes exactly at index 0, which no pad of a
-- tree has: otherwise the TypeScript writes the low four bytes of the index twice.
pub pad_preimage-eq-go_pad_preimage_iff :
    (index : ℕ) → index < 2 ^ 32 → (pad_preimage index ≡ go_pad_preimage index) ↔ (index ≡ 0)
unfolding pad_preimage go_pad_preimage
pad_preimage-eq-go_pad_preimage_iff index q = (low_bytes_zero index q, λ e. rw e refl)
