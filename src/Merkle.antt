-- ===== src/Merkle.antt =====
-- web/src/lib/kernel/merkle.ts: the Merkle tree over evidence ids, inclusion proofs and the check of
-- them. A byte array is a list of numbers. BLAKE3 (@noble/hashes) and `TextEncoder` are parameters.
pub mod Hex
pub mod Tree
pub mod Complete
pub mod Preimages
pub mod Sound
pub mod Padding
use attesta_ai_powered_soc.Prelude.{
  ℕ, zero, suc, ◌+◌, ◌-◌, ◌*◌, ◌/◌, ◌%◌, ◌^◌, ◌<◌, ◌≡◌, String, str_eq, Bool, true, false, Option,
  none, some, List, [], ◌∷◌, ◌++◌, map, length, get_elem?, All, ltb, ◌==◌, if◌then◌else◌,
}
use Hex.{hex_to_bytes, bytes_to_hex}

abbrev pub Bytes : Type 0
Bytes = List ℕ

pub record Hashing : Type 0 where
  pub blake3 : Bytes → Bytes
  -- a digest is 32 bytes
  pub blake3_length : (bytes : Bytes) → length (blake3 bytes) ≡ 32
  pub blake3_bytes : (bytes : Bytes) → All (λ b. b < 256) (blake3 bytes)
  -- `new TextEncoder().encode(text)`
  pub encode : String → Bytes

pub record MerkleProofStep : Type 0 where
  pub hash : String
  pub is_left : Bool

pub record InclusionProof : Type 0 where
  pub leaf_index : ℕ
  pub steps : List MerkleProofStep
  pub root : String

pub record MerkleTree : Type 0 where
  pub root : String
  pub levels : List (List Bytes)

-- `x >>> s`: the shift count is taken modulo 32.
abbrev pub ushr : ℕ → ℕ → ℕ
ushr x s = x % 2 ^ 32 / 2 ^ (s % 32)

-- `buf[1 + i] = (index >>> (56 - 8 * i)) & 0xff`
abbrev pad_byte : ℕ → ℕ → ℕ
pad_byte index i = ushr index (56 - 8 * i) % 256

unfoldable pub pad_preimage : ℕ → Bytes
pad_preimage index =
    0x02
    ∷ pad_byte index 0
    ∷ pad_byte index 1
    ∷ pad_byte index 2
    ∷ pad_byte index 3
    ∷ pad_byte index 4
    ∷ pad_byte index 5
    ∷ pad_byte index 6
    ∷ pad_byte index 7
    ∷ []

-- `while (p < n) p *= 2`
pub power_loop : ℕ → ℕ → ℕ → ℕ
power_loop zero p n = p
power_loop (suc fuel) p n = let rest = power_loop fuel (p * 2) n in if ltb p n then rest else p

unfoldable pub next_power_of_two : ℕ → ℕ
unfolding power_loop
next_power_of_two n = power_loop n 1 n

-- `levels[levels.length - 1][0]`
unfoldable pub top_hash : List (List Bytes) → Option Bytes
top_hash [] = none
top_hash (level ∷ []) = get_elem? level 0
top_hash (level ∷ next ∷ more) = top_hash (next ∷ more)

abbrev sealed_tree : List (List Bytes) → Option Bytes → Option MerkleTree
sealed_tree levels none = none
sealed_tree levels (some h) = some (record { root = bytes_to_hex h; levels = levels })

module _ ⦃hs : Hashing⦄ where
  pub leaf_hash : String → Bytes
  leaf_hash evidence_id = hs.blake3 (0x00 ∷ hs.encode evidence_id)

  pub internal_hash : Bytes → Bytes → Bytes
  internal_hash left right = hs.blake3 (0x01 ∷ left ++ right)

  pub pad_hash : ℕ → Bytes
  pad_hash index = hs.blake3 (pad_preimage index)

  -- The pads at the places `start`, `start + 1`, ….
  pub pad_level : ℕ → ℕ → List Bytes
  pad_level zero start = []
  pad_level (suc count) start = pad_hash start ∷ pad_level count (start + 1)

  unfoldable pub leaf_level : List String → List Bytes
  unfolding leaf_hash pad_hash pad_level next_power_of_two
  leaf_level ids =
      map leaf_hash ids ++ pad_level (next_power_of_two (length ids) - length ids) (length ids)

  -- `next[i] = internalHash(cur[2 * i], cur[2 * i + 1])`
  pub combine : List Bytes → List Bytes
  combine (left ∷ right ∷ rest) = internal_hash left right ∷ combine rest
  combine _ = []

  -- `while (cur.length > 1)`: the levels from `cur` on
  pub levels_from : ℕ → List Bytes → List (List Bytes)
  levels_from zero cur = cur ∷ []
  levels_from (suc fuel) cur =
      let more = levels_from fuel (combine cur) in
      if ltb 1 (length cur) then cur ∷ more else cur ∷ []

  -- `none` is the exception for an empty evidence set.
  unfoldable pub build_merkle_tree : List String → Option MerkleTree
  unfolding leaf_level levels_from top_hash combine internal_hash
  build_merkle_tree [] = none
  build_merkle_tree (id ∷ ids) =
      let level = leaf_level (id ∷ ids) in
      let levels = levels_from (length level) level in sealed_tree levels (top_hash levels)

abbrev step_to : Bool → Option Bytes → Option MerkleProofStep
step_to is_left none = none
step_to is_left (some sib) = some (record { hash = bytes_to_hex sib; is_left = is_left })

-- One round of `proveInclusion`; `none` is a sibling that is not there.
pub sibling_step : List Bytes → ℕ → Option MerkleProofStep
sibling_step nodes idx =
    if idx % 2 == 0
    then step_to false (get_elem? nodes (idx + 1))
    else step_to true (get_elem? nodes (idx - 1))

abbrev add_step :
    Option MerkleProofStep → Option (List MerkleProofStep) → Option (List MerkleProofStep)
add_step (some step) (some steps) = some (step ∷ steps)
add_step _ _ = none

pub prove_steps : List (List Bytes) → ℕ → Option (List MerkleProofStep)
prove_steps (nodes ∷ next ∷ more) idx =
    add_step (sibling_step nodes idx) (prove_steps (next ∷ more) (idx / 2))
prove_steps _ idx = some []

abbrev sealed_proof : ℕ → Option (List MerkleProofStep) → Option Bytes → Option InclusionProof
sealed_proof i (some steps) (some h) =
    some (record { leaf_index = i; steps = steps; root = bytes_to_hex h })
sealed_proof i _ _ = none

unfoldable pub prove_inclusion : MerkleTree → ℕ → Option InclusionProof
unfolding prove_steps sibling_step top_hash
prove_inclusion tree leaf_index =
    sealed_proof leaf_index (prove_steps tree.levels leaf_index) (top_hash tree.levels)

module _ ⦃hs : Hashing⦄ where
  pub climb_step : Bytes → MerkleProofStep → Bytes
  climb_step h step =
      let sibling = hex_to_bytes step.hash in
      if step.is_left then internal_hash sibling h else internal_hash h sibling

  pub climb : Bytes → List MerkleProofStep → Bytes
  climb h [] = h
  climb h (step ∷ steps) = climb (climb_step h step) steps

  unfoldable pub verify_inclusion : String → InclusionProof → Bool
  unfolding leaf_hash climb climb_step internal_hash
  verify_inclusion evidence_id proof =
      str_eq (bytes_to_hex (climb (leaf_hash evidence_id) proof.steps)) proof.root
