-- ===== src/Merkle/Preimages.antt =====
-- The byte strings that are hashed while a tree is built and while an inclusion proof is checked, and
-- when two of them collide.
use attesta_ai_powered_soc.Prelude.{
  ℕ, zero, suc, ◌+◌, ◌-◌, ◌≡◌, ◌≢◌, refl, ap, String, List, [], ◌∷◌, ◌++◌, map, length, In, inl,
  inr, arith, length-append, if◌then◌else◌, ltb,
}
use attesta_ai_powered_soc.Merkle.{
  Bytes, Hashing, MerkleProofStep, InclusionProof, pad_preimage, leaf_hash, next_power_of_two,
  leaf_level, combine, climb_step,
}
use attesta_ai_powered_soc.Merkle.Hex.{hex_to_bytes}

pub append_cancel_right : (a b x y : Bytes) → a ++ x ≡ b ++ y → length x ≡ length y → x ≡ y
append_cancel_right [] [] x y e len = e
append_cancel_right [] (c ∷ b) x y e len =
    absurd (omega (arith, len, ap length e, length-append b y))
append_cancel_right (c ∷ a) [] x y e len =
    absurd (omega (arith, len, ap length e, length-append a x))
append_cancel_right (c ∷ a) (d ∷ b) x y e len = append_cancel_right a b x y (cc) len

pub append_cancel_left : (a b x y : Bytes) → a ++ x ≡ b ++ y → length a ≡ length b → a ≡ b
append_cancel_left [] [] x y e len = refl
append_cancel_left [] (c ∷ b) x y e len = absurd (omega arith)
append_cancel_left (c ∷ a) [] x y e len = absurd (omega arith)
append_cancel_left (c ∷ a) (d ∷ b) x y e len =
    let tails : a ++ x ≡ b ++ y = cc in
    let same = append_cancel_left a b x y tails (omega arith) in cc

pub In-left : {A : Type 0} (a : A) (xs ys : List A) → In a xs → In a (xs ++ ys)
In-left a [] ys m = elim m [ ]
In-left a (x ∷ xs) ys (inl e) = inl e
In-left a (x ∷ xs) ys (inr m) = inr (In-left a xs ys m)

pub In-right : {A : Type 0} (a : A) (xs ys : List A) → In a ys → In a (xs ++ ys)
In-right a [] ys m = m
In-right a (x ∷ xs) ys m = inr (In-right a xs ys m)

abbrev pub tagged : ℕ → Bytes → Bytes
tagged tag rest = tag ∷ rest

-- For the pads at the places `start`, `start + 1`, ….
abbrev pub pad_preimages : ℕ → ℕ → List Bytes
pad_preimages zero start = []
pad_preimages (suc count) start = pad_preimage start ∷ pad_preimages count (start + 1)

-- For the level above a level.
abbrev pub pair_preimages : List Bytes → List Bytes
pair_preimages (left ∷ right ∷ rest) = tagged 1 (left ++ right) ∷ pair_preimages rest
pair_preimages _ = []

module _ ⦃hs : Hashing⦄ where
  abbrev pub leaf_preimage : String → Bytes
  leaf_preimage id = tagged 0 (hs.encode id)

  -- For all the levels above a level.
  abbrev pub level_preimages : ℕ → List Bytes → List Bytes
  level_preimages zero cur = []
  level_preimages (suc fuel) cur =
      let more = level_preimages fuel (combine cur) in
      if ltb 1 (length cur) then pair_preimages cur ++ more else []

  abbrev pub pads_of : List String → List Bytes
  pads_of ids = pad_preimages (next_power_of_two (length ids) - length ids) (length ids)

  abbrev pub uppers_of : List String → List Bytes
  uppers_of ids = level_preimages (length (leaf_level ids)) (leaf_level ids)

  -- What is hashed to build the tree over `ids`.
  abbrev pub tree_preimages : List String → List Bytes
  tree_preimages ids = map leaf_preimage ids ++ (pads_of ids ++ uppers_of ids)

  -- What is hashed on the way from a hash up the steps.
  abbrev pub climb_preimages : Bytes → List MerkleProofStep → List Bytes
  climb_preimages h [] = []
  climb_preimages h (step ∷ steps) =
      let sibling = hex_to_bytes step.hash in
      tagged 1 (if step.is_left then sibling ++ h else h ++ sibling)
      ∷ climb_preimages (climb_step h step) steps

  -- What is hashed to check a proof for an id.
  abbrev pub proof_preimages : String → InclusionProof → List Bytes
  proof_preimages id proof = leaf_preimage id ∷ climb_preimages (leaf_hash id) proof.steps

  -- A string of the one list and another string of the other list have the same digest.
  abbrev pub Collision : List Bytes → List Bytes → Type 0
  Collision built checked =
      (a : Bytes) × (b : Bytes) × In a built × In b checked × (a ≢ b) × (hs.blake3 a ≡ hs.blake3 b)
