-- ===== src/Merkle/Complete.antt =====
-- Every evidence id of a tree of web/src/lib/kernel/merkle.ts has a proof, and the proof verifies.
use native.Mathlib.Nat.{pow-suc, one-le-pow}
use attesta_ai_powered_soc.Prelude.{
  ℕ, zero, suc, ◌+◌, ◌-◌, ◌*◌, ◌/◌, ◌%◌, ◌^◌, ◌≤◌, ◌<◌, ◌≡◌, refl, ◌∙◌, String, true, false, some,
  List, [], ◌∷◌, length, get_elem?, All, arith, str_eq-refl, ◌==◌, ltb, lt→ltb, Bool-cases, inl,
  inr,
}
use attesta_ai_powered_soc.Rng.Draw.{get_elem?-of_lt}
use attesta_ai_powered_soc.Merkle.{
  Bytes, Hashing, MerkleProofStep, MerkleTree, InclusionProof, leaf_hash, leaf_level, combine,
  levels_from, top_hash, build_merkle_tree, sibling_step, prove_steps, prove_inclusion, climb_step,
  climb, verify_inclusion,
}
use attesta_ai_powered_soc.Merkle.Hex.{bytes_to_hex, hex_to_bytes-bytes_to_hex}
use attesta_ai_powered_soc.Merkle.Tree.{
  IsBytes, next_power_of_two_lem, length-combine, combine-IsBytes, combine_at, leaf_level-IsBytes,
  length-leaf_level, leaf_level_at, le-two-pow,
}

pub All-get_elem? :
    {A : Type 0} (P : A → Type 0) (xs : List A) (i : ℕ) (a : A)
    → All P xs
    → get_elem? xs i ≡ some a
    → P a
All-get_elem? P [] i a h e = cc
All-get_elem? P (x ∷ xs) zero a h e = let same : x ≡ a = cc in rw (← same) h.0
All-get_elem? P (x ∷ xs) (suc i) a h e = All-get_elem? P xs i a h.1 e

pub lt-of_get_elem? :
    {A : Type 0} (xs : List A) (i : ℕ) (a : A) → get_elem? xs i ≡ some a → i < length xs
lt-of_get_elem? [] i a e = cc
lt-of_get_elem? (x ∷ xs) zero a e = omega arith
lt-of_get_elem? (x ∷ xs) (suc i) a e = omega (arith, lt-of_get_elem? xs i a e)

module _ ⦃hs : Hashing⦄ where
  -- One step up: the proof's step at a level takes a node to its parent on the next.
  climb_one :
      (n : ℕ) (cur : List Bytes) (i : ℕ) (h : Bytes)
      → length cur ≡ 2 * n
      → All IsBytes cur
      → get_elem? cur i ≡ some h
      → (step : MerkleProofStep) × (sibling_step cur i ≡ some step)
        × (get_elem? (combine cur) (i / 2) ≡ some (climb_step h step))
  unfolding sibling_step climb_step
  climb_one n cur i h len bytes at = elim (Bool-cases (i % 2 == 0)) [
    | inl even ↦
        let whole : 2 * (i / 2) ≡ i = ground arith in
        let (sib, there) =
          get_elem?-of_lt cur (i + 1) (omega (arith, whole, lt-of_get_elem? cur i h at)) in
        let back =
          hex_to_bytes-bytes_to_hex sib (All-get_elem? IsBytes cur (i + 1) sib bytes there) in
        (
          record { hash = bytes_to_hex sib; is_left = false },
          rw (even, there) refl,
          rw back (combine_at cur (i / 2) h sib (rw whole at) (rw whole there)),
        )
    | inr odd ↦
        let whole : 2 * (i / 2) ≡ i - 1 = ground arith in
        let next : 2 * (i / 2) + 1 ≡ i = ground arith in
        let (sib, there) =
          get_elem?-of_lt cur (i - 1) (omega (arith, lt-of_get_elem? cur i h at)) in
        let back =
          hex_to_bytes-bytes_to_hex sib (All-get_elem? IsBytes cur (i - 1) sib bytes there) in
        (
          record { hash = bytes_to_hex sib; is_left = true },
          rw (odd, there) refl,
          rw back (combine_at cur (i / 2) sib h (rw whole there) (rw next at)),
        )
  ]

  -- The levels are never empty.
  pub levels_from-cons :
      (fuel : ℕ) (cur : List Bytes)
      → (first : List Bytes) × (more : List (List Bytes)) × (levels_from fuel cur ≡ first ∷ more)
  unfolding levels_from
  levels_from-cons zero cur = (cur, [], refl)
  levels_from-cons (suc fuel) cur = elim (Bool-cases (ltb 1 (length cur))) [
    | inl more ↦ (cur, levels_from fuel (combine cur), rw more)
    | inr done ↦ (cur, [], rw done)
  ]

  levels_from-step :
      (fuel : ℕ) (cur : List Bytes)
      → 1 < length cur
      → levels_from (suc fuel) cur ≡ cur ∷ levels_from fuel (combine cur)
  unfolding levels_from
  levels_from-step fuel cur h = rw (lt→ltb 1 (length cur) h) refl

  levels_from-last :
      (fuel : ℕ) (cur : List Bytes) → length cur ≡ 1 → levels_from fuel cur ≡ cur ∷ []
  unfolding levels_from
  levels_from-last zero cur h = refl
  levels_from-last (suc fuel) cur h = rw h refl

  -- A proof and a top at the levels above, with a step below them.
  extend :
      (nodes : List Bytes) (levels : List (List Bytes)) (i : ℕ) (step : MerkleProofStep)
      (steps : List MerkleProofStep) (root : Bytes) (first : List Bytes) (more : List (List Bytes))
      → levels ≡ first ∷ more
      → sibling_step nodes i ≡ some step
      → prove_steps levels (i / 2) ≡ some steps
      → top_hash levels ≡ some root
      → (prove_steps (nodes ∷ levels) i ≡ some (step ∷ steps))
        × (top_hash (nodes ∷ levels) ≡ some root)
  extend nodes levels i step steps root first more e made proof top =
      rw e (unfold prove_steps top_hash in (rw (made, (rw e at proof)) refl, rw e at top))

  single :
      (cur : List Bytes) (i : ℕ) (h : Bytes)
      → length cur ≡ 1
      → get_elem? cur i ≡ some h
      → cur ≡ h ∷ []
  single (x ∷ []) zero h len at = cc
  single (x ∷ []) (suc i) h len at = cc
  single [] i h len at = cc
  single (x ∷ y ∷ cur) i h len at = absurd (omega arith)

  climb_lem :
      (h : Bytes) (step : MerkleProofStep) (steps : List MerkleProofStep)
      → climb h (step ∷ steps) ≡ climb (climb_step h step) steps
  unfolding climb
  climb_lem h step steps = refl

  -- From a level of 2 ^ d nodes: the proof of any place exists, and climbing it from the node there
  -- gives the hash at the top.
  climb_levels :
      (d fuel : ℕ) (cur : List Bytes) (i : ℕ) (h : Bytes)
      → d ≤ fuel
      → length cur ≡ 2 ^ d
      → All IsBytes cur
      → get_elem? cur i ≡ some h
      → (steps : List MerkleProofStep) × (prove_steps (levels_from fuel cur) i ≡ some steps)
        × (top_hash (levels_from fuel cur) ≡ some (climb h steps))
  climb_levels zero fuel cur i h le len bytes at =
      rw (levels_from-last fuel cur len)
        (unfold prove_steps top_hash climb in ([], refl, rw (single cur i h len at) refl))
  climb_levels (suc d) zero cur i h le len bytes at = absurd (omega arith)
  climb_levels (suc d) (suc fuel) cur i h le len bytes at =
      let len' : length cur ≡ 2 * 2 ^ d = omega (arith, pow-suc 2 d) in
      let (step, made, parent) = climb_one (2 ^ d) cur i h len' bytes at in
      let (steps, proof, top) =
        climb_levels d fuel (combine cur) (i / 2) (climb_step h step) (omega arith)
          (length-combine (2 ^ d) cur len') (combine-IsBytes cur) parent in
      let (first, more, e) = levels_from-cons fuel (combine cur) in
      let whole =
        extend cur (levels_from fuel (combine cur)) i step steps _ first more e made proof top in
      rw (levels_from-step fuel cur (omega (arith, len', one-le-pow d 2)))
        (step ∷ steps, whole.0, rw (climb_lem h step steps) whole.1)

  -- The tree of a non-empty list of evidence ids is built, and for the id at any place `i` of the
  -- list `proveInclusion` returns a proof with the tree's root that `verifyInclusion` accepts for
  -- that id.
  pub verify_inclusion-prove_inclusion :
      (ids : List String) (i : ℕ) (id : String)
      → get_elem? ids i ≡ some id
      → (tree : MerkleTree) × (proof : InclusionProof) × (build_merkle_tree ids ≡ some tree)
        × (prove_inclusion tree i ≡ some proof)
        × (proof.root ≡ tree.root)
        × (verify_inclusion id proof ≡ true)
  verify_inclusion-prove_inclusion [] i id at = cc
  verify_inclusion-prove_inclusion (x ∷ xs) i id at =
      let ids = x ∷ xs in
      let level = leaf_level ids in
      let (k, pow, _, _) = next_power_of_two_lem (length ids) (omega arith) in
      let len : length level ≡ 2 ^ k = length-leaf_level ids (omega arith) ∙ pow in
      let (steps, proof, top) =
        climb_levels k (length level) level i (leaf_hash id) (omega (arith, le-two-pow k, len)) len
          (leaf_level-IsBytes ids) (leaf_level_at ids i id at) in
      let root = bytes_to_hex (climb (leaf_hash id) steps) in
      (
        record { root = root; levels = levels_from (length level) level },
        record { leaf_index = i; steps = steps; root = root },
        unfold build_merkle_tree in rw top refl,
        unfold prove_inclusion in rw (proof, top) refl,
        refl,
        unfold verify_inclusion in str_eq-refl root,
      )
