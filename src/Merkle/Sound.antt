-- ===== src/Merkle/Sound.antt =====
-- What `verifyInclusion` of web/src/lib/kernel/merkle.ts accepts is in the tree, whatever the steps of
-- the proof are: otherwise a string that was hashed for the tree and another one that was hashed for
-- the proof have one BLAKE3 digest.
use native.Mathlib.Decide.{ℕ_discrete}
use attesta_ai_powered_soc.Prelude.{
  ℕ, zero, suc, ◌+◌, ◌≡◌, refl, ap, ◌∙◌, sym, ◌≢◌, ◌⊎◌, inl, inr, String, str_eq_iff, true, some,
  List, [], ◌∷◌, ◌++◌, map, length, get_elem?, All, In, arith, subst, if◌then◌else◌, ltb,
  Bool-cases, Option-cases,
}
use attesta_ai_powered_soc.Merkle.{
  Bytes, Hashing, MerkleProofStep, MerkleTree, InclusionProof, pad_preimage, leaf_hash,
  internal_hash, pad_hash, pad_level, leaf_level, combine, levels_from, top_hash, build_merkle_tree,
  climb_step, climb, verify_inclusion,
}
use attesta_ai_powered_soc.Merkle.Tree.{IsBytes}
use attesta_ai_powered_soc.Merkle.Complete.{levels_from-cons}
use attesta_ai_powered_soc.Merkle.Hex.{hex_to_bytes, bytes_to_hex, bytes_to_hex_inj}
use attesta_ai_powered_soc.Merkle.Preimages.{
  append_cancel_right, append_cancel_left, In-left, In-right, tagged, leaf_preimage, pad_preimages,
  pair_preimages, level_preimages, pads_of, uppers_of, tree_preimages, climb_preimages,
  proof_preimages, Collision,
}

Bytes-discrete : Discrete (List ℕ)
Bytes-discrete = hlevel ℕ_discrete

tagged-eq : (s t : ℕ) (x y : Bytes) → tagged s x ≡ tagged t y → (s ≡ t) × (x ≡ y)
tagged-eq s t x y e = (cc, cc)

-- All of one list is in another.
abbrev Within : List Bytes → List Bytes → Type 0
Within part whole = (p : Bytes) → In p part → In p whole

module _ ⦃hs : Hashing⦄ where
  -- The nodes of a tree over `ids`, from the leaves up, with their preimages in a list.
  data Known (ids : List String) (built : List Bytes) : Bytes → Type 0 where
    leaf :
        {y : Bytes} (id : String)
        → In id ids
        → In (tagged 0 (hs.encode id)) built
        → y ≡ hs.blake3 (tagged 0 (hs.encode id))
        → Known ids built y
    pad :
        {y : Bytes} (rest : Bytes)
        → In (tagged 2 rest) built
        → y ≡ hs.blake3 (tagged 2 rest)
        → Known ids built y
    node :
        {y : Bytes} (l r : Bytes)
        → Known ids built l
        → Known ids built r
        → In (tagged 1 (l ++ r)) built
        → y ≡ hs.blake3 (tagged 1 (l ++ r))
        → Known ids built y

  -- The hashes that climbing from an id's leaf passes through, with their preimages in a list.
  data Derived (id : String) (checked : List Bytes) : Bytes → Type 0 where
    tip :
        {y : Bytes}
        → In (tagged 0 (hs.encode id)) checked
        → y ≡ hs.blake3 (tagged 0 (hs.encode id))
        → Derived id checked y
    above_left :
        {y : Bytes} (s h : Bytes)
        → Derived id checked h
        → In (tagged 1 (s ++ h)) checked
        → y ≡ hs.blake3 (tagged 1 (s ++ h))
        → Derived id checked y
    above_right :
        {y : Bytes} (s h : Bytes)
        → Derived id checked h
        → In (tagged 1 (h ++ s)) checked
        → y ≡ hs.blake3 (tagged 1 (h ++ s))
        → Derived id checked y

  -- The id's bytes are those of one of the ids.
  abbrev pub Encoded : String → List String → Type 0
  Encoded id ids = (e : String) × In e ids × (hs.encode e ≡ hs.encode id)

  pad_preimage_lem : (i : ℕ) → (rest : Bytes) × (pad_preimage i ≡ tagged 2 rest)
  unfolding pad_preimage
  pad_preimage_lem i = (_, refl)

  pad_hash-Known :
      (ids : List String) (built : List Bytes) (i : ℕ)
      → In (pad_preimage i) built
      → Known ids built (pad_hash i)
  unfolding pad_hash
  pad_hash-Known ids built i m =
      let (rest, e) = pad_preimage_lem i in pad rest (subst (λ p. In p built) e m) (ap hs.blake3 e)

  -- One digest of two strings, one hashed for the tree and one for the proof: they are one string, or
  -- they collide.
  same_preimage :
      (built checked : List Bytes) (s t : ℕ) (x y z : Bytes)
      → In (tagged s x) built
      → In (tagged t y) checked
      → z ≡ hs.blake3 (tagged s x)
      → z ≡ hs.blake3 (tagged t y)
      → ((s ≡ t) × (x ≡ y)) ⊎ Collision built checked
  same_preimage built checked s t x y z m n p q = elim (Bytes-discrete (tagged s x) (tagged t y)) [
    | yes e ↦ inl (tagged-eq s t x y e)
    | no e ↦ inr (tagged s x, tagged t y, m, n, e, sym p ∙ q)
  ]

  tags_differ :
      (built checked : List Bytes) (s t : ℕ) (x y z : Bytes)
      → s ≢ t
      → In (tagged s x) built
      → In (tagged t y) checked
      → z ≡ hs.blake3 (tagged s x)
      → z ≡ hs.blake3 (tagged t y)
      → Collision built checked
  tags_differ built checked s t x y z ne m n p q =
      elim (same_preimage built checked s t x y z m n p q) [ inl e ↦ absurd (ne e.0) | inr c ↦ c ]

  length-digest : (y bytes : Bytes) → y ≡ hs.blake3 bytes → length y ≡ 32
  length-digest y bytes e = rw e (hs.blake3_length bytes)

  length-Known :
      {ids : List String} {built : List Bytes} {y : Bytes} → Known ids built y → length y ≡ 32
  length-Known (leaf id m n e) = length-digest _ _ e
  length-Known (pad rest n e) = length-digest _ _ e
  length-Known (node l r kl kr n e) = length-digest _ _ e

  length-Derived :
      {id : String} {checked : List Bytes} {y : Bytes} → Derived id checked y → length y ≡ 32
  length-Derived (tip n e) = length-digest _ _ e
  length-Derived (above_left s h d n e) = length-digest _ _ e
  length-Derived (above_right s h d n e) = length-digest _ _ e

  -- A hash over a leaf that is also a node of the tree: the leaf is one of the tree's.
  Derived-Known :
      {id : String} {ids : List String} {built checked : List Bytes} {y : Bytes}
      → Derived id checked y
      → Known ids built y
      → Encoded id ids ⊎ Collision built checked
  Derived-Known {id} (tip n e) (leaf j m n' e') = elim (same_preimage _ _ 0 0 _ _ _ n' n e' e) [
    | inl same ↦ inl (j, m, same.1)
    | inr c ↦ inr c
  ]
  Derived-Known (tip n e) (pad rest n' e') = inr (tags_differ _ _ 2 0 _ _ _ (omega arith) n' n e' e)
  Derived-Known (tip n e) (node l r kl kr n' e') =
      inr (tags_differ _ _ 1 0 _ _ _ (omega arith) n' n e' e)
  Derived-Known (above_left s h d n e) (leaf j m n' e') =
      inr (tags_differ _ _ 0 1 _ _ _ (omega arith) n' n e' e)
  Derived-Known (above_left s h d n e) (pad rest n' e') =
      inr (tags_differ _ _ 2 1 _ _ _ (omega arith) n' n e' e)
  Derived-Known {ids} {built} (above_left s h d n e) (node l r kl kr n' e') =
      elim (same_preimage _ _ 1 1 _ _ _ n' n e' e) [
        | inl same ↦
            let child : r ≡ h =
              append_cancel_right l s r h same.1 (length-Known kr ∙ sym (length-Derived d)) in
            Derived-Known d (subst (Known ids built) child kr)
        | inr c ↦ inr c
      ]
  Derived-Known (above_right s h d n e) (leaf j m n' e') =
      inr (tags_differ _ _ 0 1 _ _ _ (omega arith) n' n e' e)
  Derived-Known (above_right s h d n e) (pad rest n' e') =
      inr (tags_differ _ _ 2 1 _ _ _ (omega arith) n' n e' e)
  Derived-Known {ids} {built} (above_right s h d n e) (node l r kl kr n' e') =
      elim (same_preimage _ _ 1 1 _ _ _ n' n e' e) [
        | inl same ↦
            let child : l ≡ h =
              append_cancel_left l h r s same.1 (length-Known kl ∙ sym (length-Derived d)) in
            Derived-Known d (subst (Known ids built) child kl)
        | inr c ↦ inr c
      ]

  climb_step-Derived :
      (id : String) (checked : List Bytes) (h : Bytes) (step : MerkleProofStep)
      → In
          (tagged 1
            (if step.is_left then hex_to_bytes step.hash ++ h else h ++ hex_to_bytes step.hash))
          checked
      → Derived id checked h
      → Derived id checked (climb_step h step)
  unfolding climb_step internal_hash
  climb_step-Derived id checked h step n d = elim (Bool-cases step.is_left) [
    | inl e ↦ rw e (above_left (hex_to_bytes step.hash) h d (rw e at n) refl)
    | inr e ↦ rw e (above_right (hex_to_bytes step.hash) h d (rw e at n) refl)
  ]

  -- Climbing keeps to hashes over the leaf.
  climb-Derived :
      (id : String) (checked : List Bytes) (h : Bytes) (steps : List MerkleProofStep)
      → Within (climb_preimages h steps) checked
      → Derived id checked h
      → Derived id checked (climb h steps)
  unfolding climb
  climb-Derived id checked h [] sub d = d
  climb-Derived id checked h (step ∷ steps) sub d =
      climb-Derived id checked (climb_step h step) steps (λ p m. sub p (inr m))
        (climb_step-Derived id checked h step (sub _ (inl refl)) d)

  module _ (ids : List String) (built : List Bytes) where
    combine-Known :
        (cur : List Bytes)
        → Within (pair_preimages cur) built
        → All (Known ids built) cur
        → All (Known ids built) (combine cur)
    unfolding combine internal_hash
    combine-Known [] sub h = tt
    combine-Known (l ∷ []) sub h = tt
    combine-Known (l ∷ r ∷ rest) sub (hl, (hr, h)) =
        (node l r hl hr (sub _ (inl refl)) refl, combine-Known rest (λ p m. sub p (inr m)) h)

    head-Known :
        (cur : List Bytes) (y : Bytes)
        → All (Known ids built) cur
        → get_elem? cur 0 ≡ some y
        → Known ids built y
    head-Known [] y h e = cc
    head-Known (x ∷ cur) y h e = let same : x ≡ y = cc in subst (Known ids built) same h.0

    top_hash-Known :
        (fuel : ℕ) (cur : List Bytes) (y : Bytes)
        → Within (level_preimages fuel cur) built
        → All (Known ids built) cur
        → top_hash (levels_from fuel cur) ≡ some y
        → Known ids built y
    unfolding levels_from top_hash
    top_hash-Known zero cur y sub h e = head-Known cur y h e
    top_hash-Known (suc fuel) cur y sub h e =
        let (first, more, shape) = levels_from-cons fuel (combine cur) in
        elim (Bool-cases (ltb 1 (length cur))) [
          | inl several ↦
              let sub' : Within (pair_preimages cur ++ level_preimages fuel (combine cur)) built =
                λ p m. sub p (rw several m) in
              top_hash-Known fuel (combine cur) y
                (λ p m. sub' p (In-right p (pair_preimages cur) _ m))
                (combine-Known cur (λ p m. sub' p (In-left p (pair_preimages cur) _ m)) h)
                (above first more shape several)
          | inr one ↦ head-Known cur y h (rw one at e)
        ]
      where
        above :
            (first : List Bytes) (more : List (List Bytes))
            → levels_from fuel (combine cur) ≡ first ∷ more
            → ltb 1 (length cur) ≡ true
            → top_hash (levels_from fuel (combine cur)) ≡ some y
        above first more shape several = rw shape (rw shape at (rw several at e))

    leaves-Known :
        (xs : List String)
        → ((id : String) → In id xs → In id ids)
        → Within (map leaf_preimage xs) built
        → All (Known ids built) (map leaf_hash xs)
    unfolding leaf_hash
    leaves-Known [] from sub = tt
    leaves-Known (x ∷ xs) from sub = (
      leaf x (from x (inl refl)) (sub _ (inl refl)) refl,
      leaves-Known xs (λ id m. from id (inr m)) (λ p m. sub p (inr m)),
    )

    pads-Known :
        (count start : ℕ)
        → Within (pad_preimages count start) built
        → All (Known ids built) (pad_level count start)
    unfolding pad_level
    pads-Known zero start sub = tt
    pads-Known (suc count) start sub = (
      pad_hash-Known ids built start (sub _ (inl refl)),
      pads-Known count (start + 1) (λ p m. sub p (inr m)),
    )

    both-Known :
        (xs ys : List Bytes)
        → All (Known ids built) xs
        → All (Known ids built) ys
        → All (Known ids built) (xs ++ ys)
    both-Known [] ys hx hy = hy
    both-Known (x ∷ xs) ys hx hy = (hx.0, both-Known xs ys hx.1 hy)

  leaf_level-Known : (ids : List String) → All (Known ids (tree_preimages ids)) (leaf_level ids)
  unfolding leaf_level
  leaf_level-Known ids =
      both-Known ids (tree_preimages ids) _ _
        (leaves-Known ids (tree_preimages ids) ids (λ id m. m)
          (λ p m. In-left p (map leaf_preimage ids) (pads_of ids ++ uppers_of ids) m))
        (pads-Known ids (tree_preimages ids) _ _ (λ p m.
          In-right p (map leaf_preimage ids) (pads_of ids ++ uppers_of ids)
            (In-left p (pads_of ids) (uppers_of ids) m)))

  digest-IsBytes : (y bytes : Bytes) → y ≡ hs.blake3 bytes → IsBytes y
  digest-IsBytes y bytes e = rw e (hs.blake3_bytes bytes)

  Known-IsBytes :
      {ids : List String} {built : List Bytes} {y : Bytes} → Known ids built y → IsBytes y
  Known-IsBytes (leaf id m n e) = digest-IsBytes _ _ e
  Known-IsBytes (pad rest n e) = digest-IsBytes _ _ e
  Known-IsBytes (node l r kl kr n e) = digest-IsBytes _ _ e

  Derived-IsBytes :
      {id : String} {checked : List Bytes} {y : Bytes} → Derived id checked y → IsBytes y
  Derived-IsBytes (tip n e) = digest-IsBytes _ _ e
  Derived-IsBytes (above_left s h d n e) = digest-IsBytes _ _ e
  Derived-IsBytes (above_right s h d n e) = digest-IsBytes _ _ e

  -- The root of a tree that was built is the text of a known node.
  built-Known :
      (ids : List String) (tree : MerkleTree)
      → build_merkle_tree ids ≡ some tree
      → (y : Bytes) × Known ids (tree_preimages ids) y × (tree.root ≡ bytes_to_hex y)
  built-Known [] tree e = unfold build_merkle_tree in cc
  built-Known (x ∷ xs) tree e =
      let level = leaf_level (x ∷ xs) in
      let levels = levels_from (length level) level in
      elim (Option-cases (top_hash levels)) [
        | inl no_top ↦ absurd (unfold build_merkle_tree in cc (rw no_top at e))
        | inr (y, top) ↦ (
          y,
          top_hash-Known (x ∷ xs) (tree_preimages (x ∷ xs)) (length level) level y upper
              (leaf_level-Known (x ∷ xs)) top,
          root_is y top,
        )
      ]
    where
      upper :
          Within
            (level_preimages (length (leaf_level (x ∷ xs))) (leaf_level (x ∷ xs)))
            (tree_preimages (x ∷ xs))
      upper p m =
          let ids = x ∷ xs in
          In-right p (map leaf_preimage ids) (pads_of ids ++ uppers_of ids)
            (In-right p (pads_of ids) (uppers_of ids) m)

      root_is :
          (y : Bytes)
          → top_hash (levels_from (length (leaf_level (x ∷ xs))) (leaf_level (x ∷ xs))) ≡ some y
          → tree.root ≡ bytes_to_hex y
      root_is y top = unfold build_merkle_tree in ground (arith, e, top)

  -- If `verifyInclusion` accepts an id under the root of the tree that was built over `ids`, with any
  -- steps at all, then the id has the bytes of one of `ids`; or among the finitely many strings that
  -- were hashed, one of the tree's and another one of the proof's have the same BLAKE3 digest.
  pub verify_inclusion_sound :
      (ids : List String) (tree : MerkleTree) (id : String) (proof : InclusionProof)
      → build_merkle_tree ids ≡ some tree
      → proof.root ≡ tree.root
      → verify_inclusion id proof ≡ true
      → Encoded id ids ⊎ Collision (tree_preimages ids) (proof_preimages id proof)
  unfolding leaf_hash
  verify_inclusion_sound ids tree id proof built same_root accepted =
      let (y, known, root) = built-Known ids tree built in
      let derived =
        climb-Derived id (proof_preimages id proof) (leaf_hash id) proof.steps (λ p m. inr m)
          (tip (inl refl) refl) in
      let texts : bytes_to_hex (climb (leaf_hash id) proof.steps) ≡ proof.root =
        (str_eq_iff _ _).0 (unfold verify_inclusion in accepted) in
      let same =
        bytes_to_hex_inj (climb (leaf_hash id) proof.steps) y (Derived-IsBytes derived)
          (Known-IsBytes known) (texts ∙ same_root ∙ root) in
      Derived-Known derived (subst (Known ids (tree_preimages ids)) (sym same) known)
