-- ===== src/Graph/Proofs.antt =====
-- The cache of web/src/lib/data/graph.ts: an entry stays what it was, and its evidence can be proved.
use attesta_ai_powered_soc.Prelude.{
  ℕ, ◌≡◌, ◌≢◌, refl, sym, ap, ◌∙◌, String, str_eq, str_eq_iff, true, Option, none, some, List, [],
  ◌∷◌, In, some_inj, ◌⊎◌, inl, inr, false, Bool-cases, arith,
}
use attesta_ai_powered_soc.Prelude.Assoc.{
  has, get, set, get-set_self, get-set_ne, get-set, string_eq,
}
use attesta_ai_powered_soc.Prelude.Sort.{text_after, In-sort_by}
use attesta_ai_powered_soc.Rng.Fractions.{Doubles}
use attesta_ai_powered_soc.Merkle.{
  Hashing, MerkleTree, InclusionProof, build_merkle_tree, verify_inclusion,
}
use attesta_ai_powered_soc.Merkle.Complete.{verify_inclusion-prove_inclusion}
use attesta_ai_powered_soc.Verification.{unique}
use attesta_ai_powered_soc.Ledger.Evidence.{find_index-In}
use attesta_ai_powered_soc.Graph.{Graph, generate_graph}
use attesta_ai_powered_soc.Graph.Cache.{
  GraphCacheEntry, edge_evidence, graph_evidence, cache_key, Cache, build_entry, stored,
  get_or_build_graph, prove_in_graph,
}

-- `new Set` keeps every member that was not seen before.
In-unique :
    (id : String) (xs seen : List String) → has seen id ≡ false → In id xs → In id (unique seen xs)
unfolding unique has
In-unique id [] seen fresh m = m
In-unique id (x ∷ xs) seen fresh m = elim (Bool-cases (str_eq id x)) [
  | inl e ↦ rw (← (str_eq_iff id x).0 e, fresh) (inl refl)
  | inr e ↦ elim m [
    | inl here ↦ let gone = (str_eq_iff id x).1 (sym here) in absurd (cc)
    | inr there ↦ elim (Bool-cases (has seen x)) [
      | inl s ↦ rw s (In-unique id xs seen fresh there)
      | inr s ↦ rw s (
          inr (
            In-unique id xs (x ∷ seen) (ground (arith, str_eq_iff x id, str_eq_iff id x, e, fresh))
              there))
    ]
  ]
]

module _ ⦃hs : Hashing⦄ where
  -- The entry's evidence is its graph's, and its tree is over it.
  pub record IsBuilt (entry : GraphCacheEntry) : Type 0 where
    pub evidence : entry.evidence_ids ≡ graph_evidence entry.graph
    pub built : build_merkle_tree entry.evidence_ids ≡ some entry.tree

  abbrev pub IsCache : Cache → Type 0
  IsCache cache =
      (key : String) (entry : GraphCacheEntry) → get cache key ≡ some entry → IsBuilt entry

  build_entry-IsBuilt :
      (g : Option Graph) (entry : GraphCacheEntry) → build_entry g ≡ some entry → IsBuilt entry
  unfolding build_entry
  build_entry-IsBuilt none entry e = cc
  build_entry-IsBuilt (some g) entry e = go (build_merkle_tree (graph_evidence g)) refl
    where
      go : (t : Option MerkleTree) → build_merkle_tree (graph_evidence g) ≡ t → IsBuilt entry
      go none at = let gone = rw (build_entry, at) at e in absurd (cc)
      go (some tree) at =
          let same = some_inj (rw (build_entry, at) at e) in
          rw (← same) (record { evidence = refl; built = at })

  -- How a cache came to hold an entry: it did, or the entry was built and added.
  abbrev Added : Cache → String → GraphCacheEntry → Cache → Type 0
  Added cache key entry after =
      ((get cache key ≡ some entry) × (after ≡ cache))
      ⊎ ((get cache key ≡ none) × IsBuilt entry × (after ≡ set cache key entry))

  Added-get :
      (cache : Cache) (key : String) (entry : GraphCacheEntry) (after : Cache)
      → Added cache key entry after
      → get after key ≡ some entry
  Added-get cache key entry after (inl (at, same)) = rw same at
  Added-get cache key entry after (inr (_, _, same)) = rw same (get-set_self cache key entry)

  Added-kept :
      (cache : Cache) (key : String) (entry : GraphCacheEntry) (after : Cache)
      → Added cache key entry after
      → (other_key : String) (other : GraphCacheEntry) → get cache other_key ≡ some other
      → get after other_key ≡ some other
  Added-kept cache key entry after (inl (at, same)) other_key other h = rw same h
  Added-kept cache key entry after (inr (gone, _, same)) other_key other h =
      let apart : key ≢ other_key = λ e. let here = rw (← e, gone) at h in absurd (cc) in
      rw same (get-set_ne cache key entry other_key apart ∙ h)

  Added-IsCache :
      (cache : Cache) (key : String) (entry : GraphCacheEntry) (after : Cache)
      → Added cache key entry after
      → IsCache cache
      → IsCache after × IsBuilt entry
  Added-IsCache cache key entry after (inl (at, same)) valid =
      (λ k other h. valid k other (rw same at h), valid key entry at)
  Added-IsCache cache key entry after (inr (gone, built, same)) valid = (
    λ k other h. elim (Bool-cases (str_eq key k)) [
      | inl e ↦
          let here : some entry ≡ some other = rw (same, get-set cache key entry k, e) at h in
          rw (← some_inj here) built
      | inr e ↦ valid k other (rw (same, get-set cache key entry k, e) at h)
    ],
    built,
  )

  stored-Added :
      (cache : Cache) (key : String) (made : Option GraphCacheEntry) (entry : GraphCacheEntry)
      (after : Cache)
      → get cache key ≡ none
      → ((e : GraphCacheEntry) → made ≡ some e → IsBuilt e)
      → stored cache key made ≡ some (entry, after)
      → Added cache key entry after
  stored-Added cache key none entry after gone sound h = cc
  stored-Added cache key (some e) entry after gone sound h =
      let both : (e, set cache key e) ≡ (entry, after) = some_inj h in
      let first : e ≡ entry = ap (λ p. p.0) both in
      inr (gone, rw (← first) (sound e refl), rw (← first) (sym (ap (λ p. p.1) both)))

  module _ ⦃fp : Doubles⦄ (case_id : String) (override : Option ℕ) (now : ℕ) (cache : Cache)
      (entry : GraphCacheEntry) (after : Cache)
      (returned : get_or_build_graph case_id override now cache ≡ some (entry, after)) where
    added : Added cache (cache_key case_id override) entry after
    unfolding get_or_build_graph
    added = go (get cache (cache_key case_id override)) refl
      where
        go :
            (found : Option GraphCacheEntry)
            → get cache (cache_key case_id override) ≡ found
            → Added cache (cache_key case_id override) entry after
        go none at =
            stored-Added cache (cache_key case_id override)
              (build_entry (generate_graph case_id override now)) entry after at
              (build_entry-IsBuilt (generate_graph case_id override now))
              (rw (get_or_build_graph, at) at returned)
        go (some e) at =
            let both : (e, cache) ≡ (entry, after) =
              some_inj (rw (get_or_build_graph, at) at returned) in
            inl (at ∙ ap some (ap (λ p. p.0) both), sym (ap (λ p. p.1) both))

    -- After `getOrBuildGraph` has returned an entry, a call for the same case and number of nodes at
    -- any later time returns that entry and leaves the cache; what was cached before is still there;
    -- and a cache of entries whose trees are over their graphs' evidence stays one.
    pub get_or_build_graph-cached :
        ((later : ℕ) → get_or_build_graph case_id override later after ≡ some (entry, after))
        × ((key : String) (other : GraphCacheEntry)
            → get cache key ≡ some other
            → get after key ≡ some other)
        × (IsCache cache → IsCache after × IsBuilt entry)
    unfolding get_or_build_graph
    get_or_build_graph-cached =
        let key = cache_key case_id override in
        (
          λ later. rw (get_or_build_graph, Added-get cache key entry after added) refl,
          Added-kept cache key entry after added,
          Added-IsCache cache key entry after added,
        )

  -- Every piece of evidence of a built entry's edges has a proof, with the root of the entry's tree,
  -- that checks.
  pub prove_in_graph-checks :
      (entry : GraphCacheEntry) (id : String)
      → IsBuilt entry
      → In id (edge_evidence entry.graph.edges)
      → (proof : InclusionProof) × (prove_in_graph entry id ≡ some proof)
        × (proof.root ≡ entry.tree.root)
        × (verify_inclusion id proof ≡ true)
  unfolding prove_in_graph
  prove_in_graph-checks entry id b m =
      let inside : In id entry.evidence_ids = rw b.evidence (
        In-sort_by text_after id (unique [] (edge_evidence entry.graph.edges))
          (In-unique id (edge_evidence entry.graph.edges) [] (unfold has in refl) m)) in
      let (i, at, here) = find_index-In id entry.evidence_ids inside in
      let (tree, proof, built', made, root, checks) =
        verify_inclusion-prove_inclusion entry.evidence_ids i id here in
      let same : tree ≡ entry.tree = some_inj (sym built' ∙ b.built) in
      (proof, rw (at, ← same) made, root ∙ ap (λ (t : MerkleTree). t.root) same, checks)
