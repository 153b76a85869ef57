-- ===== src/Graph/Cache.antt =====
-- The cache of graphs of web/src/lib/data/graph.ts and the inclusion proofs of their evidence. `none`
-- is an exception, and inside a result `null`.
use attesta_ai_powered_soc.Prelude.{
  ℕ, String, str_eq, Option, none, some, List, [], ◌∷◌, ◌++◌, find_index,
}
use attesta_ai_powered_soc.Prelude.Assoc.{Assoc, get, set, string_eq}
use attesta_ai_powered_soc.Prelude.Sort.{sort_by, text_after}
use attesta_ai_powered_soc.Prelude.Text.{◌<>◌, decimal}
use attesta_ai_powered_soc.Types.{GraphEdge}
use attesta_ai_powered_soc.Rng.Fractions.{Doubles}
use attesta_ai_powered_soc.Merkle.{
  Hashing, MerkleTree, InclusionProof, build_merkle_tree, prove_inclusion,
}
use attesta_ai_powered_soc.Verification.{unique}
use attesta_ai_powered_soc.Graph.{Graph, generate_graph}

pub record GraphCacheEntry : Type 0 where
  pub graph : Graph
  pub tree : MerkleTree
  pub evidence_ids : List String

abbrev pub edge_evidence : List GraphEdge → List String
edge_evidence [] = []
edge_evidence (e ∷ es) = e.evidence_ids ++ edge_evidence es

abbrev pub graph_evidence : Graph → List String
graph_evidence g = sort_by text_after (unique [] (edge_evidence g.edges))

abbrev override_text : Option ℕ → String
override_text none = "auto"
override_text (some n) = decimal n

unfoldable pub cache_key : String → Option ℕ → String
cache_key case_id override = case_id <> ":" <> override_text override

abbrev pub Cache : Type 0
Cache = Assoc String GraphCacheEntry

module _ ⦃hs : Hashing⦄ where
  abbrev pub entry_of : Graph → Option MerkleTree → Option GraphCacheEntry
  entry_of g none = none
  entry_of g (some tree) = some (record { graph = g; tree = tree; evidence_ids = graph_evidence g })

  -- An entry for a graph that was generated, if its evidence has a tree.
  unfoldable pub build_entry : Option Graph → Option GraphCacheEntry
  build_entry none = none
  build_entry (some g) = entry_of g (build_merkle_tree (graph_evidence g))

  abbrev pub stored : Cache → String → Option GraphCacheEntry → Option (GraphCacheEntry × Cache)
  stored cache key none = none
  stored cache key (some entry) = some (entry, set cache key entry)

module _ ⦃fp : Doubles⦄ ⦃hs : Hashing⦄ where
  unfoldable pub get_or_build_graph :
      String → Option ℕ → ℕ → Cache → Option (GraphCacheEntry × Cache)
  unfolding build_entry
  get_or_build_graph case_id override now_ms cache = elim (get cache (cache_key case_id override)) [
    | some entry ↦ some (entry, cache)
    | none ↦
        stored cache (cache_key case_id override)
          (build_entry (generate_graph case_id override now_ms))
  ]

abbrev proof_in : GraphCacheEntry → Option ℕ → Option InclusionProof
proof_in entry none = none
proof_in entry (some i) = prove_inclusion entry.tree i

-- The answer for an entry; `none` is `null`.
unfoldable pub prove_in_graph : GraphCacheEntry → String → Option InclusionProof
prove_in_graph entry evidence_id =
    proof_in entry (find_index (str_eq evidence_id) entry.evidence_ids)

module _ ⦃fp : Doubles⦄ ⦃hs : Hashing⦄ where
  -- `proveGraphEvidenceInclusion`, with the cache after it
  unfoldable pub prove_graph_evidence_inclusion :
      String → Option ℕ → String → ℕ → Cache → Option (Option InclusionProof × Cache)
  unfolding get_or_build_graph prove_in_graph
  prove_graph_evidence_inclusion case_id override evidence_id now_ms cache =
      elim (get_or_build_graph case_id override now_ms cache) [
        | none ↦ none
        | some (entry, after) ↦ some (prove_in_graph entry evidence_id, after)
      ]
