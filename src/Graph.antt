-- ===== src/Graph.antt =====
-- web/src/lib/data/graph.ts: the synthetic evidence graph of a case, the cache of graphs, and the
-- inclusion proofs of their evidence. `none` is an exception or a read of `undefined`.
pub mod Edges
pub mod Cache
pub mod Proofs
use Prim.Native.Char.{code}
use Prim.Native.String.{[] as empty, ◌∷◌ as text_cons}
use attesta_ai_powered_soc.Prelude.{
  ℕ, zero, suc, ◌+◌, ◌-◌, ◌*◌, ◌/◌, ◌%◌, ◌^◌, min, max, String, str_eq, Bool, true, false, Option,
  none, some, List, [], ◌∷◌, ◌++◌, length, find_index, ltb, if◌then◌else◌,
}
use attesta_ai_powered_soc.Prelude.Assoc.{Assoc, get, set, string_eq}
use attesta_ai_powered_soc.Prelude.Sort.{sort_by, text_after}
use attesta_ai_powered_soc.Prelude.Text.{◌<>◌, decimal, to_lower}
use attesta_ai_powered_soc.Types
use attesta_ai_powered_soc.Types.{
  Tactic, tactic_text, EntityType, host, user, process, ip, file, session, GraphNode, GraphEdge,
  supports, refutes,
}
use attesta_ai_powered_soc.Rng.{
  Xorshift32, Rand, ◌>>=◌, pure, new_rng, next_rand, bool, int, pick, array_from,
}
use attesta_ai_powered_soc.Rng.Fractions.{Doubles}
use attesta_ai_powered_soc.Merkle.{
  Hashing, MerkleTree, InclusionProof, build_merkle_tree, prove_inclusion,
}
use attesta_ai_powered_soc.Seed.Timeline.{predicates_by_tactic, hex_text}
use attesta_ai_powered_soc.Verification.{unique}
use attesta_ai_powered_soc.Ledger.Claims.{evidence_id, optional}

-- `ENTITY_TYPES[i % ENTITY_TYPES.length]`
unfoldable pub type_at : ℕ → EntityType
type_at zero = host
type_at (suc zero) = user
type_at (suc (suc zero)) = process
type_at (suc (suc (suc zero))) = ip
type_at (suc (suc (suc (suc zero)))) = file
type_at (suc (suc (suc (suc (suc zero))))) = session
type_at (suc (suc (suc (suc (suc (suc i)))))) = type_at i

abbrev pub entity_prefix : EntityType → String
entity_prefix host = "host"
entity_prefix user = "user"
entity_prefix process = "proc"
entity_prefix ip = "ip"
entity_prefix file = "file"
entity_prefix session = "sess"

-- `h = (Math.imul(h, 31) + s.charCodeAt(i)) | 0`, on the 32-bit patterns of ASCII texts
unfoldable pub hash_seed_from : ℕ → String → ℕ
hash_seed_from h empty = h
hash_seed_from h (text_cons c s) = hash_seed_from ((h * 31 + code c) % 2 ^ 32) s

unfoldable pub hash_seed : String → ℕ
unfolding hash_seed_from
hash_seed s = hash_seed_from 0 s

-- `Math.abs` of the signed number with a 32-bit pattern
abbrev pub abs_int32 : ℕ → ℕ
abs_int32 pattern = if ltb pattern (2 ^ 31) then pattern else 2 ^ 32 - pattern

pub record Graph : Type 0 where
  pub case_id : String
  pub nodes : List GraphNode
  pub edges : List GraphEdge
  pub column_count : ℕ

-- `override ?? Math.min(10_000, Math.max(300, Math.abs(seed) % 12_000))`
unfoldable pub node_count_of : ℕ → Option ℕ → ℕ
node_count_of seed (some n) = n
node_count_of seed none = min 10_000 (max 300 (abs_int32 seed % 12_000))

-- `Math.round(nodeCount * 1.3)`: a product that is no tie is a tenth away from one.
abbrev pub edge_count_of : ℕ → ℕ
edge_count_of node_count = (13 * node_count + 5) / 10

-- five days
abbrev pub span_ms : ℕ
span_ms = 432_000_000

abbrev pub node_id : String → ℕ → String
node_id case_id i = entity_prefix (type_at i) <> "-" <> case_id <> "-" <> decimal i

module _ ⦃fp : Doubles⦄ where
  unfoldable pub draw_node : String → ℕ → ℕ → Rand GraphNode
  unfolding type_at
  draw_node case_id now_ms i = do
    u ← next_rand
    prior ← int 0 6
    pure (record {
      id = node_id case_id i;
      type = type_at i;
      label = node_id case_id i;
      first_seen_ms = now_ms - span_ms + fp.skew_scaled u span_ms;
      prior_case_count = prior;
    })

  -- the nodes from `i` on
  unfoldable pub nodes_loop : String → ℕ → ℕ → ℕ → Rand (List GraphNode)
  unfolding draw_node
  nodes_loop case_id now_ms zero i = pure []
  nodes_loop case_id now_ms (suc left) i = do
    node ← draw_node case_id now_ms i
    rest ← nodes_loop case_id now_ms left (i + 1)
    pure (node ∷ rest)

  abbrev group : ℕ → String
  group n = "hyp-" <> decimal n

  -- The literal of an edge, between two nodes; `i` is the round.
  unfoldable pub draw_edge : String → ℕ → GraphNode → GraphNode → Rand GraphEdge
  draw_edge case_id i from_node to_node = do
    tactic ← pick Types.tactics
    let predicates = predicates_by_tactic tactic
    let start_ms = max from_node.first_seen_ms to_node.first_seen_ms
    evidence_count ← int 1 3
    evidence ← array_from evidence_count evidence_id
    suffix ← hex_text 8
    predicate ← pick predicates
    supporting ← bool 9 10
    span ← int 1 4000
    extractor ← pick predicates
    confidence ← int 1000 9500
    grouped ← bool 15 100
    hypothesis ← optional grouped (do n ← int 1 3; pure (group n))
    pure (record {
      id = case_id <> "-claim-" <> decimal i <> "-" <> suffix;
      from_node_id = from_node.id;
      to_node_id = to_node.id;
      predicate = predicate;
      polarity = if supporting then supports else refutes;
      interval_start_ms = start_ms;
      interval_end_ms = start_ms + span;
      extractor_kind = "rule";
      extractor_id = "cdl." <> tactic_text tactic <> "." <> to_lower extractor;
      extractor_version = "1";
      confidence = confidence;
      evidence_ids = evidence;
      hypothesis_group = hypothesis;
    })

  -- A round between two nodes, before the edges of the rest; a self-loop is skipped.
  unfoldable pub edge_between :
      String → ℕ → GraphNode → GraphNode → Rand (List GraphEdge) → Rand (List GraphEdge)
  unfolding draw_edge
  edge_between case_id i from_node to_node more =
      if str_eq from_node.id to_node.id
      then more
      else (do edge ← draw_edge case_id i from_node to_node; rest ← more; pure (edge ∷ rest))

  -- the loop over the edges, on the rounds left
  unfoldable pub edges_loop : String → List GraphNode → ℕ → ℕ → Rand (List GraphEdge)
  unfolding edge_between
  edges_loop case_id nodes zero i = pure []
  edges_loop case_id nodes (suc left) i = do
    from_node ← pick nodes
    to_node ← pick nodes
    edge_between case_id i from_node to_node (edges_loop case_id nodes left (i + 1))

  unfoldable pub draw_graph : String → ℕ → ℕ → Rand Graph
  unfolding nodes_loop edges_loop
  draw_graph case_id now_ms node_count = do
    nodes ← nodes_loop case_id now_ms node_count 0
    edges ← edges_loop case_id nodes (edge_count_of node_count) 0
    pure (record { case_id = case_id; nodes = nodes; edges = edges; column_count = 40 })

  abbrev drawn : Option (Graph × Xorshift32) → Option Graph
  drawn none = none
  drawn (some (g, r)) = some g

  -- `nodesByType` is filled there and never read.
  unfoldable pub generate_graph : String → Option ℕ → ℕ → Option Graph
  unfolding draw_graph hash_seed node_count_of
  generate_graph case_id override now_ms =
      let seed = hash_seed case_id in
      drawn (draw_graph case_id now_ms (node_count_of seed override) (new_rng seed))
