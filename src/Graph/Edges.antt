-- ===== src/Graph/Edges.antt =====
-- `generateGraph` of web/src/lib/data/graph.ts returns, and its edges are between its nodes.
use attesta_ai_powered_soc.Prelude.{
  ℕ, zero, suc, ◌+◌, ◌-◌, ◌*◌, ◌^◌, ◌≤◌, ◌<◌, ◌≡◌, ◌≢◌, refl, String, str_eq, str_eq-refl, false,
  Option, some, List, [], ◌∷◌, length, max, In, All, Bool-cases, inl, inr, arith,
}
use attesta_ai_powered_soc.Types
use attesta_ai_powered_soc.Types.{Tactic, GraphNode, GraphEdge}
use attesta_ai_powered_soc.Rng.{Rand, new_rng}
use attesta_ai_powered_soc.Rng.Fractions.{Doubles}
use attesta_ai_powered_soc.Rng.Sample.{Stays, Stays-le}
use attesta_ai_powered_soc.Rng.Runs.{
  Runs, Runs-pure, Runs-bind, Runs-weaken, Runs-next, Runs-bool, Runs-int, Runs-pick,
  Runs-array_from,
}
use attesta_ai_powered_soc.Seed.Timeline.{predicates_by_tactic}
use attesta_ai_powered_soc.Seed.Events.{hex_text-Runs, predicates_some}
use attesta_ai_powered_soc.Ledger.Claims.{evidence_id}
use attesta_ai_powered_soc.Ledger.Drawn.{Anything, evidence_id-Runs, optional-Runs}
use attesta_ai_powered_soc.Graph.{
  Graph, type_at, hash_seed, node_count_of, edge_count_of, span_ms, node_id, draw_node, nodes_loop,
  draw_edge, edge_between, edges_loop, draw_graph, generate_graph,
}

-- The node at place `i`: named by its place, and first seen in the five days before `now_ms`.
pub record IsNodeAt (case_id : String) (now_ms i : ℕ) (n : GraphNode) : Type 0 where
  pub named : n.id ≡ node_id case_id i
  pub typed : n.type ≡ type_at i
  pub begun : now_ms - span_ms ≤ n.first_seen_ms
  pub ended : n.first_seen_ms ≤ now_ms - span_ms + span_ms
  pub seen_before : n.prior_case_count ≤ 6

abbrev pub AreNodes : String → ℕ → ℕ → List GraphNode → Type 0
AreNodes case_id now_ms i [] = Unit
AreNodes case_id now_ms i (n ∷ ns) =
    IsNodeAt case_id now_ms i n × AreNodes case_id now_ms (i + 1) ns

-- An edge between two nodes of different ids, from when both have been seen, with evidence.
pub record IsEdgeOf (nodes : List GraphNode) (e : GraphEdge) : Type 0 where
  pub from_node : GraphNode
  pub to_node : GraphNode
  pub from_member : In from_node nodes
  pub to_member : In to_node nodes
  pub from_id : e.from_node_id ≡ from_node.id
  pub to_id : e.to_node_id ≡ to_node.id
  pub no_loop : e.from_node_id ≢ e.to_node_id
  pub tactic : Tactic
  pub predicate : In e.predicate (predicates_by_tactic tactic)
  pub begun : e.interval_start_ms ≡ max from_node.first_seen_ms to_node.first_seen_ms
  pub ended : e.interval_start_ms < e.interval_end_ms
  pub some_evidence : 1 ≤ length e.evidence_ids
  pub few_evidence : length e.evidence_ids ≤ 3
  pub confident : (1000 ≤ e.confidence) × (e.confidence ≤ 9500)

module _ ⦃fp : Doubles⦄ where
  draw_node-Runs :
      (case_id : String) (now i : ℕ) → Runs 2 (IsNodeAt case_id now i) (draw_node case_id now i)
  unfolding draw_node
  draw_node-Runs case_id now i = Runs-bind 1 1 _ _ Runs-next λ u below.
      Runs-bind 1 0 _ _ (Runs-int 0 6 (omega arith) (omega arith)) λ prior (_, few).
        Runs-pure _ (record {
          named = refl;
          typed = refl;
          begun = omega arith;
          ended = omega (arith, fp.skew_scaled-le u span_ms (omega arith) (omega arith));
          seen_before = few;
        })

  nodes_loop-Runs :
      (case_id : String) (now left i : ℕ)
      → Runs
          (2 * left)
          (λ ns. AreNodes case_id now i ns × (length ns ≡ left))
          (nodes_loop case_id now left i)
  unfolding nodes_loop
  nodes_loop-Runs case_id now zero i =
      Runs-weaken 0 (2 * zero) _ (omega arith) (λ _ p. p) (Runs-pure [] (tt, refl))
  nodes_loop-Runs case_id now (suc left) i =
      Runs-weaken (2 + (2 * left + 0)) (2 * suc left) _ (omega arith) (λ _ p. p)
        (Runs-bind 2 (2 * left + 0) _ _ (draw_node-Runs case_id now i) λ n hn.
          Runs-bind (2 * left) 0 _ _ (nodes_loop-Runs case_id now left (i + 1))
            λ ns (h, len). Runs-pure (n ∷ ns) ((hn, h), omega arith))

  module _ (case_id : String) (nodes : List GraphNode) where
    draw_edge-Runs :
        (i : ℕ) (a b : GraphNode)
        → In a nodes
        → In b nodes
        → str_eq a.id b.id ≡ false
        → Runs 65 (IsEdgeOf nodes) (draw_edge case_id i a b)
    unfolding draw_edge
    draw_edge-Runs i a b ma mb apart =
        Runs-bind 1 64 _ _ (Runs-pick Types.tactics (omega arith) (omega arith)) λ t _.
          Runs-bind 1 63 _ _ (Runs-int 1 3 (omega arith) (omega arith)) λ n (n1, n3).
            Runs-bind 48 15 _ _
              (Runs-weaken (n * 16) 48 _ (omega arith) (λ _ p. p)
                (Runs-array_from n 16 evidence_id evidence_id-Runs))
              λ evidence (len, _). Runs-bind 8 7 _ _ (hex_text-Runs 8) λ suffix _.
                Runs-bind 1 6 _ _
                  (Runs-pick (predicates_by_tactic t) (predicates_some t).0 (predicates_some t).1)
                  λ predicate pm. Runs-bind 1 5 _ _ (Runs-bool 9 10) λ supporting _.
                    Runs-bind 1 4 _ _ (Runs-int 1 4000 (omega arith) (omega arith))
                      λ span (some_span, _).
                        Runs-bind 1 3 _ _
                          (Runs-pick (predicates_by_tactic t) (predicates_some t).0
                            (predicates_some t).1)
                          λ extractor _.
                            Runs-bind 1 2 _ _ (Runs-int 1000 9500 (omega arith) (omega arith))
                              λ confidence bounds. Runs-bind 1 1 _ _ (Runs-bool 15 100) λ grouped _.
                                Runs-bind 1 0 _ _
                                  (optional-Runs grouped _ (
                                    Runs-bind 1 0 _ _ (Runs-int 1 3 (omega arith) (omega arith))
                                      λ n _. Runs-pure {P = Anything} _ tt))
                                  λ hypothesis _. Runs-pure _ (record {
                                    from_node = a;
                                    to_node = b;
                                    from_member = ma;
                                    to_member = mb;
                                    from_id = refl;
                                    to_id = refl;
                                    no_loop = different a.id b.id apart;
                                    tactic = t;
                                    predicate = pm;
                                    begun = refl;
                                    ended = omega arith;
                                    some_evidence = omega arith;
                                    few_evidence = omega arith;
                                    confident = bounds;
                                  })
      where
        different : (s t : String) → str_eq s t ≡ false → s ≢ t
        different s t e same = let gone = rw (same, str_eq-refl t) at e in absurd (cc)

    edge_between-Runs :
        (n i : ℕ) (a b : GraphNode) (more : Rand (List GraphEdge))
        → In a nodes
        → In b nodes
        → Runs (67 * n) (λ es. All (IsEdgeOf nodes) es × (length es ≤ n)) more
        → Runs
            (65 + 67 * n)
            (λ es. All (IsEdgeOf nodes) es × (length es ≤ suc n))
            (edge_between case_id i a b more)
    unfolding edge_between
    edge_between-Runs n i a b more ma mb h = elim (Bool-cases (str_eq a.id b.id)) [
      | inl e ↦ rw e (
          Runs-weaken (67 * n) (65 + 67 * n) more (omega arith)
            (λ es (all, few). (all, omega arith)) h)
      | inr e ↦ rw e (
          Runs-weaken (65 + (67 * n + 0)) (65 + 67 * n) _ (omega arith) (λ _ p. p)
            (Runs-bind 65 (67 * n + 0) _ _ (draw_edge-Runs i a b ma mb e) λ edge he.
              Runs-bind (67 * n) 0 _ _ h
                λ rest (all, few). Runs-pure (edge ∷ rest) ((he, all), omega arith)))
    ]

    edges_loop-Runs :
        (left i : ℕ)
        → (0 < left → 0 < length nodes)
        → length nodes < 2 ^ 53
        → Runs
            (67 * left)
            (λ es. All (IsEdgeOf nodes) es × (length es ≤ left))
            (edges_loop case_id nodes left i)
    unfolding edges_loop
    edges_loop-Runs zero i some_nodes q =
        Runs-weaken 0 (67 * zero) _ (omega arith) (λ _ p. p) (Runs-pure [] (tt, omega arith))
    edges_loop-Runs (suc left) i some_nodes q =
        let enough = some_nodes (omega arith) in
        Runs-weaken (1 + (1 + (65 + 67 * left))) (67 * suc left) _ (omega arith) (λ _ p. p)
          (Runs-bind 1 (1 + (65 + 67 * left)) _ _ (Runs-pick nodes enough q) λ a ma.
            Runs-bind 1 (65 + 67 * left) _ _ (Runs-pick nodes enough q) λ b mb.
              edge_between-Runs left i a b _ ma mb (edges_loop-Runs left (i + 1) (λ _. enough) q))

  draw_graph-Runs :
      (case_id : String) (now n : ℕ)
      → n < 2 ^ 53
      → Runs
          (2 * n + 67 * edge_count_of n)
          (λ g.
            AreNodes case_id now 0 g.nodes
            × (length g.nodes ≡ n)
            × All (IsEdgeOf g.nodes) g.edges
            × (length g.edges ≤ edge_count_of n))
          (draw_graph case_id now n)
  unfolding draw_graph
  draw_graph-Runs case_id now n small =
      let m = edge_count_of n in
      Runs-weaken (2 * n + (67 * m + 0)) (2 * n + 67 * m) _ (omega arith) (λ _ p. p)
        (Runs-bind (2 * n) (67 * m + 0) _ _ (nodes_loop-Runs case_id now n 0) λ nodes (hn, len).
          Runs-bind (67 * m) 0 _ _
            (edges_loop-Runs case_id nodes m 0 (λ rounds. omega (arith, len, rounds))
              (omega (arith, len)))
            λ edges (he, few). Runs-pure _ (hn, len, he, few))

  -- While the outputs that it may draw stay below 0xffffffff, `generateGraph` returns for every number
  -- of nodes below 2^53: that many nodes, each with its place's name and type and first seen in the
  -- last five days, and at most 1.3 times as many edges, rounded. Every edge is between two nodes of
  -- the graph with different ids, begins when both have been seen, ends later, and has from one to
  -- three pieces of evidence.
  pub generate_graph-returns :
      (case_id : String) (override : Option ℕ) (now : ℕ)
      → let n = node_count_of (hash_seed case_id) override in
        n < 2 ^ 53
        → Stays (2 * n + 67 * edge_count_of n) (new_rng (hash_seed case_id))
        → (g : Graph) × (generate_graph case_id override now ≡ some g)
          × AreNodes case_id now 0 g.nodes
          × (length g.nodes ≡ n)
          × All (IsEdgeOf g.nodes) g.edges
          × (length g.edges ≤ edge_count_of n)
  unfolding generate_graph
  generate_graph-returns case_id override now small h =
      let n = node_count_of (hash_seed case_id) override in
      let total = 2 * n + 67 * edge_count_of n in
      let (g, r', e, (hn, len, he, few), _) =
        (draw_graph-Runs case_id now n small).run 0 (new_rng (hash_seed case_id))
          (Stays-le (total + 0) total (new_rng (hash_seed case_id)) (omega arith) h) in
      (g, rw e refl, hn, len, he, few)
