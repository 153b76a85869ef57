-- ===== src/Canvas/Grid.antt =====
-- The layout of web/src/components/investigation-canvas/layout.ts loses no node and stays on its grid.
use mathlib.Core.List.{Perm, perm_append_singleton, perm_middle, append-nil}
use mathlib.Core.List.Perm
use attesta_ai_powered_soc.Prelude.{
  ℕ, ◌+◌, ◌-◌, ◌*◌, ◌<◌, ◌≡◌, refl, ap, subst, max, List, [], ◌∷◌, ◌++◌, map, All, ◌==◌, Bool-cases,
  inl, inr, arith,
}
use attesta_ai_powered_soc.Prelude.Sort.{sort_by, sort_by-perm}
use attesta_ai_powered_soc.Types.{GraphNode}
use attesta_ai_powered_soc.Canvas.Layout.{
  Ratios, column_width, row_height, LaidOutNode, least, greatest, Columns, push_node, node_after,
  lay_rows, lay_columns, column_of, bucket, layout_nodes,
}

abbrev pub nodes_of : List LaidOutNode → List GraphNode
nodes_of ls = map (λ (l : LaidOutNode). l.node) ls

abbrev pub column_nodes : Columns → List GraphNode
column_nodes [] = []
column_nodes ((c, ns) ∷ rest) = ns ++ column_nodes rest

abbrev pub IsGridded : ℕ → LaidOutNode → Type 0
IsGridded count l =
    (l.column < count) × (l.x ≡ l.column * column_width) × ((row : ℕ) × (l.y ≡ row * row_height))

map-append : (xs ys : List LaidOutNode) → nodes_of (xs ++ ys) ≡ nodes_of xs ++ nodes_of ys
map-append [] ys = refl
map-append (x ∷ xs) ys = ap (λ ns. x.node ∷ ns) (map-append xs ys)

nodes_of-lay_rows : (column row : ℕ) (ns : List GraphNode) → nodes_of (lay_rows column row ns) ≡ ns
unfolding lay_rows
nodes_of-lay_rows column row [] = refl
nodes_of-lay_rows column row (n ∷ ns) = ap (λ ms. n ∷ ms) (nodes_of-lay_rows column (row + 1) ns)

-- Pushing a node adds it to the columns' nodes.
push_node-perm :
    (columns : Columns) (column : ℕ) (n : GraphNode)
    → Perm (column_nodes (push_node columns column n)) (n ∷ column_nodes columns)
unfolding push_node
push_node-perm [] column n = Perm.refl _
push_node-perm ((c, ns) ∷ rest) column n = elim (Bool-cases (c == column)) [
  | inl e ↦ rw e (Perm.append_right (column_nodes rest) (perm_append_singleton n ns))
  | inr e ↦ rw e (
      Perm.trans (Perm.append_left ns (push_node-perm rest column n))
        (perm_middle ns (column_nodes rest)))
]

-- Where the columns below `count` stay below it.
abbrev AreColumns : ℕ → Columns → Type 0
AreColumns count [] = Unit
AreColumns count ((c, ns) ∷ rest) = (c < count) × AreColumns count rest

push_node-AreColumns :
    (count : ℕ) (columns : Columns) (column : ℕ) (n : GraphNode)
    → column < count
    → AreColumns count columns
    → AreColumns count (push_node columns column n)
unfolding push_node
push_node-AreColumns count [] column n lt h = (lt, tt)
push_node-AreColumns count ((c, ns) ∷ rest) column n lt (hc, h) = elim (Bool-cases (c == column)) [
  | inl e ↦ rw e (hc, h)
  | inr e ↦ rw e (hc, push_node-AreColumns count rest column n lt h)
]

All-append :
    (P : LaidOutNode → Type 0) (xs ys : List LaidOutNode) → All P xs → All P ys → All P (xs ++ ys)
All-append P [] ys h g = g
All-append P (x ∷ xs) ys (hx, h) g = (hx, All-append P xs ys h g)

lay_rows-IsGridded :
    (count column row : ℕ) (ns : List GraphNode)
    → column < count
    → All (IsGridded count) (lay_rows column row ns)
unfolding lay_rows
lay_rows-IsGridded count column row [] lt = tt
lay_rows-IsGridded count column row (n ∷ ns) lt =
    ((lt, refl, (row, refl)), lay_rows-IsGridded count column (row + 1) ns lt)

lay_columns-IsGridded :
    (count : ℕ) (columns : Columns)
    → AreColumns count columns
    → All (IsGridded count) (lay_columns columns)
unfolding lay_columns
lay_columns-IsGridded count [] h = tt
lay_columns-IsGridded count ((column, ns) ∷ rest) (lt, h) =
    All-append (IsGridded count) (lay_rows column 0 (sort_by node_after ns)) (lay_columns rest)
      (lay_rows-IsGridded count column 0 (sort_by node_after ns) lt)
      (lay_columns-IsGridded count rest h)

nodes_of-lay_columns :
    (columns : Columns) → Perm (nodes_of (lay_columns columns)) (column_nodes columns)
unfolding lay_columns
nodes_of-lay_columns [] = Perm.refl []
nodes_of-lay_columns ((column, ns) ∷ rest) =
    rw
      (
        map-append (lay_rows column 0 (sort_by node_after ns)) (lay_columns rest),
        nodes_of-lay_rows column 0 (sort_by node_after ns),
      )
      (Perm.append (sort_by-perm node_after ns) (nodes_of-lay_columns rest))

module _ ⦃rt : Ratios⦄ (min_ms span count : ℕ) where
  bucket-perm :
      (ns : List GraphNode) (columns : Columns)
      → Perm (column_nodes (bucket min_ms span count ns columns)) (ns ++ column_nodes columns)
  unfolding bucket
  bucket-perm [] columns = Perm.refl _
  bucket-perm (n ∷ ns) columns =
      let column = column_of min_ms span count n in
      Perm.trans (bucket-perm ns (push_node columns column n)) (
        Perm.trans (Perm.append_left ns (push_node-perm columns column n))
          (perm_middle ns (column_nodes columns)))

  bucket-AreColumns :
      (ns : List GraphNode) (columns : Columns)
      → 0 < count
      → AreColumns count columns
      → AreColumns count (bucket min_ms span count ns columns)
  unfolding bucket
  bucket-AreColumns [] columns some_column h = h
  bucket-AreColumns (n ∷ ns) columns some_column h =
      let column = column_of min_ms span count n in
      bucket-AreColumns ns (push_node columns column n) some_column
        (push_node-AreColumns count columns column n (omega arith) h)

-- For at least one column, the layout has every node exactly once, in a column below the number of
-- columns, at that column's place across and at a row's place down.
pub layout_nodes-perm :
    ⦃rt : Ratios⦄ (nodes : List GraphNode) (count : ℕ)
    → 0 < count
    → Perm (nodes_of (layout_nodes nodes count)) nodes
      × All (IsGridded count) (layout_nodes nodes count)
unfolding layout_nodes
layout_nodes-perm [] count h = (Perm.refl [], tt)
layout_nodes-perm (n ∷ ns) count h =
    let min_ms = least n.first_seen_ms ns in
    let span = max 1 (greatest n.first_seen_ms ns - min_ms) in
    let columns = bucket min_ms span count (n ∷ ns) [] in
    (
      Perm.trans (nodes_of-lay_columns columns) (
          subst (Perm (column_nodes columns)) (append-nil (n ∷ ns))
            (bucket-perm min_ms span count (n ∷ ns) [])),
      lay_columns-IsGridded count columns (bucket-AreColumns min_ms span count (n ∷ ns) [] h tt),
    )
