-- ===== src/Canvas/Layout.antt =====
-- web/src/components/investigation-canvas/layout.ts: the nodes in columns by the time that they were
-- first seen, and in rows by their ids.
use attesta_ai_powered_soc.Prelude.{
  ℕ, ◌+◌, ◌-◌, ◌*◌, min, max, Bool, List, [], ◌∷◌, ◌++◌, ◌==◌, if◌then◌else◌,
}
use attesta_ai_powered_soc.Prelude.Assoc.{Assoc, nat_eq}
use attesta_ai_powered_soc.Prelude.Sort.{sort_by, text_after}
use attesta_ai_powered_soc.Types.{GraphNode}

-- `Math.floor((part / whole) * count)` in doubles
pub record Ratios : Type 0 where
  pub floor_ratio : ℕ → ℕ → ℕ → ℕ

abbrev pub column_width : ℕ
column_width = 160

abbrev pub row_height : ℕ
row_height = 28

pub record LaidOutNode : Type 0 where
  pub node : GraphNode
  pub open node use *
  pub x : ℕ
  pub y : ℕ
  pub column : ℕ

unfoldable pub least : ℕ → List GraphNode → ℕ
least ms [] = ms
least ms (n ∷ ns) = least (min ms n.first_seen_ms) ns

unfoldable pub greatest : ℕ → List GraphNode → ℕ
greatest ms [] = ms
greatest ms (n ∷ ns) = greatest (max ms n.first_seen_ms) ns

abbrev pub Columns : Type 0
Columns = Assoc ℕ (List GraphNode)

-- `byColumn.get(column)!.push(n)`, after an empty array where there is none
unfoldable pub push_node : Columns → ℕ → GraphNode → Columns
push_node [] column n = (column, n ∷ []) ∷ []
push_node ((c, ns) ∷ rest) column n =
    if c == column then (c, ns ++ n ∷ []) ∷ rest else (c, ns) ∷ push_node rest column n

abbrev pub node_after : GraphNode → GraphNode → Bool
node_after a b = text_after a.id b.id

-- the rows of a column from `row` on
unfoldable pub lay_rows : ℕ → ℕ → List GraphNode → List LaidOutNode
lay_rows column row [] = []
lay_rows column row (n ∷ ns) =
    record { node = n; x = column * column_width; y = row * row_height; column = column }
    ∷ lay_rows column (row + 1) ns

unfoldable pub lay_columns : Columns → List LaidOutNode
unfolding lay_rows
lay_columns [] = []
lay_columns ((column, ns) ∷ rest) = lay_rows column 0 (sort_by node_after ns) ++ lay_columns rest

module _ ⦃rt : Ratios⦄ where
  abbrev pub column_of : ℕ → ℕ → ℕ → GraphNode → ℕ
  column_of min_ms span count n =
      min (count - 1) (rt.floor_ratio (n.first_seen_ms - min_ms) span count)

  unfoldable pub bucket : ℕ → ℕ → ℕ → List GraphNode → Columns → Columns
  unfolding push_node
  bucket min_ms span count [] columns = columns
  bucket min_ms span count (n ∷ ns) columns =
      bucket min_ms span count ns (push_node columns (column_of min_ms span count n) n)

  -- `layoutNodes`, for at least one column
  unfoldable pub layout_nodes : List GraphNode → ℕ → List LaidOutNode
  unfolding bucket lay_columns least greatest
  layout_nodes [] count = []
  layout_nodes (n ∷ ns) count =
      let min_ms = least n.first_seen_ms ns in
      let span = max 1 (greatest n.first_seen_ms ns - min_ms) in
      lay_columns (bucket min_ms span count (n ∷ ns) [])
