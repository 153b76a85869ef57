-- ===== src/Canvas/Selection.antt =====
-- The selection of web/src/components/investigation-canvas: the state and the callbacks of
-- investigation-canvas-client.tsx, and the pointer of graph-canvas.tsx that calls them. What a click
-- hits (the quadtree's and the edges' hit tests) is given with it.
use attesta_ai_powered_soc.Prelude.{
  String, Bool, true, false, ◌||◌, Option, none, some, List, [], ◌∷◌,
}
use attesta_ai_powered_soc.Types.{GraphEdge}

pub record Selection : Type 0 where
  pub node_id : Option String
  pub edge : Option GraphEdge

abbrev pub no_selection : Selection
no_selection = record { node_id = none; edge = none }

-- `onSelectNode`; an empty id clears no edge, as null does not
abbrev pub on_select_node : Option String → Selection → Selection
on_select_node none s = record s { node_id = none }
on_select_node (some id) s = record { node_id = some id; edge = none }

-- `onSelectEdge`
abbrev pub on_select_edge : Option GraphEdge → Selection → Selection
on_select_edge none s = record s { edge = none }
on_select_edge (some e) s = record { node_id = none; edge = some e }

-- What stands at the place of a click: a node near it, else an edge near it, if any.
pub record Hit : Type 0 where
  pub node : Option String
  pub edge : Option GraphEdge

abbrev pub on_miss : Option GraphEdge → Selection → Selection
on_miss none s = on_select_edge none (on_select_node none s)
on_miss (some e) s = on_select_node none (on_select_edge (some e) s)

abbrev pub on_click : Hit → Selection → Selection
on_click hit s = elim hit.node [
  | some id ↦ on_select_edge none (on_select_node (some id) s)
  | none ↦ on_miss hit.edge s
]

-- the pointer's moves, by whether a move is of more than two pixels from where it went down
pub data Pointer : Type 0 where
  down : Pointer
  move : Bool → Pointer
  lift : Hit → Pointer

-- `dragState.current` is `none`, or whether the pointer was dragged.
pub record Canvas : Type 0 where
  pub drag : Option Bool
  pub selection : Selection

abbrev pub after_move : Bool → Option Bool → Option Bool
after_move far none = none
after_move far (some dragged) = some (dragged || far)

abbrev pub after_lift : Hit → Option Bool → Selection → Selection
after_lift hit none s = s
after_lift hit (some true) s = s
after_lift hit (some false) s = on_click hit s

unfoldable pub on_pointer : Pointer → Canvas → Canvas
on_pointer down c = record c { drag = some false }
on_pointer (move far) c = record c { drag = after_move far c.drag }
on_pointer (lift hit) c = record { drag = none; selection = after_lift hit c.drag c.selection }

unfoldable pub run_pointer : List Pointer → Canvas → Canvas
unfolding on_pointer
run_pointer [] c = c
run_pointer (p ∷ ps) c = run_pointer ps (on_pointer p c)
