-- ===== src/Examples/Canvases.antt =====
-- Examples of the theorems on the investigation canvas.
use attesta_ai_powered_soc.Prelude.{
  ℕ, zero, suc, ◌+◌, ◌-◌, ◌*◌, ◌/◌, ◌≤◌, ◌≡◌, refl, ◌⊎◌, inl, String, true, false, none, some, List,
  [], ◌∷◌, In, All, ltb, arith,
}
use attesta_ai_powered_soc.Canvas.Quadtree.{
  Coordinates, QuadPoint, Bounds, contains, max_depth, new_quadtree, points_within, query_range,
  around, dist_sq, nearest,
}
use attesta_ai_powered_soc.Canvas.Points.{IsExact, IsIn}
use attesta_ai_powered_soc.Canvas.Query.{query_range-new_quadtree}
use attesta_ai_powered_soc.Canvas.Nearest.{nearest-Closest}
use mathlib.Core.List.{Perm}
use attesta_ai_powered_soc.Types.{GraphNode, GraphEdge, TimelineEvent, host, supports, execution}
use attesta_ai_powered_soc.Canvas.Layout.{Ratios, layout_nodes}
use attesta_ai_powered_soc.Canvas.Grid.{nodes_of, IsGridded, layout_nodes-perm}
use attesta_ai_powered_soc.Canvas.Selection.{Hit, on_click, down, move, lift, Canvas, run_pointer}
use attesta_ai_powered_soc.Canvas.Pressing.{IsSingle, press, run_pointer_lem}
use attesta_ai_powered_soc.Timeline.{build_scale}
use attesta_ai_powered_soc.Timeline.Order.{build_scale_lem}

-- Natural coordinates, whose halves are exact when they are even.
instance abbrev naturals : Coordinates
naturals = record {
  Number = ℕ;
  less = ltb;
  add = λ a b. a + b;
  sub = λ a b. a - b;
  mul = λ a b. a * b;
  half = λ a. a / 2;
  less-asym = λ a b h. ground arith;
  le-less = λ a b c h g. ground arith;
  less-le = λ a b c h g. ground arith;
}

-- Divisible by 2 this many times.
abbrev IsEven : ℕ → ℕ → Type 0
IsEven zero w = Unit
IsEven (suc left) w = (v : ℕ) × (w ≡ 2 * v) × IsEven left v

even_half : (x w v : ℕ) → w ≡ 2 * v → x + w / 2 + w / 2 ≡ x + w
even_half x w v h = omega arith

half_of : (left w v : ℕ) → w ≡ 2 * v → IsEven left v → IsEven left (w / 2)
half_of left w v h e = let same : w / 2 ≡ v = omega arith in rw same e

IsEven-IsExact : (left : ℕ) (b : Bounds) → IsEven left b.w → IsEven left b.h → IsExact left b
unfolding IsExact
IsEven-IsExact zero b ew eh = tt
IsEven-IsExact (suc left) b (v, hw, ew) (u, hh, eh) =
    let dw = half_of left b.w v hw ew in
    let dh = half_of left b.h u hh eh in
    (
      even_half b.x b.w v hw,
      even_half b.y b.h u hh,
      IsEven-IsExact left _ dw dh,
      IsEven-IsExact left _ dw dh,
      IsEven-IsExact left _ dw dh,
      IsEven-IsExact left _ dw dh,
    )

abbrev area : Bounds
area = record { x = 0; y = 0; w = 4096; h = 4096 }

area-IsEven : IsEven 12 4096
area-IsEven = (
  2048,
  refl,
  (
    1024,
    refl,
    (
      512,
      refl,
      (
        256,
        refl,
        (
          128,
          refl,
          (64, refl, (32, refl, (16, refl, (8, refl, (4, refl, (2, refl, (1, refl, tt))))))),
        ),
      ),
    ),
  ),
)

abbrev point_at : ℕ → ℕ → QuadPoint
point_at x y = record { id = "n"; x = x; y = y }

-- nine points, which divide the root
abbrev points : List QuadPoint
points =
    point_at 10 10
    ∷ point_at 20 10
    ∷ point_at 30 10
    ∷ point_at 40 10
    ∷ point_at 50 10
    ∷ point_at 60 10
    ∷ point_at 70 10
    ∷ point_at 2048 10
    ∷ point_at 3000 3000
    ∷ []

inside_all : All (λ r. contains area r ≡ true) points
unfolding contains
inside_all = (refl, (refl, (refl, (refl, (refl, (refl, (refl, (refl, (refl, tt)))))))))

abbrev range : Bounds
range = record { x = 2000; y = 0; w = 100; h = 100 }

query_range-new_quadtree_example :
    (In (point_at 2048 10) (query_range range (new_quadtree area points))
      → In (point_at 2048 10) (points_within range points))
    × (In (point_at 2048 10) points
        → contains range (point_at 2048 10) ≡ true
        → In (point_at 2048 10) (query_range range (new_quadtree area points)))
query_range-new_quadtree_example =
    query_range-new_quadtree area points range (point_at 2048 10)
      (IsEven-IsExact max_depth area area-IsEven area-IsEven) inside_all

abbrev at_x : ℕ
at_x = 2040

abbrev at_y : ℕ
at_y = 12

nearest-Closest_example :
    ((nearest (new_quadtree area points) at_x at_y 14 ≡ none)
      × All
          (λ c. ltb (14 * 14) (dist_sq at_x at_y c) ≡ true)
          (query_range (around at_x at_y 14 (14 + 14)) (new_quadtree area points)))
    ⊎ ((p : QuadPoint) × (nearest (new_quadtree area points) at_x at_y 14 ≡ some p)
        × IsIn p (new_quadtree area points)
        × (ltb (14 * 14) (dist_sq at_x at_y p) ≡ false)
        × All
            (λ c. ltb (dist_sq at_x at_y c) (dist_sq at_x at_y p) ≡ false)
            (query_range (around at_x at_y 14 (14 + 14)) (new_quadtree area points)))
nearest-Closest_example = nearest-Closest at_x at_y (new_quadtree area points) 14

instance abbrev exact_ratios : Ratios
exact_ratios = record { floor_ratio = λ part whole count. part * count / whole }

abbrev node_seen : String → ℕ → GraphNode
node_seen id ms = record {
  id = id;
  type = host;
  label = id;
  first_seen_ms = ms;
  prior_case_count = 0;
}

abbrev three_nodes : List GraphNode
three_nodes = node_seen "b" 100 ∷ node_seen "a" 100 ∷ node_seen "c" 900 ∷ []

layout_nodes-perm_example :
    Perm (nodes_of (layout_nodes three_nodes 40)) three_nodes
    × All (IsGridded 40) (layout_nodes three_nodes 40)
layout_nodes-perm_example = layout_nodes-perm three_nodes 40 (omega arith)

abbrev an_edge : GraphEdge
an_edge = record {
  id = "case-0-claim-0-00000000";
  from_node_id = "a";
  to_node_id = "b";
  predicate = "ENCODED_COMMAND";
  polarity = supports;
  interval_start_ms = 1;
  interval_end_ms = 2;
  extractor_kind = "rule";
  extractor_id = "cdl.execution.encoded_command";
  extractor_version = "1";
  confidence = 5000;
  evidence_ids = [];
  hypothesis_group = none;
}

abbrev canvas : Canvas
canvas = record { drag = none; selection = record { node_id = none; edge = some an_edge } }

abbrev over_a : Hit
over_a = record { node = some "a"; edge = some an_edge }

run_pointer_lem_example :
    IsSingle (run_pointer (down ∷ lift over_a ∷ move true ∷ []) canvas).selection
    × ((run_pointer (down ∷ press (false ∷ true ∷ []) over_a) canvas).selection ≡ canvas.selection)
    × ((on_click over_a canvas.selection).node_id ≡ some "a")
    × (over_a.node ≡ none → (on_click over_a canvas.selection).edge ≡ some an_edge)
run_pointer_lem_example =
    run_pointer_lem (down ∷ lift over_a ∷ move true ∷ []) (false ∷ true ∷ []) over_a canvas
      (inl refl)

abbrev event_at : ℕ → TimelineEvent
event_at ms = record {
  id = "ev";
  at_ms = ms;
  tactic = execution;
  predicate = "ENCODED_COMMAND";
  entity = "WIN-SRV-3";
  claim_id = "";
}

-- two bursts, five hours apart, out of order
abbrev bursts : List TimelineEvent
bursts = event_at 18_000_500 ∷ event_at 1_000 ∷ event_at 18_000_000 ∷ event_at 0 ∷ []

build_scale_lem_example :
    ((a b : ℕ)
      → a ≤ b
      → (build_scale 1 100 bursts true).position a ≤ (build_scale 1 100 bursts true).position b)
    × ((e : TimelineEvent)
        → In e bursts
        → (build_scale 1 100 bursts true).position e.at_ms
          ≤ (build_scale 1 100 bursts true).total_px)
build_scale_lem_example = build_scale_lem 1 100 bursts true
