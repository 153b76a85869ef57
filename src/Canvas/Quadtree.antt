-- ===== src/Canvas/Quadtree.antt =====
-- web/src/components/investigation-canvas/quadtree.ts. The coordinates are a parameter, for
-- JavaScript's numbers: an order, sums, products and halves.
use attesta_ai_powered_soc.Prelude.{
  ℕ, zero, suc, String, Bool, true, false, ◌&&◌, not, Option, none, some, List, [], ◌∷◌, ◌++◌,
  length, ◌≡◌, ltb, if◌then◌else◌,
}

-- `less` is `<` of numbers that are not NaN.
pub record Coordinates : Type 1 where
  pub Number : Type 0
  pub less : Number → Number → Bool
  pub add : Number → Number → Number
  pub sub : Number → Number → Number
  pub mul : Number → Number → Number
  pub half : Number → Number
  pub less-asym : (a b : Number) → less a b ≡ true → less b a ≡ false
  -- a ≤ b and b < c give a < c, and a < b and b ≤ c give a < c
  pub le-less : (a b c : Number) → less b a ≡ false → less b c ≡ true → less a c ≡ true
  pub less-le : (a b c : Number) → less a b ≡ true → less c b ≡ false → less a c ≡ true

module _ ⦃co : Coordinates⦄ where
  pub record QuadPoint : Type 0 where
    pub id : String
    pub x : co.Number
    pub y : co.Number

  pub record Bounds : Type 0 where
    pub x : co.Number
    pub y : co.Number
    pub w : co.Number
    pub h : co.Number

  -- `a <= b`
  abbrev pub at_most : co.Number → co.Number → Bool
  at_most a b = not (co.less b a)

  unfoldable pub contains : Bounds → QuadPoint → Bool
  contains b p =
      at_most b.x p.x
      && (co.less p.x (co.add b.x b.w) && (at_most b.y p.y && co.less p.y (co.add b.y b.h)))

  unfoldable pub intersects : Bounds → Bounds → Bool
  intersects a b =
      co.less a.x (co.add b.x b.w)
      && (co.less b.x (co.add a.x a.w)
          && (co.less a.y (co.add b.y b.h) && co.less b.y (co.add a.y a.h)))

  -- the test of a leaf's points, whose edges are all closed
  unfoldable pub within : Bounds → QuadPoint → Bool
  within b p =
      at_most b.x p.x
      && (at_most p.x (co.add b.x b.w) && (at_most b.y p.y && at_most p.y (co.add b.y b.h)))

  -- A node that was not divided, and one that was, with its four quarters.
  pub data QuadNode : Type 0 where
    leaf : Bounds → List QuadPoint → QuadNode
    branch : Bounds → QuadNode → QuadNode → QuadNode → QuadNode → QuadNode

  abbrev pub bounds_of : QuadNode → Bounds
  bounds_of (leaf b points) = b
  bounds_of (branch b n1 n2 n3 n4) = b

  abbrev pub quarter1 : Bounds → Bounds
  quarter1 b = record { x = b.x; y = b.y; w = co.half b.w; h = co.half b.h }

  abbrev pub quarter2 : Bounds → Bounds
  quarter2 b = record { x = co.add b.x (co.half b.w); y = b.y; w = co.half b.w; h = co.half b.h }

  abbrev pub quarter3 : Bounds → Bounds
  quarter3 b = record { x = b.x; y = co.add b.y (co.half b.h); w = co.half b.w; h = co.half b.h }

  abbrev pub quarter4 : Bounds → Bounds
  quarter4 b = record {
    x = co.add b.x (co.half b.w);
    y = co.add b.y (co.half b.h);
    w = co.half b.w;
    h = co.half b.h;
  }

  abbrev pub max_points_per_node : ℕ
  max_points_per_node = 8

  abbrev pub max_depth : ℕ
  max_depth = 12

  -- `insertIntoChildren`, with the insertion into a child: the first that contains the point.
  unfoldable pub insert_into_children :
      (QuadPoint → QuadNode → QuadNode) → QuadPoint → QuadNode → QuadNode
  insert_into_children ins p (leaf b points) = leaf b points
  insert_into_children ins p (branch b n1 n2 n3 n4) =
      if contains (bounds_of n1) p
      then branch b (ins p n1) n2 n3 n4
      else if contains (bounds_of n2) p
      then branch b n1 (ins p n2) n3 n4
      else if contains (bounds_of n3) p
      then branch b n1 n2 (ins p n3) n4
      else if contains (bounds_of n4) p
      then branch b n1 n2 n3 (ins p n4)
      else branch b n1 n2 n3 n4

  unfoldable pub insert_all :
      (QuadPoint → QuadNode → QuadNode) → List QuadPoint → QuadNode → QuadNode
  unfolding insert_into_children
  insert_all ins [] n = n
  insert_all ins (p ∷ ps) n = insert_all ins ps (insert_into_children ins p n)

  abbrev pub subdivided : Bounds → QuadNode
  subdivided b =
      branch b (leaf (quarter1 b) []) (leaf (quarter2 b) []) (leaf (quarter3 b) [])
        (leaf (quarter4 b) [])

  -- `insert` at a node with this many depths below it. At the last, a leaf grows without bound, and
  -- no node there has children.
  unfoldable pub insert : ℕ → QuadPoint → QuadNode → QuadNode
  unfolding contains
  insert zero p (leaf b points) = if contains b p then leaf b (points ++ p ∷ []) else leaf b points
  insert zero p (branch b n1 n2 n3 n4) = branch b n1 n2 n3 n4
  insert (suc left) p (leaf b points) =
      let grown = points ++ p ∷ [] in
      let divided = insert_all (insert left) grown (subdivided b) in
      if contains b p
      then (if ltb max_points_per_node (length grown) then divided else leaf b grown)
      else leaf b points
  insert (suc left) p (branch b n1 n2 n3 n4) =
      let inserted = insert_into_children (insert left) p (branch b n1 n2 n3 n4) in
      if contains b p then inserted else branch b n1 n2 n3 n4

  unfoldable pub insert_points : List QuadPoint → QuadNode → QuadNode
  unfolding insert
  insert_points [] n = n
  insert_points (p ∷ ps) n = insert_points ps (insert max_depth p n)

  -- `new Quadtree(bounds, points)`
  unfoldable pub new_quadtree : Bounds → List QuadPoint → QuadNode
  unfolding insert_points
  new_quadtree b points = insert_points points (leaf b [])

  unfoldable pub points_within : Bounds → List QuadPoint → List QuadPoint
  points_within b [] = []
  points_within b (p ∷ ps) = if within b p then p ∷ points_within b ps else points_within b ps

  -- `queryRange`: what it pushes
  unfoldable pub query_range : Bounds → QuadNode → List QuadPoint
  unfolding points_within
  query_range q (leaf b points) = if intersects b q then points_within q points else []
  query_range q (branch b n1 n2 n3 n4) =
      let below =
        query_range q n1 ++ (query_range q n2 ++ (query_range q n3 ++ query_range q n4)) in
      if intersects b q then below else []

  abbrev pub dist_sq : co.Number → co.Number → QuadPoint → co.Number
  dist_sq x y p =
      co.add (co.mul (co.sub p.x x) (co.sub p.x x)) (co.mul (co.sub p.y y) (co.sub p.y y))

  -- The loop of `nearest`: the best so far and its squared distance.
  unfoldable pub nearest_loop :
      co.Number → co.Number → List QuadPoint → Option QuadPoint → co.Number → Option QuadPoint
  nearest_loop x y [] best best_sq = best
  nearest_loop x y (p ∷ ps) best best_sq =
      let better = nearest_loop x y ps (some p) (dist_sq x y p) in
      let same = nearest_loop x y ps best best_sq in
      if at_most (dist_sq x y p) best_sq then better else same

  abbrev pub around : co.Number → co.Number → co.Number → co.Number → Bounds
  around x y radius diameter = record {
    x = co.sub x radius;
    y = co.sub y radius;
    w = diameter;
    h = diameter;
  }

  -- `nearest`, with `radius * 2` as the sum of the radius with itself, which is exact
  unfoldable pub nearest : QuadNode → co.Number → co.Number → co.Number → Option QuadPoint
  unfolding nearest_loop query_range
  nearest root x y radius =
      nearest_loop x y (query_range (around x y radius (co.add radius radius)) root) none
        (co.mul radius radius)
