-- ===== src/Canvas/Query.antt =====
-- `inRange` and `nearest` of web/src/components/investigation-canvas/quadtree.ts against a scan of
-- the points.
use attesta_ai_powered_soc.Prelude.{
  ℕ, zero, suc, ◌≡◌, refl, ◌⊎◌, inl, inr, Bool, true, false, ◌&&◌, List, [], ◌∷◌, ◌++◌, In, All,
  Bool-cases, arith,
}
use attesta_ai_powered_soc.Canvas.Quadtree.{
  Coordinates, QuadPoint, Bounds, at_most, contains, intersects, within, QuadNode, leaf, branch,
  max_depth, new_quadtree, points_within, query_range,
}
use attesta_ai_powered_soc.Canvas.Points.{IsExact, IsIn, IsPlaced}
use attesta_ai_powered_soc.Canvas.Insertion.{new_quadtree-IsPlaced}

and_parts :
    (a b c d : Bool)
    → (a && (b && (c && d))) ≡ true
    → (a ≡ true) × (b ≡ true) × (c ≡ true) × (d ≡ true)
and_parts a b c d h = ground arith

In-append_left : {A : Type 0} (a : A) (xs ys : List A) → In a xs → In a (xs ++ ys)
In-append_left a (x ∷ xs) ys (inl e) = inl e
In-append_left a (x ∷ xs) ys (inr m) = inr (In-append_left a xs ys m)
In-append_left a [] ys m = elim m [ ]

In-append_right : {A : Type 0} (a : A) (xs ys : List A) → In a ys → In a (xs ++ ys)
In-append_right a [] ys m = m
In-append_right a (x ∷ xs) ys m = inr (In-append_right a xs ys m)

append-In : {A : Type 0} (a : A) (xs ys : List A) → In a (xs ++ ys) → In a xs ⊎ In a ys
append-In a [] ys m = inr m
append-In a (x ∷ xs) ys (inl e) = inl (inl e)
append-In a (x ∷ xs) ys (inr m) = elim (append-In a xs ys m) [ inl l ↦ inl (inr l) | inr r ↦ inr r ]

All-In : {A : Type 0} (P : A → Type 0) (xs : List A) (a : A) → All P xs → In a xs → P a
All-In P [] a h m = elim m [ ]
All-In P (x ∷ xs) a (hx, h) (inl e) = rw (← e) hx
All-In P (x ∷ xs) a (hx, h) (inr m) = All-In P xs a h m

module _ ⦃co : Coordinates⦄ where
  not_less : (a b : co.Number) → at_most a b ≡ true → co.less b a ≡ false
  not_less a b h = ground arith

  -- A cell and a range with a point in both meet.
  contains-intersects :
      (c q : Bounds) (p : QuadPoint)
      → contains c p ≡ true
      → contains q p ≡ true
      → intersects c q ≡ true
  unfolding contains intersects
  contains-intersects c q p h g =
      let (h1, h2, h3, h4) = and_parts _ _ _ _ h in
      let (g1, g2, g3, g4) = and_parts _ _ _ _ g in
      rw
        (
          co.le-less c.x p.x (co.add q.x q.w) (not_less c.x p.x h1) g2,
          co.le-less q.x p.x (co.add c.x c.w) (not_less q.x p.x g1) h2,
          co.le-less c.y p.y (co.add q.y q.h) (not_less c.y p.y h3) g4,
          co.le-less q.y p.y (co.add c.y c.h) (not_less q.y p.y g3) h4,
        )
        refl

  contains-within : (q : Bounds) (p : QuadPoint) → contains q p ≡ true → within q p ≡ true
  unfolding contains within
  contains-within q p g =
      let (g1, g2, g3, g4) = and_parts _ _ _ _ g in
      let x = co.less-asym p.x (co.add q.x q.w) g2 in
      let y = co.less-asym p.y (co.add q.y q.h) g4 in
      rw (not_less q.x p.x g1, not_less q.y p.y g3, x, y) refl

  points_within-In :
      (q : Bounds) (ps : List QuadPoint) (p : QuadPoint)
      → In p (points_within q ps)
      → In p ps × (within q p ≡ true)
  unfolding points_within
  points_within-In q [] p m = elim m [ ]
  points_within-In q (r ∷ ps) p m = elim (Bool-cases (within q r)) [
    | inl e ↦ elim (rw e at m) [
      | inl same ↦ (inl same, rw (← same) e)
      | inr n ↦ let (i, w) = points_within-In q ps p n in (inr i, w)
    ]
    | inr e ↦ let (i, w) = points_within-In q ps p (rw e at m) in (inr i, w)
  ]

  In-points_within :
      (q : Bounds) (ps : List QuadPoint) (p : QuadPoint)
      → In p ps
      → within q p ≡ true
      → In p (points_within q ps)
  unfolding points_within
  In-points_within q [] p m w = m
  In-points_within q (r ∷ ps) p m w = elim m [
    | inl same ↦ rw (same, w) (inl refl)
    | inr n ↦ elim (Bool-cases (within q r)) [
      | inl e ↦ rw e (inr (In-points_within q ps p n w))
      | inr e ↦ rw e (In-points_within q ps p n w)
    ]
  ]

  -- What a query returns stands in the tree and in the closed range.
  pub query_range-In :
      (q : Bounds) (t : QuadNode) (p : QuadPoint)
      → In p (query_range q t)
      → IsIn p t × (within q p ≡ true)
  unfolding query_range
  query_range-In q (leaf b points) p m = elim (Bool-cases (intersects b q)) [
    | inl e ↦ points_within-In q points p (rw e at m)
    | inr e ↦ elim (rw e at m) [ ]
  ]
  query_range-In q (branch b n1 n2 n3 n4) p m = elim (Bool-cases (intersects b q)) [
    | inr e ↦ elim (rw e at m) [ ]
    | inl e ↦ elim (append-In p (query_range q n1) _ (rw e at m)) [
      | inl m1 ↦ let (i, w) = query_range-In q n1 p m1 in (inl i, w)
      | inr r ↦ elim (append-In p (query_range q n2) _ r) [
        | inl m2 ↦ let (i, w) = query_range-In q n2 p m2 in (inr (inl i), w)
        | inr s ↦ elim (append-In p (query_range q n3) _ s) [
          | inl m3 ↦ let (i, w) = query_range-In q n3 p m3 in (inr (inr (inl i)), w)
          | inr m4 ↦ let (i, w) = query_range-In q n4 p m4 in (inr (inr (inr i)), w)
        ]
      ]
    ]
  ]

  -- A point of the tree in the half-open range is returned.
  In-query_range :
      (left : ℕ) (q : Bounds) (t : QuadNode) (p : QuadPoint)
      → IsPlaced left t
      → IsIn p t
      → contains q p ≡ true
      → In p (query_range q t)
  unfolding query_range
  In-query_range left q (leaf b points) p h i g =
      let inside = All-In (λ r. contains b r ≡ true) points p h i in
      rw (contains-intersects b q p inside g)
        (In-points_within q points p i (contains-within q p g))
  In-query_range zero q (branch b n1 n2 n3 n4) p h i g = absurd h
  In-query_range (suc left) q (branch b n1 n2 n3 n4) p h i g =
      rw (contains-intersects b q p (h.8 p i) g) (elim i [
        | inl a ↦ In-append_left p _ _ (In-query_range left q n1 p h.1 a g)
        | inr (inl a) ↦
            In-append_right p (query_range q n1) _
              (In-append_left p _ _ (In-query_range left q n2 p h.3 a g))
        | inr (inr (inl a)) ↦ In-append_right p (query_range q n1) _ (
            In-append_right p (query_range q n2) _
              (In-append_left p _ _ (In-query_range left q n3 p h.5 a g)))
        | inr (inr (inr a)) ↦ In-append_right p (query_range q n1) _ (
            In-append_right p (query_range q n2) _
              (In-append_right p (query_range q n3) _ (In-query_range left q n4 p h.7 a g)))
      ])

  -- For points inside the bounds, and halves of the cells that add up without rounding, the quadtree
  -- answers a range like a scan of the points: it returns no point that was not given or is outside
  -- the closed range, and every point that is in the range but not on its right or lower edge.
  pub query_range-new_quadtree :
      (b : Bounds) (ps : List QuadPoint) (q : Bounds) (p : QuadPoint)
      → IsExact max_depth b
      → All (λ r. contains b r ≡ true) ps
      → (In p (query_range q (new_quadtree b ps)) → In p (points_within q ps))
        × (In p ps → contains q p ≡ true → In p (query_range q (new_quadtree b ps)))
  query_range-new_quadtree b ps q p x inside =
      let (placed, added, only) = new_quadtree-IsPlaced b ps x inside in
      (
        λ m.
            let (i, w) = query_range-In q (new_quadtree b ps) p m in
            In-points_within q ps p (only p i) w,
        λ m g. In-query_range max_depth q (new_quadtree b ps) p placed (added p m) g,
      )
