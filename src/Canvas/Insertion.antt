-- ===== src/Canvas/Insertion.antt =====
-- `insert` and the constructor of web/src/components/investigation-canvas/quadtree.ts keep every point.
use attesta_ai_powered_soc.Prelude.{
  ℕ, zero, suc, ◌≡◌, refl, ◌∙◌, ◌⊎◌, inl, inr, true, List, [], ◌∷◌, ◌++◌, length, In, All, ltb,
  Bool-cases,
}
use attesta_ai_powered_soc.Canvas.Quadtree.{
  Coordinates, QuadPoint, Bounds, contains, QuadNode, leaf, branch, bounds_of, max_points_per_node,
  max_depth, insert_into_children, insert_all, subdivided, insert, insert_points, new_quadtree,
}
use attesta_ai_powered_soc.Canvas.Points.{
  IsExact, IsIn, IsPlaced, IsStep, IsInsertion, insert_into_children-IsStep,
}

module _ ⦃co : Coordinates⦄ where
  abbrev IsBranch : QuadNode → Type 0
  IsBranch (leaf b points) = ⊥
  IsBranch (branch b n1 n2 n3 n4) = Unit

  insert_into_children-IsBranch :
      (ins : QuadPoint → QuadNode → QuadNode) (p : QuadPoint) (t : QuadNode)
      → IsBranch t
      → IsBranch (insert_into_children ins p t)
  unfolding insert_into_children
  insert_into_children-IsBranch ins p (leaf b points) h = h
  insert_into_children-IsBranch ins p (branch b n1 n2 n3 n4) h =
      elim (Bool-cases (contains (bounds_of n1) p)) [
        | inl e1 ↦ rw e1 tt
        | inr e1 ↦ elim (Bool-cases (contains (bounds_of n2) p)) [
          | inl e2 ↦ rw (e1, e2) tt
          | inr e2 ↦ elim (Bool-cases (contains (bounds_of n3) p)) [
            | inl e3 ↦ rw (e1, e2, e3) tt
            | inr e3 ↦ elim (Bool-cases (contains (bounds_of n4) p)) [
              | inl e4 ↦ rw (e1, e2, e3, e4) tt
              | inr e4 ↦ rw (e1, e2, e3, e4) tt
            ]
          ]
        ]
      ]

  -- What the insertion of several points makes of a node.
  record IsBulk (left : ℕ) (ps : List QuadPoint) (t r : QuadNode) : Type 0 where
    pub bounds : bounds_of r ≡ bounds_of t
    pub placed : IsPlaced left r
    pub added : (q : QuadPoint) → In q ps → IsIn q r
    pub kept : (q : QuadPoint) → IsIn q t → IsIn q r
    pub only : (q : QuadPoint) → IsIn q r → In q ps ⊎ IsIn q t

  none-IsBulk : (left : ℕ) (t : QuadNode) → IsPlaced left t → IsBulk left [] t t
  none-IsBulk left t h = record {
    bounds = refl;
    placed = h;
    added = λ q m. elim m [ ];
    kept = λ q m. m;
    only = λ q m. inr m;
  }

  -- One point and then the others.
  step-IsBulk :
      (left : ℕ) (p : QuadPoint) (ps : List QuadPoint) (t u r : QuadNode)
      → IsStep left p t u
      → IsBulk left ps u r
      → IsBulk left (p ∷ ps) t r
  step-IsBulk left p ps t u r s b = record {
    bounds = b.bounds ∙ s.bounds;
    placed = b.placed;
    added = λ q m. elim m [ inl e ↦ rw (← e) (b.kept p s.added) | inr n ↦ b.added q n ];
    kept = λ q m. b.kept q (s.kept q m);
    only = λ q m. elim (b.only q m) [
      | inl n ↦ inl (inr n)
      | inr i ↦ elim (s.only q i) [ inl e ↦ inl (inl e) | inr j ↦ inr j ]
    ];
  }

  insert_all-IsBulk :
      (left : ℕ) (ins : QuadPoint → QuadNode → QuadNode)
      → IsInsertion left ins
      → (ps : List QuadPoint) (t : QuadNode) → IsBranch t
      → IsExact (suc left) (bounds_of t)
      → IsPlaced (suc left) t
      → All (λ p. contains (bounds_of t) p ≡ true) ps
      → IsBulk (suc left) ps t (insert_all ins ps t)
  unfolding insert_all
  insert_all-IsBulk left ins good [] t br x h inside = none-IsBulk (suc left) t h
  insert_all-IsBulk left ins good (p ∷ ps) (leaf b points) br x h inside = absurd br
  insert_all-IsBulk left ins good (p ∷ ps) (branch b n1 n2 n3 n4) br x h (here, inside) =
      let t = branch b n1 n2 n3 n4 in
      let s = insert_into_children-IsStep left ins good p b n1 n2 n3 n4 x h here in
      let u = insert_into_children ins p t in
      step-IsBulk (suc left) p ps t u _ s (
        insert_all-IsBulk left ins good ps u (insert_into_children-IsBranch ins p t br)
          (rw s.bounds x) s.placed (rw s.bounds inside))

  All-snoc :
      (P : QuadPoint → Type 0) (ps : List QuadPoint) (p : QuadPoint)
      → All P ps
      → P p
      → All P (ps ++ p ∷ [])
  All-snoc P [] p h hp = (hp, tt)
  All-snoc P (q ∷ ps) p (hq, h) hp = (hq, All-snoc P ps p h hp)

  In-snoc_last : (ps : List QuadPoint) (p : QuadPoint) → In p (ps ++ p ∷ [])
  In-snoc_last [] p = inl refl
  In-snoc_last (q ∷ ps) p = inr (In-snoc_last ps p)

  In-snoc : (ps : List QuadPoint) (p q : QuadPoint) → In q ps → In q (ps ++ p ∷ [])
  In-snoc (r ∷ ps) p q (inl e) = inl e
  In-snoc (r ∷ ps) p q (inr m) = inr (In-snoc ps p q m)
  In-snoc [] p q m = elim m [ ]

  snoc-In : (ps : List QuadPoint) (p q : QuadPoint) → In q (ps ++ p ∷ []) → (p ≡ q) ⊎ In q ps
  snoc-In [] p q (inl e) = inl e
  snoc-In [] p q (inr m) = elim m [ ]
  snoc-In (r ∷ ps) p q (inl e) = inr (inl e)
  snoc-In (r ∷ ps) p q (inr m) = elim (snoc-In ps p q m) [ inl e ↦ inl e | inr n ↦ inr (inr n) ]

  -- A leaf that grows.
  grown-IsStep :
      (left : ℕ) (p : QuadPoint) (b : Bounds) (points : List QuadPoint)
      → All (λ q. contains b q ≡ true) points
      → contains b p ≡ true
      → IsStep left p (leaf b points) (leaf b (points ++ p ∷ []))
  grown-IsStep left p b points h inside = record {
    bounds = refl;
    placed = All-snoc (λ q. contains b q ≡ true) points p h inside;
    added = In-snoc_last points p;
    kept = λ q m. In-snoc points p q m;
    only = λ q m. snoc-In points p q m;
  }

  none-IsIn : (b : Bounds) (q : QuadPoint) → ¬ IsIn q (subdivided b)
  none-IsIn b q (inl a) = a
  none-IsIn b q (inr (inl a)) = a
  none-IsIn b q (inr (inr (inl a))) = a
  none-IsIn b q (inr (inr (inr a))) = a

  -- A leaf that is divided.
  divided-IsStep :
      (left : ℕ) (p : QuadPoint) (b : Bounds) (points : List QuadPoint) (r : QuadNode)
      → IsBulk (suc left) (points ++ p ∷ []) (subdivided b) r
      → IsStep (suc left) p (leaf b points) r
  divided-IsStep left p b points r k = record {
    bounds = k.bounds;
    placed = k.placed;
    added = k.added p (In-snoc_last points p);
    kept = λ q m. k.added q (In-snoc points p q m);
    only = λ q m. elim (k.only q m) [
      | inl n ↦ snoc-In points p q n
      | inr i ↦ absurd (none-IsIn b q i)
    ];
  }

  pub insert-IsInsertion : (left : ℕ) → IsInsertion left (insert left)
  unfolding insert
  insert-IsInsertion zero p (leaf b points) x h inside =
      rw inside (grown-IsStep zero p b points h inside)
  insert-IsInsertion zero p (branch b n1 n2 n3 n4) x h inside = absurd h
  insert-IsInsertion (suc left) p (leaf b points) x h inside =
      let grown = points ++ p ∷ [] in
      let all = All-snoc (λ q. contains b q ≡ true) points p h inside in
      let bulk =
        insert_all-IsBulk left (insert left) (insert-IsInsertion left) grown (subdivided b) tt x
          (refl, tt, refl, tt, refl, tt, refl, tt, λ q i. absurd (none-IsIn b q i)) all in
      elim (Bool-cases (ltb max_points_per_node (length grown))) [
        | inl e ↦ rw (inside, e) (divided-IsStep left p b points _ bulk)
        | inr e ↦ rw (inside, e) (grown-IsStep (suc left) p b points h inside)
      ]
  insert-IsInsertion (suc left) p (branch b n1 n2 n3 n4) x h inside = rw inside (
      insert_into_children-IsStep left (insert left) (insert-IsInsertion left) p b n1 n2 n3 n4 x h
        inside)

  insert_points-IsBulk :
      (ps : List QuadPoint) (t : QuadNode)
      → IsExact max_depth (bounds_of t)
      → IsPlaced max_depth t
      → All (λ p. contains (bounds_of t) p ≡ true) ps
      → IsBulk max_depth ps t (insert_points ps t)
  unfolding insert_points
  insert_points-IsBulk [] t x h inside = none-IsBulk max_depth t h
  insert_points-IsBulk (p ∷ ps) t x h (here, inside) =
      let s = insert-IsInsertion max_depth p t x h here in
      let u = insert max_depth p t in
      step-IsBulk max_depth p ps t u _ s
        (insert_points-IsBulk ps u (rw s.bounds x) s.placed (rw s.bounds inside))

  -- The tree of points inside its bounds holds exactly these points, each in a cell that contains it.
  pub new_quadtree-IsPlaced :
      (b : Bounds) (ps : List QuadPoint)
      → IsExact max_depth b
      → All (λ p. contains b p ≡ true) ps
      → IsPlaced max_depth (new_quadtree b ps)
        × ((q : QuadPoint) → In q ps → IsIn q (new_quadtree b ps))
        × ((q : QuadPoint) → IsIn q (new_quadtree b ps) → In q ps)
  unfolding new_quadtree
  new_quadtree-IsPlaced b ps x inside =
      let k = insert_points-IsBulk ps (leaf b []) x tt inside in
      (k.placed, k.added, λ q m. elim (k.only q m) [ inl n ↦ n | inr i ↦ elim i [ ] ])
