-- ===== src/Canvas/Points.antt =====
-- The quadtree of web/src/components/investigation-canvas/quadtree.ts holds exactly the points that
-- were inserted, each in a leaf whose cell contains it.
use attesta_ai_powered_soc.Prelude.{
  ℕ, zero, suc, ◌≡◌, refl, ◌∙◌, ◌⊎◌, inl, inr, Bool, true, false, ◌&&◌, not, In, All, Bool-cases,
  arith,
}
use attesta_ai_powered_soc.Canvas.Quadtree.{
  Coordinates, QuadPoint, Bounds, contains, QuadNode, leaf, branch, bounds_of, quarter1, quarter2,
  quarter3, quarter4, insert_into_children,
}

-- Below or not below each of the two middles.
quarters :
    (a b c d e f : Bool)
    → (not a && (b && (not c && d))) ≡ true
    → (not a && (e && (not c && f))) ≡ false
    → (not e && (b && (not c && f))) ≡ false
    → (not a && (e && (not f && d))) ≡ false
    → (not e && (b && (not f && d))) ≡ true
quarters a b c d e f h h1 h2 h3 = ground arith

module _ ⦃co : Coordinates⦄ where
  -- The halves of the cells add up without rounding, down to this many depths.
  unfoldable pub IsExact : ℕ → Bounds → Type 0
  IsExact zero b = Unit
  IsExact (suc left) b =
      (co.add (co.add b.x (co.half b.w)) (co.half b.w) ≡ co.add b.x b.w)
      × (co.add (co.add b.y (co.half b.h)) (co.half b.h) ≡ co.add b.y b.h)
      × IsExact left (quarter1 b)
      × IsExact left (quarter2 b)
      × IsExact left (quarter3 b)
      × IsExact left (quarter4 b)

  abbrev pub IsIn : QuadPoint → QuadNode → Type 0
  IsIn q (leaf b points) = In q points
  IsIn q (branch b n1 n2 n3 n4) = IsIn q n1 ⊎ (IsIn q n2 ⊎ (IsIn q n3 ⊎ IsIn q n4))

  -- Every point stands in a cell that contains it, the cells of a branch are its quarters, and no node
  -- at the last depth is divided.
  abbrev pub IsPlaced : ℕ → QuadNode → Type 0
  IsPlaced left (leaf b points) = All (λ p. contains b p ≡ true) points
  IsPlaced zero (branch b n1 n2 n3 n4) = ⊥
  IsPlaced (suc left) (branch b n1 n2 n3 n4) =
      (bounds_of n1 ≡ quarter1 b)
      × IsPlaced left n1
      × (bounds_of n2 ≡ quarter2 b)
      × IsPlaced left n2
      × (bounds_of n3 ≡ quarter3 b)
      × IsPlaced left n3
      × (bounds_of n4 ≡ quarter4 b)
      × IsPlaced left n4
      × ((q : QuadPoint) → IsIn q (branch b n1 n2 n3 n4) → contains b q ≡ true)

  -- What an insertion of `p` makes of a node.
  pub record IsStep (left : ℕ) (p : QuadPoint) (t r : QuadNode) : Type 0 where
    pub bounds : bounds_of r ≡ bounds_of t
    pub placed : IsPlaced left r
    pub added : IsIn p r
    pub kept : (q : QuadPoint) → IsIn q t → IsIn q r
    pub only : (q : QuadPoint) → IsIn q r → (p ≡ q) ⊎ IsIn q t

  -- The quarters of a cell cover it.
  covered :
      (b : Bounds) (p : QuadPoint)
      → co.add (co.add b.x (co.half b.w)) (co.half b.w) ≡ co.add b.x b.w
      → co.add (co.add b.y (co.half b.h)) (co.half b.h) ≡ co.add b.y b.h
      → contains b p ≡ true
      → contains (quarter1 b) p ≡ false
      → contains (quarter2 b) p ≡ false
      → contains (quarter3 b) p ≡ false
      → contains (quarter4 b) p ≡ true
  unfolding contains
  covered b p ex ey h h1 h2 h3 =
      rw (ex, ey)
        (quarters (co.less p.x b.x) (co.less p.x (co.add b.x b.w)) (co.less p.y b.y)
          (co.less p.y (co.add b.y b.h)) (co.less p.x (co.add b.x (co.half b.w)))
          (co.less p.y (co.add b.y (co.half b.h))) h h1 (rw ex at h2) (rw ey at h3))

  module _ (left : ℕ) (p : QuadPoint) (b : Bounds) (n1 n2 n3 n4 m : QuadNode)
      (h : IsPlaced (suc left) (branch b n1 n2 n3 n4)) (inside : contains b p ≡ true) where
    still_inside :
        (r : QuadNode)
        → ((q : QuadPoint) → IsIn q r → (p ≡ q) ⊎ IsIn q (branch b n1 n2 n3 n4))
        → (q : QuadPoint) → IsIn q r
        → contains b q ≡ true
    still_inside r only q i = elim (only q i) [ inl e ↦ rw (← e) inside | inr o ↦ h.8 q o ]

    step1 : IsStep left p n1 m → IsStep (suc left) p (branch b n1 n2 n3 n4) (branch b m n2 n3 n4)
    step1 s =
        let only : (q : QuadPoint)
            → IsIn q (branch b m n2 n3 n4)
            → (p ≡ q) ⊎ IsIn q (branch b n1 n2 n3 n4) =
          λ q i. elim i [
            | inl a ↦ elim (s.only q a) [ inl e ↦ inl e | inr o ↦ inr (inl o) ]
            | inr a ↦ inr (inr a)
          ] in
        record {
          bounds = refl;
          placed = (
            s.bounds ∙ h.0,
            s.placed,
            h.2,
            h.3,
            h.4,
            h.5,
            h.6,
            h.7,
            still_inside (branch b m n2 n3 n4) only,
          );
          added = inl s.added;
          kept = λ q i. elim i [ inl a ↦ inl (s.kept q a) | inr a ↦ inr a ];
          only = only;
        }

    step2 : IsStep left p n2 m → IsStep (suc left) p (branch b n1 n2 n3 n4) (branch b n1 m n3 n4)
    step2 s =
        let only : (q : QuadPoint)
            → IsIn q (branch b n1 m n3 n4)
            → (p ≡ q) ⊎ IsIn q (branch b n1 n2 n3 n4) =
          λ q i. elim i [
            | inl a ↦ inr (inl a)
            | inr (inl a) ↦ elim (s.only q a) [ inl e ↦ inl e | inr o ↦ inr (inr (inl o)) ]
            | inr (inr a) ↦ inr (inr (inr a))
          ] in
        record {
          bounds = refl;
          placed = (
            h.0,
            h.1,
            s.bounds ∙ h.2,
            s.placed,
            h.4,
            h.5,
            h.6,
            h.7,
            still_inside (branch b n1 m n3 n4) only,
          );
          added = inr (inl s.added);
          kept = λ q i. elim i [
            | inl a ↦ inl a
            | inr (inl a) ↦ inr (inl (s.kept q a))
            | inr (inr a) ↦ inr (inr a)
          ];
          only = only;
        }

    step3 : IsStep left p n3 m → IsStep (suc left) p (branch b n1 n2 n3 n4) (branch b n1 n2 m n4)
    step3 s =
        let only : (q : QuadPoint)
            → IsIn q (branch b n1 n2 m n4)
            → (p ≡ q) ⊎ IsIn q (branch b n1 n2 n3 n4) =
          λ q i. elim i [
            | inl a ↦ inr (inl a)
            | inr (inl a) ↦ inr (inr (inl a))
            | inr (inr (inl a)) ↦ elim (s.only q a) [
              | inl e ↦ inl e
              | inr o ↦ inr (inr (inr (inl o)))
            ]
            | inr (inr (inr a)) ↦ inr (inr (inr (inr a)))
          ] in
        record {
          bounds = refl;
          placed = (
            h.0,
            h.1,
            h.2,
            h.3,
            s.bounds ∙ h.4,
            s.placed,
            h.6,
            h.7,
            still_inside (branch b n1 n2 m n4) only,
          );
          added = inr (inr (inl s.added));
          kept = λ q i. elim i [
            | inl a ↦ inl a
            | inr (inl a) ↦ inr (inl a)
            | inr (inr (inl a)) ↦ inr (inr (inl (s.kept q a)))
            | inr (inr (inr a)) ↦ inr (inr (inr a))
          ];
          only = only;
        }

    step4 : IsStep left p n4 m → IsStep (suc left) p (branch b n1 n2 n3 n4) (branch b n1 n2 n3 m)
    step4 s =
        let only : (q : QuadPoint)
            → IsIn q (branch b n1 n2 n3 m)
            → (p ≡ q) ⊎ IsIn q (branch b n1 n2 n3 n4) =
          λ q i. elim i [
            | inl a ↦ inr (inl a)
            | inr (inl a) ↦ inr (inr (inl a))
            | inr (inr (inl a)) ↦ inr (inr (inr (inl a)))
            | inr (inr (inr a)) ↦ elim (s.only q a) [
              | inl e ↦ inl e
              | inr o ↦ inr (inr (inr (inr o)))
            ]
          ] in
        record {
          bounds = refl;
          placed = (
            h.0,
            h.1,
            h.2,
            h.3,
            h.4,
            h.5,
            s.bounds ∙ h.6,
            s.placed,
            still_inside (branch b n1 n2 n3 m) only,
          );
          added = inr (inr (inr s.added));
          kept = λ q i. elim i [
            | inl a ↦ inl a
            | inr (inl a) ↦ inr (inl a)
            | inr (inr (inl a)) ↦ inr (inr (inl a))
            | inr (inr (inr a)) ↦ inr (inr (inr (s.kept q a)))
          ];
          only = only;
        }

  -- What a function that inserts into the nodes at some depth must do.
  abbrev pub IsInsertion : ℕ → (QuadPoint → QuadNode → QuadNode) → Type 0
  IsInsertion left ins =
      (p : QuadPoint) (t : QuadNode)
      → IsExact left (bounds_of t)
      → IsPlaced left t
      → contains (bounds_of t) p ≡ true
      → IsStep left p t (ins p t)

  pub insert_into_children-IsStep :
      (left : ℕ) (ins : QuadPoint → QuadNode → QuadNode)
      → IsInsertion left ins
      → (p : QuadPoint) (b : Bounds) (n1 n2 n3 n4 : QuadNode) → IsExact (suc left) b
      → IsPlaced (suc left) (branch b n1 n2 n3 n4)
      → contains b p ≡ true
      → IsStep
          (suc left)
          p
          (branch b n1 n2 n3 n4)
          (insert_into_children ins p (branch b n1 n2 n3 n4))
  unfolding insert_into_children IsExact
  insert_into_children-IsStep left ins good p b n1 n2 n3 n4 (ex, ey, x1, x2, x3, x4) h inside =
      let (b1, p1, b2, p2, b3, p3, b4, p4, _) = h in
      elim (Bool-cases (contains (bounds_of n1) p)) [
        | inl c1 ↦
            rw c1 (step1 left p b n1 n2 n3 n4 (ins p n1) h inside (good p n1 (rw b1 x1) p1 c1))
        | inr c1 ↦ elim (Bool-cases (contains (bounds_of n2) p)) [
          | inl c2 ↦
              rw (c1, c2)
                (step2 left p b n1 n2 n3 n4 (ins p n2) h inside (good p n2 (rw b2 x2) p2 c2))
          | inr c2 ↦ elim (Bool-cases (contains (bounds_of n3) p)) [
            | inl c3 ↦
                rw (c1, c2, c3)
                  (step3 left p b n1 n2 n3 n4 (ins p n3) h inside (good p n3 (rw b3 x3) p3 c3))
            | inr c3 ↦
                let c4 : contains (bounds_of n4) p ≡ true =
                  rw b4 (covered b p ex ey inside (rw b1 at c1) (rw b2 at c2) (rw b3 at c3)) in
                rw (c1, c2, c3, c4)
                  (step4 left p b n1 n2 n3 n4 (ins p n4) h inside (good p n4 (rw b4 x4) p4 c4))
          ]
        ]
      ]
