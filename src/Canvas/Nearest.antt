-- ===== src/Canvas/Nearest.antt =====
-- `nearest` of web/src/components/investigation-canvas/quadtree.ts finds a nearest candidate.
use attesta_ai_powered_soc.Prelude.{
  ◌≡◌, refl, ◌⊎◌, inl, inr, true, false, Option, none, some, List, [], ◌∷◌, In, All, Bool-cases,
}
use attesta_ai_powered_soc.Canvas.Quadtree.{
  Coordinates, QuadPoint, QuadNode, around, dist_sq, query_range, nearest_loop, nearest,
}
use attesta_ai_powered_soc.Canvas.Points.{IsIn}
use attesta_ai_powered_soc.Canvas.Query.{query_range-In}

module _ ⦃co : Coordinates⦄ where
  less_irrefl : (a : co.Number) → co.less a a ≡ false
  less_irrefl a = elim (Bool-cases (co.less a a)) [ inl e ↦ co.less-asym a a e | inr e ↦ e ]

  le_trans : (a b c : co.Number) → co.less b a ≡ false → co.less c b ≡ false → co.less c a ≡ false
  le_trans a b c h g = elim (Bool-cases (co.less c a)) [
    | inr e ↦ e
    | inl e ↦ let gone = co.less-le c a b e h in absurd (cc)
  ]

  module _ (x y : co.Number) where
    -- No point is closer than the best before, or one is a closest.
    abbrev Closest : List QuadPoint → Option QuadPoint → co.Number → Option QuadPoint → Type 0
    Closest ps best sq r =
        ((r ≡ best) × All (λ c. co.less sq (dist_sq x y c) ≡ true) ps)
        ⊎ ((p : QuadPoint) × (r ≡ some p)
            × In p ps
            × (co.less sq (dist_sq x y p) ≡ false)
            × All (λ c. co.less (dist_sq x y c) (dist_sq x y p) ≡ false) ps)

    All-asym :
        (d : co.Number) (ps : List QuadPoint)
        → All (λ c. co.less d (dist_sq x y c) ≡ true) ps
        → All (λ c. co.less (dist_sq x y c) d ≡ false) ps
    All-asym d [] h = tt
    All-asym d (c ∷ ps) (hc, h) = (co.less-asym d (dist_sq x y c) hc, All-asym d ps h)

    nearest_loop-Closest :
        (ps : List QuadPoint) (best : Option QuadPoint) (sq : co.Number)
        → Closest ps best sq (nearest_loop x y ps best sq)
    unfolding nearest_loop
    nearest_loop-Closest [] best sq = inl (refl, tt)
    nearest_loop-Closest (p ∷ ps) best sq =
        let d = dist_sq x y p in
        elim (Bool-cases (co.less sq d)) [
          | inr close ↦ rw close (elim (nearest_loop-Closest ps (some p) d) [
            | inl (e, far) ↦ inr (p, e, inl refl, close, (less_irrefl d, All-asym d ps far))
            | inr (q, e, m, nearer, all) ↦
                inr (q, e, inr m, le_trans (dist_sq x y q) d sq nearer close, (nearer, all))
          ])
          | inl far ↦ rw far (elim (nearest_loop-Closest ps best sq) [
            | inl (e, all) ↦ inl (e, (refl, all))
            | inr (q, e, m, near, all) ↦
                let after = co.le-less (dist_sq x y q) sq d near far in
                inr (q, e, inr m, near, (co.less-asym (dist_sq x y q) d after, all))
          ])
        ]

    -- `nearest` returns nothing exactly when each point that the query around the position returns is
    -- farther than the radius; otherwise a point of the tree within the radius, to which none of these
    -- is closer.
    pub nearest-Closest :
        (t : QuadNode) (radius : co.Number)
        → let candidates = query_range (around x y radius (co.add radius radius)) t in
          let limit = co.mul radius radius in
          ((nearest t x y radius ≡ none)
            × All (λ c. co.less limit (dist_sq x y c) ≡ true) candidates)
          ⊎ ((p : QuadPoint) × (nearest t x y radius ≡ some p)
              × IsIn p t
              × (co.less limit (dist_sq x y p) ≡ false)
              × All (λ c. co.less (dist_sq x y c) (dist_sq x y p) ≡ false) candidates)
    unfolding nearest
    nearest-Closest t radius =
        let q = around x y radius (co.add radius radius) in
        elim (nearest_loop-Closest (query_range q t) none (co.mul radius radius)) [
          | inl h ↦ inl h
          | inr (p, e, m, near, all) ↦ inr (p, e, (query_range-In q t p m).0, near, all)
        ]
