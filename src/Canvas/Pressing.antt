-- ===== src/Canvas/Pressing.antt =====
-- What web/src/components/investigation-canvas/graph-canvas.tsx selects, over whole sequences of its
-- pointer's events.
use attesta_ai_powered_soc.Prelude.{
  ◌≡◌, refl, ◌⊎◌, inl, inr, String, Bool, true, false, ◌||◌, Option, none, some, List, [], ◌∷◌, any,
  if◌then◌else◌,
}
use attesta_ai_powered_soc.Types.{GraphEdge}
use attesta_ai_powered_soc.Canvas.Selection.{
  Selection, Hit, on_miss, on_click, Pointer, down, move, lift, Canvas, after_lift, on_pointer,
  run_pointer,
}

-- Not both a node and an edge.
abbrev pub IsSingle : Selection → Type 0
IsSingle s = (s.node_id ≡ none) ⊎ (s.edge ≡ none)

on_click-IsSingle : (hit : Hit) (s : Selection) → IsSingle (on_click hit s)
on_click-IsSingle hit s = go hit.node hit.edge refl refl
  where
    go :
        (n : Option String) (e : Option GraphEdge)
        → hit.node ≡ n
        → hit.edge ≡ e
        → IsSingle (on_click hit s)
    go (some id) e hn he = rw hn (inr refl)
    go none none hn he = rw (hn, he) (inr refl)
    go none (some e) hn he = rw (hn, he) (inl refl)

on_pointer-IsSingle :
    (p : Pointer) (c : Canvas) → IsSingle c.selection → IsSingle (on_pointer p c).selection
unfolding on_pointer
on_pointer-IsSingle down c h = h
on_pointer-IsSingle (move far) c h = h
on_pointer-IsSingle (lift hit) c h = go c.drag refl
  where
    go : (d : Option Bool) → c.drag ≡ d → IsSingle (after_lift hit c.drag c.selection)
    go none e = rw e h
    go (some true) e = rw e h
    go (some false) e = rw e (on_click-IsSingle hit c.selection)

run_pointer-IsSingle :
    (ps : List Pointer) (c : Canvas) → IsSingle c.selection → IsSingle (run_pointer ps c).selection
unfolding run_pointer
run_pointer-IsSingle [] c h = h
run_pointer-IsSingle (p ∷ ps) c h =
    run_pointer-IsSingle ps (on_pointer p c) (on_pointer-IsSingle p c h)

-- The pointer goes down, moves, and is lifted over something.
abbrev pub press : List Bool → Hit → List Pointer
press [] hit = lift hit ∷ []
press (far ∷ more) hit = move far ∷ press more hit

press_from :
    (moves : List Bool) (hit : Hit) (dragged : Bool) (s : Selection)
    → (run_pointer (press moves hit) (record { drag = some dragged; selection = s })).selection
      ≡ (if dragged || any (λ b. b) moves then s else on_click hit s)
unfolding run_pointer on_pointer
press_from [] hit true s = refl
press_from [] hit false s = refl
press_from (far ∷ more) hit true s = press_from more hit true s
press_from (true ∷ more) hit false s = press_from more hit true s
press_from (false ∷ more) hit false s = press_from more hit false s

-- Whatever the pointer does, never both a node and an edge are selected. A press with a move of more
-- than two pixels keeps the selection; any other selects what it hits: the node near it, else the
-- edge near it, else nothing.
pub run_pointer_lem :
    (ps : List Pointer) (moves : List Bool) (hit : Hit) (c : Canvas)
    → IsSingle c.selection
    → IsSingle (run_pointer ps c).selection
      × ((run_pointer (down ∷ press moves hit) c).selection
          ≡ (if any (λ b. b) moves then c.selection else on_click hit c.selection))
      × ((on_click hit c.selection).node_id ≡ hit.node)
      × (hit.node ≡ none → (on_click hit c.selection).edge ≡ hit.edge)
unfolding run_pointer on_pointer
run_pointer_lem ps moves hit c h = (
  run_pointer-IsSingle ps c h,
  press_from moves hit false c.selection,
  clicked hit.node hit.edge refl refl,
  λ gone. rw gone (missed hit.edge refl),
)
  where
    clicked :
        (n : Option String) (e : Option GraphEdge)
        → hit.node ≡ n
        → hit.edge ≡ e
        → (on_click hit c.selection).node_id ≡ hit.node
    clicked (some id) e hn he = rw hn refl
    clicked none none hn he = rw (hn, he) refl
    clicked none (some e) hn he = rw (hn, he) refl

    missed : (e : Option GraphEdge) → hit.edge ≡ e → (on_miss hit.edge c.selection).edge ≡ hit.edge
    missed none he = rw he refl
    missed (some e) he = rw he refl
