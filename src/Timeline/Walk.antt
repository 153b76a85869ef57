-- ===== src/Timeline/Walk.antt =====
-- A walk along the segments of web/src/components/timeline/timeline-track.tsx, which gives what its two
-- searches give.
use native.Mathlib.Nat.{mul-le-mul_right}
use attesta_ai_powered_soc.Prelude.{
  ℕ, suc, ◌+◌, ◌-◌, ◌*◌, ◌≤◌, ◌<◌, ◌≡◌, refl, true, false, none, List, [], ◌∷◌, find, In, inl, inr,
  ltb, leb, Bool-cases, if◌then◌else◌, arith,
}
use attesta_ai_powered_soc.Prelude.Sort.{IsSortedBy, later}
use attesta_ai_powered_soc.Types.{TimelineEvent}
use attesta_ai_powered_soc.Seed.Timeline.{at_ms_of}
use attesta_ai_powered_soc.Timeline.{
  Segment, last_ms, lay_after, lay, right_end, holds, in_gap, placed,
}

-- Segments one after the other in time, from `from` on.
abbrev pub AreApart : ℕ → List Segment → Type 0
AreApart from [] = Unit
AreApart from (s ∷ rest) =
    (from ≤ s.start_ms) × (s.start_ms ≤ s.end_ms) × AreApart (suc s.end_ms) rest

pub AreApart-earlier :
    (from sooner : ℕ) (segments : List Segment)
    → sooner ≤ from
    → AreApart from segments
    → AreApart sooner segments
AreApart-earlier from sooner [] le h = tt
AreApart-earlier from sooner (s ∷ rest) le (h1, h2, h) = (omega arith, h2, h)

-- Events in the order of their times, from a time on.
abbrev pub IsSortedFrom : ℕ → List TimelineEvent → Type 0
IsSortedFrom last [] = Unit
IsSortedFrom last (e ∷ events) = (last ≤ e.at_ms) × IsSortedFrom e.at_ms events

pub IsSortedBy-from :
    (e : TimelineEvent) (events : List TimelineEvent)
    → IsSortedBy (later at_ms_of) (e ∷ events)
    → IsSortedFrom e.at_ms events
IsSortedBy-from e [] h = tt
IsSortedBy-from e (f ∷ events) ((he, _), h) = (ground (arith, he), IsSortedBy-from f events h)

pub last_ms-ge :
    (last : ℕ) (events : List TimelineEvent) → IsSortedFrom last events → last ≤ last_ms last events
last_ms-ge last [] h = omega arith
last_ms-ge last (e ∷ events) (le, h) = omega (arith, last_ms-ge e.at_ms events h)

pub In-last_ms :
    (last : ℕ) (events : List TimelineEvent) (e : TimelineEvent)
    → IsSortedFrom last events
    → In e events
    → e.at_ms ≤ last_ms last events
In-last_ms last (f ∷ events) e (le, h) (inl same) = rw (← same) (last_ms-ge f.at_ms events h)
In-last_ms last (f ∷ events) e (le, h) (inr m) = In-last_ms f.at_ms events e h m
In-last_ms last [] e h m = elim m [ ]

module _ (rate unit : ℕ) where
  -- On the track too, from `px` on, and wide enough for their times.
  abbrev pub AreLaid : ℕ → ℕ → List Segment → Type 0
  AreLaid from px [] = Unit
  AreLaid from px (s ∷ rest) =
      (from ≤ s.start_ms)
      × (s.start_ms ≤ s.end_ms)
      × (px ≤ s.px_start)
      × ((s.end_ms - s.start_ms) * rate ≤ s.px_width)
      × AreLaid (suc s.end_ms) (s.px_start + s.px_width) rest

  lay_after-AreLaid :
      (segments : List Segment) (from px cursor : ℕ)
      → px ≤ cursor
      → AreApart from segments
      → AreLaid from px (lay_after rate unit cursor segments)
  unfolding lay_after
  lay_after-AreLaid [] from px cursor le h = tt
  lay_after-AreLaid (s ∷ rest) from px cursor le (h1, h2, h) =
      (h1, h2, omega arith, omega arith, lay_after-AreLaid rest (suc s.end_ms) _ _ (omega arith) h)

  pub lay-AreLaid :
      (segments : List Segment) (from : ℕ)
      → AreApart from segments
      → AreLaid from 0 (lay rate unit segments)
  unfolding lay
  lay-AreLaid [] from h = tt
  lay-AreLaid (s ∷ rest) from (h1, h2, h) =
      (h1, h2, omega arith, omega arith, lay_after-AreLaid rest (suc s.end_ms) _ _ (omega arith) h)

  -- The segments end at `end`.
  abbrev pub EndAt : ℕ → ℕ → List Segment → Type 0
  EndAt px end [] = px ≤ end
  EndAt px end (s ∷ rest) = EndAt (s.px_start + s.px_width) end rest

  pub right_end-EndAt :
      (px : ℕ) (s : Segment) (rest : List Segment) → EndAt px (right_end (s ∷ rest)) (s ∷ rest)
  right_end-EndAt px s [] = omega arith
  right_end-EndAt px s (t ∷ rest) = right_end-EndAt (s.px_start + s.px_width) t rest

  EndAt-le :
      (px end from : ℕ) (segments : List Segment)
      → AreLaid from px segments
      → EndAt px end segments
      → px ≤ end
  EndAt-le px end from [] h e = e
  EndAt-le px end from (s ∷ rest) (h1, h2, h3, h4, h) e =
      let more = EndAt-le (s.px_start + s.px_width) end (suc s.end_ms) rest h e in
      omega (arith, more)

  -- One walk along the segments in place of two searches.
  pub locate : List Segment → ℕ → ℕ → ℕ
  locate [] end ms = end
  locate (s ∷ rest) end ms =
      let onward = locate rest end ms in
      if ltb ms s.start_ms
      then s.px_start
      else if leb ms s.end_ms
      then s.px_start + (ms - s.start_ms) * rate
      else onward

  locate-ge :
      (segments : List Segment) (from px end ms : ℕ)
      → AreLaid from px segments
      → EndAt px end segments
      → px ≤ locate segments end ms
  unfolding locate
  locate-ge [] from px end ms h e = e
  locate-ge (s ∷ rest) from px end ms (h1, h2, h3, h4, h) e =
      let later = locate-ge rest (suc s.end_ms) (s.px_start + s.px_width) end ms h e in
      ground (arith, later)

  pub mul_mono : (a b : ℕ) → a ≤ b → a * rate ≤ b * rate
  mul_mono a b h = mul-le-mul_right rate h

  pub locate_mono :
      (segments : List Segment) (from px end a b : ℕ)
      → AreLaid from px segments
      → EndAt px end segments
      → a ≤ b
      → locate segments end a ≤ locate segments end b
  unfolding locate
  locate_mono [] from px end a b h e le = omega arith
  locate_mono (s ∷ rest) from px end a b (h1, h2, h3, h4, h) e le =
      let behind = s.px_start + s.px_width in
      let later = locate-ge rest (suc s.end_ms) behind end b h e in
      let both = locate_mono rest (suc s.end_ms) behind end a b h e le in
      let inside = mul_mono (a - s.start_ms) (b - s.start_ms) (omega arith) in
      elim (Bool-cases (leb a s.end_ms)) [
        | inl e1 ↦
            let width = mul_mono (a - s.start_ms) (s.end_ms - s.start_ms) (ground (arith, e1)) in
            ground (arith, later, both, inside, width)
        | inr e1 ↦ ground (arith, e1, later, both, inside)
      ]

  pub locate-le :
      (segments : List Segment) (from px end ms : ℕ)
      → AreLaid from px segments
      → EndAt px end segments
      → locate segments end ms ≤ end
  unfolding locate
  locate-le [] from px end ms h e = omega arith
  locate-le (s ∷ rest) from px end ms (h1, h2, h3, h4, h) e =
      let behind = s.px_start + s.px_width in
      let more = locate-le rest (suc s.end_ms) behind end ms h e in
      let room = EndAt-le behind end (suc s.end_ms) rest h e in
      elim (Bool-cases (leb ms s.end_ms)) [
        | inl e1 ↦
            let width = mul_mono (ms - s.start_ms) (s.end_ms - s.start_ms) (ground (arith, e1)) in
            ground (arith, more, room, width)
        | inr e1 ↦ ground (arith, e1, more, room)
      ]

  -- No later segment holds an earlier time.
  none_later :
      (segments : List Segment) (from px ms : ℕ)
      → AreLaid from px segments
      → ms < from
      → find (holds ms) segments ≡ none
  none_later [] from px ms h lt = refl
  none_later (s ∷ rest) from px ms (h1, h2, h3, h4, h) lt =
      ground (arith, none_later rest (suc s.end_ms) (s.px_start + s.px_width) ms h (omega arith))

  -- The walk gives the two searches' answer.
  pub locate-eq :
      (segments : List Segment) (from px end ms : ℕ)
      → AreLaid from px segments
      → placed rate unit ms
          (find (holds ms) segments)
          (in_gap (find (λ (s : Segment). ltb ms s.start_ms) segments) end)
        ≡ locate segments end ms
  unfolding locate
  locate-eq [] from px end ms h = refl
  locate-eq (s ∷ rest) from px end ms (h1, h2, h3, h4, h) =
      let behind = s.px_start + s.px_width in
      let more = locate-eq rest (suc s.end_ms) behind end ms h in
      elim (Bool-cases (ltb ms s.start_ms)) [
        | inl e1 ↦
            let gone = none_later rest (suc s.end_ms) behind ms h (ground (arith, e1)) in
            let out : leb s.start_ms ms ≡ false = ground (arith, e1) in rw (e1, out, gone) refl
        | inr e1 ↦
            let begun : leb s.start_ms ms ≡ true = ground (arith, e1) in
            elim (Bool-cases (leb ms s.end_ms)) [
              | inl e2 ↦ rw (e1, begun, e2) refl
              | inr e2 ↦ rw (e1, begun, e2) more
            ]
      ]
