-- ===== src/Timeline/Order.antt =====
-- The scale of web/src/components/timeline/timeline-track.tsx keeps the order of times and stays on the
-- track.
use attesta_ai_powered_soc.Prelude.{
  ℕ, suc, ◌-◌, ◌≤◌, Bool, true, false, List, [], ◌∷◌, In, inl, inr, ltb, Bool-cases, arith,
}
use attesta_ai_powered_soc.Prelude.Sort.{IsSortedBy, later, sort_by-IsSortedBy, In-sort_by}
use attesta_ai_powered_soc.Types.{TimelineEvent}
use attesta_ai_powered_soc.Seed.Timeline.{at_ms_of, sort_events}
use attesta_ai_powered_soc.Timeline.{
  Segment, idle_gap_threshold_ms, split_loop, last_ms, lay, right_end, to_px, Scale, scale_of,
  build_scale,
}
use attesta_ai_powered_soc.Timeline.Walk.{
  AreApart, AreApart-earlier, IsSortedFrom, IsSortedBy-from, last_ms-ge, In-last_ms, AreLaid,
  lay-AreLaid, EndAt, right_end-EndAt, locate_mono, locate-le, locate-eq, mul_mono,
}

module _ (rate unit : ℕ) where
  -- The first loop's segments are apart in time.
  split_loop-AreApart :
      (start last : ℕ) (events : List TimelineEvent)
      → start ≤ last
      → IsSortedFrom last events
      → AreApart start (split_loop start last events)
  unfolding split_loop
  split_loop-AreApart start last [] h sorted = (omega arith, h, tt)
  split_loop-AreApart start last (e ∷ events) h (le, sorted) =
      elim (Bool-cases (ltb idle_gap_threshold_ms (e.at_ms - last))) [
        | inl gap ↦ rw gap (
          omega arith,
          h,
          AreApart-earlier e.at_ms (suc last) _ (ground (arith, gap))
              (split_loop-AreApart e.at_ms e.at_ms events (omega arith) sorted),
        )
        | inr joined ↦ rw joined (split_loop-AreApart start e.at_ms events (omega arith) sorted)
      ]

  all_EndAt : (segments : List Segment) → EndAt rate unit 0 (right_end segments) segments
  all_EndAt [] = omega arith
  all_EndAt (s ∷ rest) = right_end-EndAt rate unit 0 s rest

  to_px_mono :
      (segments : List Segment) (from a b : ℕ)
      → AreLaid rate unit from 0 segments
      → a ≤ b
      → to_px rate unit segments a ≤ to_px rate unit segments b
  unfolding to_px
  to_px_mono segments from a b h le =
      let end = right_end segments in
      rw (locate-eq rate unit segments from 0 end a h, locate-eq rate unit segments from 0 end b h)
        (locate_mono rate unit segments from 0 end a b h (all_EndAt segments) le)

  to_px-le :
      (segments : List Segment) (from ms : ℕ)
      → AreLaid rate unit from 0 segments
      → to_px rate unit segments ms ≤ right_end segments
  unfolding to_px
  to_px-le segments from ms h =
      let end = right_end segments in
      rw (locate-eq rate unit segments from 0 end ms h)
        (locate-le rate unit segments from 0 end ms h (all_EndAt segments))

  -- What the track relies on.
  abbrev Keeps : List TimelineEvent → Scale → Type 0
  Keeps events s =
      ((a b : ℕ) → a ≤ b → s.position a ≤ s.position b)
      × ((e : TimelineEvent) → In e events → s.position e.at_ms ≤ s.total_px)

  scale_of-Keeps :
      (compress : Bool) (events : List TimelineEvent)
      → IsSortedBy (later at_ms_of) events
      → Keeps events (scale_of rate unit compress events)
  unfolding scale_of
  scale_of-Keeps compress [] h = (λ a b le. omega arith, λ e m. elim m [ ])
  scale_of-Keeps false (f ∷ events) h =
      let sorted = IsSortedBy-from f events h in
      (
        λ a b le. mul_mono rate unit (a - f.at_ms) (b - f.at_ms) (omega arith),
        λ e m.
            let late : e.at_ms ≤ last_ms f.at_ms events = elim m [
              | inl same ↦ rw (← same) (last_ms-ge f.at_ms events sorted)
              | inr n ↦ In-last_ms f.at_ms events e sorted n
            ] in
            let inside =
              mul_mono rate unit (e.at_ms - f.at_ms) (last_ms f.at_ms events - f.at_ms)
                (omega arith) in
            omega (arith, inside),
      )
  scale_of-Keeps true (f ∷ events) h =
      let segments = split_loop f.at_ms f.at_ms events in
      let laid =
        lay-AreLaid rate unit segments f.at_ms
          (split_loop-AreApart f.at_ms f.at_ms events (omega arith) (IsSortedBy-from f events h)) in
      (
        λ a b le. to_px_mono (lay rate unit segments) f.at_ms a b laid le,
        λ e m. to_px-le (lay rate unit segments) f.at_ms e.at_ms laid,
      )

  -- Compressed or not, a later time is never left of an earlier one, and every event stands on the
  -- track.
  pub build_scale_lem :
      (events : List TimelineEvent) (compress : Bool)
      → let s = build_scale rate unit events compress in
        ((a b : ℕ) → a ≤ b → s.position a ≤ s.position b)
        × ((e : TimelineEvent) → In e events → s.position e.at_ms ≤ s.total_px)
  unfolding build_scale
  build_scale_lem events compress =
      let (order, bound) =
        scale_of-Keeps compress (sort_events events) (sort_by-IsSortedBy at_ms_of events) in
      (order, λ e m. bound e (In-sort_by (later at_ms_of) e events m))
