-- ===== src/Timeline.antt =====
-- `buildScale` of web/src/components/timeline/timeline-track.tsx, from times to pixels. Lengths are
-- counted in parts of a pixel, `unit` to one, in which a millisecond takes `rate`: exact arithmetic in
-- place of doubles.
pub mod Walk
pub mod Order
use attesta_ai_powered_soc.Prelude.{
  ℕ, ◌+◌, ◌-◌, ◌*◌, max, Bool, true, false, ◌&&◌, Option, none, some, List, [], ◌∷◌, find, ltb, leb,
  if◌then◌else◌,
}
use attesta_ai_powered_soc.Types.{TimelineEvent}
use attesta_ai_powered_soc.Seed.Timeline.{sort_events}

pub record Segment : Type 0 where
  pub start_ms : ℕ
  pub end_ms : ℕ
  pub px_start : ℕ
  pub px_width : ℕ

-- an hour
abbrev pub idle_gap_threshold_ms : ℕ
idle_gap_threshold_ms = 3_600_000

abbrev pub compressed_gap_px : ℕ
compressed_gap_px = 24

abbrev pub bare : ℕ → ℕ → Segment
bare start last = record { start_ms = start; end_ms = last; px_start = 0; px_width = 0 }

-- The first loop, with the start of the open segment and the last time seen.
unfoldable pub split_loop : ℕ → ℕ → List TimelineEvent → List Segment
split_loop start last [] = bare start last ∷ []
split_loop start last (e ∷ events) =
    let apart = split_loop e.at_ms e.at_ms events in
    let joined = split_loop start e.at_ms events in
    if ltb idle_gap_threshold_ms (e.at_ms - last) then bare start last ∷ apart else joined

abbrev pub last_ms : ℕ → List TimelineEvent → ℕ
last_ms last [] = last
last_ms last (e ∷ events) = last_ms e.at_ms events

pub record Scale : Type 0 where
  pub segments : List Segment
  pub total_px : ℕ
  pub position : ℕ → ℕ

-- the cursor after the last segment, which is its right end
abbrev pub right_end : List Segment → ℕ
right_end [] = 0
right_end (s ∷ []) = s.px_start + s.px_width
right_end (s ∷ t ∷ rest) = right_end (t ∷ rest)

abbrev pub holds : ℕ → Segment → Bool
holds ms s = leb s.start_ms ms && leb ms s.end_ms

abbrev pub in_gap : Option Segment → ℕ → ℕ
in_gap none end = end
in_gap (some s) end = s.px_start

module _ (rate unit : ℕ) where
  abbrev pub width_of : Segment → ℕ
  width_of s = max (4 * unit) ((s.end_ms - s.start_ms) * rate)

  -- The second loop, behind the first segment.
  unfoldable pub lay_after : ℕ → List Segment → List Segment
  lay_after cursor [] = []
  lay_after cursor (s ∷ rest) =
      let at = cursor + compressed_gap_px * unit in
      record s { px_start = at; px_width = width_of s } ∷ lay_after (at + width_of s) rest

  unfoldable pub lay : List Segment → List Segment
  unfolding lay_after
  lay [] = []
  lay (s ∷ rest) = record s { px_start = 0; px_width = width_of s } ∷ lay_after (width_of s) rest

  abbrev pub placed : ℕ → Option Segment → ℕ → ℕ
  placed ms none otherwise = otherwise
  placed ms (some s) otherwise = s.px_start + (ms - s.start_ms) * rate

  -- `toPx` of the compressed scale
  unfoldable pub to_px : List Segment → ℕ → ℕ
  to_px segments ms =
      placed ms (find (holds ms) segments)
        (in_gap (find (λ (s : Segment). ltb ms s.start_ms) segments) (right_end segments))

  -- for the events in the order of their times
  unfoldable pub scale_of : Bool → List TimelineEvent → Scale
  unfolding split_loop lay to_px
  scale_of compress [] = record { segments = []; total_px = 0; position = λ ms. 0 }
  scale_of false (e ∷ events) =
      let total = max unit ((last_ms e.at_ms events - e.at_ms) * rate) in
      record {
        segments =
            record {
              start_ms = e.at_ms;
              end_ms = last_ms e.at_ms events;
              px_start = 0;
              px_width = total;
            }
            ∷ [];
        total_px = total;
        position = λ ms. (ms - e.at_ms) * rate;
      }
  scale_of true (e ∷ events) =
      let segments = lay (split_loop e.at_ms e.at_ms events) in
      record { segments = segments; total_px = right_end segments; position = to_px segments }

  unfoldable pub build_scale : List TimelineEvent → Bool → Scale
  unfolding scale_of
  build_scale events compress = scale_of compress (sort_events events)
