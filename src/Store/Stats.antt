-- ===== src/Store/Stats.antt =====
-- `computeStats` of web/src/lib/data/store.ts: the figures at the top of the console.
use attesta_ai_powered_soc.Prelude.{
  ℕ, ◌+◌, ◌-◌, ◌*◌, ◌/◌, ◌^◌, ◌≤◌, ◌<◌, ◌≡◌, refl, Bool, true, false, Option, none, some, List, [],
  ◌∷◌, filter, length, max, All, arith,
}
use attesta_ai_powered_soc.Prelude.Int.{pos, negsuc, sub_ℕ}
use attesta_ai_powered_soc.Types.{
  Case, open_status, investigating, escalated, dismissed, closed, StatTile, count, duration_s,
  percent, down, up,
}
use attesta_ai_powered_soc.Rng.{Xorshift32, Rand, ◌>>=◌, pure, new_rng, draw, array_from}
use attesta_ai_powered_soc.Rng.Fractions.{Doubles}
use attesta_ai_powered_soc.Rng.Sample.{Stays, Stays-le}
use attesta_ai_powered_soc.Rng.Runs.{Runs, Runs-pure, Runs-bind, Runs-draw, Runs-array_from}
use attesta_ai_powered_soc.Store.{Store, list_cases}

-- `openStatuses.has(c.status)`
abbrev pub is_open : Case → Bool
is_open c = elim c.status [
  | open_status ↦ true
  | investigating ↦ true
  | escalated ↦ true
  | dismissed ↦ false
  | closed ↦ false
]

abbrev pub open_count : List Case → ℕ
open_count cases = length (filter is_open cases)

-- `Math.round(n * 0.93)` and `Math.round(n * 0.08)`, which the products in doubles give for every n
-- up to 300000
abbrev pub scaled_93 : ℕ → ℕ
scaled_93 n = (186 * n + 100) / 200

abbrev pub scaled_8 : ℕ → ℕ
scaled_8 n = (16 * n + 100) / 200

abbrev tiles_of : Option (List StatTile × Xorshift32) → Option (List StatTile)
tiles_of none = none
tiles_of (some (tiles, r)) = some tiles

abbrev open_tile : ℕ → List ℕ → StatTile
open_tile n trend = record {
  id = "open-by-severity";
  label = "Open cases";
  value = n;
  unit = count;
  delta = sub_ℕ n (scaled_93 n);
  baseline_label = "vs same time yesterday";
  trend = trend;
  good_direction = down;
}

abbrev detect_tile : List ℕ → StatTile
detect_tile trend = record {
  id = "mttd";
  label = "Mean time to detect";
  value = 47;
  unit = duration_s;
  delta = negsuc 5;
  baseline_label = "vs trailing 7d";
  trend = trend;
  good_direction = down;
}

abbrev respond_tile : List ℕ → StatTile
respond_tile trend = record {
  id = "mttr";
  label = "Mean time to respond";
  value = 312;
  unit = duration_s;
  delta = pos 18;
  baseline_label = "vs trailing 7d";
  trend = trend;
  good_direction = down;
}

abbrev close_tile : List ℕ → StatTile
close_tile trend = record {
  id = "autonomous-close-rate";
  label = "Autonomous-close rate";
  value = 34;
  unit = percent;
  delta = pos 3;
  baseline_label = "vs trailing 30d";
  trend = trend;
  good_direction = up;
}

abbrev drift_tile : List ℕ → StatTile
drift_tile trend = record {
  id = "drift-alerts-today";
  label = "Drift alerts today";
  value = 6;
  unit = count;
  delta = pos 2;
  baseline_label = "vs yesterday";
  trend = trend;
  good_direction = down;
}

-- A tile whose trend has twelve points, all within `spread` of `base`.
abbrev pub HasTrend : ℕ → ℕ → StatTile → Type 0
HasTrend base spread tile =
    (length tile.trend ≡ 12) × All (λ v. (base - spread ≤ v) × (v ≤ base + spread)) tile.trend

module _ ⦃fp : Doubles⦄ where
  -- `Math.max(0, Math.round(base + rng.int(-spread, spread)))`: the subtraction stops at 0.
  pub trend_point : ℕ → ℕ → Rand ℕ
  trend_point base spread = do k ← draw (2 * spread + 1); pure (base + k - spread)

  pub trend_of : ℕ → ℕ → Rand (List ℕ)
  unfolding trend_point
  trend_of base spread = array_from 12 (trend_point base spread)

  -- The tiles in their order, which is that of the draws.
  pub stat_tiles : ℕ → Rand (List StatTile)
  unfolding trend_of
  stat_tiles n = do
    open_trend ← trend_of n (max 1 (scaled_8 n))
    detect_trend ← trend_of 50 8
    respond_trend ← trend_of 300 30
    close_trend ← trend_of 32 5
    drift_trend ← trend_of 5 3
    pure (
        open_tile n open_trend
        ∷ detect_tile detect_trend
        ∷ respond_tile respond_trend
        ∷ close_tile close_trend
        ∷ drift_tile drift_trend
        ∷ [])

  abbrev stats_for : Option (List Case) → Option (List StatTile)
  stats_for none = none
  stats_for (some cases) =
      let n = open_count cases in tiles_of (stat_tiles n (new_rng (0x57a75 + n)))

  unfoldable pub compute_stats : Store → Option (List StatTile)
  unfolding stat_tiles
  compute_stats s = stats_for (list_cases s)

  trend_of-Runs :
      (base spread : ℕ)
      → spread < 2 ^ 51
      → Runs 12
          (λ t. (length t ≡ 12) × All (λ v. (base - spread ≤ v) × (v ≤ base + spread)) t)
          (trend_of base spread)
  unfolding trend_of trend_point
  trend_of-Runs base spread q = Runs-array_from 12 1 _ (
      Runs-bind 1 0 _ _ (Runs-draw (2 * spread + 1) (omega arith) (omega arith))
        λ k below. Runs-pure _ (omega arith, omega arith))

  -- what the five tiles show
  abbrev pub AreTiles : ℕ → List StatTile → Type 0
  AreTiles n tiles =
      (a : StatTile) × (b : StatTile) × (c : StatTile) × (d : StatTile) × (e : StatTile) × (tiles
        ≡ a ∷ b ∷ c ∷ d ∷ e ∷ [])
      × (a.value ≡ n)
      × (a.delta ≡ sub_ℕ n (scaled_93 n))
      × HasTrend n (max 1 (scaled_8 n)) a
      × HasTrend 50 8 b
      × HasTrend 300 30 c
      × HasTrend 32 5 d
      × HasTrend 5 3 e

  stat_tiles-Runs : (n : ℕ) → n < 2 ^ 50 → Runs 60 (AreTiles n) (stat_tiles n)
  unfolding stat_tiles
  stat_tiles-Runs n q =
      Runs-bind 12 48 _ _ (trend_of-Runs n (max 1 (scaled_8 n)) (omega arith)) λ t1 h1.
        Runs-bind 12 36 _ _ (trend_of-Runs 50 8 (omega arith)) λ t2 h2.
          Runs-bind 12 24 _ _ (trend_of-Runs 300 30 (omega arith)) λ t3 h3.
            Runs-bind 12 12 _ _ (trend_of-Runs 32 5 (omega arith)) λ t4 h4.
              Runs-bind 12 0 _ _ (trend_of-Runs 5 3 (omega arith))
                λ t5 h5. Runs-pure _ (_, _, _, _, _, refl, refl, refl, h1, h2, h3, h4, h5)

  -- When the store lists its cases, `computeStats` returns its five tiles while the 60 outputs that it draws stay
  -- below 0xffffffff. The first shows the number of open, investigating and escalated cases, and how
  -- far that is above 93 percent of it, rounded; every trend has twelve points, within its spread of
  -- its base and never below 0.
  pub compute_stats-returns :
      (s : Store) (cases : List Case)
      → list_cases s ≡ some cases
      → open_count cases < 2 ^ 50
      → Stays 60 (new_rng (0x57a75 + open_count cases))
      → (tiles : List StatTile) × (compute_stats s ≡ some tiles) × AreTiles (open_count cases) tiles
  unfolding compute_stats
  compute_stats-returns s cases listed q h =
      let n = open_count cases in
      let (tiles, r', e, good, _) =
        (stat_tiles-Runs n q).run 0 (new_rng (0x57a75 + n))
          (Stays-le (60 + 0) 60 (new_rng (0x57a75 + n)) (omega arith) h) in
      (tiles, rw (listed, e) refl, good)
