-- ===== src/Queries/Tests.antt =====
use psychron.Base.{
  All, List, String, [], any, arith, false, inl, inr, leb, map, none, pos, refl, some, true, ℤ, ◌+◌,
  ◌-◌, ◌∷◌, ◌≡◌, ◌⊎◌,
}
use psychron.Database.{Database}
use psychron.Fixture.{autumn, empty_database}
use psychron.Instant.{Instant, minus_ms, plus_ms}
use psychron.Queries.{
  Aggregate, choose_bucket, distance, in_range, near, paged, readings_in, rung, series, tier_rows,
}
use psychron.Queries.Covered.{gaps_cover, gaps_silent}
use psychron.Queries.Health.{
  all_gaps, earliest_of, edges, gaps_24h, lagged, latest_of, long_gaps, seen_since,
}
use psychron.Queries.Nearest.{is_near, near_closest}
use psychron.Queries.Outages.{covers}
use psychron.Queries.Pages.{IsPage, series-IsPage}
use psychron.Raise.{ok}
use psychron.Sorting.{order_by, place}
use psychron.Telemetry.{ResolvedReading}

-- backend/src/psychron/adapters/queries.py. The queries at concrete rows.

abbrev reading_at : Instant → ResolvedReading ℤ
reading_at t = record {
  time = t;
  device_id = "node-1";
  boot_id = 3;
  seq = 7;
  device_time = some t;
  received_at = t;
  uptime_ms = 60000;
  temperature_c = some (pos 215);
  humidity_pct = some (pos 480);
  quality = 0;
  firmware = "1.2.0";
}

-- two readings in the hour before the afternoon, the older one last
abbrev afternoon : Instant
afternoon = autumn + 3600000000

abbrev two_readings : Database ℤ
two_readings = record empty_database {
  readings = reading_at (autumn + 600000000) ∷ reading_at autumn ∷ [];
}

abbrev no_views : String → Database ℤ → List (Aggregate ℤ)
no_views view db = []

raw_tier : choose_bucket autumn afternoon ≡ (none, "3s")
unfolding choose_bucket rung
raw_tier = refl

in_time_order :
    map (λ p. p.t) ((series no_views "node-1" autumn afternoon two_readings).points)
    ≡ autumn ∷ (autumn + 600000000) ∷ []
unfolding series choose_bucket rung tier_rows readings_in paged order_by place
in_time_order = refl

series-IsPage_example :
    IsPage
      (λ p. p.t)
      (tier_rows no_views
        ((choose_bucket autumn afternoon).0)
        "node-1"
        autumn
        afternoon
        two_readings)
      (series no_views "node-1" autumn afternoon two_readings)
    × All
        (λ p. in_range autumn afternoon p.t ≡ true)
        ((series no_views "node-1" autumn afternoon two_readings).points)
series-IsPage_example = series-IsPage no_views "node-1" autumn afternoon two_readings

reachable : minus_ms autumn 1800000 ≡ ok (autumn - 1800000000)
unfolding minus_ms
reachable = refl

in_calendar : plus_ms autumn 1800000 ≡ ok (autumn + 1800000000)
unfolding plus_ms
in_calendar = refl

near_closest_example :
    (All (λ r. is_near "node-1" autumn 1800000 r ≡ false) two_readings.readings
      × (near "node-1" autumn 1800000 two_readings ≡ ok none))
    ⊎ ((row : ResolvedReading ℤ) × (near "node-1" autumn 1800000 two_readings ≡ ok (some row))
        × (is_near "node-1" autumn 1800000 row ≡ true)
        × All
            (λ r.
              is_near "node-1" autumn 1800000 r ≡ true
              → leb (distance autumn row) (distance autumn r) ≡ true)
            two_readings.readings)
near_closest_example =
    near_closest "node-1" autumn 1800000 (autumn - 1800000000) (autumn + 1800000000) two_readings
      reachable in_calendar

nearest_found : near "node-1" autumn 1800000 two_readings ≡ ok (some (reading_at autumn))
unfolding near minus_ms plus_ms order_by place
nearest_found = refl

-- the day is silent but for ten minutes
abbrev gaps_listed : List (Instant × Instant)
gaps_listed =
    (autumn + 600000000, afternoon)
    ∷ (autumn, autumn + 600000000)
    ∷ (afternoon - 86400000000, autumn)
    ∷ []

gaps_found : gaps_24h "node-1" afternoon two_readings ≡ ok gaps_listed
unfolding gaps_24h all_gaps minus_ms seen_since edges lagged long_gaps earliest_of latest_of
    order_by place
gaps_found = refl

gaps_cover_example : any (covers (autumn + 100000000) (autumn + 500000000)) gaps_listed ≡ true
gaps_cover_example =
    gaps_cover "node-1" afternoon (autumn + 100000000) (autumn + 500000000) two_readings gaps_listed
      gaps_found (omega arith) (omega arith) (omega arith) (omega arith) refl
      ((λ mine. inr (omega arith)), ((λ mine. inl (omega arith)), tt))

-- two days later
abbrev two_days_later : Instant
two_days_later = afternoon + 172800000000

gaps_silent_example : gaps_24h "node-1" two_days_later two_readings ≡ ok []
gaps_silent_example =
    gaps_silent "node-1" two_days_later two_readings (omega arith) (refl, (refl, tt))
