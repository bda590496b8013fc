-- ===== src/Queries.antt =====
-- backend/src/psychron/adapters/queries.py, `ReadQueries`: what each query selects of the tables,
-- in which order, and how much of it. What PostgreSQL computes of the values of a column, and the
-- continuous aggregates that TimescaleDB keeps of the readings, are parameters. A date beyond the
-- calendar's ends raises OverflowError.
pub mod Phone
pub mod Health
pub mod Pages
pub mod Nearest
pub mod Outages
pub mod Covered
mod Tests
use psychron.Base.{
  Bool, List, Option, String, [], if◌then◌else◌, leb, length, ltb, map, none, select, some, str_eq,
  take, ℕ, ◌&&◌, ◌*◌, ◌+◌, ◌-◌, ◌∷◌,
}
use psychron.Database.{Database}
use psychron.Instant.{Instant, minus_ms, plus_ms}
use psychron.Raise.{Result, ok, ◌>>=◌, ◌>>◌}
use psychron.Sorting.{ascending, descending, order_by}
use psychron.Telemetry.{ResolvedReading}

-- `timedelta(hours=n)` and `timedelta(days=n)`, in microseconds
abbrev pub hours : ℕ → ℕ
hours n = n * 3600000000

abbrev pub days : ℕ → ℕ
days n = n * 86400000000

abbrev pub minutes_ms : ℕ → ℕ
minutes_ms n = n * 60000

abbrev pub max_points : ℕ
max_points = 5000

-- `cur.fetchone()`
abbrev pub fetchone : {A : Type 0} → List A → Option A
fetchone [] = none
fetchone (row ∷ rows) = some row

-- `t >= start AND t < end`
abbrev pub in_range : Instant → Instant → Instant → Bool
in_range start stop t = leb start t && ltb t stop

-- `t BETWEEN lo AND hi`
abbrev pub between : Instant → Instant → Instant → Bool
between lo hi t = leb lo t && leb t hi

pub record Series (A : Type 0) : Type 0 where
  pub bucket : String
  pub points : List A
  pub truncated : Bool

-- a `_LADDER`: the spans that a tier answers, None for the last, with what is in its other columns
abbrev pub Ladder : Type 0
Ladder = List (Option ℕ × Option String × String)

-- the loop of `choose_bucket`, with the value that follows it; a span below zero is in any tier
unfoldable pub rung : ℕ → Ladder → Option String × String → Option String × String
rung span [] default = default
rung span ((none, view, label) ∷ ladder) default = (view, label)
rung span ((some limit, view, label) ∷ ladder) default =
    if leb span limit then (view, label) else rung span ladder default

abbrev pub reading_ladder : Ladder
reading_ladder =
    (some (hours 3), none, "3s")
    ∷ (some (days 2), some "reading_1m", "1m")
    ∷ (some (days 60), some "reading_1h", "1h")
    ∷ (none, some "reading_1d", "1d")
    ∷ []

unfoldable pub choose_bucket : Instant → Instant → Option String × String
unfolding rung
choose_bucket start stop = rung (stop - start) reading_ladder (some "reading_1d", "1d")

module _ {A : Type 0} (t : A → Instant) where
  -- `ORDER BY t LIMIT MAX_POINTS + 1`, and the Series that is built of the rows
  unfoldable pub paged : String → List A → Series A
  paged label selected =
      let rows = take (max_points + 1) (order_by (ascending t) selected) in
      record {
        bucket = label;
        points = take max_points rows;
        truncated = ltb max_points (length rows);
      }

-- a point of `series`
pub record Point (F : Type 0) : Type 0 where
  pub t : Instant
  pub temp : Option F
  pub hum : Option F
  pub temp_min : Option F
  pub temp_max : Option F
  pub quality : ℕ

-- a row of a continuous aggregate
pub record Aggregate (F : Type 0) : Type 0 where
  pub bucket : Instant
  pub device_id : String
  pub temp_avg : Option F
  pub hum_avg : Option F
  pub temp_min : Option F
  pub temp_max : Option F

module _ {F : Type 0} where
  abbrev pub of_device : String → ResolvedReading F → Bool
  of_device device_id r = str_eq r.device_id device_id

  -- the readings of a device in a range
  unfoldable pub readings_in : String → Instant → Instant → Database F → List (ResolvedReading F)
  readings_in device_id start stop db =
      select (λ r. of_device device_id r && in_range start stop r.time) db.readings

  abbrev pub raw_point : ResolvedReading F → Point F
  raw_point r = record {
    t = r.time;
    temp = r.temperature_c;
    hum = r.humidity_pct;
    temp_min = none;
    temp_max = none;
    quality = r.quality;
  }

  abbrev pub bucket_point : Aggregate F → Point F
  bucket_point a = record {
    t = a.bucket;
    temp = a.temp_avg;
    hum = a.hum_avg;
    temp_min = a.temp_min;
    temp_max = a.temp_max;
    quality = 0;
  }

  -- `latest`
  unfoldable pub latest_reading : String → Database F → Option (ResolvedReading F)
  latest_reading device_id db =
      fetchone (order_by (descending (λ r. r.time)) (select (of_device device_id) db.readings))

  -- `abs(EXTRACT(EPOCH FROM time - target))`
  abbrev pub distance : Instant → ResolvedReading F → ℕ
  distance target r = if leb r.time target then target - r.time else r.time - target

  unfoldable pub near : String → Instant → ℕ → Database F → Result (Option (ResolvedReading F))
  near device_id target tolerance_ms db = do
    earliest ← minus_ms target tolerance_ms
    last ← plus_ms target tolerance_ms
    ok (
        fetchone (
          order_by (ascending (distance target))
            (select (λ r. of_device device_id r && between earliest last r.time) db.readings)))

  -- `stream_readings`
  unfoldable pub stream_readings :
      String → Instant → Instant → Database F → List (ResolvedReading F)
  unfolding readings_in
  stream_readings device_id start stop db =
      order_by (ascending (λ r. r.time)) (readings_in device_id start stop db)

  unfoldable pub count_readings : String → Instant → Instant → Database F → ℕ
  unfolding readings_in
  count_readings device_id start stop db = length (readings_in device_id start stop db)

module _ {F : Type 0} (views : String → Database F → List (Aggregate F)) where
  -- FROM and WHERE of `series`, for a tier
  unfoldable pub tier_rows :
      Option String → String → Instant → Instant → Database F → List (Point F)
  unfolding readings_in
  tier_rows none device_id start stop db = map raw_point (readings_in device_id start stop db)
  tier_rows (some view) device_id start stop db =
      map bucket_point
        (select (λ a. str_eq a.device_id device_id && in_range start stop a.bucket) (views view db))

  unfoldable pub series : String → Instant → Instant → Database F → Series (Point F)
  unfolding choose_bucket tier_rows paged
  series device_id start stop db =
      let (view, label) = choose_bucket start stop in
      paged (λ p. p.t) label (tier_rows view device_id start stop db)
