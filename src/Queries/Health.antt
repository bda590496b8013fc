-- ===== src/Queries/Health.antt =====
use psychron.Base.{
  List, Option, String, [], if◌then◌else◌, is_none, leb, length, ltb, map, none, not, select, some,
  take, ℕ, ◌&&◌, ◌++◌, ◌+◌, ◌-◌, ◌/◌, ◌==◌, ◌∷◌, is_some,
}
use psychron.Database.{Database}
use psychron.Instant.{Instant, minus_ms}
use psychron.Queries.{of_device, readings_in}
use psychron.Raise.{Result, ok, ◌>>=◌}
use psychron.Sorting.{ascending, descending, order_by}
use psychron.Alerting.{Alert}

-- backend/src/psychron/adapters/queries.py: `stats`, `extent`, the gaps of `device_health` and `alerts`.

-- what PostgreSQL computes of the values of a column that are not NULL, and Python's quotient
pub record Statistics (F S : Type 0) : Type 0 where
  -- min, max, avg, stddev_samp and the three percentiles
  pub summary : List F → S
  -- `min(1.0, a / b)`
  pub share : ℕ → ℕ → F

pub record Stats (F S : Type 0) : Type 0 where
  pub samples : ℕ
  pub failed : ℕ
  pub flagged : ℕ
  pub temperature : S
  pub humidity : S
  pub expected_samples : ℕ
  pub completeness : F

abbrev pub non_null : {A : Type 0} → List (Option A) → List A
non_null [] = []
non_null (none ∷ xs) = non_null xs
non_null (some x ∷ xs) = x ∷ non_null xs

-- `max(1, int((end - start).total_seconds() // 3))`, for a range that does not end before it starts
unfoldable pub expected_samples : Instant → Instant → ℕ
expected_samples start stop = let n = (stop - start) / 3000000 in if ltb n 1 then 1 else n

module _ {F S : Type 0} (statistics : Statistics F S) where
  unfoldable pub stats : String → Instant → Instant → Database F → Stats F S
  unfolding readings_in expected_samples
  stats device_id start stop db =
      let rows = readings_in device_id start stop db in
      record {
        samples = length rows;
        failed = length (select (λ r. is_none r.temperature_c) rows);
        flagged = length (select (λ r. not (r.quality == 0)) rows);
        temperature = statistics.summary (non_null (map (λ r. r.temperature_c) rows));
        humidity = statistics.summary (non_null (map (λ r. r.humidity_pct) rows));
        expected_samples = expected_samples start stop;
        completeness = statistics.share (length rows) (expected_samples start stop);
      }

-- min(time) and max(time)
unfoldable pub earliest_of : List Instant → Option Instant
earliest_of [] = none
earliest_of (t ∷ ts) = elim (earliest_of ts) [
  | none ↦ some t
  | some u ↦ if leb t u then some t else some u
]

unfoldable pub latest_of : List Instant → Option Instant
latest_of [] = none
latest_of (t ∷ ts) = elim (latest_of ts) [
  | none ↦ some t
  | some u ↦ if leb u t then some t else some u
]

-- `lag(time) OVER (ORDER BY time)` beside `time`, for times in order
unfoldable pub lagged : Option Instant → List Instant → List (Option Instant × Option Instant)
lagged previous [] = []
lagged previous (t ∷ ts) = (previous, some t) ∷ lagged (some t) ts

-- the WHERE clause of the outer query, which drops the rows with a NULL
unfoldable pub long_gaps : List (Option Instant × Option Instant) → List (Instant × Instant)
long_gaps [] = []
long_gaps ((none, gap_end) ∷ edges) = long_gaps edges
long_gaps ((some gap_start, none) ∷ edges) = long_gaps edges
long_gaps ((some gap_start, some gap_end) ∷ edges) =
    let rest = long_gaps edges in
    if ltb (gap_start + 30000000) gap_end then (gap_start, gap_end) ∷ rest else rest

-- the edges of a day that opens and closes, of the times that are seen in it
unfoldable pub edges : Instant → Instant → List Instant → List (Option Instant × Option Instant)
unfolding lagged earliest_of latest_of
edges opening closing seen =
    lagged none (order_by (ascending (λ t. t)) seen)
    ++ ((some opening, earliest_of seen) ∷ (latest_of seen, some closing) ∷ [])

module _ {F : Type 0} where
  unfoldable pub extent : String → Database F → Option Instant × Option Instant × ℕ
  unfolding earliest_of latest_of
  extent device_id db =
      let times = map (λ r. r.time) (select (of_device device_id) db.readings) in
      (earliest_of times, latest_of times, length times)

  -- `seen`, for `span.opened`
  unfoldable pub seen_since : String → Instant → Database F → List Instant
  seen_since device_id opening db =
      map (λ r. r.time) (select (λ r. of_device device_id r && ltb opening r.time) db.readings)

  -- `gaps_24h` before its LIMIT 20, and with it
  unfoldable pub all_gaps : String → Instant → Database F → Result (List (Instant × Instant))
  unfolding edges long_gaps seen_since
  all_gaps device_id now db = do
    opening ← minus_ms now 86400000
    ok (long_gaps (edges opening now (seen_since device_id opening db)))

  unfoldable pub gaps_24h : String → Instant → Database F → Result (List (Instant × Instant))
  unfolding all_gaps
  gaps_24h device_id now db = do
    gaps ← all_gaps device_id now db
    ok (take 20 (order_by (descending (λ g. g.1)) gaps))

-- `alerts`: the open episodes, and the most recent ones that have ended
unfoldable pub alert_lists : {F : Type 0} → ℕ → List (Alert F) → List (Alert F) × List (Alert F)
alert_lists recent alerts = (
  order_by (descending (λ a. a.raised_at)) (select (λ a. is_none a.cleared_at) alerts),
  take recent
      (order_by (descending (λ a. a.raised_at)) (select (λ a. is_some a.cleared_at) alerts)),
)
