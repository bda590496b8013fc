-- ===== src/Queries/Phone.antt =====
use psychron.Base.{
  Bool, List, Option, String, [], false, if◌then◌else◌, is_some, leb, length, lookup, map, none,
  select, some, str_eq, take, ℕ, ◌&&◌, ◌+◌, ◌-◌, ◌==◌, ◌∷◌,
}
use psychron.Database.{Database}
use psychron.Events.{ResolvedEvent}
use psychron.Instant.{Instant, minus_ms, plus_ms}
use psychron.Queries.{
  Ladder, Series, between, days, fetchone, hours, in_range, minutes_ms, paged, rung,
}
use psychron.Raise.{Result, ok, ◌>>=◌}
use psychron.Samples.{ResolvedSample}
use psychron.Schema.{Value}
use psychron.Sorting.{descending, order_by}
use psychron.Queries.Health.{non_null}

-- backend/src/psychron/adapters/queries.py, contract v2: the queries of the phone's samples and
-- events.

-- how the values of a column become one value of a bucket
pub data Summary : Type 0 where
  mean maximum circular_mean energy_mean most_common any_true : Summary

abbrev pub bucket_of : List (String × Summary)
bucket_of =
    ("pressure_hpa", mean)
    ∷ ("illuminance_lux", mean)
    ∷ ("sound_rms_dbfs", mean)
    ∷ ("sound_peak_dbfs", maximum)
    ∷ ("accel_rms", mean)
    ∷ ("accel_peak", maximum)
    ∷ ("gyro_rms", mean)
    ∷ ("gyro_peak", maximum)
    ∷ ("magnetic_ut", mean)
    ∷ ("heading_deg", circular_mean)
    ∷ ("battery_temp_c", mean)
    ∷ ("lat", mean)
    ∷ ("lon", mean)
    ∷ ("loc_acc_m", mean)
    ∷ ("alt_msl_m", mean)
    ∷ ("alt_acc_m", mean)
    ∷ ("speed_ms", mean)
    ∷ ("noise_laeq_dbfs", energy_mean)
    ∷ ("noise_lamax_dbfs", maximum)
    ∷ ("noise_l10_dbfs", mean)
    ∷ ("noise_l90_dbfs", mean)
    ∷ ("cell_rat", most_common)
    ∷ ("cell_rsrp_dbm", mean)
    ∷ ("cell_rsrq_db", mean)
    ∷ ("cell_sinr_db", mean)
    ∷ ("cell_band", most_common)
    ∷ ("net_via", most_common)
    ∷ ("net_vpn", any_true)
    ∷ ("net_rtt_ms", mean)
    ∷ []

abbrev pub sample_columns : List String
sample_columns = map (λ e. e.0) bucket_of

abbrev pub sample_ladder : Ladder
sample_ladder =
    (some (hours 1), none, "2s")
    ∷ (some (hours 12), some "30 seconds", "30s")
    ∷ (some (days 2), some "2 minutes", "2m")
    ∷ (some (days 60), some "1 hour", "1h")
    ∷ (none, some "1 day", "1d")
    ∷ []

-- `limit + slack`
abbrev pub with_slack : ℕ → Ladder → Ladder
with_slack slack [] = []
with_slack slack ((none, tier, label) ∷ ladder) = (none, tier, label) ∷ with_slack slack ladder
with_slack slack ((some limit, tier, label) ∷ ladder) =
    (some (limit + slack), tier, label) ∷ with_slack slack ladder

-- `next(...)`, which the last tier always answers
unfoldable pub choose_interval : Instant → Instant → Option String × String
unfolding rung
choose_interval start stop =
    rung (stop - start) (with_slack 300000000 sample_ladder) (some "1 day", "1d")

-- GROUP BY: the rows of each key
module _ {A : Type 0} (key : A → Instant) where
  unfoldable pub group_into : A → List (Instant × List A) → List (Instant × List A)
  group_into x [] = (key x, x ∷ []) ∷ []
  group_into x ((k, members) ∷ groups) =
      if k == key x then (k, x ∷ members) ∷ groups else (k, members) ∷ group_into x groups

  unfoldable pub group_by : List A → List (Instant × List A)
  unfolding group_into
  group_by [] = []
  group_by (x ∷ xs) = group_into x (group_by xs)

-- What PostgreSQL computes: the functions that _BUCKET names, of the values that are not NULL; the
-- start of a bucket of an interval; and the median of a column.
pub record Sql (F : Type 0) : Type 0 where
  pub summarise : Summary → List (Value F) → Option (Value F)
  pub time_bucket : String → Instant → Instant
  pub median : List (Value F) → Option (Value F)
  -- `value <= n`
  pub at_most : Value F → ℕ → Bool
  -- `float(value)`
  pub to_float : Value F → Value F
  -- `a - b`
  pub less : Value F → Value F → Value F

-- a point of `sample_series`
pub record SamplePoint (F : Type 0) : Type 0 where
  pub t : Instant
  pub values : List (String × Option (Value F))

module _ {F : Type 0} where
  -- a column of a sample, NULL where the window did not carry it
  unfoldable pub cell : String → ResolvedSample F → Option (Value F)
  cell column s = elim (lookup column s.measurements) [ none ↦ none | some v ↦ v ]

  abbrev pub of_phone : String → ResolvedSample F → Bool
  of_phone device_id s = str_eq s.device_id device_id

  unfoldable pub samples_in : String → Instant → Instant → Database F → List (ResolvedSample F)
  samples_in device_id start stop db =
      select (λ s. of_phone device_id s && in_range start stop s.time) db.samples

  -- `sample_latest`
  unfoldable pub latest_sample : String → Database F → Option (ResolvedSample F)
  latest_sample device_id db =
      fetchone (order_by (descending (λ s. s.time)) (select (of_phone device_id) db.samples))

  unfoldable pub last_fix : String → Instant → ℕ → Database F → Result (Option (ResolvedSample F))
  unfolding cell
  last_fix device_id at within_ms db = do
    earliest ← minus_ms at within_ms
    ok (
        fetchone (
          order_by (descending (λ s. s.time)) (
            select
              (λ s. of_phone device_id s && (is_some (cell "lat" s) && between earliest at s.time))
              db.samples)))

  -- `events`
  unfoldable pub events_in : String → Instant → Instant → ℕ → Database F → List (ResolvedEvent F)
  events_in device_id start stop limit db = take limit (
      order_by (descending (λ e. e.time)) (
        select (λ e. str_eq e.message.device_id device_id && in_range start stop e.time) db.events))

module _ {F : Type 0} (sql : Sql F) where
  unfoldable pub pressure_tendency :
      String → Value F → Instant → Database F → Result (Option (Value F))
  unfolding cell
  pressure_tendency device_id now_hpa at db = do
    target ← minus_ms at (minutes_ms 180)
    earliest ← minus_ms target (minutes_ms 10)
    last ← plus_ms target (minutes_ms 10)
    let near_then = select (λ s. of_phone device_id s && between earliest last s.time) db.samples
    ok (elim (sql.summarise mean (non_null (map (cell "pressure_hpa") near_then))) [
      | none ↦ none
      | some hpa ↦ some (sql.less now_hpa hpa)
    ])

  -- `alt_acc_m <= 20`, which a NULL is not
  abbrev pub is_sure : ResolvedSample F → Bool
  is_sure s = elim (cell "alt_acc_m" s) [ none ↦ false | some accuracy ↦ sql.at_most accuracy 20 ]

  unfoldable pub recent_altitude : String → Instant → Database F → Result (Option (Value F))
  unfolding cell
  recent_altitude device_id at db = do
    earliest ← minus_ms at (minutes_ms 10)
    let fixes =
        select (λ s. of_phone device_id s && (between earliest at s.time && is_sure s)) db.samples
    let altitudes = non_null (map (cell "alt_msl_m") fixes)
    ok (if leb 5 (length altitudes) then sql.median altitudes else none)

  -- `if row.get("heading_deg") is not None: row["heading_deg"] = float(...)`
  abbrev pub float_heading : String × Option (Value F) → String × Option (Value F)
  float_heading (column, none) = (column, none)
  float_heading (column, some v) =
      (column, some (if str_eq column "heading_deg" then sql.to_float v else v))

  abbrev pub raw_sample : ResolvedSample F → SamplePoint F
  raw_sample s = record {
    t = s.time;
    values = map (λ column. float_heading (column, cell column s)) sample_columns;
  }

  abbrev pub bucket_sample : Instant × List (ResolvedSample F) → SamplePoint F
  bucket_sample (start, members) = record {
    t = start;
    values =
        map (λ e. float_heading (e.0, sql.summarise e.1 (non_null (map (cell e.0) members))))
          bucket_of;
  }

  -- FROM, WHERE and GROUP BY of `sample_series`
  unfoldable pub sample_rows :
      Option String → String → Instant → Instant → Database F → List (SamplePoint F)
  unfolding samples_in group_by cell
  sample_rows none device_id start stop db = map raw_sample (samples_in device_id start stop db)
  sample_rows (some interval) device_id start stop db =
      map bucket_sample
        (group_by (λ s. sql.time_bucket interval s.time) (samples_in device_id start stop db))

  unfoldable pub sample_series : String → Instant → Instant → Database F → Series (SamplePoint F)
  unfolding choose_interval sample_rows paged
  sample_series device_id start stop db =
      let (interval, label) = choose_interval start stop in
      paged (λ p. p.t) label (sample_rows interval device_id start stop db)
