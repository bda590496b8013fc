-- ===== src/Alerting/Observed.antt =====
use psychron.Alerts.{Observation}
use psychron.Base.{
  Option, String, [], insert, is_some, ltb, map, none, select, some, str_eq, ℕ, ◌&&◌, ◌-◌, ◌∷◌,
}
use psychron.Database.{Database}
use psychron.Instant.{Instant, minus_ms}
use psychron.Queries.{between, fetchone}
use psychron.Queries.Health.{latest_of, non_null}
use psychron.Queries.Phone.{Sql, cell, mean, of_phone}
use psychron.Raise.{Result, ok, ◌>>=◌}
use psychron.Schema.{Value}
use psychron.Sorting.{descending, order_by}

-- backend/src/psychron/adapters/alerts_pg.py, `PostgresAlertStore.observe`: what the rules are given.

-- the number of seconds of a duration in microseconds, and Python's floats of PostgreSQL's numbers
pub record Measures (F : Type 0) : Type 0 where
  pub seconds : ℕ → F
  pub to_python : Value F → F
  pub difference : F → F → F

module _ {F : Type 0} (sql : Sql F) (measures : Measures F) where
  -- the latest value of a column since an instant, passing over the windows without it
  unfoldable pub latest_cell : String → String → Instant → Database F → Option F
  unfolding cell
  latest_cell column device_id since db =
      elim (fetchone (
        order_by (descending (λ s. s.time)) (
          select (λ s. of_phone device_id s && (is_some (cell column s) && ltb since s.time))
            db.samples))) [
              | none ↦ none
              | some s ↦ elim (cell column s) [ none ↦ none | some v ↦ some (measures.to_python v) ]
            ]

  unfoldable pub average_pressure : String → Instant → Instant → Database F → Option F
  unfolding cell
  average_pressure device_id earliest last db =
      elim (sql.summarise mean (
        non_null (
          map (cell "pressure_hpa")
            (select (λ s. of_phone device_id s && between earliest last s.time) db.samples)))) [
              | none ↦ none
              | some v ↦ some (measures.to_python v)
            ]

  -- `max(0.0, (now - at).total_seconds())`
  abbrev pub silent_for : Instant → Option Instant → Option F
  silent_for now none = none
  silent_for now (some at) = some (measures.seconds (now - at))

  abbrev pub change_of : Option F → Option F → Option F
  change_of none then = none
  change_of (some hpa) none = none
  change_of (some hpa) (some then) = some (measures.difference hpa then)

  unfoldable pub observe_tables : String → String → Instant → Database F → Result (Observation F)
  unfolding latest_cell average_pressure latest_of
  observe_tables esp32 phone now db = do
    let esp32_at =
        latest_of (map (λ r. r.received_at) (select (λ r. str_eq r.device_id esp32) db.readings))
    let phone_at =
        latest_of (map (λ s. s.received_at) (select (λ s. str_eq s.device_id phone) db.samples))
    pressure_since ← minus_ms now 600000
    earliest ← minus_ms now 11400000
    last ← minus_ms now 10200000
    battery_since ← minus_ms now 120000
    ok (record {
      now = now;
      silent_s = insert phone (silent_for now phone_at) ((esp32, silent_for now esp32_at) ∷ []);
      pressure_change_3h_hpa =
          change_of (latest_cell "pressure_hpa" phone pressure_since db)
            (average_pressure phone earliest last db);
      battery_temp_c = latest_cell "battery_temp_c" phone battery_since db;
    })
