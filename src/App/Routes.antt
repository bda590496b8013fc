-- ===== src/App/Routes.antt =====
use psychron.Alerting.{Alert}
use psychron.App.{Reply, Stamp, describe_quality, http_error, parse_range, reply}
use psychron.Base.{Bool, List, Option, String, length, map, none, some, ℕ}
use psychron.Database.{Database}
use psychron.Instant.{Instant, minus_ms}
use psychron.Psychrometrics.{Arithmetic, Derivation, derive}
use psychron.Queries.{Aggregate, Point, Series, latest_reading, minutes_ms, near, series}
use psychron.Queries.Health.{Statistics, Stats, stats, alert_lists}
use psychron.Queries.Phone.{SamplePoint, Sql, events_in, sample_series}
use psychron.Raise.{Result, ok, raise, ◌>>=◌}
use psychron.Schema.{Value}
use psychron.Telemetry.{ResolvedReading}

-- backend/src/psychron/api/app.py: the routes that read a range, the device and the alerts.

-- the answer of `readings` and of `phone_series`
pub record SeriesReply (A : Type 0) : Type 0 where
  pub start : Instant
  pub stop : Instant
  pub bucket : String
  pub amount : ℕ
  pub truncated : Bool
  pub points : List A

pub record CurrentReply (F : Type 0) : Type 0 where
  pub time : Instant
  pub temperature_c : Option F
  pub humidity_pct : Option F
  pub derived : Derivation F
  pub boot_id : ℕ
  pub seq : ℕ
  pub firmware : String
  pub device_time : Option Instant
  pub received_at : Instant
  pub quality : ℕ
  pub flags : List String
  pub day_ago : Option (ResolvedReading F)

pub record EventReply (F : Type 0) : Type 0 where
  pub time : Instant
  pub kind : String
  pub duration_ms : Value F
  pub pga_ms2 : Value F
  pub sta_lta : Value F
  pub freq_hz : Option (Value F)
  pub flags : List String

module _ {F : Type 0} where
  -- `GET /api/current`
  unfoldable pub current :
      Arithmetic F → String → Instant → Database F → Result (Reply (CurrentReply F))
  unfolding latest_reading derive near describe_quality
  current num device_id now db = elim (latest_reading device_id db) [
    | none ↦ ok (http_error 404)
    | some row ↦ do
      derived ← derive num row.temperature_c row.humidity_pct
      yesterday ← minus_ms now 86400000
      day_ago ← near device_id yesterday (minutes_ms 30) db
      ok (
          reply (record {
            time = row.time;
            temperature_c = row.temperature_c;
            humidity_pct = row.humidity_pct;
            derived = derived;
            boot_id = row.boot_id;
            seq = row.seq;
            firmware = row.firmware;
            device_time = row.device_time;
            received_at = row.received_at;
            quality = row.quality;
            flags = describe_quality row.quality;
            day_ago = day_ago;
          }))
  ]

-- the rest of a route, for a range that is let through
abbrev pub with_range :
    {B : Type 0}
    → (Instant → Instant → Result (Reply B))
    → Result (Reply (Instant × Instant))
    → Result (Reply B)
with_range route (raise e) = raise e
with_range route (ok (http_error status)) = ok (http_error status)
with_range route (ok (reply (start, stop))) = route start stop

abbrev pub series_reply : {A : Type 0} → Instant → Instant → Series A → SeriesReply A
series_reply start stop s = record {
  start = start;
  stop = stop;
  bucket = s.bucket;
  amount = length s.points;
  truncated = s.truncated;
  points = s.points;
}

module _ (fromisoformat : String → Result Stamp) where
  -- `GET /api/readings`
  unfoldable pub readings_route :
      {F : Type 0}
      → (String → Database F → List (Aggregate F))
      → String
      → Option String
      → Option String
      → Instant
      → Database F
      → Result (Reply (SeriesReply (Point F)))
  unfolding parse_range series
  readings_route views device_id frm to now db =
      with_range
        (λ start stop. ok (reply (series_reply start stop (series views device_id start stop db))))
        (parse_range fromisoformat frm to now)

  -- `GET /api/phone/series`
  unfoldable pub phone_series_route :
      {F : Type 0}
      → Sql F
      → String
      → Option String
      → Option String
      → Instant
      → Database F
      → Result (Reply (SeriesReply (SamplePoint F)))
  unfolding parse_range sample_series
  phone_series_route sql phone_device_id frm to now db =
      with_range
        (λ start stop.
          ok (reply (series_reply start stop (sample_series sql phone_device_id start stop db))))
        (parse_range fromisoformat frm to now)

  -- `GET /api/stats`
  unfoldable pub stats_route :
      {F S : Type 0}
      → Statistics F S
      → String
      → Option String
      → Option String
      → Instant
      → Database F
      → Result (Reply (Instant × Instant × Stats F S))
  unfolding parse_range stats
  stats_route statistics device_id frm to now db =
      with_range (λ start stop. ok (reply (start, stop, stats statistics device_id start stop db)))
        (parse_range fromisoformat frm to now)

  -- `GET /api/phone/events`
  unfoldable pub phone_events_route :
      {F : Type 0}
      → String
      → Option String
      → Option String
      → Instant
      → Database F
      → Result (Reply (Instant × Instant × List (EventReply F)))
  unfolding parse_range events_in describe_quality
  phone_events_route phone_device_id frm to now db =
      with_range
        (λ start stop. ok (
          reply (
            start,
            stop,
            map
                (λ e. record {
                  time = e.time;
                  kind = e.message.kind;
                  duration_ms = e.message.duration_ms;
                  pga_ms2 = e.message.pga_ms2;
                  sta_lta = e.message.sta_lta;
                  freq_hz = e.message.freq_hz;
                  flags = describe_quality e.quality;
                })
                (events_in phone_device_id start stop 500 db),
          )))
        (parse_range fromisoformat frm to now)

-- `GET /api/alerts`
unfoldable pub alerts_route : {F : Type 0} → List (Alert F) → List (Alert F) × List (Alert F)
unfolding alert_lists
alerts_route alerts = alert_lists 20 alerts
