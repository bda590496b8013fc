-- ===== src/Database.antt =====
-- backend/src/psychron/adapters/postgres.py, `PostgresReadingRepository`: each table as the list of
-- its rows, newest first, and each method as what its statements do to them. What the constraints
-- of a table refuse is a parameter, since PostgreSQL decides it.
pub mod Rows
pub mod Restart
pub mod Earliest
pub mod Anchored
pub mod Status
mod Tests
use psychron.Base.{
  Bool, List, Option, String, [], any, elem, eqb_ℤ, false, if◌then◌else◌, is_some, leb, leb_ℤ, ltb,
  ltb_ℤ, map, negsuc, none, not, pos, select, some, str_eq, true, ℕ, ℤ, ◌&&◌, ◌++◌, ◌-◌, ◌==◌, ◌^◌,
  ◌∷◌,
}
use psychron.Clock.{Anchor, q_time_from_anchor, q_time_from_arrival, test_bit}
use psychron.Events.{ResolvedEvent}
use psychron.Instant.{Instant, micros_of_ms}
use psychron.Json.{Bytes, Json}
use psychron.Ports.{Outcome, ReadingRepository}
use psychron.Raise.{Error, Reason, Result, data_error, ok, raise, ◌>>=◌, ◌>>◌}
use psychron.Samples.{ResolvedSample}
use psychron.Telemetry.{ResolvedReading}

pub record Boot : Type 0 where
  pub device_id : String
  pub boot_id : ℤ
  pub firmware : String
  pub reset_reason : Option String

pub record Rejected : Type 0 where
  pub topic : String
  pub payload : Bytes
  pub reason : Reason
  pub device_id : Option String

-- the row of `rejected_message`
abbrev pub rejected_row : String → Bytes → Reason → Option String → Rejected
rejected_row topic payload reason device_id = record {
  topic = topic;
  payload = payload;
  reason = reason;
  device_id = device_id;
}

pub record Database (F : Type 0) : Type 0 where
  pub devices : List String
  pub readings : List (ResolvedReading F)
  pub samples : List (ResolvedSample F)
  pub events : List (ResolvedEvent F)
  pub rejected_messages : List Rejected
  pub device_boots : List Boot

-- the range of a bigint column
abbrev pub require_bigint : ℤ → Result (Unit {0})
require_bigint n =
    if leb_ℤ (negsuc (2 ^ 63 - 1)) n && ltb_ℤ n (pos (2 ^ 63)) then ok tt else raise data_error

-- What PostgreSQL refuses, with the exception psycopg raises for it: a row of a table, by its
-- CHECK and REFERENCES constraints, given the devices; and a value of JSON, as a text column.
pub record Constraints (F : Type 0) : Type 0 where
  pub refuses_reading : List String → ResolvedReading F → Option Error
  pub refuses_sample : List String → ResolvedSample F → Option Error
  pub refuses_event : List String → ResolvedEvent F → Option Error
  pub refuses_boot : List String → Boot → Option Error
  pub refuses_rejected : Rejected → Option Error
  pub as_text : Json F → Result String

-- `(device_id, boot_id, seq)`
pub record Identity : Type 0 where
  pub device_id : String
  pub boot_id : ℕ
  pub seq : ℕ

abbrev pub same_identity : Identity → Identity → Bool
same_identity a b = str_eq a.device_id b.device_id && (a.boot_id == b.boot_id && a.seq == b.seq)

module _ {V : Type 0} (identity : V → Identity) (time_of : V → Instant) where
  -- `SELECT 1 FROM ... WHERE device_id = ... AND boot_id = ... AND seq = ...`
  unfoldable pub is_stored : Identity → List V → Bool
  is_stored key rows = any (λ row. same_identity key (identity row)) rows

  -- the unique index of a table, which includes time
  unfoldable pub conflicts : V → List V → Bool
  conflicts row rows =
      any (λ other. same_identity (identity row) (identity other) && time_of row == time_of other)
        rows

  -- `INSERT INTO ... ON CONFLICT DO NOTHING`, and `rowcount > 0`
  unfoldable pub insert_row : (V → Option Error) → V → List V → Outcome Bool (List V)
  insert_row refuses row rows = elim (refuses row) [
    | some e ↦ (raise e, rows)
    | none ↦ if conflicts row rows then (ok false, rows) else (ok true, row ∷ rows)
  ]

  -- the body of `store`, `store_sample` and `store_event`
  unfoldable pub store_row : (V → Option Error) → V → List V → Outcome Bool (List V)
  unfolding is_stored insert_row
  store_row refuses row rows =
      if is_stored (identity row) rows then (ok false, rows) else insert_row refuses row rows

abbrev pub same_boot_row : Boot → Boot → Bool
same_boot_row a b = str_eq a.device_id b.device_id && eqb_ℤ a.boot_id b.boot_id

-- a row of the union that `known_boot_anchors` selects from
pub record Observed : Type 0 where
  pub device_id : String
  pub boot_id : ℕ
  pub time : Instant
  pub uptime_ms : ℕ
  pub device_time : Option Instant
  pub quality : ℕ

module _ {F : Type 0} where
  abbrev pub reading_identity : ResolvedReading F → Identity
  reading_identity r = record { device_id = r.device_id; boot_id = r.boot_id; seq = r.seq }

  abbrev pub sample_identity : ResolvedSample F → Identity
  sample_identity r = record { device_id = r.device_id; boot_id = r.boot_id; seq = r.seq }

  abbrev pub event_identity : ResolvedEvent F → Identity
  event_identity r = record {
    device_id = r.message.device_id;
    boot_id = r.message.boot_id;
    seq = r.message.seq;
  }

  -- the value of a nullable text column
  abbrev pub optional_text : (Json F → Result String) → Option (Json F) → Result (Option String)
  optional_text as_text none = ok none
  optional_text as_text (some v) = do t ← as_text v; ok (some t)

  unfoldable pub ensure_device : String → Database F → Database F
  ensure_device device_id db =
      if elem device_id db.devices then db else record db { devices = device_id ∷ db.devices }

  abbrev pub observed_reading : ResolvedReading F → Observed
  observed_reading r = record {
    device_id = r.device_id;
    boot_id = r.boot_id;
    time = r.time;
    uptime_ms = r.uptime_ms;
    device_time = r.device_time;
    quality = r.quality;
  }

  abbrev pub observed_sample : ResolvedSample F → Observed
  observed_sample r = record {
    device_id = r.device_id;
    boot_id = r.boot_id;
    time = r.time;
    uptime_ms = r.uptime_ms;
    device_time = r.device_time;
    quality = r.quality;
  }

-- `device_time IS NOT NULL AND (quality & _INFERRED) = 0`
unfoldable pub is_trusted : Observed → Bool
is_trusted o =
    is_some o.device_time
    && (not (test_bit o.quality q_time_from_anchor) && not (test_bit o.quality q_time_from_arrival))

abbrev pub same_boot_as : Observed → Observed → Bool
same_boot_as a b = str_eq a.device_id b.device_id && a.boot_id == b.boot_id

-- the row of a boot that `ORDER BY ... time ASC` puts first
unfoldable pub keep_earliest : Observed → List Observed → List Observed
keep_earliest o [] = o ∷ []
keep_earliest o (kept ∷ rest) =
    if same_boot_as kept o
    then (if ltb o.time kept.time then o else kept) ∷ rest
    else kept ∷ keep_earliest o rest

-- `SELECT DISTINCT ON (device_id, boot_id)`
unfoldable pub distinct_boots : List Observed → List Observed
unfolding keep_earliest
distinct_boots [] = []
distinct_boots (o ∷ rows) = keep_earliest o (distinct_boots rows)

-- `time - make_interval(secs => uptime_ms / 1000.0)`; psycopg raises DataError for an instant
-- before year 1
unfoldable pub anchor_row : Observed → Result Anchor
anchor_row o =
    if leb (micros_of_ms o.uptime_ms) o.time
    then ok (record {
      device_id = o.device_id;
      boot_id = o.boot_id;
      boot_epoch = o.time - micros_of_ms o.uptime_ms;
    })
    else raise data_error

unfoldable pub fetch_anchors : List Observed → Result (List Anchor)
unfolding anchor_row
fetch_anchors [] = ok []
fetch_anchors (o ∷ rows) = do
  anchor ← anchor_row o
  anchors ← fetch_anchors rows
  ok (anchor ∷ anchors)

module _ {F : Type 0} where
  abbrev pub observed : Database F → List Observed
  observed db = map observed_reading db.readings ++ map observed_sample db.samples

  unfoldable pub known_boot_anchors : Database F → Result (List Anchor)
  unfolding distinct_boots fetch_anchors is_trusted
  known_boot_anchors db = fetch_anchors (distinct_boots (select is_trusted (observed db)))

module _ {F : Type 0} (con : Constraints F) where
  unfoldable pub store : ResolvedReading F → Database F → Outcome Bool (Database F)
  unfolding store_row
  store reading db =
      let (result, rows) =
        store_row reading_identity (λ r. r.time) (con.refuses_reading db.devices) reading
          db.readings in
      (result, record db { readings = rows })

  unfoldable pub store_sample : ResolvedSample F → Database F → Outcome Bool (Database F)
  unfolding store_row
  store_sample sample db =
      let (result, rows) =
        store_row sample_identity (λ r. r.time) (con.refuses_sample db.devices) sample db.samples in
      (result, record db { samples = rows })

  unfoldable pub store_event : ResolvedEvent F → Database F → Outcome Bool (Database F)
  unfolding store_row
  store_event event db =
      let (result, rows) =
        store_row event_identity (λ r. r.time) (con.refuses_event db.devices) event db.events in
      (result, record db { events = rows })

  unfoldable pub store_rejected :
      String → Bytes → Reason → Option String → Database F → Outcome Unit (Database F)
  store_rejected topic payload reason device_id db =
      elim (con.refuses_rejected (rejected_row topic payload reason device_id)) [
        | some e ↦ (raise e, db)
        | none ↦ (
          ok tt,
          record db {
            rejected_messages = rejected_row topic payload reason device_id ∷ db.rejected_messages;
          },
        )
      ]

  -- `psycopg` adapts the values that `_handle_boot` read from JSON
  unfoldable pub boot_row : Json F → ℤ → String → Option (Json F) → Result Boot
  boot_row device_id boot_id firmware reset_reason = do
    device ← con.as_text device_id
    reason ← optional_text con.as_text reset_reason
    require_bigint boot_id
    ok (record {
      device_id = device;
      boot_id = boot_id;
      firmware = firmware;
      reset_reason = reason;
    })

  -- `INSERT INTO device_boot ... ON CONFLICT (device_id, boot_id) DO NOTHING`
  unfoldable pub insert_boot : Boot → Database F → Outcome Unit (Database F)
  insert_boot boot db = elim (con.refuses_boot db.devices boot) [
    | some e ↦ (raise e, db)
    | none ↦
        if any (same_boot_row boot) db.device_boots
        then (ok tt, db)
        else (ok tt, record db { device_boots = boot ∷ db.device_boots })
  ]

  unfoldable pub record_boot :
      Json F → ℤ → String → Option (Json F) → Database F → Outcome Unit (Database F)
  unfolding boot_row insert_boot
  record_boot device_id boot_id firmware reset_reason db =
      elim (boot_row device_id boot_id firmware reset_reason) [
        | raise e ↦ (raise e, db)
        | ok boot ↦ insert_boot boot db
      ]

  abbrev pub repository : ReadingRepository F (Database F)
  repository = record {
    store = store;
    store_sample = store_sample;
    store_event = store_event;
    store_rejected = store_rejected;
    record_boot = record_boot;
    known_boot_anchors = known_boot_anchors;
  }
