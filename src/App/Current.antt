-- ===== src/App/Current.antt =====
use psychron.App.{Reply, http_error, reply}
use psychron.App.Live.{SamplePayload, sample_payload}
use psychron.Base.{List, Option, String, [], none, some, ◌∷◌}
use psychron.Database.{Database}
use psychron.Instant.{Instant}
use psychron.Psychrometrics.{Arithmetic}
use psychron.PyFloat.{Float}
use psychron.Quantities.{measured}
use psychron.Queries.Phone.{Sql, cell, last_fix, latest_sample, pressure_tendency, recent_altitude}
use psychron.Raise.{Result, ok, ◌>>=◌}
use psychron.Samples.{ResolvedSample}
use psychron.Schema.{Value}
use psychron.Weather.{Outlook, Score, zambretti}
use psychron.Weather.Pressure.{sea_level_pressure}

-- backend/src/psychron/api/app.py, `phone_current`: the latest window, with what is derived of it.

-- how PostgreSQL's numbers are Python's floats
pub record Numbers (F : Type 0) : Type 0 where
  pub arithmetic : Arithmetic F
  pub power : F → F → Result F
  pub floats : Float F
  pub score : Score F
  pub to_python : Value F → F

pub record Fix (F : Type 0) : Type 0 where
  pub time : Instant
  pub loc_acc_m : Option (Value F)
  pub alt_msl_m : Option (Value F)
  pub alt_acc_m : Option (Value F)
  pub speed_ms : Option (Value F)

pub record PhoneCurrent (F : Type 0) : Type 0 where
  pub payload : SamplePayload F
  pub last_fix : Option (Fix F)
  pub pressure_tendency : Option (Value F)
  pub altitude : Option F
  pub altitude_source : Option String
  pub sea_level_pressure : Option F
  pub outlook : Option Outlook
  pub noise : List (String × Option F)

module _ {F : Type 0} where
  abbrev pub fix_of : Option (ResolvedSample F) → Option (Fix F)
  fix_of none = none
  fix_of (some s) = some (record {
    time = s.time;
    loc_acc_m = cell "loc_acc_m" s;
    alt_msl_m = cell "alt_msl_m" s;
    alt_acc_m = cell "alt_acc_m" s;
    speed_ms = cell "speed_ms" s;
  })

  -- the altitude, and where it is from: the phone's own is preferred to the configured one
  abbrev pub altitude_of : Option F → Option F → Option F × Option String
  altitude_of (some altitude) configured = (some altitude, some "gnss")
  altitude_of none (some altitude) = (some altitude, some "configured")
  altitude_of none none = (none, none)

module _ {F : Type 0} (sql : Sql F) (numbers : Numbers F) where
  abbrev pub number_in : Option (Value F) → Option F
  number_in none = none
  number_in (some v) = some (numbers.to_python v)

  -- `_calibrated_noise`, whose names say `_dba`
  abbrev pub calibrated : Option F → Option (Value F) → Option F
  calibrated none level = none
  calibrated (some offset) none = none
  calibrated (some offset) (some level) =
      some (numbers.arithmetic.add (numbers.to_python level) offset)

  unfoldable pub calibrated_noise : Option F → ResolvedSample F → List (String × Option F)
  unfolding cell
  calibrated_noise spl_offset_db row =
      ("noise_laeq_dba", calibrated spl_offset_db (cell "noise_laeq_dbfs" row))
      ∷ ("noise_lamax_dba", calibrated spl_offset_db (cell "noise_lamax_dbfs" row))
      ∷ ("noise_l10_dba", calibrated spl_offset_db (cell "noise_l10_dbfs" row))
      ∷ ("noise_l90_dba", calibrated spl_offset_db (cell "noise_l90_dbfs" row))
      ∷ []

  -- the tendency, where the window has a pressure
  unfoldable pub tendency_of :
      String → Option (Value F) → Instant → Database F → Result (Option (Value F))
  unfolding pressure_tendency
  tendency_of device_id none at db = ok none
  tendency_of device_id (some hpa) at db = pressure_tendency sql device_id hpa at db

  -- the outlook, where there is a tendency
  unfoldable pub outlook_at : F → Option (Value F) → Result (Option Outlook)
  unfolding zambretti
  outlook_at sea_level none = ok none
  outlook_at sea_level (some tendency) = do
    outlook ← zambretti numbers.floats numbers.score sea_level (numbers.to_python tendency)
    ok (some outlook)

  -- the pressure at sea level and the outlook, where there are a pressure and an altitude
  unfoldable pub sea_level_of :
      Option (Value F) → Option F → Option (Value F) → Result (Option F × Option Outlook)
  unfolding sea_level_pressure outlook_at
  sea_level_of none altitude tendency = ok (none, none)
  sea_level_of (some hpa) none tendency = ok (none, none)
  sea_level_of (some hpa) (some altitude) tendency = do
    sea_level ← sea_level_pressure numbers.arithmetic numbers.power (numbers.to_python hpa) altitude
    outlook ← outlook_at sea_level tendency
    ok (some sea_level, outlook)

  -- what `phone_current` answers of the latest window
  unfoldable pub describe_window :
      String → Option F → Option F → ResolvedSample F → Database F → Result (PhoneCurrent F)
  unfolding tendency_of sea_level_of recent_altitude last_fix calibrated_noise sample_payload cell
  describe_window phone_device_id station_elevation_m spl_offset_db row db = do
    let pressure = cell "pressure_hpa" row
    tendency ← tendency_of phone_device_id pressure row.time db
    measured ← recent_altitude sql phone_device_id row.time db
    let (altitude, source) = altitude_of (number_in measured) station_elevation_m
    (sea_level, outlook) ← sea_level_of pressure altitude tendency
    fix ← last_fix phone_device_id row.time 86400000 db
    ok (record {
      payload = sample_payload row;
      last_fix = fix_of fix;
      pressure_tendency = tendency;
      altitude = altitude;
      altitude_source = source;
      sea_level_pressure = sea_level;
      outlook = outlook;
      noise = calibrated_noise spl_offset_db row;
    })

  -- `GET /api/phone/current`
  unfoldable pub phone_current :
      String → Option F → Option F → Database F → Result (Reply (PhoneCurrent F))
  unfolding latest_sample describe_window
  phone_current phone_device_id station_elevation_m spl_offset_db db =
      elim (latest_sample phone_device_id db) [
        | none ↦ ok (http_error 404)
        | some row ↦ do
          answer ← describe_window phone_device_id station_elevation_m spl_offset_db row db
          ok (reply answer)
      ]
