-- ===== src/Telemetry.antt =====
-- backend/src/psychron/domain/telemetry.py, contract v1: the messages, `parse` and `resolve`. The
-- timestamp rule is the module Clock.
pub mod Accepted
pub mod RoundTrip
mod Tests
use psychron.Base.{List, Option, String, pos, ℕ, ℤ}
use psychron.Clock.{BootAnchors, Envelope, resolve_instant, Resolution}
use psychron.Fields.{int_field, optional_float, parse_device_clock, short_text}
use psychron.Instant.{Instant}
use psychron.Json.{Bytes, Json, Loaded, Loads, as_dict, equals_int, get, loaded, too_deep, bad_json}
use psychron.PyFloat.{Float}
use psychron.Raise.{
  Reason, Result, dev_not_short, expect, fw_not_short, invalid, not_object, ok, raise,
  recursion_error, require, unsupported_version, not_json, ◌>>=◌, ◌>>◌,
}

abbrev pub contract_version : ℤ
contract_version = pos 1

pub record TelemetryMessage (F : Type 0) : Type 0 where
  pub version : Option (Json F)
  pub device_id : String
  pub firmware : String
  pub boot_id : ℕ
  pub seq : ℕ
  pub device_time : Option Instant
  pub uptime_ms : ℕ
  pub temperature_c : Option F
  pub humidity_pct : Option F
  pub quality : ℕ

pub record ResolvedReading (F : Type 0) : Type 0 where
  pub time : Instant
  pub device_id : String
  pub boot_id : ℕ
  pub seq : ℕ
  pub device_time : Option Instant
  pub received_at : Instant
  pub uptime_ms : ℕ
  pub temperature_c : Option F
  pub humidity_pct : Option F
  pub quality : ℕ
  pub firmware : String

module _ {F : Type 0} where
  abbrev pub envelope : TelemetryMessage F → Envelope
  envelope msg = record {
    device_id = msg.device_id;
    boot_id = msg.boot_id;
    device_time = msg.device_time;
    uptime_ms = msg.uptime_ms;
    quality = msg.quality;
  }

  -- the record that `resolve` builds
  abbrev pub resolved_reading : TelemetryMessage F → Instant → Resolution → ResolvedReading F
  resolved_reading msg received_at r = record {
    time = r.instant;
    device_id = msg.device_id;
    boot_id = msg.boot_id;
    seq = msg.seq;
    device_time = msg.device_time;
    received_at = received_at;
    uptime_ms = msg.uptime_ms;
    temperature_c = msg.temperature_c;
    humidity_pct = msg.humidity_pct;
    quality = r.quality;
    firmware = msg.firmware;
  }

  -- The reading, and the anchors as the call leaves them.
  unfoldable pub resolve :
      TelemetryMessage F → Instant → BootAnchors → Result (ResolvedReading F × BootAnchors)
  resolve msg received_at anchors = do
    r ← resolve_instant (envelope msg) received_at anchors
    ok (resolved_reading msg received_at r, r.anchors)

module _ {F : Type 0} (fl : Float F) where
  -- the part of `parse` behind json.loads and the test for an object
  unfoldable pub parse_members : List (String × Json F) → Result (TelemetryMessage F)
  parse_members members = do
    require (equals_int fl (get "v" members) contract_version) unsupported_version
    device_id ← short_text "dev" 64 dev_not_short members
    firmware ← short_text "fw" 32 fw_not_short members
    device_time ← parse_device_clock members
    boot_id ← int_field members "boot" 0 0xFFFFFFFF
    seq ← int_field members "seq" 0 0xFFFFFFFF
    uptime_ms ← int_field members "up" 0 0xFFFFFFFF
    temperature_c ← optional_float fl (get "t" members) "t"
    humidity_pct ← optional_float fl (get "h" members) "h"
    quality ← int_field members "q" 0 0xFFFF
    ok (record {
      version = get "v" members;
      device_id = device_id;
      firmware = firmware;
      boot_id = boot_id;
      seq = seq;
      device_time = device_time;
      uptime_ms = uptime_ms;
      temperature_c = temperature_c;
      humidity_pct = humidity_pct;
      quality = quality;
    })

  -- `parse`, over what json.loads has made of the payload
  unfoldable pub parse_loaded : Loaded F → Result (TelemetryMessage F)
  parse_loaded bad_json = raise (invalid not_json)
  parse_loaded too_deep = raise recursion_error
  parse_loaded (loaded v) = do members ← expect (as_dict v) not_object; parse_members members

  unfoldable pub parse : Loads F → Bytes → Result (TelemetryMessage F)
  unfolding parse_loaded
  parse loads payload = parse_loaded (loads payload)
