-- ===== src/Telemetry/Tests.antt =====
-- backend/src/psychron/domain/telemetry.py. Contract v1 at a concrete payload.
use psychron.Base.{[], arith, none, pos, refl, some, ℤ, ◌∷◌, ◌≡◌}
use psychron.Clock.{BootAnchors}
use psychron.Clock.Totality.{IsNear}
use psychron.Fields.{
  clock_ms, device_clock, int_field, optional_float, parse_device_clock, short_text, to_float,
}
use psychron.Fixture.{autumn, decode, tenth_float}
use psychron.Json.{int}
use psychron.Raise.{ok}
use psychron.Telemetry.{
  ResolvedReading, TelemetryMessage, parse, parse_loaded, parse_members, resolve,
}
use psychron.Telemetry.Accepted.{IsWellFormed, parse-IsWellFormed, parse-resolve_total}
use psychron.Telemetry.RoundTrip.{parse-to_wire, to_wire}

abbrev reading : TelemetryMessage ℤ
reading = record {
  version = some (int (pos 1));
  device_id = "node-1";
  firmware = "1.2.0";
  boot_id = 3;
  seq = 7;
  device_time = some autumn;
  uptime_ms = 60000;
  temperature_c = some (pos 215);
  humidity_pct = none;
  quality = 0;
}

reading_parsed : parse tenth_float decode (1 ∷ []) ≡ ok reading
unfolding parse parse_loaded parse_members short_text parse_device_clock device_clock clock_ms
    int_field optional_float to_float
reading_parsed = refl

parse-IsWellFormed_example : IsWellFormed tenth_float reading
parse-IsWellFormed_example = parse-IsWellFormed tenth_float decode (1 ∷ []) reading reading_parsed

parse-resolve_total_example :
    (r : ResolvedReading ℤ) × (anchors' : BootAnchors) × (resolve reading autumn []
      ≡ ok (r, anchors'))
    × IsNear anchors'
parse-resolve_total_example =
    parse-resolve_total tenth_float decode (1 ∷ []) reading autumn [] reading_parsed tt

parse-to_wire_example : parse_members tenth_float (to_wire reading) ≡ ok reading
parse-to_wire_example =
    parse-to_wire tenth_float reading
      (parse-IsWellFormed tenth_float decode (1 ∷ []) reading reading_parsed) refl
      (omega arith, omega arith, omega arith)
