-- ===== src/Samples/Tests.antt =====
-- backend/src/psychron/domain/samples.py. Contract v2 at a concrete payload.
use psychron.Base.{[], pos, refl, some, ℤ, ◌∷◌, ◌≡◌}
use psychron.Fields.{clock_ms, device_clock, parse_device_clock, short_text, to_float}
use psychron.Fixture.{autumn, decode, tenth_float}
use psychron.Quantities.{measurement_columns, to_measurements, update, with_defaults}
use psychron.Raise.{ok}
use psychron.Samples.{
  SampleMessage, check_groups, envelope_int, parse, parse_loaded, parse_measurements, parse_members,
}
use psychron.Samples.Accepted.{IsSample, parse-IsSample}
use psychron.Schema.{
  check_dict, check_group, check_kind, check_members, check_range, check_value, real,
}

abbrev sample : SampleMessage ℤ
sample = record {
  version = pos 2;
  device_id = "node-1";
  firmware = "1.2.0";
  boot_id = 3;
  seq = 7;
  device_time = some autumn;
  uptime_ms = 60000;
  window_ms = 1000;
  quality = 0;
  measurements = with_defaults measurement_columns (("battery_temp_c", real (pos 310)) ∷ []);
}

sample_parsed : parse tenth_float decode (2 ∷ []) ≡ ok sample
unfolding parse parse_loaded parse_members parse_measurements check_groups envelope_int short_text
    parse_device_clock device_clock clock_ms check_group check_dict check_members check_value
    check_kind check_range to_float update to_measurements
sample_parsed = refl

parse-IsSample_example : IsSample tenth_float sample
parse-IsSample_example = parse-IsSample tenth_float decode (2 ∷ []) sample sample_parsed
