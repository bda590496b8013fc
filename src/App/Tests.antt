-- ===== src/App/Tests.antt =====
use Prim.Native.String.{◌++◌ as text_append}
use psychron.App.{
  Stamp, check_range_of, day_before, describe_quality, http_error, in_utc, naive, parse_range,
  read_stamps, reply, socket_allowed, ten_years,
}
use psychron.App.Live.{live_loop, live_phone, live_turn, sample_payload, send}
use psychron.App.Ranges.{parse_range_sound}
use psychron.App.Sends.{NoRepeat, last_found, last_sent, live_phone_lem}
use psychron.App.Sockets.{socket_allowed_lem}
use psychron.Auth.{TextMethods, require_principal}
use psychron.Base.{
  List, Option, String, [], if◌then◌else◌, is_some, map, none, refl, some, str_eq, ℤ, ◌+◌, ◌-◌, ◌<◌,
  ◌∷◌, ◌≡◌, ◌≤◌,
}
use psychron.Fixture.{autumn}
use psychron.Instant.{Instant, minus_ms}
use psychron.Raise.{Result, ok, raise, value_error, ◌>>=◌}
use psychron.Samples.{ResolvedSample}

-- backend/src/psychron/api/app.py. The routes at concrete requests.

abbrev only_now : String → Result Stamp
only_now s = if str_eq s "autumn" then ok (naive autumn) else raise value_error

one_day : parse_range only_now none (some "autumn") 0 ≡ ok (reply (autumn - 86400000000, autumn))
unfolding parse_range read_stamps day_before minus_ms check_range_of
one_day = refl

unreadable : parse_range only_now (some "yesterday") none autumn ≡ ok (http_error 400)
unfolding parse_range read_stamps
unreadable = refl

parse_range_sound_test :
    (autumn - 86400000000 < autumn)
    × (autumn - (autumn - 86400000000) ≤ ten_years)
    × ((s : Stamp) × (e : Stamp) × (read_stamps only_now none (some "autumn") 0 ≡ ok (s, e))
        × (in_utc s ≡ autumn - 86400000000)
        × (in_utc e ≡ autumn))
parse_range_sound_test =
    parse_range_sound only_now none (some "autumn") 0 (autumn - 86400000000) autumn one_day

flags_named : describe_quality 0x0102 ≡ "replayed" ∷ "time_from_boot_anchor" ∷ []
unfolding describe_quality
flags_named = refl

abbrev plain_methods : TextMethods
plain_methods = record { lower = λ s. s; strip = λ s. s }

abbrev nobody : String → Option String
nobody cookie = none

socket_allowed_lem_example : socket_allowed plain_methods nobody (some "t0k") none "t0k" ≡ (
    require_principal plain_methods
      (some nobody)
      (some "t0k")
      (some (text_append "Bearer " "t0k"))
      none
    >>= λ principal. ok (is_some principal))
socket_allowed_lem_example = socket_allowed_lem plain_methods nobody (some "t0k") none "t0k"

abbrev window_at : Instant → ResolvedSample ℤ
window_at t = record {
  time = t;
  device_id = "phone-01";
  boot_id = 1;
  seq = 1;
  device_time = some t;
  received_at = t;
  uptime_ms = 1000;
  window_ms = 2000;
  quality = 0;
  firmware = "0.1";
  measurements = [];
}

-- the same window is found twice
abbrev polls : List (Option (ResolvedSample ℤ))
polls =
    none
    ∷ some (window_at autumn)
    ∷ some (window_at autumn)
    ∷ some (window_at (autumn + 2000000))
    ∷ []

sent_twice : map (λ message. message.time) (live_phone polls) ≡ autumn ∷ (autumn + 2000000) ∷ []
unfolding live_phone live_loop live_turn send sample_payload
sent_twice = refl

live_phone_lem_example :
    NoRepeat (λ message. message.time) none (live_phone polls)
    × (last_sent (λ message. message.time) none (live_phone polls)
        ≡ last_found (λ row. row.time) none polls)
live_phone_lem_example = live_phone_lem polls
