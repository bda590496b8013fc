-- ===== src/Telemetry/Accepted.antt =====
-- backend/src/psychron/domain/telemetry.py. What an accepted v1 message satisfies, and that it can
-- then be resolved.
use mathlib.Core.Path.{subst}
use mathlib.Core.Path.{subst}
use psychron.Base.{AllSome, List, String, count, true, ◌<◌, ◌≡◌, ◌≤◌, arith, AllSome-map}
use psychron.Fields.{int_field, optional_float, parse_device_clock, short_text}
use psychron.Instant.{epoch, year_2100, Instant}
use psychron.Json.{Bytes, Json, Loaded, Loads, as_dict, bad_json, equals_int, loaded, too_deep, get}
use psychron.PyFloat.{Float}
use psychron.Raise.{
  >>=-eq-ok, expect, not_object, ok, require, dev_not_short, fw_not_short, unsupported_version,
  ok-injective, require-eq-ok,
}
use psychron.Telemetry.{
  TelemetryMessage, contract_version, parse, parse_loaded, parse_members, ResolvedReading, envelope,
  resolve, resolved_reading,
}
use psychron.Fields.Reads.{
  int_field_bounds, optional_float-IsFinite, parse_device_clock_bounds, short_text_bounds,
}
use psychron.Clock.{BootAnchors}
use psychron.Clock.Totality.{IsNear, IsShort, resolve_instant_total}

-- The bounds of docs/CONTRACT.md.
pub record IsWellFormed {F : Type 0} (fl : Float F) (m : TelemetryMessage F) : Type 0 where
  pub version : equals_int fl m.version contract_version ≡ true
  pub device_id : (0 < count m.device_id) × (count m.device_id ≤ 64)
  pub firmware : (0 < count m.firmware) × (count m.firmware ≤ 32)
  pub boot_id : m.boot_id ≤ 0xFFFFFFFF
  pub seq : m.seq ≤ 0xFFFFFFFF
  pub uptime : m.uptime_ms ≤ 0xFFFFFFFF
  pub quality : m.quality ≤ 0xFFFF
  pub clock : AllSome (λ t. (epoch < t) × (t < year_2100)) m.device_time
  pub temperature : AllSome (λ x. fl.is_finite x ≡ true) m.temperature_c
  pub humidity : AllSome (λ x. fl.is_finite x ≡ true) m.humidity_pct

parsed_members :
    {F : Type 0} (fl : Float F) (v : Loaded F) (m : TelemetryMessage F)
    → parse_loaded fl v ≡ ok m
    → (members : List (String × Json F)) × (parse_members fl members ≡ ok m)
unfolding parse_loaded
parsed_members fl bad_json m h = cc
parsed_members fl too_deep m h = cc
parsed_members fl (loaded v) m h =
    let (members, found, h') = >>=-eq-ok (expect (as_dict v) not_object) _ h in (members, h')

members_sound :
    {F : Type 0} (fl : Float F) (members : List (String × Json F)) (m : TelemetryMessage F)
    → parse_members fl members ≡ ok m
    → IsWellFormed fl m
unfolding parse_members
members_sound fl members m h =
    let (_, v, h1) =
      >>=-eq-ok (require (equals_int fl (get "v" members) contract_version) unsupported_version) _
        h in
    let (dev, p1, h2) = >>=-eq-ok (short_text "dev" 64 dev_not_short members) _ h1 in
    let (fw, p2, h3) = >>=-eq-ok (short_text "fw" 32 fw_not_short members) _ h2 in
    let (t, p3, h4) = >>=-eq-ok (parse_device_clock members) _ h3 in
    let (boot, p4, h5) = >>=-eq-ok (int_field members "boot" 0 0xFFFFFFFF) _ h4 in
    let (seq, p5, h6) = >>=-eq-ok (int_field members "seq" 0 0xFFFFFFFF) _ h5 in
    let (up, p6, h7) = >>=-eq-ok (int_field members "up" 0 0xFFFFFFFF) _ h6 in
    let (temp, p7, h8) = >>=-eq-ok (optional_float fl (get "t" members) "t") _ h7 in
    let (hum, p8, h9) = >>=-eq-ok (optional_float fl (get "h" members) "h") _ h8 in
    let (q, p9, h10) = >>=-eq-ok (int_field members "q" 0 0xFFFF) _ h9 in
    subst (IsWellFormed fl) (ok-injective h10) (record {
      version = require-eq-ok _ _ v;
      device_id = let (a, b, _) = short_text_bounds "dev" 64 dev_not_short members p1 in (a, b);
      firmware = let (a, b, _) = short_text_bounds "fw" 32 fw_not_short members p2 in (a, b);
      boot_id = (int_field_bounds members "boot" 0 0xFFFFFFFF p4).1;
      seq = (int_field_bounds members "seq" 0 0xFFFFFFFF p5).1;
      uptime = (int_field_bounds members "up" 0 0xFFFFFFFF p6).1;
      quality = (int_field_bounds members "q" 0 0xFFFF p9).1;
      clock = parse_device_clock_bounds members t p3;
      temperature = optional_float-IsFinite fl (get "t" members) "t" temp p7;
      humidity = optional_float-IsFinite fl (get "h" members) "h" hum p8;
    })

-- Every message that the parser returns is within the contract's bounds, whatever the payload.
pub parse-IsWellFormed :
    {F : Type 0} (fl : Float F) (loads : Loads F) (payload : Bytes) (m : TelemetryMessage F)
    → parse fl loads payload ≡ ok m
    → IsWellFormed fl m
parse-IsWellFormed fl loads payload m h =
    let (members, h') = parsed_members fl (loads payload) m (unfold parse in h) in
    members_sound fl members m h'

IsShort-envelope :
    {F : Type 0} (fl : Float F) (m : TelemetryMessage F) → IsWellFormed fl m → IsShort (envelope m)
IsShort-envelope fl m w = record {
  uptime = w.uptime;
  clock = AllSome-map m.device_time (λ t h. (omega arith, omega arith)) w.clock;
}

-- A message that the v1 parser accepts is always resolved to a reading: no payload makes the
-- arithmetic on instants raise, whenever it arrives, as long as each boot is anchored before 2100;
-- and the anchors stay so.
pub parse-resolve_total :
    {F : Type 0} (fl : Float F) (loads : Loads F) (payload : Bytes) (m : TelemetryMessage F)
    (received_at : Instant) (anchors : BootAnchors)
    → parse fl loads payload ≡ ok m
    → IsNear anchors
    → (reading : ResolvedReading F) × (anchors' : BootAnchors) × (resolve m received_at anchors
        ≡ ok (reading, anchors'))
      × IsNear anchors'
parse-resolve_total fl loads payload m received_at anchors parsed near =
    let short = IsShort-envelope fl m (parse-IsWellFormed fl loads payload m parsed) in
    let (r, resolved, near') = resolve_instant_total (envelope m) received_at anchors short near in
    unfold resolve in (resolved_reading m received_at r, r.anchors, rw resolved, near')
