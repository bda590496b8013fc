-- ===== src/Samples.antt =====
-- backend/src/psychron/domain/samples.py, contract v2: the schema, the messages, `parse` and
-- `resolve`. The validator of the schema is the module Schema.
pub mod Accepted
mod Tests
use psychron.Base.{
  List, Option, String, [], all, elem, false, has_key, if◌then◌else◌, insert, is_some, leb_ℤ,
  length, lookup, ltb, map, negsuc, none, not, pos, pos_part, select, some, str_eq, suc, zero, ℕ, ℤ,
  ◌&&◌, ◌-◌, ◌^◌, ◌∷◌,
}
use psychron.Clock.{BootAnchors, Envelope, Resolution, resolve_instant}
use psychron.Fields.{parse_device_clock, short_text}
use psychron.Instant.{Instant}
use psychron.Json.{
  Bytes, Json, Loaded, Loads, as_dict, as_int, bad_json, equals_int, get, loaded, too_deep,
}
use psychron.PyFloat.{Float}
use psychron.Raise.{
  Result, alt_acc_without_alt, dev_not_short, expect, fw_not_short, invalid, no_groups, not_integer,
  not_json, not_object, ok, out_of_range, raise, recursion_error, require, type_error,
  unknown_fields, unsupported_version, ◌>>=◌, ◌>>◌,
}
use psychron.Schema.{
  Group, Value, check_group, choice_spec, flag_spec, integer, is_empty, keys, number_spec, optional,
}
use psychron.Quantities.{
  Measurements, present, sample_envelope, sample_schema, to_measurements, update,
}

abbrev pub contract_version : ℤ
contract_version = pos 2

-- `2**53 - 1`
abbrev pub max_safe_int : ℕ
max_safe_int = 2 ^ 53 - 1

pub record SampleMessage (F : Type 0) : Type 0 where
  pub version : ℤ
  pub device_id : String
  pub firmware : String
  pub boot_id : ℕ
  pub seq : ℕ
  pub device_time : Option Instant
  pub uptime_ms : ℕ
  pub window_ms : ℕ
  pub quality : ℕ
  pub measurements : Measurements F

pub record ResolvedSample (F : Type 0) : Type 0 where
  pub time : Instant
  pub device_id : String
  pub boot_id : ℕ
  pub seq : ℕ
  pub device_time : Option Instant
  pub received_at : Instant
  pub uptime_ms : ℕ
  pub window_ms : ℕ
  pub quality : ℕ
  pub firmware : String
  pub measurements : Measurements F

module _ {F : Type 0} where
  unfoldable pub envelope_int : List (String × Json F) → String → ℕ → ℕ → Result ℕ
  envelope_int members key lo hi = do
    raw ← expect (as_int (get key members)) (not_integer key)
    require (leb_ℤ (pos lo) raw && leb_ℤ raw (pos hi)) (out_of_range key)
    ok (pos_part raw)

  -- `set(data) - ENVELOPE - set(SCHEMA)`
  abbrev pub unknown_keys : List (String × Json F) → List String
  unknown_keys members =
      select (λ key. not (elem key sample_envelope))
        (select (λ key. not (has_key key sample_schema)) (keys members))

module _ {F : Type 0} (fl : Float F) where
  -- the loop of `parse` over SCHEMA
  unfoldable pub check_groups :
      List (String × Group)
      → List (String × Json F)
      → List (String × Value F)
      → Result (List (String × Value F))
  check_groups [] members values = ok values
  check_groups ((group, spec) ∷ schema) members values = elim (lookup group members) [
    | none ↦ check_groups schema members values
    | some body ↦ do
      checked ← check_group fl group spec body
      check_groups schema members (update values checked)
  ]

  unfoldable pub parse_measurements : List (String × Json F) → Result (Measurements F)
  parse_measurements members = do
    require (is_empty (unknown_keys members)) (unknown_fields (unknown_keys members))
    values ← check_groups sample_schema members []
    require (not (has_key "alt_acc_m" values && not (has_key "alt_msl_m" values)))
        alt_acc_without_alt
    measurements ← to_measurements values
    require (ltb 0 (present measurements)) no_groups
    ok measurements

  unfoldable pub parse_members : List (String × Json F) → Result (SampleMessage F)
  parse_members members = do
    require (equals_int fl (get "v" members) contract_version) unsupported_version
    device_id ← short_text "dev" 64 dev_not_short members
    firmware ← short_text "fw" 32 fw_not_short members
    device_time ← parse_device_clock members
    measurements ← parse_measurements members
    boot_id ← envelope_int members "boot" 0 0xFFFFFFFF
    seq ← envelope_int members "seq" 0 max_safe_int
    uptime_ms ← envelope_int members "up" 0 max_safe_int
    window_ms ← envelope_int members "win" 100 60000
    quality ← envelope_int members "q" 0 0xFFFF
    ok (record {
      version = contract_version;
      device_id = device_id;
      firmware = firmware;
      boot_id = boot_id;
      seq = seq;
      device_time = device_time;
      uptime_ms = uptime_ms;
      window_ms = window_ms;
      quality = quality;
      measurements = measurements;
    })

  -- `parse`, over what json.loads has made of the payload
  unfoldable pub parse_loaded : Loaded F → Result (SampleMessage F)
  parse_loaded bad_json = raise (invalid not_json)
  parse_loaded too_deep = raise recursion_error
  parse_loaded (loaded v) = do members ← expect (as_dict v) not_object; parse_members members

  unfoldable pub parse : Loads F → Bytes → Result (SampleMessage F)
  unfolding parse_loaded
  parse loads payload = parse_loaded (loads payload)

module _ {F : Type 0} where
  abbrev pub envelope : SampleMessage F → Envelope
  envelope msg = record {
    device_id = msg.device_id;
    boot_id = msg.boot_id;
    device_time = msg.device_time;
    uptime_ms = msg.uptime_ms;
    quality = msg.quality;
  }

  abbrev pub resolved_sample : SampleMessage F → Instant → Resolution → ResolvedSample F
  resolved_sample msg received_at r = record {
    time = r.instant;
    device_id = msg.device_id;
    boot_id = msg.boot_id;
    seq = msg.seq;
    device_time = msg.device_time;
    received_at = received_at;
    uptime_ms = msg.uptime_ms;
    window_ms = msg.window_ms;
    quality = r.quality;
    firmware = msg.firmware;
    measurements = msg.measurements;
  }

  unfoldable pub resolve :
      SampleMessage F → Instant → BootAnchors → Result (ResolvedSample F × BootAnchors)
  resolve msg received_at anchors = do
    r ← resolve_instant (envelope msg) received_at anchors
    ok (resolved_sample msg received_at r, r.anchors)
