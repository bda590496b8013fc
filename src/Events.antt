-- ===== src/Events.antt =====
-- backend/src/psychron/domain/events.py, contract v2 events.
use psychron.Samples.{contract_version, envelope_int, max_safe_int}
use psychron.Base.{
  List, String, [], elem, has_key, lookup, none, not, pos, select, some, ℕ, ◌∷◌, Option,
}
use psychron.Clock.{BootAnchors, Envelope, Resolution, resolve_instant}
use psychron.Fields.{parse_device_clock, short_text}
use psychron.Instant.{Instant}
use psychron.Json.{
  Bytes, Json, Loaded, Loads, as_dict, bad_json, equals_int, get, loaded, str, too_deep,
}
use psychron.PyFloat.{Float}
use psychron.Raise.{
  Result, bad_kind, dev_not_short, expect, fw_not_short, invalid, key_error, not_json, not_object,
  ok, raise, recursion_error, require, unknown_fields, unsupported_version, ◌>>=◌, ◌>>◌,
}
use psychron.Schema.{Group, Value, check_dict, integer, is_empty, keys, number_spec, optional}

abbrev pub kinds : List (String × Group)
kinds =
    (
      "vibration",
      ("dur", record (number_spec "duration_ms" (pos 1) (pos 600000)) { kind = integer })
          ∷ ("pga", number_spec "pga_ms2" (pos 0) (pos 160))
          ∷ ("ratio", number_spec "sta_lta" (pos 1) (pos 1000))
          ∷ ("freq", optional (number_spec "freq_hz" (pos 0) (pos 100)))
          ∷ [],
    )
    ∷ []

abbrev pub event_envelope : List String
event_envelope = "v" ∷ "dev" ∷ "fw" ∷ "boot" ∷ "seq" ∷ "ts" ∷ "ms" ∷ "up" ∷ "q" ∷ "kind" ∷ []

pub record EventMessage (F : Type 0) : Type 0 where
  pub device_id : String
  pub firmware : String
  pub boot_id : ℕ
  pub seq : ℕ
  pub device_time : Option Instant
  pub uptime_ms : ℕ
  pub quality : ℕ
  pub kind : String
  pub duration_ms : Value F
  pub pga_ms2 : Value F
  pub sta_lta : Value F
  pub freq_hz : Option (Value F)

pub record ResolvedEvent (F : Type 0) : Type 0 where
  pub time : Instant
  pub received_at : Instant
  pub quality : ℕ
  pub message : EventMessage F

-- `d[key]`, a KeyError on a missing key
abbrev pub at_key {ℓ} : {V : Type ℓ} → Option V → Result V
at_key none = raise key_error
at_key (some v) = ok v

module _ {F : Type 0} where
  -- `set(data) - ENVELOPE - set(spec)`
  abbrev pub unknown_keys : Group → List (String × Json F) → List String
  unknown_keys spec members =
      select (λ key. not (elem key event_envelope))
        (select (λ key. not (has_key key spec)) (keys members))

  -- `{k: data[k] for k in spec if k in data}`
  abbrev pub restrict : Group → List (String × Json F) → List (String × Json F)
  restrict [] members = []
  restrict ((k, s) ∷ spec) members = elim (lookup k members) [
    | none ↦ restrict spec members
    | some v ↦ (k, v) ∷ restrict spec members
  ]

  -- `isinstance(kind, str) and kind in KINDS`, with `KINDS[kind]`
  abbrev pub known_kind : Option (Json F) → Option (String × Group)
  known_kind (some (str kind)) = elim (lookup kind kinds) [
    | none ↦ none
    | some spec ↦ some (kind, spec)
  ]
  known_kind _ = none

module _ {F : Type 0} (fl : Float F) where
  unfoldable pub parse_members : List (String × Json F) → Result (EventMessage F)
  parse_members members = do
    require (equals_int fl (get "v" members) contract_version) unsupported_version
    device_id ← short_text "dev" 64 dev_not_short members
    firmware ← short_text "fw" 32 fw_not_short members
    (kind, spec) ← expect (known_kind (get "kind" members)) bad_kind
    require (is_empty (unknown_keys spec members)) (unknown_fields (unknown_keys spec members))
    values ← check_dict fl kind spec (restrict spec members)
    boot_id ← envelope_int members "boot" 0 0xFFFFFFFF
    seq ← envelope_int members "seq" 0 max_safe_int
    device_time ← parse_device_clock members
    uptime_ms ← envelope_int members "up" 0 max_safe_int
    quality ← envelope_int members "q" 0 0xFFFF
    duration_ms ← at_key (lookup "duration_ms" values)
    pga_ms2 ← at_key (lookup "pga_ms2" values)
    sta_lta ← at_key (lookup "sta_lta" values)
    ok (record {
      device_id = device_id;
      firmware = firmware;
      boot_id = boot_id;
      seq = seq;
      device_time = device_time;
      uptime_ms = uptime_ms;
      quality = quality;
      kind = kind;
      duration_ms = duration_ms;
      pga_ms2 = pga_ms2;
      sta_lta = sta_lta;
      freq_hz = lookup "freq_hz" values;
    })

  -- `parse`, over what json.loads has made of the payload
  unfoldable pub parse_loaded : Loaded F → Result (EventMessage F)
  parse_loaded bad_json = raise (invalid not_json)
  parse_loaded too_deep = raise recursion_error
  parse_loaded (loaded v) = do members ← expect (as_dict v) not_object; parse_members members

  unfoldable pub parse : Loads F → Bytes → Result (EventMessage F)
  unfolding parse_loaded
  parse loads payload = parse_loaded (loads payload)

module _ {F : Type 0} where
  abbrev pub envelope : EventMessage F → Envelope
  envelope msg = record {
    device_id = msg.device_id;
    boot_id = msg.boot_id;
    device_time = msg.device_time;
    uptime_ms = msg.uptime_ms;
    quality = msg.quality;
  }

  abbrev pub resolved_event : EventMessage F → Instant → Resolution → ResolvedEvent F
  resolved_event msg received_at r = record {
    time = r.instant;
    received_at = received_at;
    quality = r.quality;
    message = msg;
  }

  unfoldable pub resolve :
      EventMessage F → Instant → BootAnchors → Result (ResolvedEvent F × BootAnchors)
  resolve msg received_at anchors = do
    r ← resolve_instant (envelope msg) received_at anchors
    ok (resolved_event msg received_at r, r.anchors)
