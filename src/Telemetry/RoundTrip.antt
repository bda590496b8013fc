-- ===== src/Telemetry/RoundTrip.antt =====
-- backend/src/psychron/domain/telemetry.py. What a node sends, read back.
use psychron.Base.{
  AllSome, List, Option, String, [], arith, none, pos, refl, some, true, ◌%◌, ◌+◌, ◌-◌, ◌/◌, ◌<◌,
  ◌∷◌, ◌≡◌, ◌≤◌, ap, sym,
}
use psychron.Fields.{device_clock, optional_float, parse_device_clock}
use psychron.Fields.Reads.{int_field_accepts, short_text_accepts}
use psychron.Instant.{Instant, epoch, year_2100}
use psychron.Json.{Json, float, int, not_null, null, str}
use psychron.PyFloat.{Float}
use psychron.Raise.{dev_not_short, fw_not_short, ok}
use psychron.Telemetry.{TelemetryMessage, parse_members}
use psychron.Telemetry.Accepted.{IsWellFormed}

-- a clock known to the millisecond, after the first second of 1970
abbrev pub IsWhole : Option Instant → Type 0
IsWhole = AllSome (λ t. (epoch + 1000000 ≤ t) × (t < year_2100) × (t % 1000 ≡ 0))

module _ {F : Type 0} where
  -- an optional number, null if it is missing
  abbrev number : Option F → Json F
  number none = null
  number (some x) = float x

  abbrev seconds : Option Instant → Json F
  seconds none = null
  seconds (some t) = int (pos ((t - epoch) / 1000000))

  abbrev milliseconds : Option Instant → Json F
  milliseconds none = null
  milliseconds (some t) = int (pos ((t - epoch) % 1000000 / 1000))

  -- the object of docs/CONTRACT.md that says what the message says
  abbrev pub to_wire : TelemetryMessage F → List (String × Json F)
  to_wire m =
      ("v", int (pos 1))
      ∷ ("dev", str m.device_id)
      ∷ ("fw", str m.firmware)
      ∷ ("boot", int (pos m.boot_id))
      ∷ ("seq", int (pos m.seq))
      ∷ ("ts", seconds m.device_time)
      ∷ ("ms", milliseconds m.device_time)
      ∷ ("up", int (pos m.uptime_ms))
      ∷ ("t", number m.temperature_c)
      ∷ ("h", number m.humidity_pct)
      ∷ ("q", int (pos m.quality))
      ∷ []

clock_read :
    (F : Type 0) (t : Option Instant)
    → IsWhole t
    → device_clock (not_null (some (seconds {F = F} t))) (not_null (some (milliseconds {F = F} t)))
      ≡ ok t
unfolding device_clock
clock_read F none w = refl
clock_read F (some t) w = ground arith

module _ {F : Type 0} (fl : Float F) where
  number_read :
      (x : Option F) (field : String)
      → AllSome (λ v. fl.is_finite v ≡ true) x
      → optional_float fl (not_null (some (number x))) field ≡ ok x
  unfolding optional_float
  number_read none field h = refl
  number_read (some x) field h = rw h

  -- A message within the contract's bounds, its clock exact to the millisecond, is read back from
  -- the object that carries it without the loss of anything.
  pub parse-to_wire :
      (m : TelemetryMessage F)
      → IsWellFormed fl m
      → m.version ≡ some (int (pos 1))
      → IsWhole m.device_time
      → parse_members fl (to_wire m) ≡ ok m
  unfolding parse_members parse_device_clock
  parse-to_wire m w version whole =
      rw
        (short_text_accepts "dev" 64 dev_not_short (to_wire m) m.device_id refl w.device_id.0
          w.device_id.1)
        (rw
          (short_text_accepts "fw" 32 fw_not_short (to_wire m) m.firmware refl w.firmware.0
            w.firmware.1)
          (rw (clock_read F m.device_time whole) (
            rw
              (int_field_accepts (to_wire m) "boot" 0 0xFFFFFFFF m.boot_id refl (omega arith)
                w.boot_id)
              (rw (int_field_accepts (to_wire m) "seq" 0 0xFFFFFFFF m.seq refl (omega arith) w.seq)
                (rw
                  (int_field_accepts (to_wire m) "up" 0 0xFFFFFFFF m.uptime_ms refl (omega arith)
                    w.uptime)
                  (rw (number_read m.temperature_c "t" w.temperature) (
                    rw (number_read m.humidity_pct "h" w.humidity) (
                      rw
                        (int_field_accepts (to_wire m) "q" 0 0xFFFF m.quality refl (omega arith)
                          w.quality)
                        (ap (λ v. ok (record m { version = v })) (sym version))))))))))
