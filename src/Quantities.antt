-- ===== src/Quantities.antt =====
-- backend/src/psychron/domain/samples.py, the quantities of contract v2: SCHEMA, ENVELOPE and the
-- Measurements dataclass, here the list of its fields with their values.
use psychron.Base.{
  List, Option, String, [], all, elem, false, if◌then◌else◌, insert, is_some, length, lookup, map,
  negsuc, none, pos, select, str_eq, suc, zero, ℕ, ℤ, ◌∷◌,
}
use psychron.Raise.{Result, ok, raise, type_error}
use psychron.Schema.{Group, Value, choice_spec, flag_spec, integer, keys, number_spec, optional}

-- -n
abbrev pub minus_whole : ℕ → ℤ
minus_whole zero = pos 0
minus_whole (suc n) = negsuc n

abbrev pub sample_schema : List (String × Group)
sample_schema =
    ("baro", ("hpa", number_spec "pressure_hpa" (pos 300) (pos 1100)) ∷ [])
    ∷ ("light", ("lux", number_spec "illuminance_lux" (pos 0) (pos 200000)) ∷ [])
    ∷ (
      "sound",
      ("rms_dbfs", number_spec "sound_rms_dbfs" (minus_whole 160) (pos 0))
          ∷ ("peak_dbfs", number_spec "sound_peak_dbfs" (minus_whole 160) (pos 0))
          ∷ [],
    )
    ∷ (
      "accel",
      ("rms", number_spec "accel_rms" (pos 0) (pos 160))
          ∷ ("peak", number_spec "accel_peak" (pos 0) (pos 160))
          ∷ [],
    )
    ∷ (
      "gyro",
      ("rms", number_spec "gyro_rms" (pos 0) (pos 40))
          ∷ ("peak", number_spec "gyro_peak" (pos 0) (pos 40))
          ∷ [],
    )
    ∷ (
      "mag",
      ("ut", number_spec "magnetic_ut" (pos 0) (pos 2000))
          ∷ (
            "heading",
            record (number_spec "heading_deg" (pos 0) (pos 360)) { hi_inclusive = false },
          )
          ∷ [],
    )
    ∷ ("batt", ("c", number_spec "battery_temp_c" (minus_whole 40) (pos 100)) ∷ [])
    ∷ (
      "loc",
      ("lat", number_spec "lat" (minus_whole 90) (pos 90))
          ∷ ("lon", number_spec "lon" (minus_whole 180) (pos 180))
          ∷ ("acc", number_spec "loc_acc_m" (pos 0) (pos 10000))
          ∷ ("alt", optional (number_spec "alt_msl_m" (minus_whole 500) (pos 9000)))
          ∷ ("alt_acc", optional (number_spec "alt_acc_m" (pos 0) (pos 10000)))
          ∷ ("spd", optional (number_spec "speed_ms" (pos 0) (pos 350)))
          ∷ [],
    )
    ∷ (
      "noise",
      ("laeq", number_spec "noise_laeq_dbfs" (minus_whole 160) (pos 0))
          ∷ ("lamax", number_spec "noise_lamax_dbfs" (minus_whole 160) (pos 0))
          ∷ ("l10", optional (number_spec "noise_l10_dbfs" (minus_whole 160) (pos 0)))
          ∷ ("l90", optional (number_spec "noise_l90_dbfs" (minus_whole 160) (pos 0)))
          ∷ [],
    )
    ∷ (
      "cell",
      ("rat", choice_spec "cell_rat" ("lte" ∷ "nr" ∷ []))
          ∷ ("rsrp", number_spec "cell_rsrp_dbm" (minus_whole 156) (minus_whole 31))
          ∷ ("rsrq", number_spec "cell_rsrq_db" (minus_whole 43) (pos 20))
          ∷ ("sinr", optional (number_spec "cell_sinr_db" (minus_whole 23) (pos 40)))
          ∷ (
            "band",
            record (optional (number_spec "cell_band" (pos 1) (pos 1024))) { kind = integer },
          )
          ∷ [],
    )
    ∷ (
      "net",
      ("via", choice_spec "net_via" ("wifi" ∷ "cell" ∷ "ethernet" ∷ "other" ∷ []))
          ∷ ("vpn", flag_spec "net_vpn")
          ∷ ("rtt", optional (number_spec "net_rtt_ms" (pos 0) (pos 60000)))
          ∷ [],
    )
    ∷ []

abbrev pub sample_envelope : List String
sample_envelope = "v" ∷ "dev" ∷ "fw" ∷ "boot" ∷ "seq" ∷ "ts" ∷ "ms" ∷ "up" ∷ "win" ∷ "q" ∷ []

-- `fields(Measurements)`, in the order of the dataclass
abbrev pub measurement_columns : List String
measurement_columns =
    "pressure_hpa" ∷ "illuminance_lux" ∷ "sound_rms_dbfs" ∷ "sound_peak_dbfs" ∷ "accel_rms"
    ∷ "accel_peak" ∷ "gyro_rms" ∷ "gyro_peak" ∷ "magnetic_ut" ∷ "heading_deg" ∷ "battery_temp_c"
    ∷ "lat" ∷ "lon" ∷ "loc_acc_m" ∷ "alt_msl_m" ∷ "alt_acc_m" ∷ "speed_ms" ∷ "noise_laeq_dbfs"
    ∷ "noise_lamax_dbfs" ∷ "noise_l10_dbfs" ∷ "noise_l90_dbfs" ∷ "cell_rat" ∷ "cell_rsrp_dbm"
    ∷ "cell_rsrq_db" ∷ "cell_sinr_db" ∷ "cell_band" ∷ "net_via" ∷ "net_vpn" ∷ "net_rtt_ms" ∷ []

-- The Measurements dataclass: each field with its value, or None.
abbrev pub Measurements : Type 0 → Type 0
Measurements F = List (String × Option (Value F))

module _ {F : Type 0} where
  -- `getattr(self, column)`, None by default
  abbrev pub measured : String → Measurements F → Option (Value F)
  measured column [] = none
  measured column ((c, v) ∷ m) = if str_eq c column then v else measured column m

  abbrev pub with_defaults : List String → List (String × Value F) → Measurements F
  with_defaults columns values = map (λ column. (column, lookup column values)) columns

  -- `Measurements(**values)`: a keyword that is no field raises TypeError
  unfoldable pub to_measurements : List (String × Value F) → Result (Measurements F)
  to_measurements values =
      if all (λ column. elem column measurement_columns) (keys values)
      then ok (with_defaults measurement_columns values)
      else raise type_error

  -- `Measurements.present`
  abbrev pub present : Measurements F → ℕ
  present m = length (select (λ e. is_some e.1) m)

  -- `values.update(checked)`
  unfoldable pub update :
      List (String × Value F) → List (String × Value F) → List (String × Value F)
  update values [] = values
  update values ((column, v) ∷ checked) = update (insert column v values) checked
