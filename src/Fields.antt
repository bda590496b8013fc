-- ===== src/Fields.antt =====
-- The field readers that both contracts share: `_require`, `_optional_float`, `_int_field` and
-- `parse_device_clock` of backend/src/psychron/domain/telemetry.py, and the two tests of `dev` and
-- `fw` that each `parse` makes.
pub mod Reads
use psychron.Base.{
  List, Option, String, count, is_none, leb, leb_ℤ, ltb, ltb_ℤ, none, pos, pos_part, some, ℕ, ◌&&◌,
}
use psychron.Instant.{Instant, from_timestamp}
use psychron.Json.{Json, as_int, as_str, float, get, int}
use psychron.PyFloat.{Float}
use psychron.Raise.{
  Reason, Result, expect, invalid, ms_not_integer, ms_out_of_range, ms_without_ts, not_finite,
  not_integer, not_number, ok, out_of_range, overflow_error, raise, require, ts_implausible,
  ts_not_integer, ◌>>=◌, ◌>>◌,
}

module _ {F : Type 0} where
  -- `isinstance(s, str) and 0 < len(s) <= most`, for `dev` and for `fw`
  unfoldable pub short_text : String → ℕ → Reason → List (String × Json F) → Result String
  short_text key most reason members = do
    s ← expect (as_str (get key members)) reason
    require (ltb 0 (count s) && leb (count s) most) reason
    ok s

  unfoldable pub int_field : List (String × Json F) → String → ℕ → ℕ → Result ℕ
  int_field members key lo hi = do
    raw ← expect (as_int (get key members)) (not_integer key)
    require (leb_ℤ (pos lo) raw && leb_ℤ raw (pos hi)) (out_of_range key)
    ok (pos_part raw)

  -- the second half of `parse_device_clock`: the milliseconds
  unfoldable pub clock_ms : Option (Json F) → Result ℕ
  clock_ms none = ok 0
  clock_ms (some ms_raw) = do
    ms ← expect (as_int (some ms_raw)) ms_not_integer
    require (leb_ℤ (pos 0) ms && leb_ℤ ms (pos 999)) ms_out_of_range
    ok (pos_part ms)

  unfoldable pub device_clock : Option (Json F) → Option (Json F) → Result (Option Instant)
  unfolding clock_ms
  device_clock none ms_raw = do require (is_none ms_raw) ms_without_ts; ok none
  device_clock (some ts_raw) ms_raw = do
    ts ← expect (as_int (some ts_raw)) ts_not_integer
    require (ltb_ℤ (pos 0) ts && ltb_ℤ ts (pos 4102444800)) ts_implausible
    ms ← clock_ms ms_raw
    ok (some (from_timestamp (pos_part ts) ms))

  unfoldable pub parse_device_clock : List (String × Json F) → Result (Option Instant)
  unfolding device_clock
  parse_device_clock members = device_clock (get "ts" members) (get "ms" members)

module _ {F : Type 0} (fl : Float F) where
  -- `float(raw)`, for an int or a float that is no bool
  unfoldable pub to_float : Json F → Reason → Result F
  to_float (int n) reason = elim (fl.of_int n) [ none ↦ raise overflow_error | some x ↦ ok x ]
  to_float (float x) reason = ok x
  to_float _ reason = raise (invalid reason)

  unfoldable pub optional_float : Option (Json F) → String → Result (Option F)
  unfolding to_float
  optional_float none field = ok none
  optional_float (some raw) field = do
    value ← to_float raw (not_number field)
    require (fl.is_finite value) (not_finite field)
    ok (some value)
