-- ===== src/Fields/Reads.antt =====
-- backend/src/psychron/domain/telemetry.py. What each field reader guarantees of the value that it
-- returns.
use psychron.Base.{
  AllSome, List, Option, String, arith, count, none, pos, some, true, ℕ, ◌<◌, ◌≡◌, ◌≤◌,
}
use psychron.Fields.{device_clock, int_field, optional_float, short_text, parse_device_clock}
use psychron.Instant.{Instant, epoch, year_2100}
use psychron.Json.{Json, get, int, str}
use psychron.PyFloat.{Float}
use psychron.Raise.{Reason, ok}

module _ {F : Type 0} where
  pub short_text_bounds :
      (key : String) (most : ℕ) (reason : Reason) (members : List (String × Json F)) {s : String}
      → short_text key most reason members ≡ ok s
      → (0 < count s) × (count s ≤ most) × (get key members ≡ some (str s))
  unfolding short_text
  short_text_bounds key most reason members h = ground arith

  pub int_field_bounds :
      (members : List (String × Json F)) (key : String) (lo hi : ℕ) {n : ℕ}
      → int_field members key lo hi ≡ ok n
      → (lo ≤ n) × (n ≤ hi) × (get key members ≡ some (int (pos n)))
  unfolding int_field
  int_field_bounds members key lo hi h = ground arith

  pub device_clock_bounds :
      (ts_raw ms_raw : Option (Json F)) (t : Option Instant)
      → device_clock ts_raw ms_raw ≡ ok t
      → AllSome (λ t. (epoch < t) × (t < year_2100)) t
  unfolding device_clock
  device_clock_bounds none none (some t) h = cc
  device_clock_bounds none (some ms_raw) (some t) h = cc
  device_clock_bounds (some ts_raw) ms_raw (some t) h = ground arith
  device_clock_bounds _ _ none h = tt

  pub parse_device_clock_bounds :
      (members : List (String × Json F)) (t : Option Instant)
      → parse_device_clock members ≡ ok t
      → AllSome (λ t. (epoch < t) × (t < year_2100)) t
  unfolding parse_device_clock
  parse_device_clock_bounds members t h =
      device_clock_bounds (get "ts" members) (get "ms" members) t h

module _ {F : Type 0} (fl : Float F) where
  pub optional_float-IsFinite :
      (raw : Option (Json F)) (field : String) (x : Option F)
      → optional_float fl raw field ≡ ok x
      → AllSome (λ v. fl.is_finite v ≡ true) x
  unfolding optional_float
  optional_float-IsFinite none field none h = tt
  optional_float-IsFinite none field (some v) h = cc
  optional_float-IsFinite (some raw) field none h = tt
  optional_float-IsFinite (some raw) field (some v) h = ground arith

-- The readers accept what lies in their bounds.
module _ {F : Type 0} where
  pub short_text_accepts :
      (key : String) (most : ℕ) (reason : Reason) (members : List (String × Json F)) (s : String)
      → get key members ≡ some (str s)
      → 0 < count s
      → count s ≤ most
      → short_text key most reason members ≡ ok s
  unfolding short_text
  short_text_accepts key most reason members s found short long = ground arith

  pub int_field_accepts :
      (members : List (String × Json F)) (key : String) (lo hi n : ℕ)
      → get key members ≡ some (int (pos n))
      → lo ≤ n
      → n ≤ hi
      → int_field members key lo hi ≡ ok n
  unfolding int_field
  int_field_accepts members key lo hi n found above below = ground arith
