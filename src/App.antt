-- ===== src/App.antt =====
-- backend/src/psychron/api/app.py: the read API. A route takes what the request carries, the time
-- and the tables, and returns its answer; FastAPI's wiring and the encoding of JSON and of
-- spreadsheets are left out. `datetime.fromisoformat` is a parameter.
pub mod Routes
pub mod Export
pub mod Live
pub mod Current
pub mod Ranges
pub mod Sends
pub mod Sockets
mod Tests
use Prim.Native.String.{◌++◌ as text_append}
use psychron.Accounts.{truthy}
use psychron.Auth.{TextMethods, authenticate, by_session}
use psychron.Base.{
  Bool, List, Option, String, [], false, if◌then◌else◌, is_some, leb, ltb, ltb_ℤ, map, none, pos,
  select, some, true, ℕ, ℤ, ◌*◌, ◌-◌, ◌∷◌,
}
use psychron.Clock.{test_bit}
use psychron.Database.{Database}
use psychron.Instant.{Instant, minus, minus_ms}
use psychron.Queries.{latest_reading}
use psychron.Queries.Phone.{latest_sample}
use psychron.Raise.{Result, ok, raise, value_error, ◌>>=◌, ◌>>◌, is_value_error}
use psychron.Schema.{text}

-- what a route answers: its body, or an HTTPException with its status
pub data Reply {ℓ} (A : Type ℓ) : Type ℓ where
  reply : A → Reply A
  http_error : ℕ → Reply A

-- a datetime that `fromisoformat` reads, with no zone or with one; either as an instant, the first
-- as if it were in UTC
pub data Stamp : Type 0 where
  naive aware : Instant → Stamp

-- `if t.tzinfo is None: t = t.replace(tzinfo=timezone.utc)`
abbrev pub in_utc : Stamp → Instant
in_utc (naive t) = t
in_utc (aware t) = t

-- `t - timedelta(hours=24)`
unfoldable pub day_before : Stamp → Result Stamp
day_before (naive t) = do u ← minus_ms t 86400000; ok (naive u)
day_before (aware t) = do u ← minus_ms t 86400000; ok (aware u)

abbrev pub ten_years : ℕ
ten_years = 3650 * 86400000000

-- the two checks of a range
unfoldable pub check_range_of : Instant → Instant → Reply (Instant × Instant)
check_range_of start stop =
    if leb stop start
    then http_error 400
    else if ltb ten_years (stop - start)
    then http_error 400
    else reply (start, stop)

-- `except ValueError`
abbrev pub bad_timestamp : Result (Stamp × Stamp) → Result (Reply (Instant × Instant))
bad_timestamp (raise e) = if is_value_error e then ok (http_error 400) else raise e
bad_timestamp (ok (start, stop)) = ok (check_range_of (in_utc start) (in_utc stop))

module _ (fromisoformat : String → Result Stamp) where
  -- `fromisoformat(s) if s else ...`
  abbrev pub read_stamp : Option String → Result Stamp → Result Stamp
  read_stamp s default = elim (truthy s) [ none ↦ default | some written ↦ fromisoformat written ]

  -- the body of the `try`
  unfoldable pub read_stamps : Option String → Option String → Instant → Result (Stamp × Stamp)
  unfolding day_before
  read_stamps frm to now = do
    stop ← read_stamp to (ok (aware now))
    start ← read_stamp frm (day_before stop)
    ok (start, stop)

  unfoldable pub parse_range :
      Option String → Option String → Instant → Result (Reply (Instant × Instant))
  unfolding read_stamps check_range_of
  parse_range frm to now = bad_timestamp (read_stamps frm to now)

abbrev pub quality_flags : List (ℕ × String)
quality_flags =
    (0x01, "clock_unsynced")
    ∷ (0x02, "replayed")
    ∷ (0x04, "prior_read_failed")
    ∷ (0x08, "out_of_range")
    ∷ (0x10, "interval_drift")
    ∷ (0x0100, "time_from_boot_anchor")
    ∷ (0x0200, "time_from_arrival")
    ∷ []

-- `describe_quality`; a value of 0 or None has no flags
unfoldable pub describe_quality : ℕ → List String
describe_quality value = map (λ e. e.1) (select (λ e. test_bit value e.0) quality_flags)

-- `_socket_allowed`, for the identity's `session_principal` and the authenticator's token
module _ (methods : TextMethods) where
  unfoldable pub socket_allowed :
      (String → Option String) → Option String → Option String → String → Result Bool
  socket_allowed principal_of token cookie query =
      if is_some (by_session methods principal_of cookie) then ok true else elim token [
        | none ↦ ok false
        | some secret ↦ do
          principal ← authenticate methods secret (some (text_append "Bearer " query))
          ok (is_some principal)
      ]

pub record Health : Type 0 where
  pub device : String
  pub last_reading_age : Option ℤ
  pub device_reporting : Bool
  pub phone : String
  pub last_sample_age : Option ℤ
  pub phone_reporting : Bool

-- an age, in microseconds, and `age is not None and age < 30`
abbrev pub age_of : Instant → Option Instant → Option ℤ
age_of now none = none
age_of now (some t) = some (minus now t)

abbrev pub is_reporting : Option ℤ → Bool
is_reporting none = false
is_reporting (some age) = ltb_ℤ age (pos 30000000)

abbrev pub time_of {ℓ} : {A : Type ℓ} → (A → Instant) → Option A → Option Instant
time_of time none = none
time_of time (some row) = some (time row)

-- `GET /api/health`; the clock is read once here
unfoldable pub health : {F : Type 0} → String → String → Instant → Database F → Health
unfolding latest_reading latest_sample
health device_id phone_device_id now db =
    let age = age_of now (time_of (λ r. r.time) (latest_reading device_id db)) in
    let phone_age = age_of now (time_of (λ s. s.time) (latest_sample phone_device_id db)) in
    record {
      device = device_id;
      last_reading_age = age;
      device_reporting = is_reporting age;
      phone = phone_device_id;
      last_sample_age = phone_age;
      phone_reporting = is_reporting phone_age;
    }
