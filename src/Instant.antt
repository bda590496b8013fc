-- ===== src/Instant.antt =====
-- datetime.datetime in UTC, as microseconds since 0001-01-01T00:00:00Z. The type holds the years 1
-- to 9999, and arithmetic that leaves them raises OverflowError.
use psychron.Base.{ℕ, ◌+◌, ◌-◌, ◌*◌, ℤ, sub_ℕ, ltb, leb, if◌then◌else◌}
use psychron.Raise.{Result, ok, raise, overflow_error}

abbrev pub Instant : Type 0
Instant = ℕ

-- the first microsecond of year 10000
abbrev pub end_of_time : Instant
end_of_time = 315537897600000000

-- 1970-01-01T00:00:00Z
abbrev pub epoch : Instant
epoch = 62135596800000000

-- 2100-01-01T00:00:00Z
abbrev pub year_2100 : Instant
year_2100 = 66238041600000000

abbrev pub micros_of_ms : ℕ → ℕ
micros_of_ms ms = ms * 1000

-- `datetime.fromtimestamp(ts, tz=timezone.utc) + timedelta(milliseconds=ms)`
abbrev pub from_timestamp : ℕ → ℕ → Instant
from_timestamp ts ms = epoch + ts * 1000000 + micros_of_ms ms

-- `t + timedelta(milliseconds=ms)`
unfoldable pub plus_ms : Instant → ℕ → Result Instant
plus_ms t ms =
    if ltb (t + micros_of_ms ms) end_of_time then ok (t + micros_of_ms ms) else raise overflow_error

-- `t - timedelta(milliseconds=ms)`
unfoldable pub minus_ms : Instant → ℕ → Result Instant
minus_ms t ms = if leb (micros_of_ms ms) t then ok (t - micros_of_ms ms) else raise overflow_error

-- `a - b`, a signed timedelta in microseconds
abbrev pub minus : Instant → Instant → ℤ
minus a b = sub_ℕ a b
