-- ===== src/Identity.antt =====
-- backend/src/psychron/domain/identity.py: lockout, invitations, the lifetime of a session.
pub mod Lockouts
pub mod Attempts
mod Tests
use psychron.Base.{
  Bool, List, Option, [], false, if◌then◌else◌, is_some, leb, length, ltb, ltb_ℤ, none, pos, select,
  some, true, ℕ, ◌%◌, ◌-◌, ◌/◌, ◌∷◌,
}
use psychron.Instant.{Instant, epoch, micros_of_ms, minus, plus_ms}
use psychron.Raise.{Result, ok, ◌>>=◌, ◌>>◌}

abbrev pub max_attempts : ℕ
max_attempts = 3

-- fifteen minutes
abbrev pub lockout_ms : ℕ
lockout_ms = 900000

-- twelve hours
abbrev pub session_lifetime_ms : ℕ
session_lifetime_ms = 43200000

-- seven days
abbrev pub invitation_lifetime_ms : ℕ
invitation_lifetime_ms = 604800000

abbrev pub totp_period : ℕ
totp_period = 30

pub data LinkState : Type 0 where
  issued opened consumed expired : LinkState

pub record Lockout : Type 0 where
  pub locked : Bool
  pub attempts_remaining : ℕ
  pub until : Option Instant

-- `now - f < LOCKOUT`
abbrev pub is_recent : Instant → Instant → Bool
is_recent now f = ltb_ℤ (minus now f) (pos (micros_of_ms lockout_ms))

abbrev pub recent_failures : List Instant → Instant → List Instant
recent_failures failures now = select (is_recent now) failures

abbrev pub max_ℕ : ℕ → ℕ → ℕ
max_ℕ a b = if ltb a b then b else a

-- `max(recent)`
unfoldable pub latest : List Instant → Instant
latest [] = 0
latest (f ∷ failures) = max_ℕ f (latest failures)

unfoldable pub lockout_state : List Instant → Instant → Result Lockout
unfolding latest
lockout_state failures now =
    let recent = recent_failures failures now in
    elim (leb max_attempts (length recent)) [
      | true ↦ do
        until ← plus_ms (latest recent) lockout_ms
        ok (record { locked = true; attempts_remaining = 0; until = some until })
      | false ↦ ok (record {
        locked = false;
        attempts_remaining = max_attempts - length recent;
        until = none;
      })
    ]

unfoldable pub invitation_state : Instant → Option Instant → Option Instant → Instant → LinkState
invitation_state expires_at opened_at (some t) now = consumed
invitation_state expires_at opened_at none now =
    if leb expires_at now then expired else if is_some opened_at then opened else issued

abbrev pub session_expiry : Instant → Result Instant
session_expiry now = plus_ms now session_lifetime_ms

-- `int(now.timestamp()) % TOTP_PERIOD`, for an instant since 1970
unfoldable pub seconds_into_totp_period : Instant → ℕ
seconds_into_totp_period now = (now - epoch) / 1000000 % totp_period
