-- ===== src/Accounts.antt =====
-- backend/src/psychron/adapters/identity_pg.py, `PostgresIdentity`: its tables as lists of rows,
-- newest first. The clock, the random tokens and the hashes of third-party packages are arguments;
-- Python's clock and the database's are taken to agree within one call.
pub mod Gate
pub mod Context
pub mod SingleUse
pub mod Sessions
pub mod Locked
pub mod House
mod Tests
use psychron.Base.{
  Bool, List, Option, String, [], any, false, if◌then◌else◌, is_none, is_some, map, none, select,
  some, str_eq, true, ℕ, ◌&&◌, ◌==◌, ◌||◌, ◌∷◌,
}
use psychron.Identity.{Lockout, lockout_state, recent_failures}
use psychron.Instant.{Instant}
use psychron.Raise.{Result, ok, ◌>>=◌, ◌>>◌}

pub record Account : Type 0 where
  pub account_id : ℕ
  pub identifier : String
  pub password_hash : Option String
  pub totp_secret : Option String
  pub is_owner : Bool
  pub disabled_at : Option Instant

pub record Session : Type 0 where
  pub session_id : String
  pub account_id : ℕ
  pub expires_at : Instant
  pub revoked_at : Option Instant
  pub pending : Bool

pub record Invitation : Type 0 where
  pub token_hash : String
  pub identifier : String
  pub issued_by : Option ℕ
  pub expires_at : Instant
  pub opened_at : Option Instant
  pub consumed_at : Option Instant

pub record RecoveryCode : Type 0 where
  pub account_id : ℕ
  pub code_hash : String
  pub used_at : Option Instant

-- where a request comes from: `request.client.host` and the User-Agent header
pub record Client : Type 0 where
  pub ip : Option String
  pub user_agent : Option String

pub record Attempt : Type 0 where
  pub identifier : String
  pub client : Client
  pub stage : String
  pub outcome : String
  pub at : Instant

pub record Store : Type 0 where
  pub accounts : List Account
  pub sessions : List Session
  pub invitations : List Invitation
  pub recovery_codes : List RecoveryCode
  pub attempts : List Attempt

-- argon2, pyotp and hashlib
pub record Hashes : Type 0 where
  -- `PasswordHasher.verify` of a hash and a password: it returns True, it raises
  -- VerifyMismatchError, which is `ok false`, or it raises another exception
  pub matches : String → String → Result Bool
  -- `TOTP(secret).verify(code, valid_window=1)` at an instant
  pub totp_accepts : String → String → Instant → Bool
  -- `_digest(token)`, and `_digest(code.strip().lower())`
  pub digest : String → String
  pub digest_code : String → String

unfoldable pub find : {A : Type 0} → (A → Bool) → List A → Option A
find p [] = none
find p (x ∷ xs) = if p x then some x else find p xs

-- a text column that is None or empty is falsy
abbrev pub truthy : Option String → Option String
truthy none = none
truthy (some s) = if str_eq s "" then none else some s

abbrev pub enabled : Account → Bool
enabled a = is_none a.disabled_at

-- `_account`
unfoldable pub account_of : String → Store → Option Account
unfolding find
account_of identifier store = find (λ a. str_eq a.identifier identifier && enabled a) store.accounts

-- `_record`
abbrev pub record_attempt : String → String → String → Client → Instant → Store → Store
record_attempt identifier stage outcome client now store = record store {
  attempts =
      record {
        identifier = identifier;
        client = client;
        stage = stage;
        outcome = outcome;
        at = now;
      }
      ∷ store.attempts;
}

abbrev pub is_failure : String → Attempt → Bool
is_failure identifier a =
    str_eq a.identifier identifier
    && (str_eq a.outcome "bad_credential" || str_eq a.outcome "unknown_account")

-- `at > now() - interval '15 minutes'` is the test that `lockout_state` makes once more
unfoldable pub lockout : String → Instant → Store → Result Lockout
lockout identifier now store =
    lockout_state
      (recent_failures (map (λ a. a.at) (select (is_failure identifier) store.attempts)) now) now

-- `"ok" if ok else "bad_credential"`
abbrev pub outcome_of : Bool → String
outcome_of accepted = if accepted then "ok" else "bad_credential"

abbrev pub totp_of : Option Account → Option String
totp_of none = none
totp_of (some account) = truthy account.totp_secret

abbrev pub password_of : Option Account → Option (Account × String)
password_of none = none
password_of (some account) = elim (truthy account.password_hash) [
  | none ↦ none
  | some h ↦ some (account, h)
]

abbrev pub is_unused : ℕ → String → RecoveryCode → Bool
is_unused account_id code_hash c =
    c.account_id == account_id && (str_eq c.code_hash code_hash && is_none c.used_at)

-- `UPDATE recovery_code SET used_at = now()`
abbrev pub use_code : ℕ → String → Instant → RecoveryCode → RecoveryCode
use_code account_id code_hash now c =
    if is_unused account_id code_hash c then record c { used_at = some now } else c

module _ (hashes : Hashes) where
  -- the second half of `verify_password`, for an account with a password
  abbrev pub check_password :
      Account
      → String
      → String
      → String
      → Client
      → Instant
      → Store
      → Result ((Bool × String) × Store)
  check_password account password_hash identifier password client now store = do
    right ← hashes.matches password_hash password
    ok (
        if right
        then (
          (true, if is_some (truthy account.totp_secret) then "totp" else "ok"),
          record_attempt identifier "password" "ok" client now store,
        )
        else (
          (false, "bad_credential"),
          record_attempt identifier "password" "bad_credential" client now store,
        ))

  unfoldable pub verify_password :
      String → String → Client → Instant → Store → Result ((Bool × String) × Store)
  unfolding lockout account_of
  verify_password identifier password client now store = do
    state ← lockout identifier now store
    if state.locked
        then ok ((false, "locked"), record_attempt identifier "password" "locked" client now store)
        else elim (password_of (account_of identifier store)) [
          | none ↦ ok (
            (false, "bad_credential"),
            record_attempt identifier "password" "unknown_account" client now store,
          )
          | some (account, h) ↦ check_password account h identifier password client now store
        ]

  unfoldable pub verify_totp : String → String → Client → Instant → Store → Result (Bool × Store)
  unfolding lockout account_of
  verify_totp identifier code client now store = do
    state ← lockout identifier now store
    ok (
        if state.locked then (false, store) else elim (totp_of (account_of identifier store)) [
          | none ↦ (false, store)
          | some secret ↦
              let accepted = hashes.totp_accepts secret code now in
              (accepted, record_attempt identifier "totp" (outcome_of accepted) client now store)
        ])

  unfoldable pub verify_recovery : String → String → Client → Instant → Store → Bool × Store
  unfolding account_of
  verify_recovery identifier code client now store = elim (account_of identifier store) [
    | none ↦ (false, store)
    | some account ↦
        let code_hash = hashes.digest_code code in
        let accepted = any (is_unused account.account_id code_hash) store.recovery_codes in
        (
          accepted,
          record_attempt identifier "recovery" (outcome_of accepted) client now (record store {
            recovery_codes = map (use_code account.account_id code_hash now) store.recovery_codes;
          }),
        )
  ]
