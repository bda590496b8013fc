-- ===== src/SignIn.antt =====
-- backend/src/psychron/api/routes_auth.py: sign-in, second factor and invitation. A route takes
-- what the request carries, the random tokens that it draws, the time and the tables, and returns
-- its answer beside the tables as it leaves them. The address bar's scheme, which only sets the
-- Secure flag of a cookie, is left out.
pub mod Answers
pub mod Serve
pub mod Rows
pub mod Proved
pub mod Password
pub mod Codes
pub mod Links
pub mod Second
pub mod Hides
pub mod Completes
mod Tests
use psychron.Accounts.{
  Client, Hashes, Store, lockout, truthy, verify_password, verify_recovery, verify_totp,
}
use psychron.Accounts.Context.{account_count, attempt_context, recovery_remaining}
use psychron.Accounts.Gate.{promote_session, revoke_session, session_principal, open_session}
use psychron.Base.{
  Bool, List, Option, String, count, false, if◌then◌else◌, leb, none, some, str_eq, true, ℕ, ◌&&◌,
  ◌*◌, ◌==◌,
}
use psychron.Identity.{Lockout, max_attempts, seconds_into_totp_period, totp_period}
use psychron.Identity.Attempts.{AttemptContext}
use psychron.Instant.{Instant}
use psychron.Ports.{Outcome}
use psychron.Raise.{Result, ok, raise}

-- the detail of an HTTPException
pub data Refusal : Type 0 where
  -- 422: a field of the body is too short or too long
  bad_body : Refusal
  -- 429
  locked_out : Option Instant → Refusal
  -- 401
  bad_credential : ℕ → Refusal
  no_pending_session : Refusal
  bad_code : ℕ → Refusal
  -- 409
  conflict : Refusal

-- what happens to a cookie: nothing, a value for so many seconds, or its end
pub data CookieChange : Type 0 where
  untouched : CookieChange
  set_to : String → ℕ → CookieChange
  deleted : CookieChange

pub record Response (B : Type 0) : Type 0 where
  pub body : B
  pub session_cookie : CookieChange
  pub pending_cookie : CookieChange

pub data Answer (B : Type 0) : Type 0 where
  respond : Response B → Answer B
  refuse : Refusal → Answer B

-- what the second-factor screen is told
pub record SecondFactor : Type 0 where
  pub identifier : String
  pub attempts_remaining : ℕ
  pub max_attempts : ℕ
  pub period : ℕ
  pub elapsed : ℕ
  pub recovery : ℕ × ℕ
  pub context : AttemptContext

pub data LoginReply : Type 0 where
  done : String → LoginReply
  totp_next : SecondFactor → LoginReply

-- `Field(min_length=..., max_length=...)`
abbrev pub fits : ℕ → ℕ → String → Bool
fits least most s = leb least (count s) && leb (count s) most

-- a falsy cookie is no cookie
abbrev pub present_cookie : Option String → Option String
present_cookie = truthy

module _ (hashes : Hashes) (set_of : List String → List String) where
  -- `GET /state`: who is signed in, and whether there is no account
  unfoldable pub sign_in_state : Option String → Instant → Store → Option String × Bool
  unfolding session_principal account_count
  sign_in_state session now store = (
    elim (present_cookie session) [
      | none ↦ none
      | some token ↦ session_principal hashes token false now store
    ],
    account_count store == 0,
  )

  -- the answer to a right password, for an account without a second factor and for one with it
  unfoldable pub finish_login :
      String → String → Instant → Store → Outcome (Answer LoginReply) Store
  finish_login identifier token now store =
      elim (open_session hashes token identifier false none now store) [
        | raise e ↦ (raise e, store)
        | ok store' ↦ (
          ok (
              respond (record {
                body = done identifier;
                session_cookie = set_to token (12 * 3600);
                pending_cookie = untouched;
              })),
          store',
        )
      ]

  unfoldable pub ask_second_factor :
      String → String → Client → Lockout → Instant → Store → Outcome (Answer LoginReply) Store
  unfolding attempt_context recovery_remaining seconds_into_totp_period
  ask_second_factor identifier token client lock now store =
      elim (open_session hashes token identifier true (some 5) now store) [
        | raise e ↦ (raise e, store)
        | ok store' ↦ (
          ok (
              respond (record {
                body = totp_next (record {
                  identifier = identifier;
                  attempts_remaining = lock.attempts_remaining;
                  max_attempts = max_attempts;
                  period = totp_period;
                  elapsed = seconds_into_totp_period now;
                  recovery = recovery_remaining identifier store';
                  context = attempt_context set_of identifier client store';
                });
                session_cookie = untouched;
                pending_cookie = set_to token 300;
              })),
          store',
        )
      ]

  -- the rest of `login`, once the password and the lockout have been looked at
  unfoldable pub answer_login :
      String
      → String
      → Client
      → Bool × String
      → Lockout
      → Instant
      → Store
      → Outcome (Answer LoginReply) Store
  unfolding finish_login ask_second_factor
  answer_login identifier token client (false, outcome) lock now store =
      if str_eq outcome "locked"
      then (ok (refuse (locked_out lock.until)), store)
      else (ok (refuse (bad_credential lock.attempts_remaining)), store)
  answer_login identifier token client (true, outcome) lock now store =
      if str_eq outcome "ok"
      then finish_login identifier token now store
      else ask_second_factor identifier token client lock now store

  unfoldable pub looked_up :
      String → String → Client → Bool × String → Instant → Store → Outcome (Answer LoginReply) Store
  unfolding lockout answer_login
  looked_up identifier token client verdict now store = elim (lockout identifier now store) [
    | raise e ↦ (raise e, store)
    | ok lock ↦ answer_login identifier token client verdict lock now store
  ]

  -- `POST /login`
  unfoldable pub login :
      String → String → String → Client → Instant → Store → Outcome (Answer LoginReply) Store
  unfolding verify_password looked_up
  login identifier password token client now store =
      if fits 1 200 identifier && fits 1 400 password
      then elim (verify_password hashes identifier password client now store) [
        | raise e ↦ (raise e, store)
        | ok (verdict, store') ↦ looked_up identifier token client verdict now store'
      ]
      else (ok (refuse bad_body), store)

  -- the two last steps of `_finish`: the pending session becomes a real one
  unfoldable pub promote : String → String → Instant → Store → Outcome (Answer String) Store
  unfolding promote_session
  promote pending_token who now store = elim (promote_session hashes pending_token now store) [
    | raise e ↦ (raise e, store)
    | ok (principal, store') ↦ (
      ok (
          respond (record {
            body = who;
            session_cookie = set_to pending_token (12 * 3600);
            pending_cookie = deleted;
          })),
      store',
    )
  ]

  unfoldable pub refuse_code : String → Instant → Store → Outcome (Answer String) Store
  unfolding lockout
  refuse_code who now store = elim (lockout who now store) [
    | raise e ↦ (raise e, store)
    | ok lock ↦ (ok (refuse (bad_code lock.attempts_remaining)), store)
  ]

  unfoldable pub judge :
      String → String → Instant → Store → Result (Bool × Store) → Outcome (Answer String) Store
  unfolding promote refuse_code
  judge pending_token who now store (raise e) = (raise e, store)
  judge pending_token who now store (ok (true, store')) = promote pending_token who now store'
  judge pending_token who now store (ok (false, store')) = refuse_code who now store'

  -- `_finish`
  unfoldable pub finish :
      String
      → (String → Store → Result (Bool × Store))
      → Instant
      → Store
      → Outcome (Answer String) Store
  unfolding session_principal judge
  finish pending_token verify now store =
      elim (session_principal hashes pending_token true now store) [
        | none ↦ (ok (refuse no_pending_session), store)
        | some who ↦ judge pending_token who now store (verify who store)
      ]

  -- the two routes that call it, behind the body's check and the cookie's
  unfoldable pub second_factor :
      Option String
      → String
      → (String → Store → Result (Bool × Store))
      → Instant
      → Store
      → Outcome (Answer String) Store
  unfolding finish
  second_factor pending code verify now store =
      if fits 4 64 code
      then elim (present_cookie pending) [
        | none ↦ (ok (refuse no_pending_session), store)
        | some pending_token ↦ finish pending_token verify now store
      ]
      else (ok (refuse bad_body), store)

  -- `POST /totp`
  unfoldable pub totp :
      Option String → String → Client → Instant → Store → Outcome (Answer String) Store
  unfolding second_factor
  totp pending code client now =
      second_factor pending code (λ who s. verify_totp hashes who code client now s) now

  -- `POST /recovery`
  unfoldable pub recovery :
      Option String → String → Client → Instant → Store → Outcome (Answer String) Store
  unfolding second_factor
  recovery pending code client now =
      second_factor pending code (λ who s. ok (verify_recovery hashes who code client now s)) now

  -- `POST /logout`
  unfoldable pub logout : Option String → Instant → Store → Response Unit × Store
  unfolding revoke_session
  logout session now store = (
    record { body = tt; session_cookie = deleted; pending_cookie = deleted },
    elim (present_cookie session) [
      | none ↦ store
      | some token ↦ revoke_session hashes token now store
    ],
  )
