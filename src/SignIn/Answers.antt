-- ===== src/SignIn/Answers.antt =====
use psychron.Accounts.{Hashes, Invitation, Store}
use psychron.Accounts.Gate.{Enrolment, consume_invitation, inspect_invitation, open_session}
use psychron.Base.{List, Option, String, if◌then◌else◌, none, some, true, ◌&&◌}
use psychron.Identity.{LinkState, expired}
use psychron.Instant.{Instant}
use psychron.Ports.{Outcome}
use psychron.Raise.{ok, raise, is_value_error}
use psychron.SignIn.{Answer, bad_body, conflict, fits, refuse, respond, set_to, untouched}

-- backend/src/psychron/api/routes_auth.py: the two routes of an invitation.

-- what `POST /invitation` shows once
pub record Enrolled : Type 0 where
  pub identifier : String
  pub totp_secret : String
  pub recovery_codes : List String

module _ (hashes : Hashes) where
  -- `GET /invitation`: an unknown link is said to be expired
  unfoldable pub inspect :
      String → Instant → Store → (LinkState × Option (String × Instant)) × Store
  unfolding inspect_invitation
  inspect token now store =
      let (info, store') = inspect_invitation hashes token true now store in
      elim info [
        | none ↦ ((expired, none), store')
        | some (inv, state) ↦ ((state, some (inv.identifier, inv.expires_at)), store')
      ]

  unfoldable pub greet :
      Enrolment → String → Invitation → Instant → Store → Outcome (Answer Enrolled) Store
  greet e token inv now store =
      elim (open_session hashes token inv.identifier true (some 10) now store) [
        | raise x ↦ (raise x, store)
        | ok store' ↦ (
          ok (
              respond (record {
                body = record {
                  identifier = inv.identifier;
                  totp_secret = e.secret;
                  recovery_codes = e.codes;
                };
                session_cookie = untouched;
                pending_cookie = set_to token 600;
              })),
          store',
        )
      ]

  -- `POST /invitation`; `token` is the link's, `pending_token` that of the session it opens
  unfoldable pub accept :
      Enrolment → String → String → String → Instant → Store → Outcome (Answer Enrolled) Store
  unfolding consume_invitation greet
  accept e token password pending_token now store =
      if fits 8 200 token && fits 12 400 password
      then elim (consume_invitation hashes e token now store) [
        | raise x ↦ if is_value_error x then (ok (refuse conflict), store) else (raise x, store)
        | ok (inv, store') ↦ greet e pending_token inv now store'
      ]
      else (ok (refuse bad_body), store)
