-- ===== src/Accounts/Tests.antt =====
-- backend/src/psychron/adapters/identity_pg.py. Accounts at concrete rows.
use psychron.Accounts.House.{home, house, link, plain, quiet_house}
use psychron.Accounts.{
  Store, account_of, find, lockout, record_attempt, verify_password, verify_recovery, verify_totp,
}
use psychron.Accounts.Gate.{
  Enrolment, consume_invitation, enrol, inspect_invitation, owner_of, revoke_session,
  session_principal,
}
use psychron.Accounts.Locked.{three_mistakes_lock_out}
use psychron.Accounts.Sessions.{is_finished, revoke_session_ends, session_principal_finished}
use psychron.Accounts.SingleUse.{consume_invitation_once, verify_recovery_once}
use psychron.Base.{arith, [], any, false, none, refl, some, true, ◌+◌, ◌∷◌, ◌≡◌}
use psychron.Fixture.{autumn}
use psychron.Identity.{Lockout, invitation_state, latest, lockout_state}
use psychron.Instant.{Instant, plus_ms}
use psychron.Raise.{ok, raise, value_error}

abbrev berta : Enrolment
berta = record { fresh_id = 2; password_hash = "hi"; secret = "654321"; codes = "bb" ∷ [] }

abbrev enrolled : Store
enrolled = record (enrol plain berta link house) {
  invitations = record link { consumed_at = some autumn } ∷ [];
}

link_consumed : consume_invitation plain berta "link" autumn house ≡ ok (link, enrolled)
unfolding consume_invitation inspect_invitation invitation_state find
link_consumed = refl

consume_invitation_once_example :
    consume_invitation plain berta "link" (autumn + 5) enrolled ≡ raise value_error
consume_invitation_once_example =
    consume_invitation_once plain berta berta "link" autumn (autumn + 5) house enrolled link
      link_consumed

code_accepted : (verify_recovery plain "anna" "aaaa" home autumn house).0 ≡ true
unfolding verify_recovery account_of find
code_accepted = refl

verify_recovery_once_example :
    (verify_recovery plain "anna" "aaaa" home
      (autumn + 5)
      ((verify_recovery plain "anna" "aaaa" home autumn house).1)).0
    ≡ false
verify_recovery_once_example =
    verify_recovery_once plain "anna" "aaaa" home autumn (autumn + 5) house

anna_signed_in : session_principal plain "s" false autumn house ≡ some "anna"
unfolding session_principal find owner_of
anna_signed_in = refl

session_principal_finished_example : any (is_finished "s" autumn) house.sessions ≡ true
session_principal_finished_example =
    session_principal_finished plain "s" "anna" autumn house anna_signed_in

revoke_session_ends_example :
    session_principal plain "s" true (autumn + 5) (revoke_session plain "s" autumn house) ≡ none
revoke_session_ends_example = revoke_session_ends plain "s" true autumn (autumn + 5) house

-- anna mistakes her password three times, a minute apart
abbrev mistaken_at : Instant → Store → Store
mistaken_at now store = record_attempt "anna" "password" "bad_credential" home now store

abbrev first_mistake : Store
first_mistake = mistaken_at autumn quiet_house

abbrev second_mistake : Store
second_mistake = mistaken_at (autumn + 60000000) first_mistake

abbrev third_mistake : Store
third_mistake = mistaken_at (autumn + 120000000) second_mistake

guess_one :
    verify_password plain "anna" "guess" home autumn quiet_house
    ≡ ok ((false, "bad_credential"), first_mistake)
unfolding verify_password lockout lockout_state account_of find
guess_one = refl

guess_two :
    verify_password plain "anna" "guess" home (autumn + 60000000) first_mistake
    ≡ ok ((false, "bad_credential"), second_mistake)
unfolding verify_password lockout lockout_state account_of find
guess_two = refl

guess_three :
    verify_password plain "anna" "guess" home (autumn + 120000000) second_mistake
    ≡ ok ((false, "bad_credential"), third_mistake)
unfolding verify_password lockout lockout_state account_of find
guess_three = refl

abbrev locked_out : Lockout
locked_out = record { locked = true; attempts_remaining = 0; until = some (autumn + 1020000000) }

anna_locked_out : lockout "anna" (autumn + 180000000) third_mistake ≡ ok locked_out
unfolding lockout lockout_state latest plus_ms
anna_locked_out = refl

three_mistakes_lock_out_example :
    (verify_password plain "anna" "pw" home (autumn + 180000000) third_mistake
      ≡ ok (
        (false, "locked"),
        record_attempt "anna" "password" "locked" home (autumn + 180000000) third_mistake,
      ))
    × (verify_totp plain "anna" "123456" home (autumn + 180000000) third_mistake
        ≡ ok (false, third_mistake))
three_mistakes_lock_out_example =
    three_mistakes_lock_out plain "anna" "guess" "guess" "guess" "pw" "123456" home home home home
      autumn (autumn + 60000000) (autumn + 120000000) (autumn + 180000000) quiet_house first_mistake
      second_mistake third_mistake locked_out guess_one guess_two guess_three (omega arith)
      (omega arith) (omega arith) anna_locked_out
