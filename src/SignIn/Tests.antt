-- ===== src/SignIn/Tests.antt =====
use psychron.Accounts.{Store, account_of, find, lockout, verify_password, verify_totp, totp_of}
use psychron.Accounts.Gate.{
  insert_session, open_session, owner_of, promote_session, revoke_session, session_principal,
}
use psychron.Accounts.House.{home, house, plain, quiet_house, signed_in, anna, mistake}
use psychron.Base.{arith, List, String, [], false, none, refl, some, true, ◌+◌, ◌∷◌, ◌≡◌, ◌⊎◌, ap}
use psychron.Fixture.{autumn}
use psychron.Identity.{Lockout, lockout_state, latest, session_expiry}
use psychron.Instant.{Instant, plus_ms}
use psychron.Raise.{ok}
use psychron.SignIn.{
  recovery, answer_login, ask_second_factor, finish, judge, login, logout, looked_up, promote,
  second_factor, totp,
}
use psychron.SignIn.Proved.{Proved}
use psychron.SignIn.Rows.{holds}
use psychron.SignIn.Second.{ProvedWithin, finished_by_proof, principal_proved}
use psychron.SignIn.Serve.{Request, after, serve, to_login, to_logout, to_totp}
use psychron.SignIn.Completes.{recovery_signs_in, signed_in_reply, totp_signs_in}
use psychron.SignIn.Hides.{login_hides_accounts}

-- backend/src/psychron/api/routes_auth.py. Sign-ins at concrete rows.

abbrev in_order : List String → List String
in_order known = known

-- a password, then the code of the second factor
abbrev evening : List (Request × Instant)
evening =
    (to_login "anna" "pw" "cookie" home, autumn)
    ∷ (to_totp (some "cookie") "123456" home, autumn + 9000000)
    ∷ []

signed_in_at_last :
    session_principal plain "cookie" false
      (autumn + 20000000)
      (serve plain in_order evening quiet_house)
    ≡ some "anna"
unfolding serve after login verify_password lockout lockout_state looked_up answer_login
    ask_second_factor open_session insert_session account_of find session_principal owner_of totp
    second_factor finish judge verify_totp promote promote_session plus_ms
signed_in_at_last = refl

not_before_the_code :
    session_principal plain "cookie" false
      (autumn + 20000000)
      (after plain in_order (to_login "anna" "pw" "cookie" home) autumn quiet_house)
    ≡ none
unfolding after login verify_password lockout lockout_state looked_up answer_login ask_second_factor
    open_session insert_session account_of find session_principal owner_of plus_ms
not_before_the_code = refl

principal_proved_example :
    (holds "cookie" quiet_house ≡ true) ⊎ ProvedWithin plain in_order "cookie" evening quiet_house
principal_proved_example =
    principal_proved plain in_order "cookie" "anna" evening (autumn + 20000000) quiet_house
      signed_in_at_last

still_finished : holds "s" (after plain in_order (to_logout (some "other")) autumn house) ≡ true
unfolding after logout revoke_session
still_finished = refl

finished_by_proof_test :
    (holds "s" house ≡ true) ⊎ Proved plain autumn house "s" (to_logout (some "other"))
finished_by_proof_test =
    finished_by_proof plain in_order "s" (to_logout (some "other")) autumn house still_finished

-- anna's password is proved, and her second factor is not
abbrev at_second_step : Store
at_second_step = record quiet_house {
  sessions = record signed_in { session_id = "cookie"; pending = true } ∷ [];
}

abbrev unlocked : Lockout
unlocked = record { locked = false; attempts_remaining = 3; until = none }

anna_unlocked : lockout "anna" autumn at_second_step ≡ ok unlocked
unfolding lockout lockout_state
anna_unlocked = refl

anna_pending : session_principal plain "cookie" true autumn at_second_step ≡ some "anna"
unfolding session_principal find owner_of
anna_pending = refl

anna_unproved : session_principal plain "cookie" false autumn at_second_step ≡ none
unfolding session_principal find owner_of
anna_unproved = refl

anna_known : account_of "anna" at_second_step ≡ some anna
unfolding account_of find
anna_known = refl

expires_tonight : session_expiry autumn ≡ ok (autumn + 43200000000)
unfolding plus_ms
expires_tonight = refl

totp_signs_in_example :
    ((totp plain in_order (some "cookie") "123456" home autumn at_second_step).0
      ≡ ok (signed_in_reply "cookie" "anna"))
    × (session_principal plain "cookie" false
          (autumn + 3600000000)
          ((totp plain in_order (some "cookie") "123456" home autumn at_second_step).1)
        ≡ some "anna")
totp_signs_in_example =
    totp_signs_in plain in_order "cookie" "anna" "123456" "123456" home autumn (autumn + 3600000000)
      (autumn + 43200000000) unlocked at_second_step refl refl expires_tonight (omega arith)
      (omega arith) anna_pending anna_unproved anna_unlocked refl (ap totp_of anna_known) refl

-- the three mistakes that lock anna out
abbrev locked_step : Store
locked_step = record at_second_step { attempts = mistake ∷ mistake ∷ mistake ∷ [] }

abbrev locked_out : Lockout
locked_out = record { locked = true; attempts_remaining = 0; until = some (autumn + 900000000) }

anna_locked_out : lockout "anna" autumn locked_step ≡ ok locked_out
unfolding lockout lockout_state latest plus_ms
anna_locked_out = refl

locked_pending : session_principal plain "cookie" true autumn locked_step ≡ some "anna"
unfolding session_principal find owner_of
locked_pending = refl

locked_unproved : session_principal plain "cookie" false autumn locked_step ≡ none
unfolding session_principal find owner_of
locked_unproved = refl

locked_known : account_of "anna" locked_step ≡ some anna
unfolding account_of find
locked_known = refl

recovery_signs_in_example :
    ((recovery plain in_order (some "cookie") "aaaa" home autumn locked_step).0
      ≡ ok (signed_in_reply "cookie" "anna"))
    × (session_principal plain "cookie" false
          (autumn + 3600000000)
          ((recovery plain in_order (some "cookie") "aaaa" home autumn locked_step).1)
        ≡ some "anna")
recovery_signs_in_example =
    recovery_signs_in plain in_order "cookie" "anna" "aaaa" anna home autumn (autumn + 3600000000)
      (autumn + 43200000000) locked_step refl refl expires_tonight (omega arith) (omega arith)
      locked_pending locked_unproved locked_known refl

empty_unknown : account_of "anna" (record quiet_house { accounts = [] }) ≡ none
unfolding account_of find
empty_unknown = refl

quiet_known : account_of "anna" quiet_house ≡ some anna
unfolding account_of find
quiet_known = refl

login_hides_accounts_example :
    (login plain in_order "anna" "guess" "cookie" home autumn
      (record quiet_house { accounts = [] })).0
    ≡ (login plain in_order "anna" "guess" "cookie" home autumn quiet_house).0
login_hides_accounts_example =
    login_hides_accounts plain in_order "anna" "guess" "cookie" home autumn
      (record quiet_house { accounts = [] }) quiet_house anna "pw" refl empty_unknown quiet_known
      refl refl
