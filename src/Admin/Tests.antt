-- ===== src/Admin/Tests.antt =====
use psychron.Accounts.{Invitation, Store, account_of, find, verify_recovery}
use psychron.Accounts.Gate.{Enrolment, consume_invitation, enrol, inspect_invitation}
use psychron.Accounts.House.{home, house, link, plain, signed_in}
use psychron.Admin.Codes.{old_code_accepted}
use psychron.Base.{[], none, refl, some, true, ◌+◌, ◌∷◌, ◌≡◌}
use psychron.Fixture.{autumn}
use psychron.Identity.{invitation_state}
use psychron.Raise.{ok}

-- backend/src/psychron/admin.py. The owner's tools at concrete rows.

abbrev invited : Invitation
invited = record {
  token_hash = "fresh";
  identifier = "anna";
  issued_by = none;
  expires_at = autumn + 604800000000;
  opened_at = none;
  consumed_at = none;
}

abbrev reissued_house : Store
reissued_house = record house {
  sessions = record signed_in { revoked_at = some autumn } ∷ [];
  invitations = invited ∷ link ∷ [];
}

abbrev again : Enrolment
again = record { fresh_id = 9; password_hash = "new"; secret = "777777"; codes = "bbbb" ∷ [] }

abbrev enrolled_again : Store
enrolled_again = record (enrol plain again invited reissued_house) {
  invitations = record invited { consumed_at = some autumn } ∷ link ∷ [];
}

consumed_again :
    consume_invitation plain again "fresh" autumn reissued_house ≡ ok (invited, enrolled_again)
unfolding consume_invitation inspect_invitation invitation_state find
consumed_again = refl

code_before : (verify_recovery plain "anna" "aaaa" home autumn reissued_house).0 ≡ true
unfolding verify_recovery account_of find
code_before = refl

old_code_accepted_example :
    (verify_recovery plain "anna" "aaaa" home (autumn + 5) enrolled_again).0 ≡ true
old_code_accepted_example =
    old_code_accepted plain again "fresh" "anna" "aaaa" home autumn (autumn + 5) reissued_house
      enrolled_again invited consumed_again refl code_before
