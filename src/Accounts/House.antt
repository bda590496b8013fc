-- ===== src/Accounts/House.antt =====
use psychron.Accounts.{Account, Attempt, Client, Hashes, Invitation, Session, Store}
use psychron.Base.{[], false, none, some, str_eq, true, ◌+◌, ◌∷◌}
use psychron.Fixture.{autumn}
use psychron.Raise.{ok}

-- backend/src/psychron/adapters/identity_pg.py: the rows that the tests run on.

-- the hashes are the texts themselves, and the code of a secret is the secret
abbrev pub plain : Hashes
plain = record {
  matches = λ h password. ok (str_eq h password);
  totp_accepts = λ secret code now. str_eq secret code;
  digest = λ token. token;
  digest_code = λ code. code;
}

abbrev pub anna : Account
anna = record {
  account_id = 1;
  identifier = "anna";
  password_hash = some "pw";
  totp_secret = some "123456";
  is_owner = true;
  disabled_at = none;
}

abbrev pub link : Invitation
link = record {
  token_hash = "link";
  identifier = "berta";
  issued_by = some 1;
  expires_at = autumn + 1000000;
  opened_at = none;
  consumed_at = none;
}

abbrev pub signed_in : Session
signed_in = record {
  session_id = "s";
  account_id = 1;
  expires_at = autumn + 1000000;
  revoked_at = none;
  pending = false;
}

abbrev pub home : Client
home = record { ip = some "10.0.0.2"; user_agent = some "browser" }

abbrev pub mistake : Attempt
mistake = record {
  identifier = "anna";
  client = home;
  stage = "password";
  outcome = "bad_credential";
  at = autumn;
}

abbrev pub house : Store
house = record {
  accounts = anna ∷ [];
  sessions = signed_in ∷ [];
  invitations = link ∷ [];
  recovery_codes = record { account_id = 1; code_hash = "aaaa"; used_at = none } ∷ [];
  attempts = mistake ∷ mistake ∷ mistake ∷ [];
}

-- the same house on a quiet day: nobody is signed in, and nobody has mistaken a password
abbrev pub quiet_house : Store
quiet_house = record house { sessions = []; attempts = [] }
