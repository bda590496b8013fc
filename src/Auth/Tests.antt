-- ===== src/Auth/Tests.antt =====
-- backend/src/psychron/api/auth.py. The guard at a concrete header.
use psychron.Accounts.{Hashes, Store}
use psychron.Accounts.Gate.{session_principal}
use psychron.Accounts.Sessions.{is_finished}
use psychron.Auth.{TextMethods, authenticate, bearer, is_ascii, partition, require_principal}
use psychron.Auth.Guard.{require_principal_sound}
use psychron.Base.{String, [], any, false, none, refl, some, true, ◌≡◌, ◌⊎◌, List, ◌∷◌}
use psychron.Raise.{ok, raise, type_error}
use psychron.Auth.Token.{after_equals, ensure_token, find_token}

abbrev untouched : TextMethods
untouched = record { lower = λ s. s; strip = λ s. s }

abbrev nothing_stored : Store
nothing_stored = record {
  accounts = [];
  sessions = [];
  invitations = [];
  recovery_codes = [];
  attempts = [];
}

abbrev no_hashes : Hashes
no_hashes = record {
  matches = λ h password. ok false;
  totp_accepts = λ secret code now. false;
  digest = λ token. token;
  digest_code = λ code. code;
}

token_accepted :
    require_principal untouched
      (some (λ c. session_principal no_hashes c false 0 nothing_stored))
      (some "t0k")
      (some "bearer t0k")
      none
    ≡ ok (some bearer)
unfolding require_principal authenticate partition is_ascii
token_accepted = refl

-- a header whose token is "é" ends the request by an exception, not by a 401
not_ascii_raises :
    require_principal untouched none (some "t0k") (some "bearer é") none ≡ raise type_error
unfolding require_principal authenticate partition is_ascii
not_ascii_raises = refl

require_principal_sound_example :
    ((c : String) × (none ≡ some c) × (any (is_finished c 0) nothing_stored.sessions ≡ true))
    ⊎ ((t : String) × (credential : String) × (some "t0k" ≡ some t)
        × (some "bearer t0k" ≡ some credential)
        × ((partition credential).1 ≡ t))
require_principal_sound_example =
    require_principal_sound untouched no_hashes 0 nothing_stored (some "t0k") (some "bearer t0k")
      none bearer token_accepted

-- a file of two lines, each of which ends with a line feed
abbrev two_lines : String → List String
two_lines written = "POSTGRES_PASSWORD=pw" ∷ "PSYCHRON_API_TOKEN=t0k" ∷ []

token_read : ensure_token untouched two_lines "fresh" "two lines" ≡ ("t0k", "two lines")
unfolding ensure_token find_token after_equals
token_read = refl

abbrev no_lines : String → List String
no_lines written = []

token_minted : ensure_token untouched no_lines "fresh" "" ≡ (
  "fresh",
  "\n# Bearer token for the read API. Rotate by deleting this line.\nPSYCHRON_API_TOKEN=fresh\n",
)
unfolding ensure_token find_token
token_minted = refl
